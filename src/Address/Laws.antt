-- ===== src/Address/Laws.antt =====
-- The order and the texts of src/msgpack/rpc/address.cc. The pool's map finds an entry by the order.
use msgpack_rpc_boost.Address.{
  IpAddress, Address, Text, colon, has_colon, find_colon, substr_to, substr_from, is_v4,
  same_address, less_address, address_of_string, print_address,
}
use msgpack_rpc_boost.Prelude.{
  ℕ, ◌+◌, ◌≡◌, ◌↔◌, refl, ◌&&◌, not, true, false, some, List, [], ◌∷◌, ◌++◌, arith, length, Key,
}

Address-eq : {Ip : Type 0} (a b : Address Ip) → a.addr ≡ b.addr → a.port ≡ b.port → a ≡ b
Address-eq a b p q = λ i. record { addr = p i; port = q i }

module _ {Ip : Type 0} ⦃ip : IpAddress Ip⦄ where
  -- Two addresses are equal by `==` exactly when neither is less than the other, and exactly when
  -- they have the same IP address and the same port: a std::map finds the entry of an equal address
  -- and no other one.
  pub less_address-same_address :
      (a b : Address Ip)
      → ((not (less_address a b) && not (less_address b a)) ≡ same_address a b)
        × ((same_address a b ≡ true) ↔ (a ≡ b))
  unfolding less_address same_address
  less_address-same_address a b = (
    ground
        (arith, ip.less-same a.addr b.addr, ip.same_iff a.addr b.addr, ip.same_iff b.addr a.addr),
    (
      λ e. Address-eq a b ((ip.same_iff a.addr b.addr).0 (ground arith)) (ground arith),
      λ e. ground (arith, ip.same_iff a.addr b.addr),
    ),
  )

  -- The order is transitive.
  pub less_address_trans :
      (a b c : Address Ip)
      → less_address a b ≡ true
      → less_address b c ≡ true
      → less_address a c ≡ true
  unfolding less_address
  less_address_trans a b c h k = ground (
    arith,
    ip.less-trans a.addr b.addr c.addr,
    ip.less-same a.addr c.addr,
    ip.less-same a.addr b.addr,
    ip.same_iff a.addr b.addr,
    ip.same_iff b.addr c.addr,
    ip.same_iff a.addr c.addr,
  )

  instance abbrev pub address_key : Key (Address Ip)
  address_key = record { same = same_address; same_iff = λ a b. (less_address-same_address a b).1 }

find_colon-append :
    (host rest : Text)
    → has_colon host ≡ false
    → (find_colon (host ++ colon ∷ rest) ≡ some (length host))
      × (substr_to (length host) (host ++ colon ∷ rest) ≡ host)
      × (substr_from (length host + 1) (host ++ colon ∷ rest) ≡ rest)
unfolding find_colon substr_to substr_from
find_colon-append [] rest h = (refl, refl, refl)
find_colon-append (c ∷ cs) rest h = ground (arith, find_colon-append cs rest)

module _ {Ip : Type 0} ⦃ip : IpAddress Ip⦄ where
  -- The text that is printed for an IPv4 address is read back to that address, by a resolver that
  -- takes a numeric host and a numeric service for what they are.
  pub address_of_string-print_address :
      (resolver : Text → Text → List (Address Ip)) (show : ℕ → Text) (a : Address Ip)
      → is_v4 a ≡ true
      → resolver (ip.to_string a.addr) (show a.port) ≡ a ∷ []
      → address_of_string resolver (print_address show a) ≡ some a
  unfolding address_of_string print_address
  address_of_string-print_address resolver show a v4 numeric =
      let (at, host, service) =
        find_colon-append (ip.to_string a.addr) (show a.port) (ip.to_string-v4 a.addr v4) in
      ground (arith, at, host, service, numeric)
