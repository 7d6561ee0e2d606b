-- ===== src/Address.antt =====
-- src/msgpack/rpc/address.h and address.cc: an IP address with a port. Boost's `ip::address` and the
-- resolver are parameters; a text is the list of its character codes, and `none` is a
-- std::invalid_argument.
pub mod Laws
use msgpack_rpc_boost.Prelude.{
  ℕ, zero, suc, ◌+◌, ◌≡◌, ◌↔◌, ◌&&◌, not, Bool, true, false, Option, none, some, List, [], ◌∷◌,
  ◌++◌, ltb, ◌==◌, if◌then◌else◌,
}

abbrev pub Text : Type 0
Text = List ℕ

abbrev pub colon : ℕ
colon = 58

abbrev pub has_colon : Text → Bool
has_colon [] = false
has_colon (c ∷ cs) = if c == colon then true else has_colon cs

-- What the code takes from `ip::address`: equality, an order, the family, and the printed form,
-- which has no colon for an address of version 4.
pub record IpAddress (Ip : Type 0) : Type 0 where
  pub same : Ip → Ip → Bool
  pub less : Ip → Ip → Bool
  pub is_v4 : Ip → Bool
  pub to_string : Ip → Text
  pub same_iff : (a b : Ip) → (same a b ≡ true) ↔ (a ≡ b)
  pub less-same : (a b : Ip) → (not (less a b) && not (less b a)) ≡ same a b
  pub less-trans : (a b c : Ip) → less a b ≡ true → less b c ≡ true → less a c ≡ true
  pub to_string-v4 : (a : Ip) → is_v4 a ≡ true → has_colon (to_string a) ≡ false

pub record Address (Ip : Type 0) : Type 0 where
  pub addr : Ip
  pub port : ℕ

-- `addr.find(':')`, and `substr(0, pos)` and `substr(pos)`.
unfoldable pub find_colon : Text → Option ℕ
find_colon [] = none
find_colon (c ∷ cs) =
    let rest = find_colon cs in
    if c == colon then some 0 else elim rest [ none ↦ none | some n ↦ some (suc n) ]

unfoldable pub substr_to : ℕ → Text → Text
substr_to zero cs = []
substr_to (suc n) [] = []
substr_to (suc n) (c ∷ cs) = c ∷ substr_to n cs

unfoldable pub substr_from : ℕ → Text → Text
substr_from zero cs = cs
substr_from (suc n) [] = []
substr_from (suc n) (c ∷ cs) = substr_from n cs

module _ {Ip : Type 0} ⦃ip : IpAddress Ip⦄ where
  unfoldable pub is_v4 : Address Ip → Bool
  is_v4 a = ip.is_v4 a.addr

  -- operator==
  unfoldable pub same_address : Address Ip → Address Ip → Bool
  same_address a b = ip.same a.addr b.addr && a.port == b.port

  -- operator<
  unfoldable pub less_address : Address Ip → Address Ip → Bool
  less_address a b = if ip.same a.addr b.addr then ltb a.port b.port else ip.less a.addr b.addr

  -- The loop over the endpoints that the resolver gives.
  unfoldable pub resolve : List (Address Ip) → Option (Address Ip)
  unfolding is_v4
  resolve [] = none
  resolve (e ∷ es) = let rest = resolve es in if is_v4 e then some e else rest

  -- The constructor from a string.
  unfoldable pub address_of_string : (Text → Text → List (Address Ip)) → Text → Option (Address Ip)
  unfolding find_colon substr_to substr_from resolve
  address_of_string resolver addr = elim (find_colon addr) [
    | none ↦ none
    | some n ↦ resolve (resolver (substr_to n addr) (substr_from (n + 1) addr))
  ]

  -- operator<<, with the stream's way to print a number.
  unfoldable pub print_address : (ℕ → Text) → Address Ip → Text
  unfolding is_v4
  print_address show a =
      if is_v4 a
      then ip.to_string a.addr ++ colon ∷ show a.port
      else 91 ∷ (ip.to_string a.addr ++ 93 ∷ colon ∷ show a.port)
