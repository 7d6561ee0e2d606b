-- ===== src/Tests/Addresses.antt =====
-- Addresses whose IP addresses are numbers of version 4, all printed as 127.1.
use msgpack_rpc_boost.Address.{
  IpAddress, Address, Text, address_of_string, print_address, same_address, less_address,
}
use msgpack_rpc_boost.Address.Laws.{address_of_string-print_address}
use msgpack_rpc_boost.Prelude.{
  ℕ, ◌≡◌, ◌&&◌, not, refl, true, some, List, [], ◌∷◌, ltb, ◌==◌, ==_iff, arith,
}

abbrev pub loopback : Text
loopback = 49 ∷ 50 ∷ 55 ∷ 46 ∷ 49 ∷ []

pub same-ltb : (a b : ℕ) → (not (ltb a b) && not (ltb b a)) ≡ (a == b)
same-ltb a b = ground arith

pub ltb_trans : (a b c : ℕ) → ltb a b ≡ true → ltb b c ≡ true → ltb a c ≡ true
ltb_trans a b c h k = ground arith

instance abbrev pub number_ip : IpAddress ℕ
number_ip = record {
  same = ◌==◌;
  less = ltb;
  is_v4 = λ a. true;
  to_string = λ a. loopback;
  same_iff = ==_iff;
  less-same = same-ltb;
  less-trans = ltb_trans;
  to_string-v4 = λ a h. refl;
}

abbrev pub one : Address ℕ
one = record { addr = 1; port = 9090 }

abbrev next_port : Address ℕ
next_port = record { addr = 1; port = 9091 }

abbrev two : Address ℕ
two = record { addr = 2; port = 80 }

-- A resolver that knows the one service.
abbrev resolver : Text → Text → List (Address ℕ)
resolver host service = one ∷ []

-- Ports are printed as 9.
abbrev nine : ℕ → Text
nine port = 57 ∷ []

address_of_string-print_address_example :
    address_of_string resolver (print_address nine one) ≡ some one
unfolding msgpack_rpc_boost.Address.is_v4
address_of_string-print_address_example =
    address_of_string-print_address resolver nine one refl refl
