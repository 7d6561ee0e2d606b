-- ===== src/Reqtable/Laws.antt =====
-- The calls of src/msgpack/rpc/reqtable.cc on the list of entries: what is found under an id, and that no id
-- comes twice.
use mathlib.Core.List.{append_assoc, append-nil}
use msgpack_rpc_boost.Future.Heap.{FutureRef}
use msgpack_rpc_boost.Future.HeapLaws.{member}
use msgpack_rpc_boost.Prelude.{
  ℕ, ◌≡◌, ◌≢◌, refl, Bool, true, false, ◌||◌, Option, none, some, List, [], ◌∷◌, ◌++◌, arith, ◌==◌,
  if◌then◌else◌, map, sym, ap, ◌∙◌,
}
use msgpack_rpc_boost.Reqtable.{Reqtable, insert, erase, take, take_all}

abbrev pub find : ℕ → Reqtable → Option FutureRef
find k [] = none
find k ((id, r) ∷ m) = if id == k then some r else find k m

abbrev pub has_key : ℕ → Reqtable → Bool
has_key k [] = false
has_key k ((id, r) ∷ m) = (id == k) || has_key k m

-- No id twice, as in any map.
abbrev pub Distinct : Reqtable → Type 0
Distinct [] = Unit {0}
Distinct ((id, r) ∷ m) = (has_key id m ≡ false) × Distinct m

abbrev pub refs : Reqtable → List FutureRef
refs = map λ e. e.1

pub find-eq-none : (k : ℕ) (m : Reqtable) → has_key k m ≡ false → find k m ≡ none
find-eq-none k [] h = refl
find-eq-none k ((id, r) ∷ m) h = ground (arith, find-eq-none k m)

pub find-insert :
    (k id : ℕ) (r : FutureRef) (m : Reqtable)
    → find k (insert id r m) ≡ (if id == k then some r else find k m)
unfolding insert
find-insert k id r [] = refl
find-insert k id r ((j, q) ∷ m) = ground (arith, find-insert k id r m)

pub has_key-insert :
    (k id : ℕ) (r : FutureRef) (m : Reqtable)
    → has_key k (insert id r m) ≡ ((id == k) || has_key k m)
unfolding insert
has_key-insert k id r [] = refl
has_key-insert k id r ((j, q) ∷ m) = ground (arith, has_key-insert k id r m)

pub insert-Distinct :
    (id : ℕ) (r : FutureRef) (m : Reqtable) → Distinct m → Distinct (insert id r m)
unfolding insert
insert-Distinct id r [] d = (refl, tt)
insert-Distinct id r ((j, q) ∷ m) d =
    ground (arith, insert-Distinct id r m d.1, has_key-insert j id r m)

pub find-erase :
    (k id : ℕ) (m : Reqtable)
    → Distinct m
    → find k (erase id m) ≡ (if id == k then none else find k m)
unfolding erase
find-erase k id [] d = ground arith
find-erase k id ((j, q) ∷ m) d = ground (arith, find-erase k id m d.1, find-eq-none k m)

pub has_key-erase : (k id : ℕ) (m : Reqtable) → has_key k m ≡ false → has_key k (erase id m) ≡ false
unfolding erase
has_key-erase k id [] h = refl
has_key-erase k id ((j, q) ∷ m) h = ground (arith, has_key-erase k id m)

pub erase-Distinct : (id : ℕ) (m : Reqtable) → Distinct m → Distinct (erase id m)
unfolding erase
erase-Distinct id [] d = tt
erase-Distinct id ((j, q) ∷ m) d = ground (arith, erase-Distinct id m d.1, has_key-erase j id m d.0)

pub take_lem : (id : ℕ) (m : Reqtable) → take id m ≡ (find id m, erase id m)
unfolding take erase
take_lem id [] = refl
take_lem id ((j, q) ∷ m) = ground (arith, take_lem id m)

pub take_all_lem : (all : List FutureRef) (m : Reqtable) → take_all all m ≡ (all ++ refs m, [])
unfolding take_all
take_all_lem all [] = ap (λ l. (l, [])) (sym (append-nil all))
take_all_lem all ((id, r) ∷ m) =
    take_all_lem (all ++ r ∷ []) m ∙ ap (λ l. (l, [])) (append_assoc all (r ∷ []) (refs m))

abbrev pub given : Option FutureRef → List FutureRef
given none = []
given (some r) = r ∷ []

pub member-refs :
    (m : Reqtable) (k : ℕ) (r : FutureRef) → find k m ≡ some r → member r (refs m) ≡ true
member-refs [] k r h = cc
member-refs ((id, q) ∷ m) k r h = ground (arith, member-refs m k r)

pub erase_comm : (i j : ℕ) (m : Reqtable) → i ≢ j → erase i (erase j m) ≡ erase j (erase i m)
unfolding erase
erase_comm i j [] n = refl
erase_comm i j ((k, r) ∷ m) n = ground (arith, erase_comm i j m n)
