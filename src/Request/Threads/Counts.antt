-- ===== src/Request/Threads/Counts.antt =====
-- The threads of Request.Threads counted: those that are past the sending, and all.
use msgpack_rpc_boost.Prelude.{
  ℕ, Bool, suc, ◌+◌, ◌≤◌, ◌≡◌, ◌∙◌, ap, refl, some, true, false, List, [], ◌∷◌, arith, length,
  length-set, get_elem?, set, zero, Option-cases, inl, inr,
}
use msgpack_rpc_boost.Protocol.{Codec}
use msgpack_rpc_boost.Request.Threads.{
  Stage, begins, packed, grasps, resets, ended, Shared, advance, step, run, callers,
}

-- The threads that have sent, or have nothing to send any more.
abbrev pub past : {Object Bytes : Type 0} → Stage Object Bytes → ℕ
past (begins res err) = 0
past (packed buf) = 0
past (grasps ms buf) = 0
past resets = 1
past ended = 1

abbrev pub count : {Object Bytes : Type 0} → List (Stage Object Bytes) → ℕ
count [] = 0
count (c ∷ l) = past c + count l

pub count-set :
    {Object Bytes : Type 0} (l : List (Stage Object Bytes)) (i : ℕ) (c d : Stage Object Bytes)
    → get_elem? l i ≡ some c
    → count (set l i d) + past c ≡ count l + past d
count-set [] i c d h = ground (arith, h)
count-set (x ∷ l) zero c d h = ground (arith, h)
count-set (x ∷ l) (suc i) c d h = let rest = count-set l i c d h in omega arith

pub count-length : {Object Bytes : Type 0} (l : List (Stage Object Bytes)) → count l ≤ length l
count-length [] = omega arith
count-length (begins res err ∷ l) = let rest = count-length l in omega arith
count-length (packed buf ∷ l) = let rest = count-length l in omega arith
count-length (grasps ms buf ∷ l) = let rest = count-length l in omega arith
count-length (resets ∷ l) = let rest = count-length l in omega arith
count-length (ended ∷ l) = let rest = count-length l in omega arith

-- Has a call come to its end?
abbrev pub any_ended : {Object Bytes : Type 0} → List (Stage Object Bytes) → Bool
any_ended [] = false
any_ended (ended ∷ l) = true
any_ended (begins res err ∷ l) = any_ended l
any_ended (packed buf ∷ l) = any_ended l
any_ended (grasps ms buf ∷ l) = any_ended l
any_ended (resets ∷ l) = any_ended l

-- The program's threads are as many as at the start.
pub length-run :
    {Object Bytes : Type 0} (codec : Codec Object Bytes) (is : List ℕ) (s : Shared Object Bytes)
    → length (run codec is s).calls ≡ length s.calls
unfolding run step
length-run codec [] s = refl
length-run codec (i ∷ is) s = elim (Option-cases (get_elem? s.calls i)) [
  | inl nobody ↦ ground (arith, nobody, length-run codec is (step codec i s))
  | inr (c, there) ↦
      let kept = length-set s.calls i (advance codec c s.request).0 in
      length-run codec is (step codec i s) ∙ ground (arith, there, kept)
]

pub length-callers :
    {Object : Type 0} (Bytes : Type 0) (l : List (Object × Object))
    → length (callers {Bytes = Bytes} l) ≡ length l
unfolding callers
length-callers Bytes [] = refl
length-callers Bytes ((res, err) ∷ l) = ap suc (length-callers Bytes l)
