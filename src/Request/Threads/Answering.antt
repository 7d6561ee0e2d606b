-- ===== src/Request/Threads/Answering.antt =====
-- How many responses the threads send that answer one request of src/msgpack/rpc/request.h.
use mathlib.Core.Path.{subst}
use msgpack_rpc_boost.Prelude.{
  ℕ, suc, ◌+◌, ◌≤◌, ◌≡◌, sym, refl, none, some, List, [], ◌∷◌, ◌++◌, arith, if◌then◌else◌, length,
  length-append, get_elem?, set, ◌⊎◌, All, All-imp, All-set, All-append, All-get_elem?,
  Option-cases, inl, inr,
}
use msgpack_rpc_boost.Protocol.{Codec}
use msgpack_rpc_boost.Request.{RequestImpl, SenderRef}
use msgpack_rpc_boost.Request.Threads.{
  Stage, begins, packed, grasps, resets, ended, Shared, advance, step, run, callers, shared,
}
use msgpack_rpc_boost.Request.Threads.Counts.{
  count, count-set, count-length, any_ended, length-run, length-callers,
}
use msgpack_rpc_boost.Request.Threads.Keeping.{
  Offered, Told, Told-mono, Sends, Advances, advance-Advances,
}

module _ {Object Bytes : Type 0} (codec : Codec Object Bytes) (peer : SenderRef) (id : ℕ)
    (offers : List (Object × Object)) where
  record Fits (s : Shared Object Bytes) : Type 0 where
    same_id : s.request.msgid ≡ id
    sender : (s.request.ms ≡ some peer) ⊎ ((s.request.ms ≡ none) × (1 ≤ length s.sent))
    told : All (Told codec peer id offers (length s.sent)) s.calls
    sends : All (Sends codec peer id offers) s.sent
    counted : length s.sent ≤ count s.calls

  -- The program after a step of thread `i`.
  abbrev gone_on :
      ℕ
      → Stage Object Bytes × RequestImpl Object × List (SenderRef × Bytes)
      → Shared Object Bytes
      → Shared Object Bytes
  gone_on i (c, r, out) s = record { request = r; calls = set s.calls i c; sent = s.sent ++ out }

  gone_on-Fits :
      (i : ℕ) (c c' : Stage Object Bytes) (r : RequestImpl Object) (out : List (SenderRef × Bytes))
      (s : Shared Object Bytes)
      → get_elem? s.calls i ≡ some c
      → Advances codec peer id offers (length s.sent) c s.request c' r out
      → Fits s
      → Fits (gone_on i (c', r, out) s)
  gone_on-Fits i c c' r out s there a f =
      let n = length s.sent in
      let total = length-append s.sent out in
      let counts = count-set s.calls i c c' there in
      let kept = f.counted in
      let new = a.counted in
      record {
        same_id = a.same_id;
        sender = rw total a.sender;
        told = rw total (
            All-set (Told codec peer id offers (n + length out)) s.calls i c'
              (All-imp (Told codec peer id offers n) (Told codec peer id offers (n + length out))
                s.calls (λ d. Told-mono codec peer id offers n (n + length out) d (omega arith))
                f.told)
              a.told);
        sends = All-append (Sends codec peer id offers) s.sent out f.sends a.sends;
        counted = rw total (omega arith);
      }

  step-Fits : (i : ℕ) (s : Shared Object Bytes) → Fits s → Fits (step codec i s)
  unfolding step
  step-Fits i s f = elim (Option-cases (get_elem? s.calls i)) [
    | inl nobody ↦ subst Fits (sym (ground (arith, nobody))) f
    | inr (c, there) ↦
        let told_c =
          All-get_elem? (Told codec peer id offers (length s.sent)) s.calls i c there f.told in
        let a =
          advance-Advances codec peer id offers (length s.sent) c s.request f.same_id f.sender
            told_c in
        let e : step codec i s ≡ gone_on i (advance codec c s.request) s = ground (arith, there) in
        subst Fits (sym e) (
          gone_on-Fits i c (advance codec c s.request).0 (advance codec c s.request).1
            (advance codec c s.request).2 s there a f)
  ]

  run-Fits : (is : List ℕ) (s : Shared Object Bytes) → Fits s → Fits (run codec is s)
  unfolding run
  run-Fits [] s f = f
  run-Fits (i ∷ is) s f = run-Fits is (step codec i s) (step-Fits i s f)

  callers-Told :
      (l : List (Object × Object))
      → ((i : ℕ) (res err : Object)
          → get_elem? l i ≡ some (res, err)
          → Offered codec peer id offers res err)
      → All (Told codec peer id offers 0) (callers l)
  unfolding callers
  callers-Told [] h = tt
  callers-Told ((res, err) ∷ l) h = (h 0 res err refl, callers-Told l (λ i. h (suc i)))

  any_ended-Told :
      (n : ℕ) (l : List (Stage Object Bytes))
      → All (Told codec peer id offers n) l
      → (if any_ended l then 1 else 0) ≤ n
  any_ended-Told n [] told = omega arith
  any_ended-Told n (begins res err ∷ l) (t, told) = any_ended-Told n l told
  any_ended-Told n (packed buf ∷ l) (t, told) = any_ended-Told n l told
  any_ended-Told n (grasps ms buf ∷ l) (t, told) = any_ended-Told n l told
  any_ended-Told n (resets ∷ l) (t, told) = any_ended-Told n l told
  any_ended-Told n (ended ∷ l) (t, told) = t

  shared-Fits : (r : RequestImpl Object) → r.msgid ≡ id → r.ms ≡ some peer → Fits (shared r offers)
  unfolding shared
  shared-Fits r i there = record {
    same_id = i;
    sender = inl there;
    told = callers-Told offers (λ i res err h. (i, h));
    sends = tt;
    counted = omega arith;
  }

-- Between the number of calls that have ended, counted up to one, and the number of threads: the
-- responses that are sent, in any order of the threads' steps.
pub run-Bounded :
    {Object Bytes : Type 0} (codec : Codec Object Bytes) (r : RequestImpl Object) (peer : SenderRef)
    (offers : List (Object × Object)) (is : List ℕ)
    → r.ms ≡ some peer
    → ((if any_ended (run codec is (shared r offers)).calls then 1 else 0)
        ≤ length (run codec is (shared r offers)).sent)
      × (length (run codec is (shared r offers)).sent ≤ length offers)
      × All (Sends codec peer r.msgid offers) (run codec is (shared r offers)).sent
unfolding shared
run-Bounded {Bytes = Bytes} codec r peer offers is there =
    let s = run codec is (shared r offers) in
    let f =
      run-Fits codec peer r.msgid offers is (shared r offers)
        (shared-Fits codec peer r.msgid offers r refl there) in
    let few = f.counted in
    let most = count-length s.calls in
    let threads = length-run codec is (shared r offers) in
    let start = length-callers Bytes offers in
    (any_ended-Told codec peer r.msgid offers (length s.sent) s.calls f.told, omega arith, f.sends)
