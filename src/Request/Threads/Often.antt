-- ===== src/Request/Threads/Often.antt =====
-- Threads that answer one request of src/msgpack/rpc/request.h, each with a response of its own.
use mathlib.Core.List.{append_assoc, append-nil}
use msgpack_rpc_boost.Prelude.{
  ℕ, zero, suc, ◌≤◌, ◌≡◌, ◌∙◌, sym, ap, refl, some, List, [], ◌∷◌, ◌++◌, arith, if◌then◌else◌,
  length, get_elem?, All, Option-cases, inl, inr,
}
use msgpack_rpc_boost.Protocol.{Codec, msg_response}
use msgpack_rpc_boost.Request.{RequestImpl, SenderRef, is_sent}
use msgpack_rpc_boost.Request.Threads.Answering.{run-Bounded}
use msgpack_rpc_boost.Request.Threads.Counts.{any_ended}
use msgpack_rpc_boost.Request.Threads.Keeping.{Sends}
use msgpack_rpc_boost.Request.Threads.{
  Stage, grasps, resets, Shared, advance, step, run, callers, shared,
}

-- The same steps of threads that stand one place further.
abbrev later : List ℕ → List ℕ
later [] = []
later (i ∷ is) = suc i ∷ later is

-- First all threads look and copy the pointer, one after another; then all send.
abbrev looks : {A : Type 0} → List A → List ℕ
looks [] = []
looks (x ∷ l) = zero ∷ zero ∷ later (looks l)

abbrev speaks : {A : Type 0} → List A → List ℕ
speaks [] = []
speaks (x ∷ l) = zero ∷ later (speaks l)

module _ {Object Bytes : Type 0} (codec : Codec Object Bytes) where
  abbrev put : Stage Object Bytes → Shared Object Bytes → Shared Object Bytes
  put c s = record s { calls = c ∷ s.calls }

  step-put :
      (i : ℕ) (c : Stage Object Bytes) (s : Shared Object Bytes)
      → step codec (suc i) (put c s) ≡ put c (step codec i s)
  unfolding step
  step-put i c s = elim (Option-cases (get_elem? s.calls i)) [
    | inl nobody ↦ ground (arith, nobody)
    | inr (d, there) ↦ ground (arith, there)
  ]

  run-later :
      (is : List ℕ) (c : Stage Object Bytes) (s : Shared Object Bytes)
      → run codec (later is) (put c s) ≡ put c (run codec is s)
  unfolding run
  run-later [] c s = refl
  run-later (i ∷ is) c s =
      ap (run codec (later is)) (step-put i c s) ∙ run-later is c (step codec i s)

  run-append :
      (is js : List ℕ) (s : Shared Object Bytes)
      → run codec (is ++ js) s ≡ run codec js (run codec is s)
  unfolding run
  run-append [] js s = refl
  run-append (i ∷ is) js s = run-append is js (step codec i s)

  module _ (r : RequestImpl Object) (peer : SenderRef) where
    abbrev pub buffer : Object × Object → Bytes
    buffer a = codec.pack_response (msg_response a.0 a.1 r.msgid)

    -- One response for each of the calls.
    abbrev pub responses : List (Object × Object) → List (SenderRef × Bytes)
    responses [] = []
    responses (a ∷ l) = (peer, buffer a) ∷ responses l

    abbrev held : List (Object × Object) → List (Stage Object Bytes)
    held [] = []
    held (a ∷ l) = grasps peer (buffer a) ∷ held l

    abbrev resetting : List (Object × Object) → List (Stage Object Bytes)
    resetting [] = []
    resetting (a ∷ l) = resets ∷ resetting l

    run-looks :
        (l : List (Object × Object))
        → r.ms ≡ some peer
        → run codec (looks l) (shared r l) ≡ record { request = r; calls = held l; sent = [] }
    unfolding run step advance shared callers is_sent msg_response
    run-looks [] h = refl
    run-looks ((res, err) ∷ l) h =
        let two : run codec (looks ((res, err) ∷ l)) (shared r ((res, err) ∷ l))
            ≡ run codec (later (looks l)) (put (grasps peer (buffer (res, err))) (shared r l)) =
          ground (arith, h) in
        two
        ∙ run-later (looks l) (grasps peer (buffer (res, err))) (shared r l)
        ∙ ap (put (grasps peer (buffer (res, err)))) (run-looks l h)

    run-speaks :
        (l : List (Object × Object)) (sent : List (SenderRef × Bytes))
        → run codec (speaks l) (record { request = r; calls = held l; sent = sent })
          ≡ record { request = r; calls = resetting l; sent = sent ++ responses l }
    unfolding run step advance
    run-speaks [] sent =
        ap (λ t. record { request = r; calls = []; sent = t }) (sym (append-nil sent))
    run-speaks (a ∷ l) sent =
        run-later (speaks l) resets
          (record { request = r; calls = held l; sent = sent ++ (peer, buffer a) ∷ [] })
        ∙ ap (put resets) (run-speaks l (sent ++ (peer, buffer a) ∷ []))
        ∙ ap (λ t. record { request = r; calls = resets ∷ resetting l; sent = t })
            (append_assoc sent ((peer, buffer a) ∷ []) (responses l))

-- However many threads answer one request that has its sender, with whatever results and errors, and in
-- whatever order the steps of their calls run: no more responses are sent than there are threads, and at
-- least one once a call has come to its end; every one goes to the request's sender, with the request's id
-- and with the result and error of one of the calls. No better bound holds: in some order of
-- the steps every thread's response is sent, one after another, though each call looks first if there was
-- a response already.
pub run-Often :
    {Object Bytes : Type 0} (codec : Codec Object Bytes) (r : RequestImpl Object) (peer : SenderRef)
    (offers : List (Object × Object)) (is : List ℕ)
    → r.ms ≡ some peer
    → ((if any_ended (run codec is (shared r offers)).calls then 1 else 0)
        ≤ length (run codec is (shared r offers)).sent)
      × (length (run codec is (shared r offers)).sent ≤ length offers)
      × All (Sends codec peer r.msgid offers) (run codec is (shared r offers)).sent
      × ((js : List ℕ) × ((run codec js (shared r offers)).sent ≡ responses codec r peer offers))
run-Often codec r peer offers is there =
    let (least, most, sends) = run-Bounded codec r peer offers is there in
    let all_sent =
      run-append codec (looks offers) (speaks offers) (shared r offers)
      ∙ ap (run codec (speaks offers)) (run-looks codec r peer offers there)
      ∙ run-speaks codec r peer offers [] in
    (least, most, sends, (looks offers ++ speaks offers, ap (λ s. s.sent) all_sent))
