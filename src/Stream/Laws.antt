-- ===== src/Stream/Laws.antt =====
-- How `on_read` of src/msgpack/rpc/transport/stream_handler.cc can end, and how it leaves the socket.
use msgpack_rpc_boost.Prelude.{
  ℕ, zero, suc, ◌+◌, ◌≤◌, ◌<◌, ◌≡◌, ◌≢◌, ◌⊎◌, inl, inr, refl, ap, Bool, true, false, some, List, [],
  ◌∷◌, arith, ltb, ◌==◌, Bool-cases,
}
use msgpack_rpc_boost.Stream.Reading.{
  Next, object, incomplete, parse_error, Unpacker, Drained, drained, thrown, out_of_fuel, Handler,
  drain, settle, on_read, failed, Handled, finished, one, max_message_size,
}

module _ {Object Bytes Pac S : Type 0} (up : Unpacker Object Bytes Pac)
    (handle : Object → S → S × Bool) where
  -- All objects were handled, and the rest is not a whole object yet.
  abbrev pub Completes : Pac → S → Pac → S → Type 0
  Completes p s q t = (os : List Object) × Handled up handle p s os q t × (up.next q ≡ incomplete)

  -- After some objects the unpacker or the handler threw.
  abbrev pub Throws : Pac → S → Pac → S → Type 0
  Throws p s q t =
      (os : List Object) × (r : Pac) × (u : S) × Handled up handle p s os r u
      × (((up.next r ≡ parse_error) × (q ≡ r) × (t ≡ u))
          ⊎ ((o : Object) × (up.next r ≡ object o q) × (handle o u ≡ (t, true))))

  -- How the loop ends.
  abbrev pub Ends : Pac → S → Drained Pac S → Type 0
  Ends p s (drained q t) = Completes p s q t
  Ends p s (thrown q t) = Throws p s q t
  Ends p s out_of_fuel = ⊥

  pub Next-cases :
      (n : Next Object Pac)
      → (n ≡ incomplete) ⊎ ((n ≡ parse_error) ⊎ ((o : Object) × (q : Pac) × (n ≡ object o q)))
  Next-cases (object o q) = inr (inr (o, q, refl))
  Next-cases incomplete = inl refl
  Next-cases parse_error = inr (inl refl)

  Ends-step :
      (p q : Pac) (s t : S) (o : Object)
      → up.next p ≡ object o q
      → handle o s ≡ (t, false)
      → (d : Drained Pac S) → Ends q t d
      → Ends p s d
  Ends-step p q s t o e h (drained r u) (os, run, last) = (o ∷ os, one o e h run, last)
  Ends-step p q s t o e h (thrown r u) (os, x, y, run, last) = (o ∷ os, x, y, one o e h run, last)
  Ends-step p q s t o e h out_of_fuel b = b

  pub drain-Ends :
      (fuel : ℕ) (p : Pac) (s : S) → up.remaining p < fuel → Ends p s (drain up handle fuel p s)
  unfolding drain
  drain-Ends zero p s lt = absurd (omega arith)
  drain-Ends (suc fuel) p s lt = elim (Next-cases (up.next p)) [
    | inl e ↦ rw (drain, e) ([], finished, e)
    | inr (inl e) ↦ rw (drain, e) ([], p, s, finished, inl (e, refl, refl))
    | inr (inr (o, q, e)) ↦
        let less = up.next_consumes p q o e in
        elim (Bool-cases (handle o s).1) [
          | inl threw ↦
              rw (drain, e, threw)
                ([], p, s, finished, inr (o, e, ap (λ b. ((handle o s).0, b)) threw))
          | inr fine ↦
              rw (drain, e, fine)
                (Ends-step p q s (handle o s).0 o e (ap (λ b. ((handle o s).0, b)) fine) _
                  (drain-Ends fuel q (handle o s).0 (omega arith)))
        ]
  ]

  module _ (on_system_error : S → S) where
    -- How `on_read` may leave the socket, when it began with an unpacker `p` and a state `s`.
    abbrev pub GoesOn : Pac → S → Handler Pac S → Type 0
    GoesOn p s k =
        (q : Pac) × (t : S) × Completes p s q t
        × (up.message_size q ≤ max_message_size)
        × (k ≡ record { reading = true; pac = q; state = t })

    abbrev pub IsTooLarge : Pac → S → Handler Pac S → Type 0
    IsTooLarge p s k =
        (q : Pac) × (t : S) × Completes p s q t
        × (max_message_size < up.message_size q)
        × (k ≡ failed up handle on_system_error q t)

    abbrev pub IsBroken : Pac → S → Handler Pac S → Type 0
    IsBroken p s k =
        (q : Pac) × (t : S) × Throws p s q t × (k ≡ failed up handle on_system_error q t)

    settle-Ends :
        (p : Pac) (s : S) (d : Drained Pac S)
        → Ends p s d
        → (k : Handler Pac S) × (settle up handle on_system_error d ≡ some k)
          × (GoesOn p s k ⊎ (IsTooLarge p s k ⊎ IsBroken p s k))
    unfolding settle
    settle-Ends p s (drained q t) e = elim (Bool-cases (ltb max_message_size (up.message_size q))) [
      | inl large ↦ (
        failed up handle on_system_error q t,
        rw (settle, large),
        inr (inl (q, t, e, ground arith, refl)),
      )
      | inr small ↦ (
        record { reading = true; pac = q; state = t },
        rw (settle, small),
        inl (q, t, e, ground arith, refl),
      )
    ]
    settle-Ends p s (thrown q t) e =
        (failed up handle on_system_error q t, refl, inr (inr (q, t, e, refl)))
    settle-Ends p s out_of_fuel e = absurd e

    -- One `on_read` always comes to an end. Without a read error it handles the objects in order, and
    -- then goes on reading if none threw and what is left is an incomplete object of at most 10 MB;
    -- if something threw, if what is left is larger, or if the read itself failed, the socket reads
    -- no more, the rest of the buffer is dropped, and `on_system_error` has been called once, last.
    pub on_read_ends :
        (err : ℕ) (buf : Bytes) (h : Handler Pac S)
        → let p = up.buffer_consumed buf h.pac in
          (k : Handler Pac S) × (on_read up handle on_system_error err buf h ≡ some k)
          × (((err ≡ 0) × (GoesOn p h.state k ⊎ (IsTooLarge p h.state k ⊎ IsBroken p h.state k)))
              ⊎ ((err ≢ 0) × (k ≡ failed up handle on_system_error h.pac h.state)))
    unfolding on_read
    on_read_ends err buf h =
        let p = up.buffer_consumed buf h.pac in
        elim (Bool-cases (err == 0)) [
          | inl good ↦
              let (k, e, ends) =
                settle-Ends p h.state (drain up handle (up.remaining p + 1) p h.state)
                  (drain-Ends (up.remaining p + 1) p h.state (omega arith)) in
              (k, rw (on_read, good) e, inl (ground arith, ends))
          | inr bad ↦ (
            failed up handle on_system_error h.pac h.state,
            rw (on_read, bad),
            inr (ground arith, refl),
          )
        ]
