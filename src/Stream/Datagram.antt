-- ===== src/Stream/Datagram.antt =====
-- How `on_read` of src/msgpack/rpc/transport/dgram_handler.cc can end, and how it leaves the socket.
use msgpack_rpc_boost.Prelude.{
  ℕ, ◌+◌, ◌≡◌, ◌≢◌, ◌⊎◌, inl, inr, refl, Bool, true, false, none, some, arith, ◌==◌, Bool-cases,
  Option,
}
use msgpack_rpc_boost.Stream.Laws.{Completes, Throws, Ends, drain-Ends}
use msgpack_rpc_boost.Stream.Reading.{
  Unpacker, Drained, drained, thrown, out_of_fuel, Handler, drain, on_datagram,
}

module _ {Object Bytes Pac S : Type 0} (up : Unpacker Object Bytes Pac)
    (handle : Object → S → S × Bool) where
  abbrev pub ReadsOn : Pac → S → Handler Pac S → Type 0
  ReadsOn p s k =
      (q : Pac) × (t : S) × Completes up handle p s q t
      × (k ≡ record { reading = true; pac = q; state = t })

  abbrev pub Stops : Pac → S → Handler Pac S → Type 0
  Stops p s k =
      (q : Pac) × (t : S) × Throws up handle p s q t
      × (k ≡ record { reading = false; pac = up.remove_nonparsed_buffer q; state = t })

  -- What a drained datagram leaves.
  abbrev left : Drained Pac S → Option (Handler Pac S)
  left d = elim d [
    | drained q t ↦ some (record { reading = true; pac = q; state = t })
    | thrown q t ↦ some (record { reading = false; pac = up.remove_nonparsed_buffer q; state = t })
    | out_of_fuel ↦ none
  ]

  left-Ends :
      (p : Pac) (s : S) (d : Drained Pac S)
      → Ends up handle p s d
      → (k : Handler Pac S) × (left d ≡ some k) × (ReadsOn p s k ⊎ Stops p s k)
  left-Ends p s (drained q t) e =
      (record { reading = true; pac = q; state = t }, refl, inl (q, t, e, refl))
  left-Ends p s (thrown q t) e = (
    record { reading = false; pac = up.remove_nonparsed_buffer q; state = t },
    refl,
    inr (q, t, e, refl),
  )
  left-Ends p s out_of_fuel e = absurd e

  -- One `on_read` of a datagram socket always comes to an end. Without an error it handles the
  -- objects in order, and reads on if none threw; if something threw, or if the read failed, the
  -- socket reads no more and the rest of the buffer is dropped, and the state is what the handled
  -- objects made of it: nobody is told.
  pub on_datagram_ends :
      (err : ℕ) (buf : Bytes) (h : Handler Pac S)
      → let p = up.buffer_consumed buf h.pac in
        (k : Handler Pac S) × (on_datagram up handle err buf h ≡ some k)
        × (((err ≡ 0) × (ReadsOn p h.state k ⊎ Stops p h.state k))
            ⊎ ((err ≢ 0)
                × (k ≡ record {
                  reading = false;
                  pac = up.remove_nonparsed_buffer h.pac;
                  state = h.state;
                })))
  unfolding on_datagram
  on_datagram_ends err buf h =
      let p = up.buffer_consumed buf h.pac in
      elim (Bool-cases (err == 0)) [
        | inl good ↦
            let (k, e, ends) =
              left-Ends p h.state (drain up handle (up.remaining p + 1) p h.state)
                (drain-Ends up handle (up.remaining p + 1) p h.state (omega arith)) in
            (k, rw (on_datagram, good) e, inl (ground arith, ends))
        | inr bad ↦ (
          record { reading = false; pac = up.remove_nonparsed_buffer h.pac; state = h.state },
          rw (on_datagram, bad),
          inr (ground arith, refl),
        )
      ]
