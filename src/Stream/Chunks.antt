-- ===== src/Stream/Chunks.antt =====
-- The bytes of a stream come to `on_read` of src/msgpack/rpc/transport/stream_handler.cc in reads of any
-- size. What the code relies on from an unpacker that is fed in pieces is `Streaming`.
use msgpack_rpc_boost.Prelude.{
  ℕ, zero, suc, ◌+◌, ◌<◌, ◌≡◌, ◌∙◌, refl, sym, ap, subst, Bool, true, some, List, [], ◌∷◌, arith,
  Bool-cases, inl, inr, if◌then◌else◌,
}
use msgpack_rpc_boost.Stream.Laws.{Next-cases}
use msgpack_rpc_boost.Stream.Reading
use msgpack_rpc_boost.Stream.Reading.{
  Next, object, incomplete, parse_error, Unpacker, Drained, drained, thrown, out_of_fuel, Handler,
  drain, settle, on_read, failed, max_message_size,
}

-- Bytes can be put together; it is the same to feed them together or one after the other, and more
-- bytes do not change an object that is already whole.
pub record Streaming {Object Bytes Pac : Type 0} (up : Unpacker Object Bytes Pac) : Type 0 where
  pub join_bytes : Bytes → Bytes → Bytes
  pub consumed-join_bytes :
      (a b : Bytes) (p : Pac)
      → up.buffer_consumed (join_bytes a b) p ≡ up.buffer_consumed b (up.buffer_consumed a p)
  pub next-consumed :
      (b : Bytes) (p q : Pac) (o : Object)
      → up.next p ≡ object o q
      → up.next (up.buffer_consumed b p) ≡ object o (up.buffer_consumed b q)

module _ {Object Bytes Pac S : Type 0} (up : Unpacker Object Bytes Pac) (st : Streaming up)
    (handle : Object → S → S × Bool) where
  -- More fuel than enough changes nothing.
  drain_enough :
      (f g : ℕ) (p : Pac) (s : S)
      → up.remaining p < f
      → up.remaining p < g
      → drain up handle f p s ≡ drain up handle g p s
  unfolding drain
  drain_enough zero g p s lf lg = absurd (omega arith)
  drain_enough (suc f) zero p s lf lg = absurd (omega arith)
  drain_enough (suc f) (suc g) p s lf lg = elim (Next-cases up handle (up.next p)) [
    | inl e ↦ rw (drain, e) refl
    | inr (inl e) ↦ rw (drain, e) refl
    | inr (inr (o, q, e)) ↦
        let less = up.next_consumes p q o e in
        let same = drain_enough f g q (handle o s).0 (omega arith) (omega arith) in
        rw (drain, e) (ap (λ d. if (handle o s).1 then thrown q (handle o s).0 else d) same)
  ]

  -- What is left of a loop over the first bytes goes on with the others as if they had all been there.
  drain-consumed :
      (b : Bytes) (n f g : ℕ) (p q : Pac) (s t : S)
      → drain up handle n p s ≡ drained q t
      → up.remaining (up.buffer_consumed b p) < f
      → up.remaining (up.buffer_consumed b q) < g
      → drain up handle f (up.buffer_consumed b p) s ≡ drain up handle g (up.buffer_consumed b q) t
  unfolding drain
  drain-consumed b zero f g p q s t d lf lg = cc
  drain-consumed b (suc n) zero g p q s t d lf lg = absurd (omega arith)
  drain-consumed b (suc n) (suc f) g p q s t d lf lg = elim (Next-cases up handle (up.next p)) [
    | inl e ↦
        let same : drained p s ≡ drained q t = ground (arith, e, d) in
        let here : p ≡ q = cc in
        let state : s ≡ t = cc in
        drain_enough (suc f) g (up.buffer_consumed b p) s lf
          (subst (λ x. up.remaining (up.buffer_consumed b x) < g) (sym here) lg)
        ∙ ap (λ x. drain up handle g (up.buffer_consumed b x) s) here
        ∙ ap (drain up handle g (up.buffer_consumed b q)) state
    | inr (inl e) ↦ absurd (ground (arith, e, d))
    | inr (inr (o, r, e)) ↦
        let later = st.next-consumed b p r o e in
        let less = up.next_consumes (up.buffer_consumed b p) (up.buffer_consumed b r) o later in
        elim (Bool-cases (handle o s).1) [
          | inl threw ↦ absurd (ground (arith, e, d, threw))
          | inr fine ↦
              let rest : drain up handle n r (handle o s).0 ≡ drained q t =
                ground (arith, e, d, fine) in
              rw (drain, later, fine)
                (drain-consumed b n f g r q (handle o s).0 t rest (omega arith) lg)
        ]
  ]

  module _ (on_system_error : S → S) where
    settle-drained :
        (d : Drained Pac S) (k : Handler Pac S)
        → settle up handle on_system_error d ≡ some k
        → k.reading ≡ true
        → d ≡ drained k.pac k.state
    unfolding settle Reading.start
    settle-drained (drained q t) k e on = ground arith
    settle-drained (thrown q t) k e on = absurd (ground arith)
    settle-drained out_of_fuel k e on = absurd (ground arith)

    -- When the socket still reads after `on_read`, the loop has come to the end of the bytes.
    read_on :
        (a : Bytes) (h k : Handler Pac S)
        → on_read up handle on_system_error 0 a h ≡ some k
        → k.reading ≡ true
        → let p = up.buffer_consumed a h.pac in
          drain up handle (up.remaining p + 1) p h.state ≡ drained k.pac k.state
    unfolding on_read
    read_on a h k e on = settle-drained _ k e on

    on_read-join_bytes :
        (a b : Bytes) (h k : Handler Pac S)
        → on_read up handle on_system_error 0 a h ≡ some k
        → k.reading ≡ true
        → on_read up handle on_system_error 0 (st.join_bytes a b) h
          ≡ on_read up handle on_system_error 0 b k
    unfolding on_read
    on_read-join_bytes a b h k e on =
        let p = up.buffer_consumed a h.pac in
        let q = up.buffer_consumed b p in
        let both =
          drain-consumed b (up.remaining p + 1) (up.remaining q + 1)
            (up.remaining (up.buffer_consumed b k.pac) + 1) p k.pac h.state k.state
            (read_on a h k e on) (omega arith) (omega arith) in
        rw (on_read, st.consumed-join_bytes a b h.pac) (ap (settle up handle on_system_error) both)

    -- Reads one after another, as long as the socket goes on reading between them.
    pub data Reads : List Bytes → Handler Pac S → Handler Pac S → Type 0 where
      last :
          {h k : Handler Pac S} (a : Bytes)
          → on_read up handle on_system_error 0 a h ≡ some k
          → Reads (a ∷ []) h k
      more :
          {h k l : Handler Pac S} {bs : List Bytes} (a b : Bytes)
          → on_read up handle on_system_error 0 a h ≡ some k
          → k.reading ≡ true
          → Reads (b ∷ bs) k l
          → Reads (a ∷ b ∷ bs) h l

    -- The bytes of a first read and of all that follow it.
    abbrev pub joined : Bytes → List Bytes → Bytes
    joined a [] = a
    joined a (b ∷ bs) = st.join_bytes a (joined b bs)

    -- However the bytes of a stream are cut into reads without an error, if the socket goes on reading
    -- after each but the last, the socket ends as if they had all come in one read: with the same messages handled in
    -- the same order, the same state, the same rest in the unpacker, and reading on or failed alike.
    pub Reads-on_read :
        (a : Bytes) (bs : List Bytes) (h k : Handler Pac S)
        → Reads (a ∷ bs) h k
        → on_read up handle on_system_error 0 (joined a bs) h ≡ some k
    Reads-on_read a [] h k (last _ e) = e
    Reads-on_read a (b ∷ bs) h k (more {k = m} _ _ e on rest) =
        on_read-join_bytes a (joined b bs) h m e on ∙ Reads-on_read b bs m k rest
