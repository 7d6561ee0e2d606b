-- ===== src/Request/Handle/Sharing.antt =====
-- How often the requests of src/msgpack/rpc/request.h are answered, whose copies share them.
use mathlib.Core.List.{append-nil}
use msgpack_rpc_boost.Prelude.{
  ◌≡◌, ◌∙◌, ap, refl, Option, none, some, List, [], ◌∷◌, ◌++◌, arith, ◌==◌, if◌then◌else◌,
  get_elem?, set, get_elem?-set, All, All-imp, Option-cases, Bool-cases, ==_iff, inl, inr,
}
use msgpack_rpc_boost.Protocol.{Runtime, Codec, msg_response}
use msgpack_rpc_boost.Request
use msgpack_rpc_boost.Request.{RequestImpl, SenderRef, Answer, gives, gives_nil, fails, fails_with}
use msgpack_rpc_boost.Request.Laws.{result_of, error_of}
use msgpack_rpc_boost.Request.Handle.{
  RequestHandle, RequestRef, Requests, Sent, ask, through, is_sent, get_msgid, send_data, call,
  answer,
}

-- The responses of one request, of all that are sent.
abbrev pub responses_of :
    {Bytes : Type 0} → RequestRef → List (RequestRef × Sent Bytes) → Sent Bytes
responses_of r [] = []
responses_of r ((q, sent) ∷ l) = if q == r then sent ++ responses_of r l else responses_of r l

-- The first answer to one request.
abbrev pub first_to :
    {Object : Type 0} → RequestRef → List (RequestHandle × Answer Object) → Option (Answer Object)
first_to r [] = none
first_to r ((s, a) ∷ us) = if s.pimpl == r then some a else first_to r us

module _ {Object Bytes : Type 0} (codec : Codec Object Bytes) ⦃rt : Runtime Object⦄ where
  -- What dispatchers answer through their handles, one after another, with the request of each.
  unfoldable pub answer_all :
      List (RequestHandle × Answer Object)
      → Requests Object
      → Option (Requests Object × List (RequestRef × Sent Bytes))
  unfolding answer
  answer_all [] p = some (p, [])
  answer_all ((s, a) ∷ us) p =
      let rest = answer_all us in
      elim (answer codec a s p) [
        | none ↦ none
        | some (q, sent) ↦ elim (rest q) [
          | none ↦ none
          | some (t, l) ↦ some (t, (s.pimpl, sent) ∷ l)
        ]
      ]

  -- What a request sends that is answered, or is not, and what is left of it.
  abbrev pub spoken : Object → Object → RequestImpl Object → Sent Bytes
  spoken res err q = elim q.ms [
    | none ↦ []
    | some peer ↦ (peer, codec.pack_response (msg_response res err q.msgid)) ∷ []
  ]

  abbrev pub response : RequestImpl Object → Option (Answer Object) → Sent Bytes
  response q none = []
  response q (some a) = spoken (result_of codec a) (error_of codec a) q

  abbrev pub left : RequestImpl Object → Option (Answer Object) → RequestImpl Object
  left q none = q
  left q (some a) = record q { ms = none }

  call_lem :
      (res err : Object) (s : RequestHandle) (p : Requests Object) (q : RequestImpl Object)
      → get_elem? p s.pimpl ≡ some q
      → (t : Requests Object) × (call codec res err s p ≡ some (t, spoken res err q))
        × ((r : RequestRef)
            → get_elem? t r
              ≡ (if s.pimpl == r then some (record q { ms = none }) else get_elem? p r))
  unfolding call is_sent get_msgid send_data ask through Request.is_sent Request.send_data
  call_lem res err s p q there = elim (Option-cases q.ms) [
    | inl gone ↦ (
      p,
      ground (arith, there, gone),
      λ r. elim (Bool-cases (s.pimpl == r)) [
        | inl own ↦ rw own (ground (arith, there, gone, own, ==_iff s.pimpl r))
        | inr other ↦ ground (arith, other)
      ],
    )
    | inr (peer, here) ↦ (
      set p s.pimpl (record q { ms = none }),
      ground (arith, there, here),
      λ r. ground (arith, there, get_elem?-set p s.pimpl r (record q { ms = none })),
    )
  ]

  answer_lem :
      (a : Answer Object) (s : RequestHandle) (p : Requests Object) (q : RequestImpl Object)
      → get_elem? p s.pimpl ≡ some q
      → (t : Requests Object) × (answer codec a s p ≡ some (t, response q (some a)))
        × ((r : RequestRef)
            → get_elem? t r
              ≡ (if s.pimpl == r then some (record q { ms = none }) else get_elem? p r))
  unfolding answer
  answer_lem (gives res z) s p q there = call_lem res rt.nil s p q there
  answer_lem gives_nil s p q there = call_lem rt.nil rt.nil s p q there
  answer_lem (fails err z) s p q there = call_lem rt.nil err s p q there
  answer_lem (fails_with err res z) s p q there = call_lem res err s p q there

  answered_lem :
      (q : RequestImpl Object) (o : Option (Answer Object))
      → (response (record q { ms = none }) o ≡ [])
        × (left (record q { ms = none }) o ≡ record q { ms = none })
  answered_lem q none = (refl, refl)
  answered_lem q (some a) = (refl, refl)

  first_only :
      {q0 q : RequestImpl Object} (a : Answer Object) {later : Sent Bytes}
      → q0 ≡ q
      → later ≡ []
      → response q0 (some a) ++ later ≡ response q (some a)
  first_only {q = q} a same quiet = rw same (rw quiet (append-nil (response q (some a))))

  -- Every handle has a request.
  abbrev pub Pointed : Requests Object → List (RequestHandle × Answer Object) → Type 0
  Pointed p us =
      All
        (λ (x : RequestHandle × Answer Object).
          (q : RequestImpl Object) × (get_elem? p x.0.pimpl ≡ some q))
        us

  -- Whatever is answered through handles that have requests, in any order, and however many copies a
  -- request has: the first answer to a request that has its sender is sent, to that sender and with the
  -- request's id, and no other answer to it; a request that nobody answers sends nothing, and
  -- keeps its sender; and nothing but the sender of a request is changed.
  pub answer_all-first :
      (us : List (RequestHandle × Answer Object)) (p : Requests Object) (r : RequestRef)
      (q : RequestImpl Object)
      → Pointed p us
      → get_elem? p r ≡ some q
      → (t : Requests Object) × (l : List (RequestRef × Sent Bytes)) × (answer_all us p
          ≡ some (t, l))
        × (responses_of r l ≡ response q (first_to r us))
        × (get_elem? t r ≡ some (left q (first_to r us)))
  unfolding answer_all
  answer_all-first [] p r q pointed h = (p, [], refl, refl, h)
  answer_all-first ((s, a) ∷ us) p r q ((q0, here), more) h =
      let (t, e, k) = answer_lem a s p q0 here in
      let pointed' =
        All-imp
          (λ (x : RequestHandle × Answer Object).
            (i : RequestImpl Object) × (get_elem? p x.0.pimpl ≡ some i))
          (λ (x : RequestHandle × Answer Object).
            (i : RequestImpl Object) × (get_elem? t x.0.pimpl ≡ some i))
          us
          (λ x there. (
            if s.pimpl == x.0.pimpl then record q0 { ms = none } else there.0,
            ground (arith, k x.0.pimpl, there.1),
          ))
          more in
      elim (Bool-cases (s.pimpl == r)) [
        | inl own ↦
            let same : q0 ≡ q = ground (arith, here, h, own, ==_iff s.pimpl r) in
            let (w, l, f, g, c) =
              answer_all-first us t r (record q { ms = none }) pointed'
                (ground (arith, k r, own, same)) in
            let (quiet, kept) = answered_lem q (first_to r us) in
            (
              w,
              (s.pimpl, response q0 (some a)) ∷ l,
              ground (arith, e, f),
              rw own (first_only a same (g ∙ quiet)),
              rw own (c ∙ ap some kept),
            )
        | inr other ↦
            let (w, l, f, g, c) =
              answer_all-first us t r q pointed' (ground (arith, k r, h, other)) in
            (
              w,
              (s.pimpl, response q0 (some a)) ∷ l,
              ground (arith, e, f),
              ground (arith, g, other),
              ground (arith, c, other),
            )
      ]
