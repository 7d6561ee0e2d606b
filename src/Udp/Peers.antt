-- ===== src/Udp/Peers.antt =====
-- To whom the server's socket of src/msgpack/rpc/transport/udp.cc replies.
use mathlib.Core.List.{append_assoc, append-nil}
use msgpack_rpc_boost.Prelude.{
  ℕ, ◌≡◌, ◌∙◌, inl, inr, refl, ap, sym, subst, Bool, true, false, Option, none, some, List, [], ◌∷◌,
  ◌++◌, All, All-append, Option-cases, arith,
}
use msgpack_rpc_boost.Protocol.{Runtime, Codec}
use msgpack_rpc_boost.Request.{RequestImpl, SenderRef, Answer, answers}
use msgpack_rpc_boost.Request.Laws.{answers_unsent, answers_once}
use msgpack_rpc_boost.Server
use msgpack_rpc_boost.Server.{ServerImpl, Dispatcher}
use msgpack_rpc_boost.Sockets.{server_socket}
use msgpack_rpc_boost.Stream.{Incoming, requested, responded, notified, on_message}
use msgpack_rpc_boost.Stream.Datagram.{on_datagram_ends}
use msgpack_rpc_boost.Stream.Laws.{Throws}
use msgpack_rpc_boost.Stream.Reading.{Unpacker, Handler, Handled, finished, one}
use msgpack_rpc_boost.Udp.Receiving.{
  Receiver, handle_message, receive_from, replied, null_call, get_response_sender,
}

-- Every reply of the list goes to this peer.
abbrev pub AllTo : {Bytes : Type 0} → SenderRef → List (SenderRef × Bytes) → Type 0
AllTo ep l = All (λ (x : SenderRef × _). x.0 ≡ ep) l

abbrev pub Sends : {Bytes : Type 0} → SenderRef → Option (List (SenderRef × Bytes)) → Type 0
Sends ep none = Unit {0}
Sends ep (some l) = AllTo ep l

module _ {Object Bytes : Type 0} (codec : Codec Object Bytes) ⦃rt : Runtime Object⦄ where
  answers-AllTo :
      (l : List (Answer Object)) (r : RequestImpl Object) (ep : SenderRef)
      → r.ms ≡ some ep
      → AllTo ep (answers codec l r).1
  unfolding answers
  answers-AllTo [] r ep h = tt
  answers-AllTo (a ∷ more) r ep h = rw (answers_once codec a more r ep h) (refl, tt)

  answers_unsent-AllTo :
      (l : List (Answer Object)) (r : RequestImpl Object) (ep : SenderRef)
      → r.ms ≡ none
      → AllTo ep (answers codec l r).1
  answers_unsent-AllTo l r ep h = rw (answers_unsent codec l r h) tt

module _ {Object Bytes Tran : Type 0} (codec : Codec Object Bytes) ⦃rt : Runtime Object⦄ where
  -- What the socket's virtual functions send goes to the peer that they are called for.
  server_socket-Sends :
      (alive : Bool) (ep : SenderRef) (m : Incoming Object) (svr : ServerImpl Object Tran)
      → Sends ep (server_socket codec alive ep none m svr)
  unfolding server_socket Server.on_request Server.on_notify
  server_socket-Sends false ep (requested id f p) svr = tt
  server_socket-Sends false ep (responded id a e) svr = tt
  server_socket-Sends false ep (notified f p) svr = tt
  server_socket-Sends true ep (responded id a e) svr = tt
  server_socket-Sends true ep (requested id f p) svr = elim (Option-cases svr.dp) [
    | inl none_yet ↦ rw (server_socket, none_yet) tt
    | inr (dp, served) ↦ rw (server_socket, served) (answers-AllTo codec _ _ ep refl)
  ]
  server_socket-Sends true ep (notified f p) svr = elim (Option-cases svr.dp) [
    | inl none_yet ↦ rw (server_socket, none_yet) tt
    | inr (dp, served) ↦ rw (server_socket, served) (answers_unsent-AllTo codec _ _ ep refl)
  ]

  not-null_call :
      (alive : Bool) (m : Incoming Object) (svr : ServerImpl Object Tran) (dp : Dispatcher Object)
      → svr.dp ≡ some dp
      → null_call alive m svr ≡ false
  not-null_call alive (requested id f p) svr dp served = ground (arith, served)
  not-null_call alive (responded id a e) svr dp served = refl
  not-null_call alive (notified f p) svr dp served = ground (arith, served)

  -- From `s` to `t` only replies to `ep` were sent.
  abbrev pub Replied : SenderRef → Receiver Object Bytes Tran → Receiver Object Bytes Tran → Type 0
  Replied ep s t =
      (new : List (SenderRef × Bytes)) × (t ≡ record s { sent = s.sent ++ new }) × AllTo ep new

  Replied-same : (ep : SenderRef) (s : Receiver Object Bytes Tran) → Replied ep s s
  Replied-same ep s = ([], ap (λ l. record s { sent = l }) (sym (append-nil s.sent)), tt)

  Replied-then :
      (ep : SenderRef) (s t u : Receiver Object Bytes Tran)
      → Replied ep s t
      → Replied ep t u
      → Replied ep s u
  Replied-then ep s t u (new, e, a) (more, f, b) = (
    new ++ more,
    f
        ∙ ap (λ (x : Receiver Object Bytes Tran). record x { sent = x.sent ++ more }) e
        ∙ ap (λ l. record s { sent = l }) (append_assoc s.sent new more),
    All-append _ new more a b,
  )

  replied-Replied :
      (ep : SenderRef) (s : Receiver Object Bytes Tran) (l : Option (List (SenderRef × Bytes)))
      → Sends ep l
      → Replied ep s (replied s l).0
  replied-Replied ep s none h = Replied-same ep s
  replied-Replied ep s (some l) h = (l, refl, h)

  module _ (alive : Bool) (ep : SenderRef) where
    handle_message-Replied :
        (o : Object) (s : Receiver Object Bytes Tran) (dp : Dispatcher Object)
        → s.server.dp ≡ some dp
        → Replied ep s (handle_message codec alive ep o s).0
    unfolding handle_message get_response_sender
    handle_message-Replied o s dp served = elim (Option-cases (on_message codec o)) [
      | inl malformed ↦ rw (handle_message, malformed) (Replied-same ep s)
      | inr (m, found) ↦
          let sends =
            replied-Replied ep s (server_socket codec alive ep none m s.server)
              (server_socket-Sends alive ep m s.server) in
          let calm : null_call alive m s.server ≡ false =
            not-null_call alive m s.server dp served in
          rw (handle_message, found, calm) sends
    ]

    -- The server keeps its dispatcher.
    still_served :
        (s t : Receiver Object Bytes Tran) (dp : Dispatcher Object)
        → s.server.dp ≡ some dp
        → Replied ep s t
        → t.server.dp ≡ some dp
    still_served s t dp served (new, e, to_peer) =
        ap (λ (x : Receiver Object Bytes Tran). x.server.dp) e ∙ served

    module _ {Pac : Type 0} (up : Unpacker Object Bytes Pac) (dp : Dispatcher Object) where
      Handled-Replied :
          {p q : Pac} {s t : Receiver Object Bytes Tran} {os : List Object}
          → s.server.dp ≡ some dp
          → Handled up (handle_message codec alive ep) p s os q t
          → Replied ep s t
      Handled-Replied {s} served finished = Replied-same ep s
      Handled-Replied {s} served (one {t} {u} o e h run) =
          let first =
            subst (λ x. Replied ep s x) (ap (λ x. x.0) h) (handle_message-Replied o s dp served) in
          Replied-then ep s t u first (Handled-Replied (still_served s t dp served first) run)

      Throws-Replied :
          {p q : Pac} {s t : Receiver Object Bytes Tran}
          → s.server.dp ≡ some dp
          → Throws up (handle_message codec alive ep) p s q t
          → Replied ep s t
      Throws-Replied {s} served (os, r, u, run, inl (e, f, g)) =
          subst (λ x. Replied ep s x) (sym g) (Handled-Replied served run)
      Throws-Replied {s} {t} served (os, r, u, run, inr (o, e, h)) =
          let before = Handled-Replied served run in
          Replied-then ep s u t before (
            subst (λ x. Replied ep u x) (ap (λ x. x.0) h)
              (handle_message-Replied o u dp (still_served s u dp served before)))

      -- For a server that serves, in a process that has not crashed: reading a datagram comes to an end, and then all that was sent in
      -- reply went to the peer that this datagram came from, and the server is the same. This holds
      -- whatever bytes the unpacker had left from earlier datagrams: a message that another peer
      -- began and this one's datagram completes is answered to this peer.
      pub receive_from_replies :
          (err : ℕ) (buf : Bytes) (h : Handler Pac (Receiver Object Bytes Tran))
          → h.state.server.dp ≡ some dp
          → h.state.crashed ≡ false
          → (k : Handler Pac (Receiver Object Bytes Tran)) × (receive_from codec alive up ep err buf
                h
              ≡ some k)
            × Replied ep h.state k.state
      unfolding receive_from
      receive_from_replies err buf h served calm =
          let (k, e, ends) = on_datagram_ends up (handle_message codec alive ep) err buf h in
          let back = λ (x : Handler Pac (Receiver Object Bytes Tran)). Replied ep h.state x.state in
          let sent : Replied ep h.state k.state = elim ends [
            | inl (_, inl (q, t, (os, run, last), f)) ↦
                subst back (sym f) (Handled-Replied served run)
            | inl (_, inr (q, t, threw, f)) ↦ subst back (sym f) (Throws-Replied served threw)
            | inr (_, f) ↦ subst back (sym f) (Replied-same ep h.state)
          ] in
          let lives : k.state.crashed ≡ false =
            ap (λ (x : Receiver Object Bytes Tran). x.crashed) sent.1 ∙ calm in
          (k, ground (arith, e, lives), sent)
