-- ===== src/TcpServer/Writing.antt =====
-- `stream_handler::send_data` of src/msgpack/rpc/transport/stream_handler.cc for a server's socket of tcp.cc: a
-- write that fails ends in `server_transport::on_system_error`, which drops the connection and stops the
-- socket. The network is in the socket: after how many more writes they fail, if they do, and whether the
-- remote endpoint can still be asked for then.
use mathlib.Core.List.{append_assoc, append-nil}
use msgpack_rpc_boost.Prelude.{
  ℕ, zero, suc, ◌≡◌, ◌∙◌, refl, sym, ap, Bool, true, false, not, ◌&&◌, Option, none, some, List,
  Option-cases, Bool-cases, inl, inr, [], ◌∷◌, ◌++◌, arith, if◌then◌else◌,
}
use msgpack_rpc_boost.Request.{SenderRef}
use msgpack_rpc_boost.Server.{ServerImpl}

-- `managed` says that the transport has the connection in its set; `sent` is oldest first.
pub record ServerSocket (Object Bytes Tran : Type 0) : Type 0 where
  pub server : ServerImpl Object Tran
  pub is_open : Bool
  pub managed : Bool
  pub breaks : Option ℕ
  pub has_endpoint : Bool
  pub sent : List (SenderRef × Bytes)

-- The messages that are taken, and whether a write fails.
abbrev pub delivered : {A : Type 0} → Option ℕ → List A → List A
delivered b [] = []
delivered none (m ∷ l) = m ∷ l
delivered (some zero) (m ∷ l) = []
delivered (some (suc n)) (m ∷ l) = m ∷ delivered (some n) l

abbrev pub fails : {A : Type 0} → Option ℕ → List A → Bool
fails b [] = false
fails none (m ∷ l) = false
fails (some zero) (m ∷ l) = true
fails (some (suc n)) (m ∷ l) = fails (some n) l

module _ {Object Bytes Tran : Type 0} where
  -- `server_socket::on_system_error`: `stop` leaves a socket open that has no remote endpoint.
  unfoldable pub drop_connection : ServerSocket Object Bytes Tran → ServerSocket Object Bytes Tran
  drop_connection s = record s {
    managed = false;
    is_open = if s.has_endpoint then false else s.is_open;
  }

  unfoldable pub write_data :
      SenderRef × Bytes → ServerSocket Object Bytes Tran → ServerSocket Object Bytes Tran
  unfolding drop_connection
  write_data m s =
      if s.is_open
      then elim s.breaks [
        | none ↦ record s { sent = s.sent ++ m ∷ [] }
        | some zero ↦ drop_connection s
        | some (suc n) ↦ record s { sent = s.sent ++ m ∷ []; breaks = some n }
      ]
      else s

  -- What a dispatcher answers, one write for each response.
  unfoldable pub write_all :
      List (SenderRef × Bytes) → ServerSocket Object Bytes Tran → ServerSocket Object Bytes Tran
  unfolding write_data
  write_all [] s = s
  write_all (m ∷ l) s = write_all l (write_data m s)

  write_data-server :
      (m : SenderRef × Bytes) (s : ServerSocket Object Bytes Tran)
      → (write_data m s).server ≡ s.server
  unfolding write_data drop_connection
  write_data-server m s = elim (Bool-cases s.is_open) [
    | inr shut ↦ ground (arith, shut)
    | inl up ↦ elim (Option-cases s.breaks) [
      | inl never ↦ ground (arith, up, never)
      | inr (zero, now) ↦ ground (arith, up, now)
      | inr (suc n, later) ↦ ground (arith, up, later)
    ]
  ]

  pub write_all-server :
      (l : List (SenderRef × Bytes)) (s : ServerSocket Object Bytes Tran)
      → (write_all l s).server ≡ s.server
  unfolding write_all
  write_all-server [] s = refl
  write_all-server (m ∷ l) s = write_all-server l (write_data m s) ∙ write_data-server m s

  pub write_all-append :
      (l more : List (SenderRef × Bytes)) (s : ServerSocket Object Bytes Tran)
      → write_all (l ++ more) s ≡ write_all more (write_all l s)
  unfolding write_all
  write_all-append [] more s = refl
  write_all-append (m ∷ l) more s = write_all-append l more (write_data m s)

  -- From an open socket `s` to `t`, some messages were written.
  pub record Written (l : List (SenderRef × Bytes)) (s t : ServerSocket Object Bytes Tran)
      : Type 0 where
    pub same_server : t.server ≡ s.server
    pub taken : t.sent ≡ s.sent ++ delivered s.breaks l
    pub kept : t.managed ≡ (s.managed && not (fails s.breaks l))
    pub stopped : t.is_open ≡ (if s.has_endpoint then not (fails s.breaks l) else true)

  -- A socket that failed sends no more, whether it was closed or not.
  write_data-failed :
      (x : SenderRef × Bytes) (s : ServerSocket Object Bytes Tran)
      → s.breaks ≡ some zero
      → s.managed ≡ false
      → s.is_open ≡ not s.has_endpoint
      → write_data x s ≡ s
  unfolding write_data drop_connection
  write_data-failed x s b m o = elim (Bool-cases s.has_endpoint) [
    | inl there ↦ ground (arith, there, o)
    | inr lost ↦
        let dropped : write_data x s ≡ record s { managed = false } = ground (arith, lost, o, b) in
        dropped ∙ ap (λ k. record s { managed = k }) (sym m)
  ]

  write_all-failed :
      (l : List (SenderRef × Bytes)) (s : ServerSocket Object Bytes Tran)
      → s.breaks ≡ some zero
      → s.managed ≡ false
      → s.is_open ≡ not s.has_endpoint
      → write_all l s ≡ s
  unfolding write_all
  write_all-failed [] s b m o = refl
  write_all-failed (x ∷ l) s b m o =
      ap (write_all l) (write_data-failed x s b m o) ∙ write_all-failed l s b m o

  pub write_all-sending :
      (l : List (SenderRef × Bytes)) (s : ServerSocket Object Bytes Tran)
      → s.is_open ≡ true
      → s.breaks ≡ none
      → write_all l s ≡ record s { sent = s.sent ++ l }
  unfolding write_all
  write_all-sending [] s up never = ap (λ l. record s { sent = l }) (sym (append-nil s.sent))
  write_all-sending (m ∷ l) s up never =
      let t = record s { sent = s.sent ++ m ∷ [] } in
      let one : write_data m s ≡ t = ground (arith, up, never) in
      ap (write_all l) one
      ∙ write_all-sending l t up never
      ∙ ap (λ k. record s { sent = k }) (append_assoc s.sent (m ∷ []) l)

  -- Writing to an open socket.
  pub write_all-Written :
      (l : List (SenderRef × Bytes)) (s : ServerSocket Object Bytes Tran)
      → s.is_open ≡ true
      → Written l s (write_all l s)
  unfolding write_all drop_connection
  write_all-Written [] s up = record {
    same_server = refl;
    taken = sym (append-nil s.sent);
    kept = ground arith;
    stopped = ground (arith, up);
  }
  write_all-Written (m ∷ l) s up = elim (Option-cases s.breaks) [
    | inl never ↦
        let e = write_all-sending (m ∷ l) s up never in
        record {
          same_server = ap (λ t. t.server) e;
          taken = ap (λ t. t.sent) e ∙ ground (arith, never);
          kept = ap (λ t. t.managed) e ∙ ground (arith, never);
          stopped = ap (λ t. t.is_open) e ∙ ground (arith, never, up);
        }
    | inr (zero, now) ↦
        let t = drop_connection s in
        let one : write_data m s ≡ t = ground (arith, up, now) in
        let e = ap (write_all l) one ∙ write_all-failed l t now refl (ground (arith, up)) in
        record {
          same_server = ap (λ t. t.server) e;
          taken = ap (λ t. t.sent) e ∙ ground (arith, now, append-nil s.sent);
          kept = ap (λ t. t.managed) e ∙ ground (arith, now);
          stopped = ap (λ t. t.is_open) e ∙ ground (arith, now, up);
        }
    | inr (suc n, later) ↦
        let t = record s { sent = s.sent ++ m ∷ []; breaks = some n } in
        let one : write_data m s ≡ t = ground (arith, up, later) in
        let e = ap (write_all l) one in
        let w = write_all-Written l t up in
        record {
          same_server = ap (λ t. t.server) e ∙ w.same_server;
          taken =
              ap (λ t. t.sent) e
              ∙ w.taken
              ∙ append_assoc s.sent (m ∷ []) (delivered (some n) l)
              ∙ ground (arith, later);
          kept = ap (λ t. t.managed) e ∙ w.kept ∙ ground (arith, later);
          stopped = ap (λ t. t.is_open) e ∙ w.stopped ∙ ground (arith, later);
        }
  ]
