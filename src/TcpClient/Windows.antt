-- ===== src/TcpClient/Windows.antt =====
-- Which requests a thread of src/msgpack/rpc/transport/tcp.cc can lose: those that come between the two steps
-- of `client_socket::on_system_error`.
use msgpack_rpc_boost.Prelude.{
  ℕ, ◌≡◌, ◌≢◌, ◌⊎◌, refl, Bool, true, false, some, none, List, [], ◌∷◌, arith, map, All, All-append,
  All-imp, All-set, All-get_elem?, get_elem?, set, if◌then◌else◌, inl, inr,
}
use msgpack_rpc_boost.TcpClient.Threads.{
  Stage, entered, passed, written, skipped, broken, threw, Request, Link, taken, enter, leave,
  take_all, pass, attempt, connect_end, shut, give_up, write, skip, tell_session, close_socket,
  break_off, Move, Runs, begins_with, moves, enters, leaves, finds_open, begins, retries, connects,
  time_out, expire, fail_all, times_out, expires, fails_all, shuts, gives_up, writes, breaks_off,
  skips, read_fails, closes,
}

-- The caller is past the check of the connection, and has not been thrown out.
abbrev settled : Stage → Bool
settled passed = true
settled written = true
settled skipped = true
settled _ = false

-- The call has returned a future, and nothing went wrong that it was told of.
abbrev pub returned : Stage → Bool
returned written = true
returned skipped = true
returned _ = false

was_written : (p : Stage) → returned p ≡ true → p ≢ skipped → p ≡ written
was_written written back sent = refl
was_written skipped back sent = absurd (sent refl)
was_written entered back sent = cc
was_written passed back sent = cc
was_written broken back sent = cc
was_written threw back sent = cc

returned-settled : (p : Stage) → returned p ≡ true → settled p ≡ true
returned-settled written back = refl
returned-settled skipped back = refl
returned-settled entered back = cc
returned-settled passed back = cc
returned-settled broken back = cc
returned-settled threw back = cc

-- What holds of a request that waits in the table and was not exposed.
abbrev Safe : Link → Request → Type 0
Safe s q =
    q.in_table ≡ true
    → q.exposed ≡ false
    → (s.closing ≡ 0)
      × (settled q.stage ≡ true → (s.is_open ≡ true) × (s.connecting ≡ none))
      × (q.stage ≢ skipped)

taken-Safe : (s : Link) (qs : List Request) → All (Safe s) (map taken qs)
taken-Safe s [] = tt
taken-Safe s (q ∷ qs) = ((λ here safe. absurd (ground arith)), taken-Safe s qs)

-- Where the socket is closed, or a caller connects, nobody safe is past the check.
unsettled :
    (s t : Link) (qs : List Request)
    → ((s.is_open ≡ false) ⊎ ((r : ℕ) × (s.connecting ≡ some r)))
    → t.closing ≡ s.closing
    → All (Safe s) qs
    → All (Safe t) qs
unsettled s t qs away same h =
    All-imp (Safe s) (Safe t) qs
      (λ q safe here hidden.
        let (no_window, alive, sent) = safe here hidden in
        (
          ground (arith, same, no_window),
          λ past.
              let (up, free) = alive past in
              elim away [
                | inl down ↦ absurd (ground (arith, up, down))
                | inr (r, busy) ↦ absurd (ground (arith, free, busy))
              ],
          sent,
        ))
      h

module _ (s : Link) (h : All (Safe s) s.requests) where
  Safe-at : (r : ℕ) (q : Request) → get_elem? s.requests r ≡ some q → Safe s q
  Safe-at r q e = All-get_elem? (Safe s) s.requests r q e h

  enter-Safe : All (Safe (enter s)) (enter s).requests
  unfolding enter
  enter-Safe =
      All-append (Safe s) s.requests _ h
        ((λ here hidden. (ground (arith, hidden), λ past. cc, λ x. cc)), tt)

  leave-Safe : (r : ℕ) (q : Request) → All (Safe (leave r q s)) (leave r q s).requests
  unfolding leave
  leave-Safe r q = All-set (Safe s) s.requests r (taken q) h (λ here hidden. cc)

  -- One caller goes on, in a way that is safe for its request.
  goes_on :
      (r : ℕ) (q : Request) (p : Stage)
      → get_elem? s.requests r ≡ some q
      → (settled p ≡ true
          → q.in_table ≡ true
          → q.exposed ≡ false
          → (s.is_open ≡ true) × (s.connecting ≡ none))
      → (q.in_table ≡ true → q.exposed ≡ false → p ≢ skipped)
      → All (Safe s) (set s.requests r (record q { stage = p }))
  goes_on r q p e alive sent =
      All-set (Safe s) s.requests r (record q { stage = p }) h
        (λ here hidden.
          ((Safe-at r q e here hidden).0, λ past. alive past here hidden, sent here hidden))

-- With no handler of the timer on its way.
abbrev IsSafe : Link → Type 0
IsSafe s = s.expiring ≡ 0 → s.expired ≡ 0 → All (Safe s) s.requests

Move-Safe : (s t : Link) → IsSafe s → Move s t → IsSafe t
unfolding pass attempt connect_end shut give_up write skip tell_session close_socket break_off
    take_all time_out expire fail_all enter leave
Move-Safe s t safe enters calm quiet = let h = safe calm quiet in enter-Safe s h
Move-Safe s t safe (leaves r q e) calm quiet = let h = safe calm quiet in leave-Safe s h r q
Move-Safe s t safe (finds_open r q e f c o) calm quiet =
    let h = safe calm quiet in
    goes_on s h r q passed e (λ past here hidden. (o, c)) (λ here hidden x. cc)
Move-Safe s t safe (begins r q e f c o) calm quiet =
    let h = safe calm quiet in unsettled s (attempt r s) s.requests (inl o) refl h
Move-Safe s t safe (retries r c) calm quiet =
    let h = safe calm quiet in unsettled s (attempt r s) s.requests (inr (r, c)) refl h
Move-Safe s t safe (connects r q e c) calm quiet =
    let h = safe calm quiet in
    let free = record s { connecting = none } in
    goes_on free (unsettled s free s.requests (inr (r, c)) refl h) r q
      (if s.is_open then passed else threw) e (λ past here hidden. (ground (arith, past), refl))
      (λ here hidden x. ground (arith, x))
Move-Safe s t safe (shuts r c) calm quiet =
    let h = safe calm quiet in unsettled s (shut s) s.requests (inr (r, c)) refl h
Move-Safe s t safe (gives_up r q e c o) calm quiet = taken-Safe (give_up r q s) _
Move-Safe s t safe (writes r q e f o) calm quiet =
    let h = safe calm quiet in
    goes_on s h r q written e
      (λ past here hidden. (Safe-at s h r q e here hidden).1 (ground (arith, f)))
      (λ here hidden x. cc)
Move-Safe s t safe (breaks_off r q e f o) calm quiet = taken-Safe (break_off r q s) _
Move-Safe s t safe (skips r q e f o) calm quiet =
    let h = safe calm quiet in
    goes_on s h r q skipped e
      (λ past here hidden. (Safe-at s h r q e here hidden).1 (ground (arith, f)))
      (λ here hidden x.
        let (up, free) = (Safe-at s h r q e here hidden).1 (ground (arith, f)) in
        absurd (ground (arith, up, o)))
Move-Safe s t safe read_fails calm quiet = let h = safe calm quiet in taken-Safe (tell_session s) _
Move-Safe s t safe (closes others e) calm quiet =
    let h = safe calm quiet in
    All-imp (Safe s) (Safe (close_socket others s)) s.requests
      (λ q safe here hidden. absurd (ground (arith, (safe here hidden).0, e))) h
Move-Safe s t safe (times_out down) calm quiet = cc
Move-Safe s t safe (expires others e) calm quiet = cc
Move-Safe s t safe (fails_all others e) calm quiet = taken-Safe (fail_all others s) s.requests

Runs-Safe : (s : Link) → Runs s → IsSafe s
Runs-Safe s begins_with calm quiet = tt
Runs-Safe t (moves {s} run m) calm quiet = Move-Safe s t (Runs-Safe s run) m calm quiet

-- However the callers and the threads of the loop interleave: a request that waits in the table after its
-- call has returned was written, the socket is open, and no handler of an error is about to close it,
-- unless the request was entered while such a handler had emptied the table and not closed the socket
-- yet, or a handler of the timer is on its way that has found the socket closed and not emptied the table
-- yet.
pub waits-Runs :
    (s : Link) (r : ℕ) (q : Request)
    → Runs s
    → get_elem? s.requests r ≡ some q
    → q.in_table ≡ true
    → returned q.stage ≡ true
    → q.exposed ≡ false
    → s.expiring ≡ 0
    → s.expired ≡ 0
    → (q.stage ≡ written) × (s.is_open ≡ true) × (s.closing ≡ 0)
waits-Runs s r q run e here back hidden calm quiet =
    let (no_window, alive, sent) = Safe-at s (Runs-Safe s run calm quiet) r q e here hidden in
    (was_written q.stage back sent, (alive (returned-settled q.stage back)).0, no_window)
