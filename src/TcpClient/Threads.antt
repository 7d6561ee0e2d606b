-- ===== src/TcpClient/Threads.antt =====
-- Callers and the loop's threads over one transport of src/msgpack/rpc/transport/tcp.cc. A caller enters
-- its request in the table, takes the transport's mutex to find the socket open or to connect it, lets go
-- of the mutex, and sends; a handler of an error empties the table, and closes the socket after that.
-- Other threads go on between these steps. The timer of a connection attempt takes no mutex: its handler
-- finds the socket closed, closes it, and empties the table, in three steps. A request is its place in
-- `requests`.
use msgpack_rpc_boost.Prelude.{
  ℕ, suc, ◌≡◌, Bool, true, false, Option, none, some, List, [], ◌∷◌, ◌++◌, map, ltb, get_elem?, set,
  if◌then◌else◌,
}

-- How far the caller of a request is. `passed` is with a connection and before the send, `skipped` is
-- back from a send that found the socket closed, `broken` from one whose write failed.
pub data Stage : Type 0 where
  entered passed written skipped broken threw : Stage

-- `in_table` says that the request waits in the table; `exposed` that it was entered while a handler had
-- emptied the table and not closed the socket yet.
pub record Request : Type 0 where
  pub stage : Stage
  pub in_table : Bool
  pub exposed : Bool

-- `connecting` is the caller that holds the mutex and connects; `closing` counts the handlers that have
-- emptied the table and not closed the socket; `expiring` counts the timer's handlers that have found the
-- socket closed and not closed it yet, `expired` those that have closed it and not emptied the table.
pub record Link : Type 0 where
  pub requests : List Request
  pub is_open : Bool
  pub connecting : Option ℕ
  pub closing : ℕ
  pub expiring : ℕ
  pub expired : ℕ

abbrev pub taken : Request → Request
taken q = record q { in_table = false }

abbrev to_stage : ℕ → Request → Stage → Link → Link
to_stage r q stage s = record s { requests = set s.requests r (record q { stage = stage }) }

-- `m_reqtable.insert(msgid, f)`
unfoldable pub enter : Link → Link
enter s = record s {
  requests =
      s.requests ++ record { stage = entered; in_table = true; exposed = ltb 0 s.closing } ∷ [];
}

-- `m_reqtable.take(msgid)` of a response, or of the timer.
unfoldable pub leave : ℕ → Request → Link → Link
leave r q s = record s { requests = set s.requests r (taken q) }

-- `m_reqtable.take_all(&all)`
unfoldable pub take_all : Link → Link
take_all s = record s { requests = map taken s.requests }

-- Under the mutex, where the socket is open.
unfoldable pub pass : ℕ → Request → Link → Link
pass r q s = to_stage r q passed s

-- The first attempt to connect, or another one: it opens the socket.
unfoldable pub attempt : ℕ → Link → Link
attempt r s = record s { connecting = some r; is_open = true }

-- The end of `connect` where the last attempt succeeded: it throws if the socket is closed again.
unfoldable pub connect_end : ℕ → Request → Link → Link
connect_end r q s =
    to_stage r q (if s.is_open then passed else threw) (record s { connecting = none })

-- `on_connect_failed`: the socket is closed, and then the table is emptied and the call throws.
unfoldable pub shut : Link → Link
shut s = record s { is_open = false }

unfoldable pub give_up : ℕ → Request → Link → Link
unfolding take_all
give_up r q s = take_all (to_stage r q threw (record s { connecting = none }))

-- `stream_handler::send_data`
unfoldable pub write : ℕ → Request → Link → Link
write r q s = to_stage r q written s

unfoldable pub skip : ℕ → Request → Link → Link
skip r q s = to_stage r q skipped s

-- `client_socket::on_system_error`, in two steps.
unfoldable pub tell_session : Link → Link
unfolding take_all
tell_session s = record (take_all s) { closing = suc s.closing }

unfoldable pub close_socket : ℕ → Link → Link
close_socket others s = record s { is_open = false; closing = others }

-- A failed write, up to the closing of the socket.
unfoldable pub break_off : ℕ → Request → Link → Link
unfolding tell_session
break_off r q s = tell_session (to_stage r q broken s)

-- `on_timeout`, whose time is over: it finds the socket closed, and then does what `on_connect_failed` does.
unfoldable pub time_out : Link → Link
time_out s = record s { expiring = suc s.expiring }

unfoldable pub expire : ℕ → Link → Link
expire others s = record s { is_open = false; expiring = others; expired = suc s.expired }

unfoldable pub fail_all : ℕ → Link → Link
unfolding take_all
fail_all others s = record (take_all s) { expired = others }

-- What one thread does at once.
pub data Move (s : Link) : Link → Type 0 where
  enters : Move s (enter s)
  leaves : (r : ℕ) (q : Request) → get_elem? s.requests r ≡ some q → Move s (leave r q s)
  finds_open :
      (r : ℕ) (q : Request)
      → get_elem? s.requests r ≡ some q
      → q.stage ≡ entered
      → s.connecting ≡ none
      → s.is_open ≡ true
      → Move s (pass r q s)
  begins :
      (r : ℕ) (q : Request)
      → get_elem? s.requests r ≡ some q
      → q.stage ≡ entered
      → s.connecting ≡ none
      → s.is_open ≡ false
      → Move s (attempt r s)
  retries : (r : ℕ) → s.connecting ≡ some r → Move s (attempt r s)
  connects :
      (r : ℕ) (q : Request)
      → get_elem? s.requests r ≡ some q
      → s.connecting ≡ some r
      → Move s (connect_end r q s)
  shuts : (r : ℕ) → s.connecting ≡ some r → Move s (shut s)
  gives_up :
      (r : ℕ) (q : Request)
      → get_elem? s.requests r ≡ some q
      → s.connecting ≡ some r
      → s.is_open ≡ false
      → Move s (give_up r q s)
  writes :
      (r : ℕ) (q : Request)
      → get_elem? s.requests r ≡ some q
      → q.stage ≡ passed
      → s.is_open ≡ true
      → Move s (write r q s)
  breaks_off :
      (r : ℕ) (q : Request)
      → get_elem? s.requests r ≡ some q
      → q.stage ≡ passed
      → s.is_open ≡ true
      → Move s (break_off r q s)
  skips :
      (r : ℕ) (q : Request)
      → get_elem? s.requests r ≡ some q
      → q.stage ≡ passed
      → s.is_open ≡ false
      → Move s (skip r q s)
  read_fails : Move s (tell_session s)
  times_out : s.is_open ≡ false → Move s (time_out s)
  expires : (others : ℕ) → s.expiring ≡ suc others → Move s (expire others s)
  fails_all : (others : ℕ) → s.expired ≡ suc others → Move s (fail_all others s)
  closes : (others : ℕ) → s.closing ≡ suc others → Move s (close_socket others s)

abbrev pub unconnected : Link
unconnected = record {
  requests = [];
  is_open = false;
  connecting = none;
  closing = 0;
  expiring = 0;
  expired = 0;
}

-- Moves of any threads, in any order.
pub data Runs : Link → Type 0 where
  begins_with : Runs unconnected
  moves : {s t : Link} → Runs s → Move s t → Runs t
