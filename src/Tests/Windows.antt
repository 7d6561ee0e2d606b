-- ===== src/Tests/Windows.antt =====
-- Two requests over one socket, and a read that fails between them.
use msgpack_rpc_boost.Prelude.{◌≡◌, refl, true, false, some, get_elem?}
use msgpack_rpc_boost.TcpClient.Threads.{
  Stage, entered, passed, written, skipped, Request, Link, enter, pass, attempt, connect_end, write,
  skip, tell_session, close_socket, unconnected, Runs, begins_with, moves, enters, finds_open,
  begins, connects, writes, skips, read_fails, closes,
}
use msgpack_rpc_boost.TcpClient.Windows.{waits-Runs}

-- A request over a socket that its caller connects.
abbrev one : Request
one = record { stage = entered; in_table = true; exposed = false }

abbrev sent_one : Link
sent_one =
    write 0 (record one { stage = passed }) (connect_end 0 one (attempt 0 (enter unconnected)))

sent_one-Runs : Runs sent_one
unfolding enter attempt connect_end
sent_one-Runs =
    moves
      (moves (moves (moves begins_with enters) (begins 0 one refl refl refl refl))
        (connects 0 one refl refl))
      (writes 0 (record one { stage = passed }) refl refl refl)

-- Then a read fails, and another request comes before the socket is closed: it is neither written nor
-- taken out of the table.
abbrev two : Request
two = record { stage = entered; in_table = true; exposed = true }

abbrev lost : Link
lost =
    skip 1 (record two { stage = passed })
      (close_socket 0 (pass 1 two (enter (tell_session sent_one))))

lost-Runs : Runs lost × (get_elem? lost.requests 1 ≡ some (record two { stage = skipped }))
unfolding enter attempt connect_end write tell_session pass close_socket skip
lost-Runs = (
  moves
      (moves
        (moves (moves (moves sent_one-Runs read_fails) enters)
          (finds_open 1 two refl refl refl refl))
        (closes 0 refl))
      (skips 1 (record two { stage = passed }) refl refl refl),
  refl,
)

waits-Runs_example :
    (◌≡◌ {A = Stage} written written) × (sent_one.is_open ≡ true) × (sent_one.closing ≡ 0)
unfolding enter attempt connect_end write
waits-Runs_example =
    waits-Runs sent_one 0 (record one { stage = written }) sent_one-Runs refl refl refl refl refl
      refl
