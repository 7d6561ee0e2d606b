-- ===== src/Tests/Chunks.antt =====
-- Messages of two numbers, that come in reads of one, two and three numbers.
use msgpack_rpc_boost.Prelude.{
  ℕ, ◌+◌, ◌<◌, ◌≡◌, refl, sym, Bool, false, some, List, [], ◌∷◌, ◌++◌, arith, length, true,
}
use mathlib.Core.List.{append_assoc}
use msgpack_rpc_boost.Stream.Chunks.{Streaming, joined, last, more, Reads-on_read}
use msgpack_rpc_boost.Stream.Reading
use msgpack_rpc_boost.Stream.Reading.{
  Next, object, incomplete, Unpacker, Handler, on_read, drain, settle,
}

abbrev next_two : List ℕ → Next (ℕ × ℕ) (List ℕ)
next_two [] = incomplete
next_two (m ∷ []) = incomplete
next_two (m ∷ n ∷ ns) = object (m, n) ns

next_two-consumes : (p q : List ℕ) (o : ℕ × ℕ) → next_two p ≡ object o q → length q < length p
next_two-consumes [] q o e = cc
next_two-consumes (m ∷ []) q o e = cc
next_two-consumes (m ∷ n ∷ ns) q o e = ground arith

next_two-more :
    (b p q : List ℕ) (o : ℕ × ℕ) → next_two p ≡ object o q → next_two (p ++ b) ≡ object o (q ++ b)
next_two-more b [] q o e = cc
next_two-more b (m ∷ []) q o e = cc
next_two-more b (m ∷ n ∷ ns) q o e = ground arith

abbrev twos : Unpacker (ℕ × ℕ) (List ℕ) (List ℕ)
twos = record {
  buffer_consumed = λ buf p. p ++ buf;
  next = next_two;
  message_size = length;
  remove_nonparsed_buffer = λ p. [];
  remaining = length;
  next_consumes = next_two-consumes;
}

abbrev fed : Streaming twos
fed = record {
  join_bytes = λ a b. a ++ b;
  consumed-join_bytes = λ a b p. sym (append_assoc p a b);
  next-consumed = next_two-more;
}

abbrev sums : ℕ × ℕ → List ℕ → List ℕ × Bool
sums o s = ((o.0 + o.1) ∷ s, false)

abbrev kept : List ℕ → List ℕ
kept s = s

abbrev reader : List ℕ → List ℕ → Handler (List ℕ) (List ℕ)
reader p s = record { reading = true; pac = p; state = s }

Reads-on_read_example :
    on_read twos sums kept 0
      (joined twos fed sums kept (1 ∷ []) ((2 ∷ 3 ∷ []) ∷ (4 ∷ 5 ∷ 6 ∷ []) ∷ []))
      (reader [] [])
    ≡ some (reader [] (11 ∷ 7 ∷ 3 ∷ []))
unfolding on_read drain settle Reading.start
Reads-on_read_example =
    Reads-on_read twos fed sums kept (1 ∷ []) ((2 ∷ 3 ∷ []) ∷ (4 ∷ 5 ∷ 6 ∷ []) ∷ []) (reader [] [])
      (reader [] (11 ∷ 7 ∷ 3 ∷ []))
      (more (1 ∷ []) (2 ∷ 3 ∷ []) refl refl
        (more (2 ∷ 3 ∷ []) (4 ∷ 5 ∷ 6 ∷ []) refl refl (last (4 ∷ 5 ∷ 6 ∷ []) refl)))
