-- ===== src/Stream/Reading.antt =====
-- `stream_handler::on_read` of src/msgpack/rpc/transport/stream_handler.cc and `dgram_handler::on_read`
-- of dgram_handler.cc. The unpacker of the msgpack library is `Unpacker`; the messages go to a
-- handler that changes a state `S` and may throw, which leaves what it changed before.
use msgpack_rpc_boost.Prelude.{
  ℕ, zero, suc, ◌+◌, ◌*◌, ◌<◌, ◌≡◌, Bool, true, false, Option, none, some, List, [], ◌∷◌,
  if◌then◌else◌, ltb, ◌==◌,
}

-- What `next` gives: an object and the rest, nothing yet, or a parse error, which is thrown.
pub data Next (Object Pac : Type 0) : Type 0 where
  object : Object → Pac → Next Object Pac
  incomplete : Next Object Pac
  parse_error : Next Object Pac

-- `remaining` counts the bytes that are not unpacked: each object takes at least one.
pub record Unpacker (Object Bytes Pac : Type 0) : Type 0 where
  pub buffer_consumed : Bytes → Pac → Pac
  pub next : Pac → Next Object Pac
  pub message_size : Pac → ℕ
  pub remove_nonparsed_buffer : Pac → Pac
  pub remaining : Pac → ℕ
  pub next_consumes : (p q : Pac) (o : Object) → next p ≡ object o q → remaining q < remaining p

-- What the loop over the unpacked objects comes to.
pub data Drained (Pac S : Type 0) : Type 0 where
  drained : Pac → S → Drained Pac S
  thrown : Pac → S → Drained Pac S
  out_of_fuel : Drained Pac S

-- A socket: whether a read is pending, its unpacker, and the state behind its virtual functions.
pub record Handler (Pac S : Type 0) : Type 0 where
  pub reading : Bool
  pub pac : Pac
  pub state : S

abbrev pub max_message_size : ℕ
max_message_size = 10 * 1024 * 1024

module _ {Object Bytes Pac S : Type 0} (up : Unpacker Object Bytes Pac)
    -- The handler of one object: the state, and whether it threw.
    (handle : Object → S → S × Bool) where
  -- `while (m_pac->next(&result)) on_message(...)`
  unfoldable pub drain : ℕ → Pac → S → Drained Pac S
  drain zero p s = out_of_fuel
  drain (suc fuel) p s = elim (up.next p) [
    | object o q ↦
        let (t, threw) = handle o s in
        let rest = drain fuel q t in if threw then thrown q t else rest
    | incomplete ↦ drained p s
    | parse_error ↦ thrown p s
  ]

  -- `start`: the next read.
  unfoldable pub start : Handler Pac S → Handler Pac S
  start h = record h { reading = true }

  module _ (on_system_error : S → S) where
    abbrev pub failed : Pac → S → Handler Pac S
    failed p s = record {
      reading = false;
      pac = up.remove_nonparsed_buffer p;
      state = on_system_error s;
    }

    -- What follows the loop; `none` is the fuel's end.
    unfoldable pub settle : Drained Pac S → Option (Handler Pac S)
    unfolding start
    settle (drained q t) = some (
        if ltb max_message_size (up.message_size q)
        then failed q t
        else start (record { reading = false; pac = q; state = t }))
    settle (thrown q t) = some (failed q t)
    settle out_of_fuel = none

    -- `err` is 0, or the error of the read.
    unfoldable pub on_read : ℕ → Bytes → Handler Pac S → Option (Handler Pac S)
    unfolding drain settle
    on_read err buf h =
        let p = up.buffer_consumed buf h.pac in
        if err == 0
        then settle (drain (up.remaining p + 1) p h.state)
        else some (failed h.pac h.state)

  -- A datagram socket has no limit on the message, and tells nobody of an error.
  unfoldable pub on_datagram : ℕ → Bytes → Handler Pac S → Option (Handler Pac S)
  unfolding drain
  on_datagram err buf h =
      if err == 0
      then (let p = up.buffer_consumed buf h.pac in
          elim (drain (up.remaining p + 1) p h.state) [
            | drained q t ↦ some (record { reading = true; pac = q; state = t })
            | thrown q t ↦
                some (record { reading = false; pac = up.remove_nonparsed_buffer q; state = t })
            | out_of_fuel ↦ none
          ])
      else some
          (record { reading = false; pac = up.remove_nonparsed_buffer h.pac; state = h.state })

  -- The objects that a run of the unpacker yields, handled one after another without an exception.
  pub data Handled : Pac → S → List Object → Pac → S → Type 0 where
    finished : {p : Pac} {s : S} → Handled p s [] p s
    one :
        {p q r : Pac} {s t u : S} {os : List Object} (o : Object)
        → up.next p ≡ object o q
        → handle o s ≡ (t, false)
        → Handled q t os r u
        → Handled p s (o ∷ os) r u
