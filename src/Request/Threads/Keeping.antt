-- ===== src/Request/Threads/Keeping.antt =====
-- What one step of a thread that answers a request (src/msgpack/rpc/request_impl.h) keeps.
use msgpack_rpc_boost.Prelude.{
  ℕ, ◌+◌, ◌≤◌, ◌≡◌, ap, refl, none, some, List, arith, length, get_elem?, ◌⊎◌, All, inl, inr,
}
use msgpack_rpc_boost.Protocol.{Codec, msg_response}
use msgpack_rpc_boost.Request.{RequestImpl, SenderRef, is_sent}
use msgpack_rpc_boost.Request.Threads.{Stage, begins, packed, grasps, resets, ended, advance}
use msgpack_rpc_boost.Request.Threads.Counts.{past}

module _ {Object Bytes : Type 0} (codec : Codec Object Bytes) (peer : SenderRef) (id : ℕ)
    (offers : List (Object × Object)) where
  -- A response that one of the calls asks for.
  abbrev pub Offered : Object → Object → Type 0
  Offered res err = (i : ℕ) × (get_elem? offers i ≡ some (res, err))

  abbrev pub Response : Bytes → Type 0
  Response buf =
      (res : Object) × (err : Object) × (i : ℕ) × (get_elem? offers i ≡ some (res, err))
      × (buf ≡ codec.pack_response (msg_response res err id))

  -- A thread with so many responses sent.
  abbrev pub Told : ℕ → Stage Object Bytes → Type 0
  Told n (begins res err) = Offered res err
  Told n (packed buf) = Response buf
  Told n (grasps ms buf) = (ms ≡ peer) × Response buf
  Told n resets = 1 ≤ n
  Told n ended = 1 ≤ n

  pub Told-mono : (n m : ℕ) (c : Stage Object Bytes) → n ≤ m → Told n c → Told m c
  Told-mono n m (begins res err) le t = t
  Told-mono n m (packed buf) le t = t
  Told-mono n m (grasps ms buf) le t = t
  Told-mono n m resets le t = omega arith
  Told-mono n m ended le t = omega arith

  abbrev pub Sends : SenderRef × Bytes → Type 0
  Sends x = (x.0 ≡ peer) × Response x.1

  -- What a thread's next step keeps.
  pub record Advances (n : ℕ) (c : Stage Object Bytes) (r : RequestImpl Object)
      (c' : Stage Object Bytes) (r' : RequestImpl Object) (out : List (SenderRef × Bytes))
      : Type 0 where
    pub same_id : r'.msgid ≡ id
    pub sender : (r'.ms ≡ some peer) ⊎ ((r'.ms ≡ none) × (1 ≤ n + length out))
    pub told : Told (n + length out) c'
    pub sends : All Sends out
    pub counted : past c + length out ≤ past c'

  still :
      (n k : ℕ) (r : RequestImpl Object)
      → (r.ms ≡ some peer) ⊎ ((r.ms ≡ none) × (1 ≤ n))
      → (r.ms ≡ some peer) ⊎ ((r.ms ≡ none) × (1 ≤ n + k))
  still n k r (inl there) = inl there
  still n k r (inr (gone, some_sent)) = inr (gone, omega arith)

  pub advance-Advances :
      (n : ℕ) (c : Stage Object Bytes) (r : RequestImpl Object)
      → r.msgid ≡ id
      → (r.ms ≡ some peer) ⊎ ((r.ms ≡ none) × (1 ≤ n))
      → Told n c
      → Advances n c r (advance codec c r).0 (advance codec c r).1 (advance codec c r).2
  unfolding advance is_sent msg_response
  advance-Advances n (begins res err) r i m t = elim m [
    | inl there ↦ record {
      same_id = i;
      sender = inl there;
      told =
          rw there (res, err, t.0, t.1, ap (λ k. codec.pack_response (msg_response res err k)) i);
      sends = tt;
      counted = omega arith;
    }
    | inr (gone, some_sent) ↦ record {
      same_id = i;
      sender = inr (gone, omega arith);
      told = rw gone (ground (arith, some_sent));
      sends = tt;
      counted = ground (arith, gone);
    }
  ]
  advance-Advances n (packed buf) r i m t = elim m [
    | inl there ↦ record {
      same_id = ground (arith, there, i);
      sender = inl (ground (arith, there));
      told = rw there (refl, t);
      sends = rw there tt;
      counted = ground (arith, there);
    }
    | inr (gone, some_sent) ↦ record {
      same_id = ground (arith, gone, i);
      sender = inr (ground (arith, gone), ground (arith, gone, some_sent));
      told = rw gone (ground (arith, some_sent));
      sends = rw gone tt;
      counted = ground (arith, gone);
    }
  ]
  advance-Advances n (grasps ms buf) r i m t = record {
    same_id = i;
    sender = still n 1 r m;
    told = omega arith;
    sends = (t, tt);
    counted = omega arith;
  }
  advance-Advances n resets r i m t = record {
    same_id = i;
    sender = inr (refl, omega arith);
    told = omega arith;
    sends = tt;
    counted = omega arith;
  }
  advance-Advances n ended r i m t = record {
    same_id = i;
    sender = still n 0 r m;
    told = omega arith;
    sends = tt;
    counted = omega arith;
  }
