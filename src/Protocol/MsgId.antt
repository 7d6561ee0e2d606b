-- ===== src/Protocol/MsgId.antt =====
-- src/msgpack/rpc/atomic_ops.h, the GCC branch: a message id is an `int`, kept here as its 32-bit
-- pattern, and `__sync_fetch_and_add` wraps.
use msgpack_rpc_boost.Prelude.{
  ℕ, zero, suc, ◌+◌, ◌%◌, ◌^◌, ◌≤◌, ◌<◌, ◌≡◌, ◌≢◌, List, [], ◌∷◌, some, arith, get_elem?,
}

-- The value returned, and the value left behind.
unfoldable pub atomic_increment : ℕ → ℕ × ℕ
atomic_increment p = (p, (p + 1) % 2 ^ 32)

-- The results of `n` calls one after another.
unfoldable pub increments : ℕ → ℕ → List ℕ
increments zero p = []
increments (suc n) p = (atomic_increment p).0 ∷ increments n (atomic_increment p).1

get_elem?-increments :
    (n p i : ℕ) → p < 2 ^ 32 → i < n → get_elem? (increments n p) i ≡ some ((p + i) % 2 ^ 32)
unfolding increments atomic_increment
get_elem?-increments zero p i hp h = absurd (omega arith)
get_elem?-increments (suc n) p zero hp h = ground arith
get_elem?-increments (suc n) p (suc i) hp h =
    ground (arith, get_elem?-increments n ((p + 1) % 2 ^ 32) i)

-- Two calls among up to 2 ^ 32 consecutive ones never return the same id, from whatever id the
-- counter starts, the wrap-around included.
pub increments_distinct :
    (n p i j x y : ℕ)
    → p < 2 ^ 32
    → n ≤ 2 ^ 32
    → i < j
    → j < n
    → get_elem? (increments n p) i ≡ some x
    → get_elem? (increments n p) j ≡ some y
    → x ≢ y
increments_distinct n p i j x y hp hn hi hj ex ey =
    ground (arith, get_elem?-increments n p i, get_elem?-increments n p j)
