-- ===== src/Buffer.antt =====
-- src/msgpack/rpc/buffer.h and buffer.cc: bytes that are wrapped where they are, or owned. The memory
-- is a list of blocks; a block that was freed is `none`, and the shared arrays count their owners. A
-- pointer is a block and a place in it, and a read of freed memory, or past a block's end, is `none`.
pub mod Laws
use msgpack_rpc_boost.Prelude.{
  ℕ, zero, suc, ◌+◌, ◌-◌, Bool, true, false, Option, none, some, List, [], ◌∷◌, ◌++◌, ltb, leb,
  ◌==◌, is_set, if◌then◌else◌, get_elem?, set, length,
}

abbrev pub BlockRef : Type 0
BlockRef = ℕ

pub record Block : Type 0 where
  pub bytes : List ℕ
  pub owners : ℕ

abbrev pub Memory : Type 0
Memory = List (Option Block)

pub record Pointer : Type 0 where
  pub block : BlockRef
  pub offset : ℕ

-- `m_size` is below 2 ^ 32.
pub record Buffer : Type 0 where
  pub size : ℕ
  pub ptr : Option Pointer
  pub own : Option BlockRef

-- The bytes from a place on, as many as asked for.
abbrev pub take_bytes : ℕ → List ℕ → Option (List ℕ)
take_bytes zero bs = some []
take_bytes (suc n) [] = none
take_bytes (suc n) (b ∷ bs) = elim (take_bytes n bs) [ none ↦ none | some r ↦ some (b ∷ r) ]

abbrev pub drop_bytes : ℕ → List ℕ → List ℕ
drop_bytes zero bs = bs
drop_bytes (suc n) [] = []
drop_bytes (suc n) (b ∷ bs) = drop_bytes n bs

abbrev pub block_at : Memory → BlockRef → Option Block
block_at mem r = elim (get_elem? mem r) [ none ↦ none | some b ↦ b ]

abbrev pub bytes_at : Pointer → ℕ → Option Block → Option (List ℕ)
bytes_at p n none = none
bytes_at p n (some b) = take_bytes n (drop_bytes p.offset b.bytes)

-- `memcpy` from here, or the read of a buffer's bytes.
abbrev pub read : Pointer → ℕ → Memory → Option (List ℕ)
read p n mem = bytes_at p n (block_at mem p.block)

-- The empty buffer reads nothing.
abbrev pub contents : Buffer → Memory → Option (List ℕ)
contents v mem = elim v.ptr [ none ↦ some [] | some p ↦ read p v.size mem ]

-- One owner less; the last one frees the block.
abbrev pub released : Option Block → Option Block
released none = none
released (some b) = if leb b.owners 1 then none else some (record b { owners = b.owners - 1 })

unfoldable pub release : Option BlockRef → Memory → Memory
release none mem = mem
release (some r) mem = set mem r (released (block_at mem r))

unfoldable pub clear : Buffer → Memory → Buffer × Memory
unfolding release
clear v mem = (record { size = 0; ptr = none; own = none }, release v.own mem)

unfoldable pub wrap : Option Pointer → ℕ → Buffer → Memory → Buffer × Memory
unfolding release
wrap p s v mem = (record { size = s; ptr = p; own = none }, release v.own mem)

-- `new char[m_size]` and `memcpy`; `none` is a read of memory that is not there.
abbrev pub copied : ℕ → Option (List ℕ) → Memory → Option (Buffer × Memory)
copied n none mem = none
copied n (some bs) mem = some (
  record {
    size = n;
    ptr = some (record { block = length mem; offset = 0 });
    own = some (length mem);
  },
  mem ++ some (record { bytes = bs; owners = 1 }) ∷ [],
)

unfoldable pub make_unwrapped : Buffer → Memory → Option (Buffer × Memory)
unfolding clear
make_unwrapped v mem = if is_set v.own then some (v, mem) else elim v.ptr [
  | none ↦ some (clear v mem)
  | some p ↦ if v.size == 0 then some (clear v mem) else copied v.size (read p v.size mem) mem
]

-- How a conversion ends.
pub data Converted : Type 0 where
  converted : Buffer → Memory → Converted
  type_error : Converted
  invalid_read : Converted

abbrev pub finished : Option (Buffer × Memory) → Converted
finished none = invalid_read
finished (some (v, mem)) = converted v mem

-- operator>>, of an object that is a BIN with a pointer and a size, or is none.
unfoldable pub convert : Option (Option Pointer × ℕ) → Buffer → Memory → Converted
unfolding wrap make_unwrapped
convert none v mem = type_error
convert (some (p, n)) v mem = let (w, mem') = wrap p n v mem in finished (make_unwrapped w mem')

-- operator<<: the object refers to the buffer's bytes.
unfoldable pub to_object : Buffer → Option Pointer × ℕ
to_object v = (v.ptr, v.size)

-- The copy constructor shares the array.
abbrev pub shared : Option Block → Option Block
shared none = none
shared (some b) = some (record b { owners = b.owners + 1 })

unfoldable pub copy : Buffer → Memory → Buffer × Memory
copy v mem = elim v.own [ none ↦ (v, mem) | some r ↦ (v, set mem r (shared (block_at mem r))) ]
