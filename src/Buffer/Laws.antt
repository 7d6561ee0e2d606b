-- ===== src/Buffer/Laws.antt =====
-- Who owns the bytes of a buffer of src/msgpack/rpc/buffer.cc.
use msgpack_rpc_boost.Buffer.{
  Memory, Block, BlockRef, Pointer, Buffer, take_bytes, drop_bytes, block_at, read, contents,
  released, release, converted, invalid_read, convert, to_object,
}
use msgpack_rpc_boost.Prelude.{
  ℕ, zero, suc, ◌≡◌, ◌≢◌, ◌∙◌, refl, ap, sym, subst, false, Option, none, some, List, [], ◌∷◌, ◌++◌,
  arith, ◌==◌, get_elem?, set, length, get_elem?-set, get_elem?-set_ne, get_elem?-append_last,
  get_elem?-lt, Option-cases, Bool-cases, inl, inr,
}

-- A read takes as many bytes as asked for, and taking them all again gives the same.
take_bytes-take_bytes :
    (n : ℕ) (bs rs : List ℕ) → take_bytes n bs ≡ some rs → take_bytes n rs ≡ some rs
take_bytes-take_bytes zero bs rs h = ground arith
take_bytes-take_bytes (suc n) [] rs h = cc
take_bytes-take_bytes (suc n) (b ∷ bs) rs h = elim (Option-cases (take_bytes n bs)) [
  | inl short ↦ ground arith
  | inr (qs, found) ↦ ground (arith, take_bytes-take_bytes n bs qs found)
]

take_bytes-zero : (bs rs : List ℕ) → take_bytes 0 bs ≡ some rs → rs ≡ []
take_bytes-zero bs rs h = ground arith

read-zero : (p : Pointer) (mem : Memory) {bs : List ℕ} → read p 0 mem ≡ some bs → bs ≡ []
read-zero p mem h = elim (Option-cases (block_at mem p.block)) [
  | inl gone ↦ ground arith
  | inr (b, found) ↦ ground arith
]

read-take :
    (p : Pointer) (n : ℕ) (mem : Memory) (bs : List ℕ)
    → read p n mem ≡ some bs
    → take_bytes n bs ≡ some bs
read-take p n mem bs h = elim (Option-cases (block_at mem p.block)) [
  | inl gone ↦ ground arith
  | inr (b, found) ↦ take_bytes-take_bytes n (drop_bytes p.offset b.bytes) bs (ground arith)
]

-- Letting go of another block changes nothing that is read here.
read-release :
    (p : Pointer) (n : ℕ) (own : Option BlockRef) (mem : Memory)
    → own ≢ some p.block
    → read p n (release own mem) ≡ read p n mem
unfolding release
read-release p n none mem other = refl
read-release p n (some r) mem other =
    ground
      (arith, get_elem?-set_ne mem r p.block (released (block_at mem r)) (λ e. other (ap some e)))

read-lt :
    (p : Pointer) (n : ℕ) (mem : Memory) {bs : List ℕ}
    → read p n mem ≡ some bs
    → (p.block == length mem) ≡ false
read-lt p n mem h = elim (Option-cases (get_elem? mem p.block)) [
  | inl none_there ↦ ground arith
  | inr (b, found) ↦ ground (arith, get_elem?-lt mem p.block b found)
]

-- A new block at the end, after another one was freed.
block_at-last :
    (mem : Memory) (b : Block) (r : BlockRef)
    → (r == length mem) ≡ false
    → (block_at (mem ++ some b ∷ []) (length mem) ≡ some b)
      × (block_at (set (mem ++ some b ∷ []) r none) (length mem) ≡ some b)
block_at-last mem b r other = (
  ground (arith, get_elem?-append_last mem (some b)),
  ground (
    arith,
    get_elem?-append_last mem (some b),
    get_elem?-set (mem ++ some b ∷ []) r (length mem) none,
  ),
)

-- A binary object whose bytes can be read converts into a buffer that does not own the block where
-- they are: the buffer then has these bytes, of that size, and it has them still when the block that
-- they came from is freed, as the zone of a message is.
pub convert_owns :
    (p : Pointer) (n : ℕ) (v : Buffer) (mem : Memory) (bs : List ℕ)
    → read p n mem ≡ some bs
    → v.own ≢ some p.block
    → (w : Buffer) × (after : Memory) × (convert (some (some p, n)) v mem ≡ converted w after)
      × (w.size ≡ n)
      × (contents w after ≡ some bs)
      × (contents w (set after p.block none) ≡ some bs)
unfolding convert
convert_owns p n v mem bs here apart =
    let mem1 = release v.own mem in
    let kept = read-release p n v.own mem apart ∙ here in
    elim (Bool-cases (n == 0)) [
      | inl empty ↦
          let zero_size : n ≡ 0 = ground arith in
          let nothing : bs ≡ [] =
            read-zero p mem (subst (λ k. read p k mem ≡ some bs) zero_size here) in
          (
            record { size = 0; ptr = none; own = none },
            mem1,
            ground arith,
            sym zero_size,
            sym (ap some nothing),
            sym (ap some nothing),
          )
      | inr full ↦
          let b : Block = record { bytes = bs; owners = 1 } in
          let (before, freed) = block_at-last mem1 b p.block (read-lt p n mem1 kept) in
          let all = read-take p n mem bs here in
          (
            record {
              size = n;
              ptr = some (record { block = length mem1; offset = 0 });
              own = some (length mem1);
            },
            mem1 ++ some b ∷ [],
            ground (arith, kept),
            refl,
            ground arith,
            ground arith,
          )
    ]

-- A buffer that is the only owner of its bytes cannot be converted from the object that it is itself
-- put into: the block is freed before it is copied, and the copy reads freed memory.
pub convert-to_object :
    (v : Buffer) (p : Pointer) (mem : Memory) (b : Block)
    → v.ptr ≡ some p
    → v.own ≡ some p.block
    → block_at mem p.block ≡ some b
    → b.owners ≡ 1
    → (v.size == 0) ≡ false
    → convert (some (to_object v)) v mem ≡ invalid_read
unfolding convert to_object
convert-to_object v p mem b at own found alone full =
    ground (arith, get_elem?-set mem p.block p.block (released (block_at mem p.block)))
