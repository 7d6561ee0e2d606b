-- ===== src/Tests/Buffers.antt =====
-- A buffer filled from three bytes, and from itself.
use msgpack_rpc_boost.Buffer.{
  Memory, Pointer, Buffer, contents, converted, invalid_read, convert, to_object,
}
use msgpack_rpc_boost.Buffer.Laws.{convert_owns, convert-to_object}
use msgpack_rpc_boost.Prelude.{◌≡◌, refl, none, some, [], ◌∷◌, set}

abbrev memory : Memory
memory = some (record { bytes = 1 ∷ 2 ∷ 3 ∷ []; owners = 1 }) ∷ []

abbrev second : Pointer
second = record { block = 0; offset = 1 }

abbrev empty : Buffer
empty = record { size = 0; ptr = none; own = none }

convert_owns_example :
    (w : Buffer) × (after : Memory) × (convert (some (some second, 2)) empty memory
      ≡ converted w after)
    × (w.size ≡ 2)
    × (contents w after ≡ some (2 ∷ 3 ∷ []))
    × (contents w (set after 0 none) ≡ some (2 ∷ 3 ∷ []))
convert_owns_example = convert_owns second 2 empty memory (2 ∷ 3 ∷ []) refl (λ e. cc)

abbrev owner : Buffer
owner = record { size = 2; ptr = some second; own = some 0 }

convert-to_object_example : convert (some (to_object owner)) owner memory ≡ invalid_read
convert-to_object_example =
    convert-to_object owner second memory (record { bytes = 1 ∷ 2 ∷ 3 ∷ []; owners = 1 }) refl refl
      refl refl refl
