-- ===== src/Common/Buffer.antt =====
-- common/buffer.c: a cursor over memory. `size_t` has 32 bits on the device, so its sums and
-- differences are taken modulo 2 ^ 32.
pub mod View
pub mod Reads
pub mod Varints
pub mod Cursor
pub mod Moves
use ledger_app_neo.Prelude.{
  ℕ, zero, suc, ◌+◌, ◌-◌, ◌%◌, ◌^◌, ◌||◌, Bool, true, false, List, [], ◌∷◌, drop, take, ℤ, pos,
  signed, negsuc, ltb, leb, if◌then◌else◌,
}
use ledger_app_neo.Word.{u32, byte_at}
use ledger_app_neo.Common.Read.{
  read_u16_be, read_u32_be, read_u64_be, read_u16_le, read_u32_le, read_u64_le, read_s16_be,
  read_s32_be, read_s64_be, read_s16_le, read_s32_le, read_s64_le,
}
use ledger_app_neo.Common.Varint.{varint_read}

pub data Endianness : Type 0 where
  be le : Endianness

-- `ptr` is the memory that the pointer reaches, byte by byte.
pub record Buffer : Type 0 where
  pub ptr : List ℕ
  pub size : ℕ
  pub offset : ℕ

-- What a read leaves: the returned flag, `*value`, and the buffer.
pub record Reading (A : Type 0) : Type 0 where
  pub success : Bool
  pub value : A
  pub buffer : Buffer

-- `buffer->size - buffer->offset`, as a `size_t`.
abbrev pub left : Buffer → ℕ
left b = u32 (b.size + 2 ^ 32 - b.offset)

unfoldable pub buffer_can_read : Buffer → ℕ → Bool
buffer_can_read b n = leb n (left b)

unfoldable pub buffer_seek_set : Buffer → ℕ → Bool × Buffer
buffer_seek_set b offset =
    if ltb b.size offset then (false, b) else (true, record b { offset = offset })

unfoldable pub buffer_seek_cur : Buffer → ℕ → Bool × Buffer
buffer_seek_cur b n =
    let next = u32 (b.offset + n) in
    if ltb next b.offset || ltb b.size next then (false, b) else (true, record b { offset = next })

unfoldable pub buffer_seek_end : Buffer → ℕ → Bool × Buffer
buffer_seek_end b n = if ltb b.size n then (false, b) else (true, record b { offset = b.size - n })

-- The common shape of the reads of `n` bytes: 0 on failure, else the value, and the seek.
unfoldable pub buffer_read : {A : Type 0} → ℕ → A → (List ℕ → ℕ → A) → Buffer → Reading A
unfolding buffer_can_read
buffer_read n zero_value reader b =
    if buffer_can_read b n
    then record { success = true; value = reader b.ptr b.offset; buffer = (buffer_seek_cur b n).1 }
    else record { success = false; value = zero_value; buffer = b }

unfoldable pub buffer_read_u8 : Buffer → Reading ℕ
unfolding buffer_read
buffer_read_u8 = buffer_read 1 0 byte_at

unfoldable pub buffer_read_s8 : Buffer → Reading ℤ
unfolding buffer_read
buffer_read_s8 = buffer_read 1 (pos 0) (λ ptr offset. signed (2 ^ 7) (byte_at ptr offset))

-- `endianness == BE ? big : little`.
abbrev pub choose : {A : Type 0} → Endianness → (List ℕ → ℕ → A) → (List ℕ → ℕ → A) → List ℕ → ℕ → A
choose be big little = big
choose le big little = little

unfoldable pub buffer_read_u16 : Buffer → Endianness → Reading ℕ
unfolding buffer_read
buffer_read_u16 b e = buffer_read 2 0 (choose e read_u16_be read_u16_le) b

unfoldable pub buffer_read_s16 : Buffer → Endianness → Reading ℤ
unfolding buffer_read
buffer_read_s16 b e = buffer_read 2 (pos 0) (choose e read_s16_be read_s16_le) b

unfoldable pub buffer_read_u32 : Buffer → Endianness → Reading ℕ
unfolding buffer_read
buffer_read_u32 b e = buffer_read 4 0 (choose e read_u32_be read_u32_le) b

unfoldable pub buffer_read_s32 : Buffer → Endianness → Reading ℤ
unfolding buffer_read
buffer_read_s32 b e = buffer_read 4 (pos 0) (choose e read_s32_be read_s32_le) b

unfoldable pub buffer_read_u64 : Buffer → Endianness → Reading ℕ
unfolding buffer_read
buffer_read_u64 b e = buffer_read 8 0 (choose e read_u64_be read_u64_le) b

unfoldable pub buffer_read_s64 : Buffer → Endianness → Reading ℤ
unfolding buffer_read
buffer_read_s64 b e = buffer_read 8 (pos 0) (choose e read_s64_be read_s64_le) b

-- What `buffer_read_varint` does with the result of `varint_read`.
unfoldable pub after_varint : Buffer → ℤ × ℕ → Reading ℕ
after_varint b (negsuc n, value) = record { success = false; value = 0; buffer = b }
after_varint b (pos n, value) = record {
  success = true;
  value = value;
  buffer = (buffer_seek_cur b n).1;
}

unfoldable pub buffer_read_varint : Buffer → ℕ → Reading ℕ
unfolding after_varint
buffer_read_varint b old = after_varint b (varint_read (drop b.offset b.ptr) (left b) old)

-- `memmove` and `memcpy` into memory, from an index of it on; what does not fit is not stored.
unfoldable pub memmove : List ℕ → ℕ → List ℕ → List ℕ
memmove [] i bytes = []
memmove (x ∷ xs) zero [] = x ∷ xs
memmove (x ∷ xs) zero (b ∷ bytes) = b ∷ memmove xs zero bytes
memmove (x ∷ xs) (suc i) bytes = x ∷ memmove xs i bytes

-- `out` is a pointer into `memory`, given as an index.
unfoldable pub buffer_copy : Buffer → List ℕ → ℕ → ℕ → Bool × List ℕ
buffer_copy b memory out out_len =
    if ltb out_len (left b)
    then (false, memory)
    else (true, memmove memory out (take (left b) (drop b.offset b.ptr)))

unfoldable pub buffer_move : Buffer → List ℕ → ℕ → ℕ → Bool × List ℕ × Buffer
unfolding buffer_copy
buffer_move b memory out out_len =
    let (copied, memory') = buffer_copy b memory out out_len in
    if copied then (true, memory', (buffer_seek_cur b out_len).1) else (false, memory', b)
