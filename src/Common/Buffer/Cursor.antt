-- ===== src/Common/Buffer/Cursor.antt =====
-- The reads and seeks of common/buffer.c move the cursor only, and keep a valid buffer valid.
use ledger_app_neo.Prelude.{
  ℕ, ◌+◌, ◌||◌, ◌≡◌, refl, List, ℤ, pos, negsuc, ltb, Bool-cases, inl, inr,
}
use ledger_app_neo.Word.{u32, byte_at}
use ledger_app_neo.Common.Read.{
  read_u16_be, read_u16_le, read_s16_be, read_s16_le, read_s32_be, read_s32_le, read_u32_be,
  read_u32_le, read_s64_be, read_s64_le,
}
use ledger_app_neo.Common.Buffer.{
  Buffer, Reading, Endianness, choose, buffer_can_read, buffer_seek_cur, buffer_read,
  buffer_read_s8, buffer_read_u16, buffer_read_s16, buffer_read_s32, buffer_read_u8,
  buffer_read_u32, buffer_read_s64, after_varint, buffer_read_varint,
}
use ledger_app_neo.Common.Buffer.View.{IsValid, buffer_seek_cur-IsValid, buffer_seek_cur_same_size}

-- A buffer over the same memory.
pub record OnlyMoves (b b' : Buffer) : Type 0 where
  pub valid : IsValid b → IsValid b'
  pub same_ptr : b'.ptr ≡ b.ptr
  pub same_size : b'.size ≡ b.size

stays : {b : Buffer} → OnlyMoves b b
stays = record { valid = λ v. v; same_ptr = refl; same_size = refl }

seek_ptr : (b : Buffer) (n : ℕ) → (buffer_seek_cur b n).1.ptr ≡ b.ptr
unfolding buffer_seek_cur
seek_ptr b n =
    elim (Bool-cases (ltb (u32 (b.offset + n)) b.offset || ltb b.size (u32 (b.offset + n)))) [
      | inl h ↦ rw h
      | inr h ↦ rw h
    ]

pub buffer_seek_cur-OnlyMoves : (b : Buffer) (n : ℕ) → OnlyMoves b (buffer_seek_cur b n).1
buffer_seek_cur-OnlyMoves b n = record {
  valid = λ v. buffer_seek_cur-IsValid v n;
  same_ptr = seek_ptr b n;
  same_size = buffer_seek_cur_same_size b n;
}

-- A read of that kind.
abbrev pub ReadMoves : {A : Type 0} → (Buffer → Reading A) → Type 0
ReadMoves read = (b : Buffer) → OnlyMoves b (read b).buffer

buffer_read-ReadMoves :
    {A : Type 0} (n : ℕ) (zero_value : A) (reader : List ℕ → ℕ → A)
    → ReadMoves (buffer_read n zero_value reader)
unfolding buffer_read
buffer_read-ReadMoves n zero_value reader b = elim (Bool-cases (buffer_can_read b n)) [
  | inl can ↦ rw can (buffer_seek_cur-OnlyMoves b n)
  | inr short ↦ rw short stays
]

pub buffer_read_u8-ReadMoves : ReadMoves buffer_read_u8
unfolding buffer_read_u8
buffer_read_u8-ReadMoves = buffer_read-ReadMoves 1 0 byte_at

pub buffer_read_u32-ReadMoves : (e : Endianness) → ReadMoves (λ b. buffer_read_u32 b e)
unfolding buffer_read_u32
buffer_read_u32-ReadMoves e = buffer_read-ReadMoves 4 0 (choose e read_u32_be read_u32_le)

pub buffer_read_s64-ReadMoves : (e : Endianness) → ReadMoves (λ b. buffer_read_s64 b e)
unfolding buffer_read_s64
buffer_read_s64-ReadMoves e = buffer_read-ReadMoves 8 (pos 0) (choose e read_s64_be read_s64_le)

pub buffer_read_s8-ReadMoves : ReadMoves buffer_read_s8
unfolding buffer_read_s8
buffer_read_s8-ReadMoves = buffer_read-ReadMoves 1 (pos 0) _

pub buffer_read_u16-ReadMoves : (e : Endianness) → ReadMoves (λ b. buffer_read_u16 b e)
unfolding buffer_read_u16
buffer_read_u16-ReadMoves e = buffer_read-ReadMoves 2 0 (choose e read_u16_be read_u16_le)

pub buffer_read_s16-ReadMoves : (e : Endianness) → ReadMoves (λ b. buffer_read_s16 b e)
unfolding buffer_read_s16
buffer_read_s16-ReadMoves e = buffer_read-ReadMoves 2 (pos 0) (choose e read_s16_be read_s16_le)

pub buffer_read_s32-ReadMoves : (e : Endianness) → ReadMoves (λ b. buffer_read_s32 b e)
unfolding buffer_read_s32
buffer_read_s32-ReadMoves e = buffer_read-ReadMoves 4 (pos 0) (choose e read_s32_be read_s32_le)

after_varint-OnlyMoves : (b : Buffer) (r : ℤ × ℕ) → OnlyMoves b (after_varint b r).buffer
unfolding after_varint
after_varint-OnlyMoves b (negsuc n, value) = stays
after_varint-OnlyMoves b (pos n, value) = buffer_seek_cur-OnlyMoves b n

pub buffer_read_varint-ReadMoves : (old : ℕ) → ReadMoves (λ b. buffer_read_varint b old)
unfolding buffer_read_varint
buffer_read_varint-ReadMoves old b = after_varint-OnlyMoves b _
