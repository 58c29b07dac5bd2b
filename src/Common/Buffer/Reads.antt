-- ===== src/Common/Buffer/Reads.antt =====
-- The reads of common/buffer.c refine reads of a list: the bytes that remain are decoded and dropped.
use ledger_app_neo.Prelude.{
  ℕ, ◌+◌, ◌-◌, ◌^◌, ◌≤◌, ◌<◌, ◌≡◌, ◌∙◌, arith, Bool, true, false, List, drop, length, leb, le→leb,
  leb→le, leb→lt, lt→leb, if◌then◌else◌, ap, signed, pos, Bool-cases, inl, inr,
}
use ledger_app_neo.Word.{byte_at}
use ledger_app_neo.Common.Read.{
  read_u16_be, read_u32_be, read_u64_be, read_u16_le, read_u32_le, read_u64_le, read_s64_le,
  read_s32_le, read_s16_le,
}
use ledger_app_neo.Common.Read.Value.{
  read_u16_be_value, read_u32_be_value, read_u64_be_value, read_u16_le_value, read_u32_le_value,
  read_u64_le_value, read_s16_le-signed, read_s32_le-signed, read_s64_le-signed,
}
use ledger_app_neo.Common.Buffer.{
  Buffer, Reading, Endianness, be, le, buffer_read, buffer_read_u8, buffer_read_s8, buffer_read_u16,
  buffer_read_u32, buffer_read_u64, buffer_read_s64, buffer_read_s32, buffer_read_s16,
}
use ledger_app_neo.Common.Buffer.View.{
  IsValid, remaining, ahead, number, number_le, number_be, left-eq, length-remaining,
  byte_at-remaining, remaining-ahead, ahead-IsValid, buffer_seek_cur_within,
}

-- A read of `n` bytes from a list: the flag, the decoded value, and the rest.
abbrev pub list_read {ℓ} : {A : Type ℓ} → ℕ → A → (List ℕ → A) → List ℕ → Bool × A × List ℕ
list_read n zero_value decode xs =
    if leb n (length xs) then (true, decode xs, drop n xs) else (false, zero_value, xs)

-- What a caller sees of a read.
abbrev pub view : {A : Type 0} → Reading A → Bool × A × List ℕ
view r = (r.success, r.value, remaining r.buffer)

-- A read that a caller sees as `expected`, and that leaves a valid buffer over the same memory.
pub record Refines {A : Type 0} (b : Buffer) (expected : Bool × A × List ℕ) (r : Reading A)
    : Type 0 where
  pub seen : view r ≡ expected
  pub valid : IsValid r.buffer
  pub same_size : r.buffer.size ≡ b.size

module _ {A : Type 0} {b : Buffer} (v : IsValid b) (n : ℕ) (zero_value : A)
    (reader : List ℕ → ℕ → A) where
  buffer_read_within :
      n ≤ b.size - b.offset
      → buffer_read n zero_value reader b
        ≡ record { success = true; value = reader b.ptr b.offset; buffer = ahead b n }
  unfolding buffer_read
  buffer_read_within h = rw (left-eq v, le→leb n _ h, buffer_seek_cur_within v n h)

  buffer_read_short :
      b.size - b.offset < n
      → buffer_read n zero_value reader b
        ≡ record { success = false; value = zero_value; buffer = b }
  unfolding buffer_read
  buffer_read_short h = rw (left-eq v, lt→leb n _ h)

  buffer_read-IsValid : IsValid (buffer_read n zero_value reader b).buffer
  buffer_read-IsValid = elim (Bool-cases (leb n (b.size - b.offset))) [
    | inl h ↦ rw (buffer_read_within (leb→le _ _ h)) (ahead-IsValid v n (leb→le _ _ h))
    | inr h ↦ rw (buffer_read_short (leb→lt n _ h)) v
  ]

  buffer_read_same_size : (buffer_read n zero_value reader b).buffer.size ≡ b.size
  buffer_read_same_size = elim (Bool-cases (leb n (b.size - b.offset))) [
    | inl h ↦ rw (buffer_read_within (leb→le _ _ h))
    | inr h ↦ rw (buffer_read_short (leb→lt n _ h))
  ]

  pub buffer_read-Refines :
      (decode : List ℕ → A)
      → (n ≤ b.size - b.offset → reader b.ptr b.offset ≡ decode (remaining b))
      → Refines b (list_read n zero_value decode (remaining b)) (buffer_read n zero_value reader b)
  buffer_read-Refines decode same = record {
    seen = elim (Bool-cases (leb n (b.size - b.offset))) [
      | inl h ↦ rw (
        buffer_read_within (leb→le _ _ h),
        length-remaining v,
        h,
        remaining-ahead v n,
        same (leb→le _ _ h),
      )
      | inr h ↦ rw (buffer_read_short (leb→lt n _ h), length-remaining v, h)
    ];
    valid = buffer_read-IsValid;
    same_size = buffer_read_same_size;
  }

module _ {b : Buffer} (v : IsValid b) where
  at_zero : byte_at b.ptr (b.offset + 0) ≡ byte_at b.ptr b.offset
  at_zero = ap (byte_at b.ptr) (omega arith)

  u8_eq : 1 ≤ b.size - b.offset → byte_at b.ptr b.offset ≡ number_le 1 (remaining b)
  u8_eq h = omega (arith, byte_at-remaining v 0 (omega arith), at_zero)

  pub buffer_read_u8-Refines :
      Refines b (list_read 1 0 (number_le 1) (remaining b)) (buffer_read_u8 b)
  unfolding buffer_read_u8
  buffer_read_u8-Refines = buffer_read-Refines v 1 0 byte_at (number_le 1) u8_eq

  pub buffer_read_s8-Refines :
      Refines b
        (list_read 1 (pos 0) (λ xs. signed (2 ^ 7) (number_le 1 xs)) (remaining b))
        (buffer_read_s8 b)
  unfolding buffer_read_s8
  buffer_read_s8-Refines =
      buffer_read-Refines v 1 (pos 0) (λ ptr offset. signed (2 ^ 7) (byte_at ptr offset))
        (λ xs. signed (2 ^ 7) (number_le 1 xs)) (λ h. ap (signed (2 ^ 7)) (u8_eq h))

  u16_be : 2 ≤ b.size - b.offset → read_u16_be b.ptr b.offset ≡ number_be 2 (remaining b)
  u16_be h = omega (
    arith,
    read_u16_be_value b.ptr b.offset v.bytes,
    byte_at-remaining v 0 (omega arith),
    byte_at-remaining v 1 (omega arith),
  )

  u16_le : 2 ≤ b.size - b.offset → read_u16_le b.ptr b.offset ≡ number_le 2 (remaining b)
  u16_le h = omega (
    arith,
    read_u16_le_value b.ptr b.offset v.bytes,
    byte_at-remaining v 0 (omega arith),
    byte_at-remaining v 1 (omega arith),
  )

  pub buffer_read_u16-Refines :
      (e : Endianness) → Refines b (list_read 2 0 (number e 2) (remaining b)) (buffer_read_u16 b e)
  unfolding buffer_read_u16
  buffer_read_u16-Refines be = buffer_read-Refines v 2 0 read_u16_be (number_be 2) u16_be
  buffer_read_u16-Refines le = buffer_read-Refines v 2 0 read_u16_le (number_le 2) u16_le

  u32_be : 4 ≤ b.size - b.offset → read_u32_be b.ptr b.offset ≡ number_be 4 (remaining b)
  u32_be h = omega (
    arith,
    read_u32_be_value b.ptr b.offset v.bytes,
    byte_at-remaining v 0 (omega arith),
    byte_at-remaining v 1 (omega arith),
    byte_at-remaining v 2 (omega arith),
    byte_at-remaining v 3 (omega arith),
  )

  u32_le : 4 ≤ b.size - b.offset → read_u32_le b.ptr b.offset ≡ number_le 4 (remaining b)
  u32_le h = omega (
    arith,
    read_u32_le_value b.ptr b.offset v.bytes,
    byte_at-remaining v 0 (omega arith),
    byte_at-remaining v 1 (omega arith),
    byte_at-remaining v 2 (omega arith),
    byte_at-remaining v 3 (omega arith),
  )

  -- On a valid buffer, in either byte order: with 4 bytes left the read returns their number and removes
  -- them from those that remain; with fewer it fails with 0 and moves nothing. The buffer stays valid,
  -- and its size the same.
  pub buffer_read_u32-Refines :
      (e : Endianness) → Refines b (list_read 4 0 (number e 4) (remaining b)) (buffer_read_u32 b e)
  unfolding buffer_read_u32
  buffer_read_u32-Refines be = buffer_read-Refines v 4 0 read_u32_be (number_be 4) u32_be
  buffer_read_u32-Refines le = buffer_read-Refines v 4 0 read_u32_le (number_le 4) u32_le

  u64_be : 8 ≤ b.size - b.offset → read_u64_be b.ptr b.offset ≡ number_be 8 (remaining b)
  u64_be h = omega (
    arith,
    read_u64_be_value b.ptr b.offset v.bytes,
    byte_at-remaining v 0 (omega arith),
    byte_at-remaining v 1 (omega arith),
    byte_at-remaining v 2 (omega arith),
    byte_at-remaining v 3 (omega arith),
    byte_at-remaining v 4 (omega arith),
    byte_at-remaining v 5 (omega arith),
    byte_at-remaining v 6 (omega arith),
    byte_at-remaining v 7 (omega arith),
  )

  u64_le : 8 ≤ b.size - b.offset → read_u64_le b.ptr b.offset ≡ number_le 8 (remaining b)
  u64_le h = omega (
    arith,
    read_u64_le_value b.ptr b.offset v.bytes,
    byte_at-remaining v 0 (omega arith),
    byte_at-remaining v 1 (omega arith),
    byte_at-remaining v 2 (omega arith),
    byte_at-remaining v 3 (omega arith),
    byte_at-remaining v 4 (omega arith),
    byte_at-remaining v 5 (omega arith),
    byte_at-remaining v 6 (omega arith),
    byte_at-remaining v 7 (omega arith),
  )

  -- On a valid buffer, in either byte order: with 8 bytes left the read returns their number and removes
  -- them from those that remain; with fewer it fails with 0 and moves nothing. The buffer stays valid,
  -- and its size the same.
  buffer_read_u64-Refines :
      (e : Endianness) → Refines b (list_read 8 0 (number e 8) (remaining b)) (buffer_read_u64 b e)
  unfolding buffer_read_u64
  buffer_read_u64-Refines be = buffer_read-Refines v 8 0 read_u64_be (number_be 8) u64_be
  buffer_read_u64-Refines le = buffer_read-Refines v 8 0 read_u64_le (number_le 8) u64_le

  -- The signed reads in the order that the transaction format uses.
  pub buffer_read_s16-Refines :
      Refines b
        (list_read 2 (pos 0) (λ xs. signed (2 ^ 15) (number_le 2 xs)) (remaining b))
        (buffer_read_s16 b le)
  unfolding buffer_read_s16
  buffer_read_s16-Refines =
      buffer_read-Refines v 2 (pos 0) read_s16_le (λ xs. signed (2 ^ 15) (number_le 2 xs))
        (λ h. read_s16_le-signed b.ptr b.offset v.bytes ∙ ap (signed (2 ^ 15)) (u16_le h))

  pub buffer_read_s32-Refines :
      Refines b
        (list_read 4 (pos 0) (λ xs. signed (2 ^ 31) (number_le 4 xs)) (remaining b))
        (buffer_read_s32 b le)
  unfolding buffer_read_s32
  buffer_read_s32-Refines =
      buffer_read-Refines v 4 (pos 0) read_s32_le (λ xs. signed (2 ^ 31) (number_le 4 xs))
        (λ h. read_s32_le-signed b.ptr b.offset v.bytes ∙ ap (signed (2 ^ 31)) (u32_le h))

  -- On a valid buffer, with 8 bytes left the read returns their number, the least significant byte first,
  -- in two's complement, and removes them; with fewer it fails with 0 and moves nothing. The buffer
  -- stays valid, and its size the same.
  pub buffer_read_s64-Refines :
      Refines b
        (list_read 8 (pos 0) (λ xs. signed (2 ^ 63) (number_le 8 xs)) (remaining b))
        (buffer_read_s64 b le)
  unfolding buffer_read_s64
  buffer_read_s64-Refines =
      buffer_read-Refines v 8 (pos 0) read_s64_le (λ xs. signed (2 ^ 63) (number_le 8 xs))
        (λ h. read_s64_le-signed b.ptr b.offset v.bytes ∙ ap (signed (2 ^ 63)) (u64_le h))
