-- ===== src/Common/Read/Value.antt =====
-- What the reads of common/read.c return, as sums of bytes.
use ledger_app_neo.Prelude.{
  ℕ, zero, suc, ◌+◌, ◌*◌, ◌^◌, ◌<◌, ◌≡◌, refl, arith, List, [], ◌∷◌, All, signed,
}
use ledger_app_neo.Word.{IsByte, byte_at}
use ledger_app_neo.Word.Digits.{be16, be32, be64, le16, le32, le64}
use ledger_app_neo.Common.Read.{
  read_u16_be, read_u32_be, read_u64_be, read_u16_le, read_u32_le, read_u64_le, read_s16_le,
  read_s32_le, read_s64_le,
}

pub byte_at-IsByte : (ptr : List ℕ) (i : ℕ) → All IsByte ptr → byte_at ptr i < 256
byte_at-IsByte [] i h = omega arith
byte_at-IsByte (x ∷ xs) zero h = omega arith
byte_at-IsByte (x ∷ xs) (suc i) h = byte_at-IsByte xs i h.1

-- The bytes of a memory, seen from an offset.
module _ (ptr : List ℕ) (offset : ℕ) (bytes : All IsByte ptr) where
  at-lt : (i : ℕ) → byte_at ptr (offset + i) < 256
  at-lt i = byte_at-IsByte ptr (offset + i) bytes

  pub read_u16_be_value :
      read_u16_be ptr offset ≡ byte_at ptr (offset + 0) * 2 ^ 8 + byte_at ptr (offset + 1) * 2 ^ 0
  unfolding read_u16_be
  read_u16_be_value = be16 _ _ (at-lt 0) (at-lt 1)

  pub read_u32_be_value :
      read_u32_be ptr offset
      ≡ byte_at ptr (offset + 0) * 2 ^ 24
        + byte_at ptr (offset + 1) * 2 ^ 16
        + byte_at ptr (offset + 2) * 2 ^ 8
        + byte_at ptr (offset + 3) * 2 ^ 0
  unfolding read_u32_be
  read_u32_be_value = be32 _ _ _ _ (at-lt 0) (at-lt 1) (at-lt 2) (at-lt 3)

  pub read_u64_be_value :
      read_u64_be ptr offset
      ≡ byte_at ptr (offset + 0) * 2 ^ 56
        + byte_at ptr (offset + 1) * 2 ^ 48
        + byte_at ptr (offset + 2) * 2 ^ 40
        + byte_at ptr (offset + 3) * 2 ^ 32
        + byte_at ptr (offset + 4) * 2 ^ 24
        + byte_at ptr (offset + 5) * 2 ^ 16
        + byte_at ptr (offset + 6) * 2 ^ 8
        + byte_at ptr (offset + 7) * 2 ^ 0
  unfolding read_u64_be
  read_u64_be_value =
      be64 _ _ _ _ _ _ _ _ (at-lt 0) (at-lt 1) (at-lt 2) (at-lt 3) (at-lt 4) (at-lt 5) (at-lt 6)
        (at-lt 7)

  pub read_u16_le_value :
      read_u16_le ptr offset ≡ byte_at ptr (offset + 0) * 2 ^ 0 + byte_at ptr (offset + 1) * 2 ^ 8
  unfolding read_u16_le
  read_u16_le_value = le16 _ _ (at-lt 0) (at-lt 1)

  pub read_u32_le_value :
      read_u32_le ptr offset
      ≡ byte_at ptr (offset + 0) * 2 ^ 0
        + byte_at ptr (offset + 1) * 2 ^ 8
        + byte_at ptr (offset + 2) * 2 ^ 16
        + byte_at ptr (offset + 3) * 2 ^ 24
  unfolding read_u32_le
  read_u32_le_value = le32 _ _ _ _ (at-lt 0) (at-lt 1) (at-lt 2) (at-lt 3)

  pub read_u64_le_value :
      read_u64_le ptr offset
      ≡ byte_at ptr (offset + 0) * 2 ^ 0
        + byte_at ptr (offset + 1) * 2 ^ 8
        + byte_at ptr (offset + 2) * 2 ^ 16
        + byte_at ptr (offset + 3) * 2 ^ 24
        + byte_at ptr (offset + 4) * 2 ^ 32
        + byte_at ptr (offset + 5) * 2 ^ 40
        + byte_at ptr (offset + 6) * 2 ^ 48
        + byte_at ptr (offset + 7) * 2 ^ 56
  unfolding read_u64_le
  read_u64_le_value =
      le64 _ _ _ _ _ _ _ _ (at-lt 0) (at-lt 1) (at-lt 2) (at-lt 3) (at-lt 4) (at-lt 5) (at-lt 6)
        (at-lt 7)

  -- The signed read is the two's complement reading of the unsigned one.
  pub read_s16_le-signed : read_s16_le ptr offset ≡ signed (2 ^ 15) (read_u16_le ptr offset)
  unfolding read_s16_le read_u16_le
  read_s16_le-signed = refl

  -- The signed read is the two's complement reading of the unsigned one.
  pub read_s32_le-signed : read_s32_le ptr offset ≡ signed (2 ^ 31) (read_u32_le ptr offset)
  unfolding read_s32_le read_u32_le
  read_s32_le-signed = refl

  -- The signed read is the two's complement reading of the unsigned one.
  pub read_s64_le-signed : read_s64_le ptr offset ≡ signed (2 ^ 63) (read_u64_le ptr offset)
  unfolding read_s64_le read_u64_le
  read_s64_le-signed = refl
