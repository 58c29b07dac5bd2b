-- ===== src/Common/Read.antt =====
-- common/read.c: words read from memory, most or least significant byte first. A cast keeps what the
-- C type keeps; a signed word is the integer that its two's complement pattern stands for.
pub mod Value
use ledger_app_neo.Prelude.{ℕ, ◌+◌, ◌^◌, List, bit_or, ℤ, signed}
use ledger_app_neo.Word.{u16, u32, u64, ◌<<<◌, byte_at}

unfoldable pub read_u16_be : List ℕ → ℕ → ℕ
read_u16_be ptr offset =
    bit_or (u16 (byte_at ptr (offset + 0) <<< 8)) (u16 (byte_at ptr (offset + 1) <<< 0))

unfoldable pub read_u32_be : List ℕ → ℕ → ℕ
read_u32_be ptr offset =
    bit_or
      (bit_or
        (bit_or (u32 (byte_at ptr (offset + 0) <<< 24)) (u32 (byte_at ptr (offset + 1) <<< 16)))
        (u32 (byte_at ptr (offset + 2) <<< 8)))
      (u32 (byte_at ptr (offset + 3) <<< 0))

unfoldable pub read_u64_be : List ℕ → ℕ → ℕ
read_u64_be ptr offset =
    bit_or
      (bit_or
        (bit_or
          (bit_or
            (bit_or
              (bit_or
                (bit_or (u64 (byte_at ptr (offset + 0) <<< 56))
                  (u64 (byte_at ptr (offset + 1) <<< 48)))
                (u64 (byte_at ptr (offset + 2) <<< 40)))
              (u64 (byte_at ptr (offset + 3) <<< 32)))
            (u64 (byte_at ptr (offset + 4) <<< 24)))
          (u64 (byte_at ptr (offset + 5) <<< 16)))
        (u64 (byte_at ptr (offset + 6) <<< 8)))
      (u64 (byte_at ptr (offset + 7) <<< 0))

unfoldable pub read_u16_le : List ℕ → ℕ → ℕ
read_u16_le ptr offset =
    bit_or (u16 (byte_at ptr (offset + 0) <<< 0)) (u16 (byte_at ptr (offset + 1) <<< 8))

unfoldable pub read_u32_le : List ℕ → ℕ → ℕ
read_u32_le ptr offset =
    bit_or
      (bit_or (bit_or (u32 (byte_at ptr (offset + 0) <<< 0)) (u32 (byte_at ptr (offset + 1) <<< 8)))
        (u32 (byte_at ptr (offset + 2) <<< 16)))
      (u32 (byte_at ptr (offset + 3) <<< 24))

unfoldable pub read_u64_le : List ℕ → ℕ → ℕ
read_u64_le ptr offset =
    bit_or
      (bit_or
        (bit_or
          (bit_or
            (bit_or
              (bit_or
                (bit_or (u64 (byte_at ptr (offset + 0) <<< 0))
                  (u64 (byte_at ptr (offset + 1) <<< 8)))
                (u64 (byte_at ptr (offset + 2) <<< 16)))
              (u64 (byte_at ptr (offset + 3) <<< 24)))
            (u64 (byte_at ptr (offset + 4) <<< 32)))
          (u64 (byte_at ptr (offset + 5) <<< 40)))
        (u64 (byte_at ptr (offset + 6) <<< 48)))
      (u64 (byte_at ptr (offset + 7) <<< 56))

unfoldable pub read_s16_be : List ℕ → ℕ → ℤ
read_s16_be ptr offset =
    signed (2 ^ 15)
      (bit_or (u16 (byte_at ptr (offset + 0) <<< 8)) (u16 (byte_at ptr (offset + 1) <<< 0)))

unfoldable pub read_s32_be : List ℕ → ℕ → ℤ
read_s32_be ptr offset = signed (2 ^ 31) (
    bit_or
      (bit_or
        (bit_or (u32 (byte_at ptr (offset + 0) <<< 24)) (u32 (byte_at ptr (offset + 1) <<< 16)))
        (u32 (byte_at ptr (offset + 2) <<< 8)))
      (u32 (byte_at ptr (offset + 3) <<< 0)))

unfoldable pub read_s64_be : List ℕ → ℕ → ℤ
read_s64_be ptr offset = signed (2 ^ 63) (
    bit_or
      (bit_or
        (bit_or
          (bit_or
            (bit_or
              (bit_or
                (bit_or (u64 (byte_at ptr (offset + 0) <<< 56))
                  (u64 (byte_at ptr (offset + 1) <<< 48)))
                (u64 (byte_at ptr (offset + 2) <<< 40)))
              (u64 (byte_at ptr (offset + 3) <<< 32)))
            (u64 (byte_at ptr (offset + 4) <<< 24)))
          (u64 (byte_at ptr (offset + 5) <<< 16)))
        (u64 (byte_at ptr (offset + 6) <<< 8)))
      (u64 (byte_at ptr (offset + 7) <<< 0)))

unfoldable pub read_s16_le : List ℕ → ℕ → ℤ
read_s16_le ptr offset =
    signed (2 ^ 15)
      (bit_or (u16 (byte_at ptr (offset + 0) <<< 0)) (u16 (byte_at ptr (offset + 1) <<< 8)))

unfoldable pub read_s32_le : List ℕ → ℕ → ℤ
read_s32_le ptr offset = signed (2 ^ 31) (
    bit_or
      (bit_or (bit_or (u32 (byte_at ptr (offset + 0) <<< 0)) (u32 (byte_at ptr (offset + 1) <<< 8)))
        (u32 (byte_at ptr (offset + 2) <<< 16)))
      (u32 (byte_at ptr (offset + 3) <<< 24)))

unfoldable pub read_s64_le : List ℕ → ℕ → ℤ
read_s64_le ptr offset = signed (2 ^ 63) (
    bit_or
      (bit_or
        (bit_or
          (bit_or
            (bit_or
              (bit_or
                (bit_or (u64 (byte_at ptr (offset + 0) <<< 0))
                  (u64 (byte_at ptr (offset + 1) <<< 8)))
                (u64 (byte_at ptr (offset + 2) <<< 16)))
              (u64 (byte_at ptr (offset + 3) <<< 24)))
            (u64 (byte_at ptr (offset + 4) <<< 32)))
          (u64 (byte_at ptr (offset + 5) <<< 40)))
        (u64 (byte_at ptr (offset + 6) <<< 48)))
      (u64 (byte_at ptr (offset + 7) <<< 56)))
