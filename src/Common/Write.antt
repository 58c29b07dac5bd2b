-- ===== src/Common/Write.antt =====
-- common/write.c: words stored to memory, most or least significant byte first.
pub mod Reads
use ledger_app_neo.Prelude.{ℕ, ◌+◌, List, set}
use ledger_app_neo.Word.{u8, ◌>>>◌}

unfoldable pub write_u16_be : List ℕ → ℕ → ℕ → List ℕ
write_u16_be ptr offset value =
    set (set ptr (offset + 0) (u8 (value >>> 8))) (offset + 1) (u8 (value >>> 0))

unfoldable pub write_u32_be : List ℕ → ℕ → ℕ → List ℕ
write_u32_be ptr offset value =
    set
      (set (set (set ptr (offset + 0) (u8 (value >>> 24))) (offset + 1) (u8 (value >>> 16)))
        (offset + 2) (u8 (value >>> 8)))
      (offset + 3) (u8 (value >>> 0))

unfoldable pub write_u64_be : List ℕ → ℕ → ℕ → List ℕ
write_u64_be ptr offset value =
    set
      (set
        (set
          (set
            (set
              (set (set (set ptr (offset + 0) (u8 (value >>> 56))) (offset + 1) (u8 (value >>> 48)))
                (offset + 2) (u8 (value >>> 40)))
              (offset + 3) (u8 (value >>> 32)))
            (offset + 4) (u8 (value >>> 24)))
          (offset + 5) (u8 (value >>> 16)))
        (offset + 6) (u8 (value >>> 8)))
      (offset + 7) (u8 (value >>> 0))

unfoldable pub write_u16_le : List ℕ → ℕ → ℕ → List ℕ
write_u16_le ptr offset value =
    set (set ptr (offset + 0) (u8 (value >>> 0))) (offset + 1) (u8 (value >>> 8))

unfoldable pub write_u32_le : List ℕ → ℕ → ℕ → List ℕ
write_u32_le ptr offset value =
    set
      (set (set (set ptr (offset + 0) (u8 (value >>> 0))) (offset + 1) (u8 (value >>> 8)))
        (offset + 2) (u8 (value >>> 16)))
      (offset + 3) (u8 (value >>> 24))

unfoldable pub write_u64_le : List ℕ → ℕ → ℕ → List ℕ
write_u64_le ptr offset value =
    set
      (set
        (set
          (set
            (set
              (set (set (set ptr (offset + 0) (u8 (value >>> 0))) (offset + 1) (u8 (value >>> 8)))
                (offset + 2) (u8 (value >>> 16)))
              (offset + 3) (u8 (value >>> 24)))
            (offset + 4) (u8 (value >>> 32)))
          (offset + 5) (u8 (value >>> 40)))
        (offset + 6) (u8 (value >>> 48)))
      (offset + 7) (u8 (value >>> 56))
