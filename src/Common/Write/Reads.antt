-- ===== src/Common/Write/Reads.antt =====
-- Words stored by common/write.c and read back by common/read.c.
use ledger_app_neo.Prelude.{
  ℕ, zero, suc, ◌+◌, ◌%◌, ◌^◌, ◌≤◌, ◌<◌, ◌≡◌, refl, ◌∙◌, arith, List, [], ◌∷◌, length, set,
  length-set, get_or-set_self, get_or-set_ne, ◌⊎◌,
}
use ledger_app_neo.Word.{u8, byte_at, ◌>>>◌}
use ledger_app_neo.Word.Digits.{be16, be32, be64, le16, le32, le64}
use ledger_app_neo.Common.Read.{
  read_u16_be, read_u32_be, read_u64_be, read_u16_le, read_u32_le, read_u64_le,
}
use ledger_app_neo.Common.Write.{
  write_u16_be, write_u32_be, write_u64_be, write_u16_le, write_u32_le, write_u64_le,
}

-- A run of bytes stored from `offset + i` on.
abbrev pub store : List ℕ → ℕ → ℕ → List ℕ → List ℕ
store ptr offset i [] = ptr
store ptr offset i (x ∷ xs) = store (set ptr (offset + i) x) offset (suc i) xs

-- It leaves what lies before and behind alone.
pub store_outside :
    (ptr : List ℕ) (offset i : ℕ) (xs : List ℕ) (j : ℕ)
    → (j < offset + i) ⊎ (offset + i + length xs ≤ j)
    → byte_at (store ptr offset i xs) j ≡ byte_at ptr j
store_outside ptr offset i [] j h = refl
store_outside ptr offset i (x ∷ xs) j h =
    store_outside (set ptr (offset + i) x) offset (suc i) xs j (omega arith)
    ∙ get_or-set_ne ptr (offset + i) j x 0 (omega arith)

store_inside :
    (ptr : List ℕ) (offset i : ℕ) (xs : List ℕ) (j : ℕ)
    → offset + i + length xs ≤ length ptr
    → j < length xs
    → byte_at (store ptr offset i xs) (offset + i + j) ≡ byte_at xs j
store_inside ptr offset i [] j h lt = absurd (omega arith)
store_inside ptr offset i (x ∷ xs) zero h lt =
    let here : offset + i + zero ≡ offset + i = omega arith in
    rw here (
      store_outside (set ptr (offset + i) x) offset (suc i) xs (offset + i) (omega arith)
      ∙ get_or-set_self ptr (offset + i) x 0 (omega arith))
store_inside ptr offset i (x ∷ xs) (suc j) h lt =
    let next : offset + i + suc j ≡ offset + suc i + j = omega arith in
    rw next (
      store_inside (set ptr (offset + i) x) offset (suc i) xs j
        (omega (arith, length-set ptr (offset + i) x)) (omega arith))

-- From the first byte on.
store_at :
    (ptr : List ℕ) (offset : ℕ) (xs : List ℕ) (j : ℕ)
    → offset + length xs ≤ length ptr
    → j < length xs
    → byte_at (store ptr offset 0 xs) (offset + j) ≡ byte_at xs j
store_at ptr offset xs j h lt =
    let here : offset + j ≡ offset + 0 + j = omega arith in
    rw here (store_inside ptr offset 0 xs j (omega arith) lt)

module _ (ptr : List ℕ) (offset value : ℕ) where
  abbrev bytes_u16_be : List ℕ
  bytes_u16_be = u8 (value >>> 8) ∷ u8 (value >>> 0) ∷ []

  pub read-write_u16_be :
      offset + 2 ≤ length ptr → read_u16_be (write_u16_be ptr offset value) offset ≡ value % 2 ^ 16
  unfolding read_u16_be write_u16_be
  read-write_u16_be h =
      rw (at_u16_be 0 h (omega arith), at_u16_be 1 h (omega arith))
        (be16 (u8 (value >>> 8)) (u8 (value >>> 0)) (omega arith) (omega arith) ∙ omega arith)
    where
      at_u16_be :
          (j : ℕ)
          → offset + 2 ≤ length ptr
          → j < 2
          → byte_at (write_u16_be ptr offset value) (offset + j) ≡ byte_at bytes_u16_be j
      at_u16_be j h lt = store_at ptr offset bytes_u16_be j h lt

  abbrev bytes_u32_be : List ℕ
  bytes_u32_be = u8 (value >>> 24) ∷ u8 (value >>> 16) ∷ u8 (value >>> 8) ∷ u8 (value >>> 0) ∷ []

  -- Where 4 bytes fit at the offset, what was written there with the most significant byte first is
  -- read back modulo 2 ^ 32.
  pub read-write_u32_be :
      offset + 4 ≤ length ptr → read_u32_be (write_u32_be ptr offset value) offset ≡ value % 2 ^ 32
  unfolding read_u32_be write_u32_be
  read-write_u32_be h =
      rw
        (
          at_u32_be 0 h (omega arith),
          at_u32_be 1 h (omega arith),
          at_u32_be 2 h (omega arith),
          at_u32_be 3 h (omega arith),
        )
        (be32 (u8 (value >>> 24)) (u8 (value >>> 16)) (u8 (value >>> 8)) (u8 (value >>> 0))
            (omega arith) (omega arith) (omega arith) (omega arith)
          ∙ omega arith)
    where
      at_u32_be :
          (j : ℕ)
          → offset + 4 ≤ length ptr
          → j < 4
          → byte_at (write_u32_be ptr offset value) (offset + j) ≡ byte_at bytes_u32_be j
      at_u32_be j h lt = store_at ptr offset bytes_u32_be j h lt

  abbrev bytes_u64_be : List ℕ
  bytes_u64_be =
      u8 (value >>> 56)
      ∷ u8 (value >>> 48)
      ∷ u8 (value >>> 40)
      ∷ u8 (value >>> 32)
      ∷ u8 (value >>> 24)
      ∷ u8 (value >>> 16)
      ∷ u8 (value >>> 8)
      ∷ u8 (value >>> 0)
      ∷ []

  pub read-write_u64_be :
      offset + 8 ≤ length ptr → read_u64_be (write_u64_be ptr offset value) offset ≡ value % 2 ^ 64
  unfolding read_u64_be write_u64_be
  read-write_u64_be h =
      rw
        (
          at_u64_be 0 h (omega arith),
          at_u64_be 1 h (omega arith),
          at_u64_be 2 h (omega arith),
          at_u64_be 3 h (omega arith),
          at_u64_be 4 h (omega arith),
          at_u64_be 5 h (omega arith),
          at_u64_be 6 h (omega arith),
          at_u64_be 7 h (omega arith),
        )
        (be64 (u8 (value >>> 56)) (u8 (value >>> 48)) (u8 (value >>> 40)) (u8 (value >>> 32))
            (u8 (value >>> 24)) (u8 (value >>> 16)) (u8 (value >>> 8)) (u8 (value >>> 0))
            (omega arith) (omega arith) (omega arith) (omega arith) (omega arith) (omega arith)
            (omega arith) (omega arith)
          ∙ omega arith)
    where
      at_u64_be :
          (j : ℕ)
          → offset + 8 ≤ length ptr
          → j < 8
          → byte_at (write_u64_be ptr offset value) (offset + j) ≡ byte_at bytes_u64_be j
      at_u64_be j h lt = store_at ptr offset bytes_u64_be j h lt

  abbrev pub bytes_u16_le : List ℕ
  bytes_u16_le = u8 (value >>> 0) ∷ u8 (value >>> 8) ∷ []

  pub read-write_u16_le :
      offset + 2 ≤ length ptr → read_u16_le (write_u16_le ptr offset value) offset ≡ value % 2 ^ 16
  unfolding read_u16_le write_u16_le
  read-write_u16_le h =
      rw (at_u16_le 0 h (omega arith), at_u16_le 1 h (omega arith))
        (le16 (u8 (value >>> 0)) (u8 (value >>> 8)) (omega arith) (omega arith) ∙ omega arith)
    where
      at_u16_le :
          (j : ℕ)
          → offset + 2 ≤ length ptr
          → j < 2
          → byte_at (write_u16_le ptr offset value) (offset + j) ≡ byte_at bytes_u16_le j
      at_u16_le j h lt = store_at ptr offset bytes_u16_le j h lt

  abbrev pub bytes_u32_le : List ℕ
  bytes_u32_le = u8 (value >>> 0) ∷ u8 (value >>> 8) ∷ u8 (value >>> 16) ∷ u8 (value >>> 24) ∷ []

  pub read-write_u32_le :
      offset + 4 ≤ length ptr → read_u32_le (write_u32_le ptr offset value) offset ≡ value % 2 ^ 32
  unfolding read_u32_le write_u32_le
  read-write_u32_le h =
      rw
        (
          at_u32_le 0 h (omega arith),
          at_u32_le 1 h (omega arith),
          at_u32_le 2 h (omega arith),
          at_u32_le 3 h (omega arith),
        )
        (le32 (u8 (value >>> 0)) (u8 (value >>> 8)) (u8 (value >>> 16)) (u8 (value >>> 24))
            (omega arith) (omega arith) (omega arith) (omega arith)
          ∙ omega arith)
    where
      at_u32_le :
          (j : ℕ)
          → offset + 4 ≤ length ptr
          → j < 4
          → byte_at (write_u32_le ptr offset value) (offset + j) ≡ byte_at bytes_u32_le j
      at_u32_le j h lt = store_at ptr offset bytes_u32_le j h lt

  abbrev pub bytes_u64_le : List ℕ
  bytes_u64_le =
      u8 (value >>> 0)
      ∷ u8 (value >>> 8)
      ∷ u8 (value >>> 16)
      ∷ u8 (value >>> 24)
      ∷ u8 (value >>> 32)
      ∷ u8 (value >>> 40)
      ∷ u8 (value >>> 48)
      ∷ u8 (value >>> 56)
      ∷ []

  -- Where 8 bytes fit at the offset, what was written there with the least significant byte first is
  -- read back modulo 2 ^ 64.
  pub read-write_u64_le :
      offset + 8 ≤ length ptr → read_u64_le (write_u64_le ptr offset value) offset ≡ value % 2 ^ 64
  unfolding read_u64_le write_u64_le
  read-write_u64_le h =
      rw
        (
          at_u64_le 0 h (omega arith),
          at_u64_le 1 h (omega arith),
          at_u64_le 2 h (omega arith),
          at_u64_le 3 h (omega arith),
          at_u64_le 4 h (omega arith),
          at_u64_le 5 h (omega arith),
          at_u64_le 6 h (omega arith),
          at_u64_le 7 h (omega arith),
        )
        (le64 (u8 (value >>> 0)) (u8 (value >>> 8)) (u8 (value >>> 16)) (u8 (value >>> 24))
            (u8 (value >>> 32)) (u8 (value >>> 40)) (u8 (value >>> 48)) (u8 (value >>> 56))
            (omega arith) (omega arith) (omega arith) (omega arith) (omega arith) (omega arith)
            (omega arith) (omega arith)
          ∙ omega arith)
    where
      at_u64_le :
          (j : ℕ)
          → offset + 8 ≤ length ptr
          → j < 8
          → byte_at (write_u64_le ptr offset value) (offset + j) ≡ byte_at bytes_u64_le j
      at_u64_le j h lt = store_at ptr offset bytes_u64_le j h lt
