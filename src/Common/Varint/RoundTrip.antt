-- ===== src/Common/Varint/RoundTrip.antt =====
-- What common/varint.c writes, it reads back.
use ledger_app_neo.Prelude.{
  ℕ, ◌+◌, ◌^◌, ◌≤◌, ◌<◌, ◌≡◌, refl, ap, ◌∙◌, arith, true, false, List, set, drop, length,
  length-set, get_or-drop, get_or-set_self, pos, ℤ, ltb, leb, ◌==◌, leb→le, le→ltb, Bool-cases, inl,
  inr,
}
use mathlib.Core.Path.{subst⁻¹}
use ledger_app_neo.Word.{u8, u16, u32, u64, byte_at}
use ledger_app_neo.Common.Read.{read_u16_le, read_u32_le, read_u64_le}
use ledger_app_neo.Common.Write.{write_u16_le, write_u32_le, write_u64_le}
use ledger_app_neo.Common.Write.Reads.{
  store, store_outside, bytes_u16_le, bytes_u32_le, bytes_u64_le, read-write_u16_le,
  read-write_u32_le, read-write_u64_le,
}
use ledger_app_neo.Common.Varint.{varint_size, varint_read, varint_write}

-- The first byte of what a pointer reaches.
first : (xs : List ℕ) (offset : ℕ) → byte_at (drop offset xs) 0 ≡ byte_at xs offset
first xs offset = get_or-drop offset 0 xs 0 ∙ ap (byte_at xs) (omega arith)

module _ (xs : List ℕ) (offset : ℕ) where
  at : (i : ℕ) → byte_at (drop offset xs) (1 + i) ≡ byte_at xs (offset + 1 + i)
  at i = get_or-drop offset (1 + i) xs 0 ∙ ap (byte_at xs) (omega arith)

  read_u16_le-drop : read_u16_le (drop offset xs) 1 ≡ read_u16_le xs (offset + 1)
  unfolding read_u16_le
  read_u16_le-drop = rw (at 0, at 1) refl

  read_u32_le-drop : read_u32_le (drop offset xs) 1 ≡ read_u32_le xs (offset + 1)
  unfolding read_u32_le
  read_u32_le-drop = rw (at 0, at 1, at 2, at 3) refl

  read_u64_le-drop : read_u64_le (drop offset xs) 1 ≡ read_u64_le xs (offset + 1)
  unfolding read_u64_le
  read_u64_le-drop = rw (at 0, at 1, at 2, at 3, at 4, at 5, at 6, at 7) refl

module _ (out : List ℕ) (offset prefix value : ℕ) where
  abbrev started : List ℕ
  started = set out offset prefix

  kept : (xs : List ℕ) → byte_at (store started (offset + 1) 0 xs) offset ≡ byte_at started offset
  kept xs = store_outside started (offset + 1) 0 xs offset (inl (omega arith))

  prefix-started : offset < length out → byte_at started offset ≡ prefix
  prefix-started h = get_or-set_self out offset prefix 0 h

  prefix_u16 :
      offset < length out
      → byte_at (drop offset (write_u16_le started (offset + 1) value)) 0 ≡ prefix
  unfolding write_u16_le
  prefix_u16 h =
      first (write_u16_le started (offset + 1) value) offset
      ∙ (kept (bytes_u16_le started (offset + 1) value) ∙ prefix-started h)

  prefix_u32 :
      offset < length out
      → byte_at (drop offset (write_u32_le started (offset + 1) value)) 0 ≡ prefix
  unfolding write_u32_le
  prefix_u32 h =
      first (write_u32_le started (offset + 1) value) offset
      ∙ (kept (bytes_u32_le started (offset + 1) value) ∙ prefix-started h)

  prefix_u64 :
      offset < length out
      → byte_at (drop offset (write_u64_le started (offset + 1) value)) 0 ≡ prefix
  unfolding write_u64_le
  prefix_u64 h =
      first (write_u64_le started (offset + 1) value) offset
      ∙ (kept (bytes_u64_le started (offset + 1) value) ∙ prefix-started h)

module _ (out : List ℕ) (offset value in_len old : ℕ) where
  -- What is read back where a run of bytes was written.
  abbrev back : ℤ × ℕ
  back = varint_read (drop offset (varint_write out offset value).1) in_len old

  one_byte : leb value 0xFC ≡ true → offset + 1 ≤ length out → 1 ≤ in_len → back ≡ (pos 1, value)
  unfolding varint_read varint_write varint_size
  one_byte small room long =
      let v : u8 value ≡ value = omega (arith, leb→le value 0xFC small) in
      let e : byte_at (drop offset (set out offset (u8 value))) 0 ≡ value =
        first (set out offset (u8 value)) offset
        ∙ (get_or-set_self out offset (u8 value) 0 (omega arith) ∙ v) in
      let longer : ltb in_len 1 ≡ false = le→ltb in_len 1 long in
      let not_fd : (value == 0xFD) ≡ false = ground (arith, leb→le value 0xFC small) in
      let not_fe : (value == 0xFE) ≡ false = ground (arith, leb→le value 0xFC small) in
      let not_ff : (value == 0xFF) ≡ false = ground (arith, leb→le value 0xFC small) in
      rw (small, longer, e, not_fd, not_fe, not_ff) refl

  three_bytes :
      leb value 0xFC ≡ false
      → leb value 0xFFFF ≡ true
      → offset + 3 ≤ length out
      → 3 ≤ in_len
      → back ≡ (pos 3, value)
  unfolding varint_read varint_write varint_size
  three_bytes large small room long =
      let out' = set out offset 0xFD in
      let v : u16 value ≡ value = omega (arith, leb→le value 0xFFFF small) in
      let prefix_eq = prefix_u16 out offset 0xFD (u16 value) (omega arith) in
      let read_eq : read_u16_le (drop offset (write_u16_le out' (offset + 1) (u16 value))) 1
          ≡ value =
        read_u16_le-drop (write_u16_le out' (offset + 1) (u16 value)) offset
        ∙ (read-write_u16_le out' (offset + 1) (u16 value)
              (omega (arith, length-set out offset 0xFD))
            ∙ omega (arith, v)) in
      let longer : ltb in_len 1 ≡ false = le→ltb in_len 1 (omega arith) in
      let enough : ltb in_len 3 ≡ false = le→ltb in_len 3 long in
      rw (large, small, longer, prefix_eq, enough) (ap (λ n. (pos 3, n)) read_eq)

  five_bytes :
      leb value 0xFC ≡ false
      → leb value 0xFFFF ≡ false
      → leb value 0xFFFF_FFFF ≡ true
      → offset + 5 ≤ length out
      → 5 ≤ in_len
      → back ≡ (pos 5, value)
  unfolding varint_read varint_write varint_size
  five_bytes large larger small room long =
      let out' = set out offset 0xFE in
      let v : u32 value ≡ value = omega (arith, leb→le value 0xFFFF_FFFF small) in
      let prefix_eq = prefix_u32 out offset 0xFE (u32 value) (omega arith) in
      let read_eq : read_u32_le (drop offset (write_u32_le out' (offset + 1) (u32 value))) 1
          ≡ value =
        read_u32_le-drop (write_u32_le out' (offset + 1) (u32 value)) offset
        ∙ (read-write_u32_le out' (offset + 1) (u32 value)
              (omega (arith, length-set out offset 0xFE))
            ∙ omega (arith, v)) in
      let longer : ltb in_len 1 ≡ false = le→ltb in_len 1 (omega arith) in
      let enough : ltb in_len 5 ≡ false = le→ltb in_len 5 long in
      rw (large, larger, small, longer, prefix_eq, enough) (ap (λ n. (pos 5, n)) read_eq)

  nine_bytes :
      leb value 0xFC ≡ false
      → leb value 0xFFFF ≡ false
      → leb value 0xFFFF_FFFF ≡ false
      → value < 2 ^ 64
      → offset + 9 ≤ length out
      → 9 ≤ in_len
      → back ≡ (pos 9, value)
  unfolding varint_read varint_write varint_size
  nine_bytes large larger largest bound room long =
      let out' = set out offset 0xFF in
      let v : u64 value ≡ value = omega (arith, bound) in
      let prefix_eq = prefix_u64 out offset 0xFF (u64 value) (omega arith) in
      let read_eq : read_u64_le (drop offset (write_u64_le out' (offset + 1) (u64 value))) 1
          ≡ value =
        read_u64_le-drop (write_u64_le out' (offset + 1) (u64 value)) offset
        ∙ (read-write_u64_le out' (offset + 1) (u64 value)
              (omega (arith, length-set out offset 0xFF))
            ∙ omega (arith, v)) in
      let longer : ltb in_len 1 ≡ false = le→ltb in_len 1 (omega arith) in
      let enough : ltb in_len 9 ≡ false = le→ltb in_len 9 long in
      rw (large, larger, largest, longer, prefix_eq, enough) (ap (λ n. (pos 9, n)) read_eq)

  -- The written length, and what is read back.
  abbrev Back : ℕ → Type 0
  Back n = ((varint_write out offset value).0 ≡ pos n) × (back ≡ (pos n, value))

  by_size :
      (n : ℕ)
      → varint_size value ≡ n
      → offset + varint_size value ≤ length out
      → varint_size value ≤ in_len
      → (offset + n ≤ length out → n ≤ in_len → Back n)
      → Back (varint_size value)
  by_size n e room long h = subst⁻¹ Back e (h (omega (arith, e, room)) (omega (arith, e, long)))

  -- A 64-bit value that is written where there is room for it: the length of its form is returned, and a
  -- reader at that place that has as many bytes gets this length and the value.
  pub varint_read-varint_write :
      value < 2 ^ 64
      → offset + varint_size value ≤ length out
      → varint_size value ≤ in_len
      → ((varint_write out offset value).0 ≡ pos (varint_size value))
        × (varint_read (drop offset (varint_write out offset value).1) in_len old
            ≡ (pos (varint_size value), value))
  unfolding varint_size varint_write
  varint_read-varint_write bound room long = elim (Bool-cases (leb value 0xFC)) [
    | inl small ↦ by_size 1 (rw small refl) room long (λ r l. (rw small refl, one_byte small r l))
    | inr large ↦ elim (Bool-cases (leb value 0xFFFF)) [
      | inl small ↦
          by_size 3 (rw (large, small) refl) room long
            (λ r l. (rw (large, small) refl, three_bytes large small r l))
      | inr larger ↦ elim (Bool-cases (leb value 0xFFFF_FFFF)) [
        | inl small ↦
            by_size 5 (rw (large, larger, small) refl) room long
              (λ r l. (rw (large, larger, small) refl, five_bytes large larger small r l))
        | inr largest ↦
            by_size 9 (rw (large, larger, largest) refl) room long
              (λ r l. (rw (large, larger, largest) refl, nine_bytes large larger largest bound r l))
      ]
    ]
  ]
