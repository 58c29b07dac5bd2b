-- ===== src/Common/Buffer/Varints.antt =====
-- `buffer_read_varint` of common/buffer.c refines a read of a list.
use ledger_app_neo.Prelude.{
  All-drop, ℕ, suc, ◌+◌, ◌-◌, ◌≤◌, ◌<◌, ◌≡◌, refl, sym, ◌∙◌, arith, Bool, true, false, List, drop,
  length, get_or-take, get_or-drop, ltb, Bool-cases, inl, inr, ltb→lt, ltb→le, lt→leb, le→leb, ◌==◌,
  if◌then◌else◌, ℤ, pos, negsuc,
}
use ledger_app_neo.Word.{IsByte, byte_at}
use ledger_app_neo.Common.Read.{read_u16_le, read_u32_le, read_u64_le}
use ledger_app_neo.Common.Read.Value.{read_u16_le_value, read_u32_le_value, read_u64_le_value}
use ledger_app_neo.Common.Varint.{varint_read}
use ledger_app_neo.Common.Buffer.{Buffer, after_varint, buffer_read_varint, left}
use ledger_app_neo.Common.Buffer.View.{
  buffer_seek_cur_same_size, IsValid, buffer_seek_cur-IsValid, remaining, number_le, left-eq,
  length-remaining, remaining-ahead, buffer_seek_cur_within,
}
use ledger_app_neo.Common.Buffer.Reads.{Refines, view, list_read}

-- `n` bytes behind a prefix byte.
abbrev pub list_word : ℕ → List ℕ → Bool × ℕ × List ℕ
list_word n xs = list_read (suc n) 0 (λ ys. number_le n (drop 1 ys)) xs

-- A variable length integer read from a list: a prefix below 0xFD is the value itself.
abbrev pub list_varint : List ℕ → Bool × ℕ × List ℕ
list_varint xs =
    if length xs == 0
    then (false, 0, xs)
    else if byte_at xs 0 == 0xFD
    then list_word 2 xs
    else if byte_at xs 0 == 0xFE
    then list_word 4 xs
    else if byte_at xs 0 == 0xFF
    then list_word 8 xs
    else (true, byte_at xs 0, drop 1 xs)

ltb→eq_zero : (n : ℕ) {m : ℕ} → m ≡ n → ltb n 1 ≡ true → (m == 0) ≡ true
ltb→eq_zero n e h = ground arith

ltb→ne_zero : (n : ℕ) {m : ℕ} → m ≡ n → ltb n 1 ≡ false → (m == 0) ≡ false
ltb→ne_zero n e h = ground arith

module _ {b : Buffer} (v : IsValid b) where
  abbrev front : List ℕ
  front = drop b.offset b.ptr

  same : (i : ℕ) → i < b.size - b.offset → byte_at front i ≡ byte_at (remaining b) i
  same i h = sym (get_or-take (b.size - b.offset) i front 0 h)

  behind :
      (i : ℕ) → suc i < b.size - b.offset → byte_at front (1 + i) ≡ byte_at (drop 1 (remaining b)) i
  behind i h = same (1 + i) (omega arith) ∙ sym (get_or-drop 1 i (remaining b) 0)

  word_u16 : 3 ≤ b.size - b.offset → read_u16_le front 1 ≡ number_le 2 (drop 1 (remaining b))
  word_u16 h = omega (
    arith,
    read_u16_le_value front 1 (All-drop IsByte b.offset b.ptr v.bytes),
    behind 0 (omega arith),
    behind 1 (omega arith),
  )

  word_u32 : 5 ≤ b.size - b.offset → read_u32_le front 1 ≡ number_le 4 (drop 1 (remaining b))
  word_u32 h = omega (
    arith,
    read_u32_le_value front 1 (All-drop IsByte b.offset b.ptr v.bytes),
    behind 0 (omega arith),
    behind 1 (omega arith),
    behind 2 (omega arith),
    behind 3 (omega arith),
  )

  word_u64 : 9 ≤ b.size - b.offset → read_u64_le front 1 ≡ number_le 8 (drop 1 (remaining b))
  word_u64 h = omega (
    arith,
    read_u64_le_value front 1 (All-drop IsByte b.offset b.ptr v.bytes),
    behind 0 (omega arith),
    behind 1 (omega arith),
    behind 2 (omega arith),
    behind 3 (omega arith),
    behind 4 (omega arith),
    behind 5 (omega arith),
    behind 6 (omega arith),
    behind 7 (omega arith),
  )

  view-after_varint :
      (n value : ℕ)
      → n ≤ b.size - b.offset
      → view (after_varint b (pos n, value)) ≡ (true, value, drop n (remaining b))
  unfolding after_varint
  view-after_varint n value h = rw (buffer_seek_cur_within v n h, remaining-ahead v n)

  after_varint_failed :
      (value : ℕ) → view (after_varint b (negsuc 0, value)) ≡ (false, 0, remaining b)
  unfolding after_varint
  after_varint_failed value = refl

  after_varint-IsValid : (r : ℤ × ℕ) → IsValid (after_varint b r).buffer
  unfolding after_varint
  after_varint-IsValid (pos n, value) = buffer_seek_cur-IsValid v n
  after_varint-IsValid (negsuc n, value) = v

  wide :
      (old n word : ℕ)
      → (suc n ≤ b.size - b.offset → word ≡ number_le n (drop 1 (remaining b)))
      → view (
          after_varint b
            (if ltb (b.size - b.offset) (suc n) then (negsuc 0, old) else (pos (suc n), word)))
        ≡ list_word n (remaining b)
  wide old n word e = elim (Bool-cases (ltb (b.size - b.offset) (suc n))) [
    | inl h ↦ rw (h, length-remaining v, lt→leb _ _ (ltb→lt _ _ h)) (after_varint_failed old)
    | inr h ↦
        rw (h, length-remaining v, le→leb _ _ (ltb→le _ _ h), ← e (ltb→le _ _ h))
          (view-after_varint (suc n) word (ltb→le _ _ h))
  ]

  -- `varint_read` on what remains, with its failure and the three wide forms.
  view-varint_read :
      (old : ℕ)
      → view (after_varint b (varint_read front (b.size - b.offset) old))
        ≡ list_varint (remaining b)
  unfolding varint_read
  view-varint_read old = elim (Bool-cases (ltb (b.size - b.offset) 1)) [
    | inl h ↦ rw (h, ltb→eq_zero _ (length-remaining v) h) (after_varint_failed old)
    | inr h ↦
        rw (h, ltb→ne_zero _ (length-remaining v) h, ← same 0 (ltb→le _ _ h))
          (elim (Bool-cases (byte_at front 0 == 0xFD)) [
            | inl fd ↦ rw fd (wide old 2 _ word_u16)
            | inr not_fd ↦ rw not_fd (elim (Bool-cases (byte_at front 0 == 0xFE)) [
              | inl fe ↦ rw fe (wide old 4 _ word_u32)
              | inr not_fe ↦ rw not_fe (elim (Bool-cases (byte_at front 0 == 0xFF)) [
                | inl ff ↦ rw ff (wide old 8 _ word_u64)
                | inr not_ff ↦ rw not_ff (view-after_varint 1 _ (ltb→le _ _ h))
              ])
            ])
          ])
  ]

  after_varint_same_size : (r : ℤ × ℕ) → (after_varint b r).buffer.size ≡ b.size
  unfolding after_varint
  after_varint_same_size (pos n, value) = buffer_seek_cur_same_size b n
  after_varint_same_size (negsuc n, value) = refl

  -- On a valid buffer, whatever the variable held before: the read is `list_varint` on the bytes that
  -- remain, which takes 1, 3, 5 or 9 of them or fails without moving. The buffer stays valid, and its
  -- size the same.
  pub buffer_read_varint-Refines :
      (old : ℕ) → Refines b (list_varint (remaining b)) (buffer_read_varint b old)
  unfolding buffer_read_varint
  buffer_read_varint-Refines old = record {
    seen = rw (left-eq v) (view-varint_read old);
    valid = after_varint-IsValid (varint_read (drop b.offset b.ptr) (left b) old);
    same_size = after_varint_same_size (varint_read (drop b.offset b.ptr) (left b) old);
  }
