-- ===== src/Common/Buffer/View.antt =====
-- A buffer of common/buffer.c as the list of the bytes that are still to be read.
use ledger_app_neo.Prelude.{
  ◌||◌, ℕ, zero, suc, ◌+◌, ◌-◌, ◌*◌, ◌^◌, ◌≤◌, ◌<◌, ◌≡◌, refl, sym, ◌∙◌, arith, true, false, List,
  [], ◌∷◌, drop, take, length, length-drop, length-take, drop-drop, drop-take, get_or-drop,
  get_or-take, true, false, leb, leb→le, leb→lt, if◌then◌else◌, All, All-take, All-drop, ltb, ap,
  Bool-cases, inl, inr,
}
use ledger_app_neo.Word.{u32, IsByte, byte_at}
use ledger_app_neo.Common.Buffer.{Buffer, Endianness, be, le, left, buffer_seek_cur}

-- The cursor lies in the memory, which is addressable and holds bytes.
pub record IsValid (b : Buffer) : Type 0 where
  pub in_size : b.offset ≤ b.size
  pub in_memory : b.size ≤ length b.ptr
  pub addressable : b.size < 2 ^ 32
  pub bytes : All IsByte b.ptr

abbrev pub remaining : Buffer → List ℕ
remaining b = take (b.size - b.offset) (drop b.offset b.ptr)

abbrev pub ahead : Buffer → ℕ → Buffer
ahead b n = record b { offset = b.offset + n }

-- The numbers that `n` bytes stand for, least or most significant byte first.
abbrev pub number_le : ℕ → List ℕ → ℕ
number_le zero xs = 0
number_le (suc n) xs = number_le n xs + byte_at xs n * 256 ^ n

abbrev pub number_be : ℕ → List ℕ → ℕ
number_be zero xs = 0
number_be (suc n) xs = number_be n xs * 256 + byte_at xs n

abbrev pub number : Endianness → ℕ → List ℕ → ℕ
number be n xs = number_be n xs
number le n xs = number_le n xs

module _ {b : Buffer} (v : IsValid b) where
  pub left-eq : left b ≡ b.size - b.offset
  left-eq = omega (arith, v)

  pub length-remaining : length (remaining b) ≡ b.size - b.offset
  length-remaining =
      omega (
        arith,
        v,
        length-take (b.size - b.offset) (drop b.offset b.ptr),
        length-drop b.offset b.ptr,
      )

  pub byte_at-remaining :
      (i : ℕ) → i < b.size - b.offset → byte_at b.ptr (b.offset + i) ≡ byte_at (remaining b) i
  byte_at-remaining i h =
      sym (
        get_or-take (b.size - b.offset) i (drop b.offset b.ptr) 0 h
        ∙ get_or-drop b.offset i b.ptr 0)

  pub remaining-ahead : (n : ℕ) → remaining (ahead b n) ≡ drop n (remaining b)
  remaining-ahead n =
      let fewer : b.size - (b.offset + n) ≡ b.size - b.offset - n = omega arith in
      rw fewer (
        sym (
          drop-take (b.size - b.offset) n (drop b.offset b.ptr)
          ∙ ap (take (b.size - b.offset - n)) (drop-drop b.offset n b.ptr)))

  pub ahead-IsValid : (n : ℕ) → n ≤ b.size - b.offset → IsValid (ahead b n)
  ahead-IsValid n h = record {
    in_size = omega (arith, v);
    in_memory = v.in_memory;
    addressable = v.addressable;
    bytes = v.bytes;
  }

  -- A seek within what remains moves the cursor; any other is refused, also one that wraps around.
  pub buffer_seek_cur_within :
      (n : ℕ) → n ≤ b.size - b.offset → buffer_seek_cur b n ≡ (true, ahead b n)
  unfolding buffer_seek_cur
  buffer_seek_cur_within n h = ground (arith, v)

  pub buffer_seek_cur_beyond :
      (n : ℕ) → n < 2 ^ 32 → b.size - b.offset < n → buffer_seek_cur b n ≡ (false, b)
  unfolding buffer_seek_cur
  buffer_seek_cur_beyond n w h = ground (arith, v)

  -- On a valid buffer, a relative seek, which adds modulo 2 ^ 32, is a seek without wrap-around: it moves the
  -- cursor by the amount where so many bytes remain, and else fails and moves nothing.
  pub buffer_seek_cur_exact :
      (n : ℕ)
      → n < 2 ^ 32
      → buffer_seek_cur b n ≡ (if leb n (b.size - b.offset) then (true, ahead b n) else (false, b))
  buffer_seek_cur_exact n small = elim (Bool-cases (leb n (b.size - b.offset))) [
    | inl within ↦ rw within (buffer_seek_cur_within n (leb→le _ _ within))
    | inr beyond ↦ rw beyond (buffer_seek_cur_beyond n small (leb→lt _ _ beyond))
  ]

  -- The cursor of a valid buffer is not beyond the size after a relative seek by any amount.
  pub buffer_seek_cur-IsValid : (n : ℕ) → IsValid (buffer_seek_cur b n).1
  unfolding buffer_seek_cur
  buffer_seek_cur-IsValid n = record {
    in_size = ground (arith, v);
    in_memory = ground (arith, v);
    addressable = ground (arith, v);
    bytes =
        elim (Bool-cases (ltb (u32 (b.offset + n)) b.offset || ltb b.size (u32 (b.offset + n)))) [
          | inl h ↦ rw h v.bytes
          | inr h ↦ rw h v.bytes
        ];
  }

pub buffer_seek_cur_same_size : (b : Buffer) (n : ℕ) → (buffer_seek_cur b n).1.size ≡ b.size
unfolding buffer_seek_cur
buffer_seek_cur_same_size b n = ground arith

pub remaining-IsByte : {b : Buffer} → IsValid b → All IsByte (remaining b)
remaining-IsByte {b} v =
    All-take IsByte (b.size - b.offset) _ (All-drop IsByte b.offset b.ptr v.bytes)

-- A number reads only its own bytes.
pub number_le-take : (n m : ℕ) (xs : List ℕ) → n ≤ m → number_le n (take m xs) ≡ number_le n xs
number_le-take zero m xs h = refl
number_le-take (suc n) m xs h =
    rw (number_le-take n m xs (omega arith), get_or-take m n xs 0 (omega arith))

pub take_one : (xs : List ℕ) → 1 ≤ length xs → take 1 xs ≡ byte_at xs 0 ∷ []
take_one [] h = absurd (omega arith)
take_one (x ∷ xs) h = refl

pub take_two : (xs : List ℕ) → 2 ≤ length xs → take 2 xs ≡ byte_at xs 0 ∷ byte_at xs 1 ∷ []
take_two [] h = absurd (omega arith)
take_two (x ∷ []) h = absurd (omega arith)
take_two (x ∷ y ∷ xs) h = refl
