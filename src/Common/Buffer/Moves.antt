-- ===== src/Common/Buffer/Moves.antt =====
-- What `memmove` and `buffer_move` of common/buffer.c leave in memory.
use ledger_app_neo.Prelude.{
  ℕ, zero, suc, ◌+◌, ◌-◌, ◌≤◌, ◌≡◌, refl, ap, ◌∙◌, arith, true, List, [], ◌∷◌, ◌++◌, take, drop,
  length, ltb_self, All,
}
use ledger_app_neo.Word.{IsByte}
use ledger_app_neo.Common.Buffer.{Buffer, memmove, buffer_move}
use ledger_app_neo.Common.Buffer.View.{
  IsValid, left-eq, remaining, length-remaining, ahead, buffer_seek_cur_within,
}

pub memmove-nil : (xs : List ℕ) (i : ℕ) → memmove xs i [] ≡ xs
unfolding memmove
memmove-nil [] i = refl
memmove-nil (x ∷ xs) zero = refl
memmove-nil (x ∷ xs) (suc i) = ap (◌∷◌ x) (memmove-nil xs i)

pub length-memmove :
    (xs : List ℕ) (i : ℕ) (bytes : List ℕ) → length (memmove xs i bytes) ≡ length xs
unfolding memmove
length-memmove [] i bytes = refl
length-memmove (x ∷ xs) zero [] = refl
length-memmove (x ∷ xs) zero (b ∷ bytes) = ap suc (length-memmove xs zero bytes)
length-memmove (x ∷ xs) (suc i) bytes = ap suc (length-memmove xs i bytes)

pub All-memmove :
    (xs : List ℕ) (i : ℕ) (bytes : List ℕ)
    → All IsByte xs
    → All IsByte bytes
    → All IsByte (memmove xs i bytes)
unfolding memmove
All-memmove [] i bytes h k = tt
All-memmove (x ∷ xs) zero [] h k = h
All-memmove (x ∷ xs) zero (b ∷ bytes) h k = (k.0, All-memmove xs zero bytes h.1 k.1)
All-memmove (x ∷ xs) (suc i) bytes h k = (h.0, All-memmove xs i bytes h.1 k)

-- Bytes that fit stand between what was there before and behind them.
pub memmove_lem :
    (xs : List ℕ) (i : ℕ) (bytes : List ℕ)
    → i + length bytes ≤ length xs
    → memmove xs i bytes ≡ take i xs ++ (bytes ++ drop (i + length bytes) xs)
unfolding memmove
memmove_lem [] zero [] h = refl
memmove_lem [] zero (b ∷ bytes) h = absurd (omega arith)
memmove_lem [] (suc i) bytes h = absurd (omega arith)
memmove_lem (x ∷ xs) zero [] h = refl
memmove_lem (x ∷ xs) zero (b ∷ bytes) h =
    let front : zero + length (b ∷ bytes) ≡ suc (zero + length bytes) = omega arith in
    rw front (ap (◌∷◌ b) (memmove_lem xs zero bytes (omega arith)))
memmove_lem (x ∷ xs) (suc i) bytes h =
    let front : suc i + length bytes ≡ suc (i + length bytes) = omega arith in
    rw front (ap (◌∷◌ x) (memmove_lem xs i bytes (omega arith)))

-- Up to their end.
pub take-memmove :
    (xs : List ℕ) (i : ℕ) (bytes : List ℕ)
    → i + length bytes ≤ length xs
    → take (i + length bytes) (memmove xs i bytes) ≡ take i xs ++ bytes
unfolding memmove
take-memmove [] zero [] h = refl
take-memmove [] zero (b ∷ bytes) h = absurd (omega arith)
take-memmove [] (suc i) bytes h = absurd (omega arith)
take-memmove (x ∷ xs) zero [] h = refl
take-memmove (x ∷ xs) zero (b ∷ bytes) h =
    let front : zero + length (b ∷ bytes) ≡ suc (zero + length bytes) = omega arith in
    rw front (ap (◌∷◌ b) (take-memmove xs zero bytes (omega arith)))
take-memmove (x ∷ xs) (suc i) bytes h =
    let front : suc i + length bytes ≡ suc (i + length bytes) = omega arith in
    rw front (ap (◌∷◌ x) (take-memmove xs i bytes (omega arith)))

pub take-memmove_at :
    (xs : List ℕ) (i : ℕ) (bytes : List ℕ) (n : ℕ)
    → n ≡ i + length bytes
    → n ≤ length xs
    → take n (memmove xs i bytes) ≡ take i xs ++ bytes
take-memmove_at xs i bytes n e h = rw e (take-memmove xs i bytes (omega arith))

-- A move into room for just the bytes that remain succeeds.
pub buffer_move_all :
    {b : Buffer} (v : IsValid b) (memory : List ℕ) (out n : ℕ)
    → n ≡ b.size - b.offset
    → buffer_move b memory out n ≡ (true, memmove memory out (remaining b), ahead b n)
unfolding buffer_move
buffer_move_all {b} v memory out n all =
    rw (left-eq v, ← all, ltb_self n, buffer_seek_cur_within v n (omega arith))

-- On a valid buffer, a move of all the bytes that remain to a place of the memory where there is room for
-- them: they stand there, all that is before and behind them stays, and the cursor is at the end.
pub buffer_move_places :
    {b : Buffer} (v : IsValid b) (memory : List ℕ) (out n : ℕ)
    → n ≡ b.size - b.offset
    → out + n ≤ length memory
    → buffer_move b memory out n ≡ (
      true,
      take out memory ++ (remaining b ++ drop (out + n) memory),
      record b { offset = b.size },
    )
buffer_move_places {b} v memory out n all room =
    let long : length (remaining b) ≡ n = omega (arith, length-remaining v) in
    let end : b.offset + n ≡ b.size = omega (arith, v.in_size) in
    buffer_move_all v memory out n all
    ∙ rw (memmove_lem memory out (remaining b) (omega (arith, long)), long, end) refl
