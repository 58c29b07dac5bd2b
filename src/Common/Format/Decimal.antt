-- ===== src/Common/Format/Decimal.antt =====
-- The text that `format_u64` of common/format.c writes is the number in decimal.
use ledger_app_neo.Prelude.{
  All, ℕ, zero, suc, ◌+◌, ◌-◌, ◌*◌, ◌/◌, ◌%◌, ◌^◌, ◌≤◌, ◌<◌, ◌≡◌, ◌≢◌, ==_iff, refl, sym, ap, ◌∙◌,
  arith, false, List, [], ◌∷◌, set, length, replicate, length-set, get_or-set_self, get_or-set_ne,
  ltb, ltb→le, le→ltb, ◌==◌, Bool-cases, inl, inr,
}
use mathlib.Core.Path.{subst, subst⁻¹}
use ledger_app_neo.Word.{u8, byte_at}
use ledger_app_neo.Common.Format.Reversal.{reverse_outside, reverse_inside, unequal}
use ledger_app_neo.Common.Format.Bounds.{cap, digit_loop-Fits, Fits}
use ledger_app_neo.Common.Format.{Digits, digit_loop, reverse_loop, format_u64, c_string}

-- The number that a text of decimal digits stands for, from a number that stands before it.
abbrev pub number_of : ℕ → List ℕ → ℕ
number_of acc [] = acc
number_of acc (c ∷ cs) = number_of (acc * 10 + (c - b'0')) cs

unfoldable pub pow10 : ℕ → ℕ
pow10 zero = 1
pow10 (suc k) = 10 * pow10 k

-- The number of the first `k` digits, the least significant one first.
low_value : ℕ → List ℕ → ℕ
low_value zero xs = 0
low_value (suc k) xs = low_value k xs + (byte_at xs k - b'0') * pow10 k

abbrev pub IsDigit : ℕ → Type 0
IsDigit c = (b'0' ≤ c) × (c ≤ b'9')

pub spread : (a x p : ℕ) → (a * 10 + x) * p ≡ a * (10 * p) + x * p
spread a x p = grind arith

low_value-set : (k : ℕ) (xs : List ℕ) (i c : ℕ) → k ≤ i → low_value k (set xs i c) ≡ low_value k xs
unfolding low_value
low_value-set zero xs i c h = refl
low_value-set (suc k) xs i c h =
    rw (low_value-set k xs i c (omega arith), get_or-set_ne xs i k c 0 (omega arith)) refl

-- What the loop leaves: the digits written and the digit that is left are those of the number `n`.
record Writes (n : ℕ) (d : Digits) : Type 0 where
  digits : (k : ℕ) → k < d.i → IsDigit (byte_at d.out k)
  last : d.rest ≤ 9
  value : low_value d.i d.out + d.rest * pow10 d.i ≡ n

IsDigit-set :
    (out : List ℕ) (i c : ℕ)
    → i < length out
    → IsDigit c
    → ((k : ℕ) → k < i → IsDigit (byte_at out k))
    → (k : ℕ) → k < i + 1
    → IsDigit (byte_at (set out i c) k)
IsDigit-set out i c room digit digits k h = elim (Bool-cases (k == i)) [
  | inl here ↦ let at : k ≡ i = (==_iff k i).0 here in rw (at, get_or-set_self out i c 0 room) digit
  | inr before ↦
      let other : k ≢ i = unequal k i before in
      rw (get_or-set_ne out i k c 0 (omega arith)) (digits k (omega arith))
]

swap_sum : (l a b c : ℕ) → a ≡ b + c → l + c + b ≡ l + a
swap_sum l a b c e = omega arith

low_value_step :
    (out : List ℕ) (i j n : ℕ)
    → j ≡ suc i
    → i < length out
    → low_value j (set out i (n % 10 + b'0')) + n / 10 * pow10 j ≡ low_value i out + n * pow10 i
unfolding low_value pow10
low_value_step out i j n next room =
    let split : n ≡ n / 10 * 10 + n % 10 = omega arith in
    let digit : n % 10 + b'0' - b'0' ≡ n % 10 = omega arith in
    rw
      (
        next,
        low_value-set i out i (n % 10 + b'0') (omega arith),
        get_or-set_self out i (n % 10 + b'0') 0 room,
        digit,
      )
      (swap_sum (low_value i out) (n * pow10 i) (n / 10 * (10 * pow10 i)) (n % 10 * pow10 i)
        (ap (λ m. m * pow10 i) split ∙ spread (n / 10) (n % 10) (pow10 i)))

IsDigit_lem : (n : ℕ) → n ≤ 9 → IsDigit (n + b'0')
IsDigit_lem n h = (omega arith, omega arith)

digit_loop-Writes :
    (limit fuel : ℕ) (out : List ℕ) (i n : ℕ)
    → n < cap limit
    → limit ≤ fuel
    → i + limit ≤ 19
    → 21 ≤ length out
    → ((k : ℕ) → k < i → IsDigit (byte_at out k))
    → Writes (low_value i out + n * pow10 i) (digit_loop (suc fuel) out 20 i n)
unfolding digit_loop cap
digit_loop-Writes zero fuel out i n small enough room long digits =
    let last : ltb 9 n ≡ false = le→ltb 9 n (omega arith) in
    rw last (record { digits = digits; last = omega arith; value = refl })
digit_loop-Writes (suc limit) zero out i n small enough room long digits = absurd (omega arith)
digit_loop-Writes (suc limit) (suc fuel) out i n small enough room long digits =
    elim (Bool-cases (ltb 9 n)) [
      | inr last ↦ rw last (record { digits = digits; last = ltb→le 9 n last; value = refl })
      | inl more ↦
          let next : u8 (i + 1) ≡ i + 1 = omega arith in
          let inside : ltb 20 (i + 1 + 1) ≡ false = le→ltb 20 (i + 1 + 1) (omega arith) in
          let c = n % 10 + b'0' in
          let out' = set out i c in
          let rest =
            digit_loop-Writes limit fuel out' (i + 1) (n / 10) (omega arith) (omega arith)
              (omega arith) (omega (arith, length-set out i c))
              (IsDigit-set out i c (omega arith) (IsDigit_lem (n % 10) (omega arith)) digits) in
          rw (more, next, inside)
            (subst (λ v. Writes v (digit_loop (suc fuel) out' 20 (i + 1) (n / 10)))
              (low_value_step out i (i + 1) n (omega arith) (omega arith)) rest)
    ]

pub digit_nonzero : (c : ℕ) → b'0' ≤ c → (c == 0) ≡ false
digit_nonzero c h = ground arith

shuffle :
    (acc c x p l : ℕ)
    → c ≡ x
    → (acc * 10 + (c - b'0')) * p + l ≡ acc * (10 * p) + (l + (x - b'0') * p)
shuffle acc c x p l same =
    let digit : c - b'0' ≡ x - b'0' = omega arith in
    rw (digit, spread acc (x - b'0') p) (omega arith)

-- A text whose characters are the digits of `xs` in reverse, and a NUL behind them.
number_of-c_string :
    (m : ℕ) (text xs : List ℕ) (acc : ℕ)
    → ((k : ℕ) → k < m → IsDigit (byte_at xs k))
    → ((k : ℕ) → k < m → byte_at text k ≡ byte_at xs (m - 1 - k))
    → byte_at text m ≡ 0
    → number_of acc (c_string text) ≡ acc * pow10 m + low_value m xs
unfolding c_string low_value pow10
number_of-c_string zero [] xs acc digits reversed end = omega arith
number_of-c_string zero (c ∷ cs) xs acc digits reversed end = rw end (omega arith)
number_of-c_string (suc m) [] xs acc digits reversed end =
    let first : 0 ≡ byte_at xs (suc m - 1 - 0) = reversed 0 (omega arith) in
    absurd (omega (arith, first, (digits (suc m - 1 - 0) (omega arith)).0))
number_of-c_string (suc m) (c ∷ cs) xs acc digits reversed end =
    let at : suc m - 1 - 0 ≡ m = omega arith in
    let first : c ≡ byte_at xs m = reversed 0 (omega arith) ∙ ap (byte_at xs) at in
    let some_digit : (c == 0) ≡ false =
      digit_nonzero c (omega (arith, first, (digits m (omega arith)).0)) in
    let rest =
      number_of-c_string m cs xs (acc * 10 + (c - b'0')) (λ k h. digits k (omega arith))
        (λ k h. reversed (suc k) (omega arith) ∙ ap (byte_at xs) (omega arith)) end in
    rw some_digit (rest ∙ shuffle acc c (byte_at xs m) (pow10 m) (low_value m xs) first)

c_string-IsDigit :
    (m : ℕ) (text xs : List ℕ)
    → ((k : ℕ) → k < m → IsDigit (byte_at xs k))
    → ((k : ℕ) → k < m → byte_at text k ≡ byte_at xs (m - 1 - k))
    → byte_at text m ≡ 0
    → All IsDigit (c_string text)
unfolding c_string
c_string-IsDigit m [] xs digits reversed end = tt
c_string-IsDigit zero (c ∷ cs) xs digits reversed end = rw end tt
c_string-IsDigit (suc m) (c ∷ cs) xs digits reversed end =
    let first : c ≡ byte_at xs (suc m - 1 - 0) = reversed 0 (omega arith) in
    let digit : IsDigit c = subst⁻¹ IsDigit first (digits (suc m - 1 - 0) (omega arith)) in
    rw (digit_nonzero c digit.0) (
      digit,
      c_string-IsDigit m cs xs (λ k h. digits k (omega arith))
          (λ k h. reversed (suc k) (omega arith) ∙ ap (byte_at xs) (omega arith)) end,
    )

c_string_some : (text : List ℕ) → IsDigit (byte_at text 0) → 1 ≤ length (c_string text)
unfolding c_string
c_string_some [] h = absurd (omega arith)
c_string_some (c ∷ cs) h = rw (digit_nonzero c h.0) (omega arith)

-- The text, up to its NUL, is the number in decimal digits, at least one.
abbrev pub Spells : ℕ → List ℕ → Type 0
Spells n text =
    All IsDigit (c_string text) × (number_of 0 (c_string text) ≡ n) × (1 ≤ length (c_string text))

-- The digits with the last one put behind them and a NUL, swapped end to end.
text_of :
    (d : Digits) (n : ℕ)
    → ((k : ℕ) → k < d.i → IsDigit (byte_at d.out k))
    → d.rest ≤ 9
    → low_value d.i d.out + d.rest * pow10 d.i ≡ n
    → d.i + 1 < length d.out
    → Spells n (reverse_loop d.i (set (set d.out d.i (u8 (d.rest + b'0'))) (d.i + 1) 0) d.i 0)
unfolding low_value pow10
text_of d n digits last value room =
    let c = u8 (d.rest + b'0') in
    let same : c ≡ d.rest + b'0' = omega arith in
    let digit : d.rest + b'0' - b'0' ≡ d.rest = omega arith in
    let next : suc d.i ≡ d.i + 1 = omega arith in
    let text = set d.out d.i c in
    let ended = set text (d.i + 1) 0 in
    let long = length-set d.out d.i c in
    let longer = length-set text (d.i + 1) 0 in
    let reversed = reverse_loop d.i ended d.i 0 in
    let end : byte_at reversed (suc d.i) ≡ 0 =
      reverse_outside d.i ended d.i 0 (suc d.i) (inr (omega arith))
      ∙ (ap (byte_at ended) next ∙ get_or-set_self text (d.i + 1) 0 0 (omega (arith, long))) in
    let at_last : byte_at text d.i ≡ c = get_or-set_self d.out d.i c 0 (omega arith) in
    let sum : low_value (suc d.i) text ≡ n =
      rw (low_value-set d.i d.out d.i c (omega arith), at_last, same, digit) value in
    let all_digits : (k : ℕ) → k < suc d.i → IsDigit (byte_at text k) = λ k h.
      IsDigit-set d.out d.i c (omega arith) (subst IsDigit (sym same) (IsDigit_lem d.rest last))
        digits k (omega arith) in
    let turned : (k : ℕ) → k < suc d.i → byte_at reversed k ≡ byte_at text (suc d.i - 1 - k) =
      λ k h.
        reverse_inside d.i ended d.i 0 k (omega (arith, long, longer)) (omega arith) (omega arith)
          (omega arith)
        ∙ (get_or-set_ne text (d.i + 1) (d.i + 0 - k) 0 0 (omega arith)
            ∙ ap (byte_at text) (omega arith)) in
    (
      c_string-IsDigit (suc d.i) reversed text all_digits turned end,
      number_of-c_string (suc d.i) reversed text 0 all_digits turned end ∙ (omega arith ∙ sum),
      c_string_some reversed
          (subst⁻¹ IsDigit (turned 0 (omega arith)) (all_digits (suc d.i - 1 - 0) (omega arith))),
    )

-- The text that `format_u64` makes of a 64-bit number is decimal digits, at least one, and nothing else up
-- to its NUL, and read from the left they are that number.
pub format_u64-Spells : (n : ℕ) → n < 2 ^ 64 → Spells n (format_u64 (replicate 21 0) 21 n).1
unfolding format_u64 low_value pow10 cap
format_u64-Spells n small =
    let buffer = replicate {A = ℕ} 21 0 in
    let d = digit_loop 20 buffer 20 0 n in
    let h : Fits 19 buffer d =
      digit_loop-Fits 19 19 buffer 0 n (omega arith) (omega arith) (omega arith) in
    let w : Writes (0 + n * 1) d =
      digit_loop-Writes 19 19 buffer 0 n (omega arith) (omega arith) (omega arith) (omega arith)
        (λ k h. absurd (omega arith)) in
    rw h.fits
      (text_of d n w.digits w.last (w.value ∙ omega arith) (omega (arith, h.within, h.same_length)))
