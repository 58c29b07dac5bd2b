-- ===== src/Common/Format/Bounds.antt =====
-- The text of a 64-bit number in common/format.c has at most 20 digits, so it always fits where it is put.
use ledger_app_neo.Prelude.{
  ℕ, zero, suc, ◌+◌, ◌-◌, ◌*◌, ◌/◌, ◌%◌, ◌^◌, ◌≤◌, ◌<◌, ◌≡◌, refl, ◌∙◌, arith, true, false, List,
  [], ◌∷◌, set, length, replicate, length-set, get_or-set_self, ltb, leb, le→ltb, lt→leb, ◌==◌,
  Bool-cases, inl, inr,
}
use ledger_app_neo.Word.{u8, byte_at}
use ledger_app_neo.Common.Format.Reversal.{reverse_outside}
use ledger_app_neo.Common.Format.{
  Digits, digit_loop, reverse_loop, format_u64, strlen, format_fpu64,
}

-- The numbers of at most `k + 1` digits are those below this one.
unfoldable pub cap : ℕ → ℕ
cap zero = 10
cap (suc k) = 10 * cap k

-- What the loop leaves: it fits, and the last digit stands before the end.
pub record Fits (limit : ℕ) (out : List ℕ) (d : Digits) : Type 0 where
  pub fits : d.fits ≡ true
  pub within : d.i ≤ limit
  pub same_length : length d.out ≡ length out

pub digit_loop-Fits :
    (k fuel : ℕ) (out : List ℕ) (i n : ℕ)
    → n < cap k
    → k ≤ fuel
    → i + k ≤ 19
    → Fits (i + k) out (digit_loop (suc fuel) out 20 i n)
unfolding digit_loop cap
digit_loop-Fits zero fuel out i n small enough room =
    let last : ltb 9 n ≡ false = le→ltb 9 n (omega arith) in
    rw last (record { fits = refl; within = omega arith; same_length = refl })
digit_loop-Fits (suc k) zero out i n small enough room = absurd (omega arith)
digit_loop-Fits (suc k) (suc fuel) out i n small enough room = elim (Bool-cases (ltb 9 n)) [
  | inr last ↦ rw last (record { fits = refl; within = omega arith; same_length = refl })
  | inl more ↦
      let next : u8 (i + 1) ≡ i + 1 = omega arith in
      let inside : ltb 20 (i + 1 + 1) ≡ false = le→ltb 20 (i + 1 + 1) (omega arith) in
      let out' = set out i (n % 10 + b'0') in
      let h =
        digit_loop-Fits k fuel out' (i + 1) (n / 10) (omega arith) (omega arith) (omega arith) in
      rw (more, next, inside)
        (record {
          fits = h.fits;
          within = omega (arith, h.within);
          same_length = h.same_length ∙ length-set out i (n % 10 + b'0');
        })
]

-- A text ends at its first NUL at the latest.
strlen_bound : (xs : List ℕ) (k : ℕ) → byte_at xs k ≡ 0 → strlen xs ≤ k
unfolding strlen
strlen_bound [] k h = omega arith
strlen_bound (x ∷ xs) zero h = rw h (omega arith)
strlen_bound (x ∷ xs) (suc k) h = elim (Bool-cases (x == 0)) [
  | inl end ↦ rw end (omega arith)
  | inr more ↦ rw more (omega (arith, strlen_bound xs k h))
]

abbrev number_buffer : List ℕ
number_buffer = replicate 21 0

-- Every 64-bit number has a text of at most 20 characters, and it fits into 21 bytes.
pub format_u64_bound :
    (n : ℕ)
    → n < 2 ^ 64
    → ((format_u64 (replicate 21 0) 21 n).0 ≡ true)
      × (strlen (format_u64 (replicate 21 0) 21 n).1 ≤ 20)
unfolding format_u64 cap
format_u64_bound n small =
    let d = digit_loop 20 number_buffer 20 0 n in
    let h : Fits 19 number_buffer d =
      digit_loop-Fits 19 19 number_buffer 0 n (below_cap n small) (omega arith) (omega arith) in
    let text = set d.out d.i (u8 (d.rest + b'0')) in
    let ended = set text (d.i + 1) 0 in
    let inside : d.i + 1 < length text =
      omega (arith, h.within, h.same_length, length-set d.out d.i (u8 (d.rest + b'0'))) in
    let nul : byte_at (reverse_loop d.i ended d.i 0) (d.i + 1) ≡ 0 =
      reverse_outside d.i ended d.i 0 (d.i + 1) (inr (omega arith))
      ∙ get_or-set_self text (d.i + 1) 0 0 inside in
    rw h.fits
      (refl, omega (arith, strlen_bound (reverse_loop d.i ended d.i 0) (d.i + 1) nul, h.within))
  where
    below_cap : (n : ℕ) → n < 2 ^ 64 → n < cap 19
    below_cap n h = omega arith

-- With at most 8 decimals, the text of every 64-bit number fits into 30 bytes.
pub format_fpu64_fits :
    (n decimals : ℕ)
    → n < 2 ^ 64
    → decimals ≤ 8
    → (format_fpu64 (replicate 30 0) 30 n decimals).0 ≡ true
unfolding format_fpu64
format_fpu64_fits n decimals small few =
    let (printed, bound) = format_u64_bound n small in
    let digits = strlen (format_u64 (replicate 21 0) 21 n).1 in
    rw printed (elim (Bool-cases (leb digits decimals)) [
      | inl fraction ↦
          let room : leb 30 (2 + decimals - digits) ≡ false =
            lt→leb 30 (2 + decimals - digits) (omega arith) in
          rw (fraction, room) refl
      | inr whole ↦
          let room : leb 30 (digits + 1 + decimals) ≡ false =
            lt→leb 30 (digits + 1 + decimals) (omega (arith, bound)) in
          rw (whole, room)
            (elim (Bool-cases (decimals == 0)) [
              | inl whole_number ↦ rw whole_number refl
              | inr fractional ↦ rw fractional refl
            ])
    ])
