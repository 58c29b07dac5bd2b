-- ===== src/Common/Format/Fixed.antt =====
-- The text of `format_fpu64` of common/format.c is the number with its decimals.
use ledger_app_neo.Prelude.{
  ℕ, zero, suc, ◌+◌, ◌-◌, ◌*◌, ◌^◌, ◌≤◌, ◌<◌, ◌≡◌, refl, sym, ap, ◌∙◌, arith, false, List, [], ◌∷◌,
  ◌++◌, append_assoc, All, All-take, All-drop, All-append, All-replicate, set, take, drop,
  take-append-drop, take_all, length, length-append, length-take, length-drop, length-replicate,
  replicate, leb, leb→le, leb→lt, lt→leb, ◌==◌, ==_iff, if◌then◌else◌, Bool-cases, inl, inr,
}
use mathlib.Core.Path.{subst⁻¹}
use ledger_app_neo.Common.Buffer.{memmove}
use ledger_app_neo.Common.Format.{format_u64, format_fpu64, c_string, strncpy}
use ledger_app_neo.Common.Format.Bounds.{format_u64_bound}
use ledger_app_neo.Common.Format.Strings.{
  Nonzero, c_string-ended, strlen_lem, take-c_string, c_string-drop, memmove_behind, strncpy_behind,
  set_behind, All-map,
}
use ledger_app_neo.Common.Format.Decimal.{
  number_of, pow10, spread, IsDigit, Spells, format_u64-Spells,
}

pub number_of-append :
    (acc : ℕ) (xs ys : List ℕ) → number_of acc (xs ++ ys) ≡ number_of (number_of acc xs) ys
number_of-append acc [] ys = refl
number_of-append acc (x ∷ xs) ys = number_of-append (acc * 10 + (x - b'0')) xs ys

number_of_from :
    (acc : ℕ) (xs : List ℕ) → number_of acc xs ≡ acc * pow10 (length xs) + number_of 0 xs
unfolding pow10
number_of_from acc [] = omega arith
number_of_from acc (x ∷ xs) =
    let digit = x - b'0' in
    let p = pow10 (length xs) in
    let here = number_of_from (acc * 10 + digit) xs in
    let alone = number_of_from (0 * 10 + digit) xs in
    omega (arith, here, alone, spread acc digit p, spread 0 digit p)

number_of-zeros : (n : ℕ) (xs : List ℕ) → number_of 0 (replicate n b'0' ++ xs) ≡ number_of 0 xs
number_of-zeros zero xs = refl
number_of-zeros (suc n) xs = number_of-zeros n xs

-- A text with a point: the digits before it and those behind it. Without decimals there is a zero.
pub record Shows (n decimals : ℕ) (text : List ℕ) : Type 0 where
  pub whole : List ℕ
  pub fraction : List ℕ
  pub text_eq : text ≡ whole ++ (b'.' ∷ fraction)
  pub whole_digits : All IsDigit whole
  pub fraction_digits : All IsDigit fraction
  pub some_whole : 1 ≤ length whole
  pub fraction_length : length fraction ≡ (if decimals == 0 then 1 else decimals)
  pub no_decimals : decimals ≡ 0 → fraction ≡ b'0' ∷ []
  pub value : number_of 0 whole * pow10 decimals + number_of 0 fraction ≡ n
  pub short : length whole + decimals ≤ 20

printable : (xs : List ℕ) → All IsDigit xs → All Nonzero xs
printable xs h = All-map xs (λ c d. omega (arith, d.0)) h

-- The text in the memory of 30 bytes, behind which a NUL is left.
ended :
    (whole fraction : List ℕ) (m : ℕ)
    → All IsDigit whole
    → All IsDigit fraction
    → 1 ≤ m
    → c_string ((whole ++ (b'.' ∷ fraction)) ++ replicate m 0) ≡ whole ++ (b'.' ∷ fraction)
ended whole fraction m w f room =
    c_string-ended (whole ++ (b'.' ∷ fraction)) m
      (All-append Nonzero whole (b'.' ∷ fraction) (printable whole w)
        (omega arith, printable fraction f))
      room

at_least_one : (n : ℕ) → (n == 0) ≡ false → 1 ≤ n
at_least_one n h = ground arith

number_of_empty : (xs : List ℕ) → length xs ≡ 0 → number_of 0 xs ≡ 0
number_of_empty [] h = refl
number_of_empty (x ∷ xs) h = absurd (omega arith)

places :
    (decimals k : ℕ) → k ≡ decimals → 1 ≤ decimals → k ≡ (if decimals == 0 then 1 else decimals)
places decimals k same some = ground arith

module _ (n decimals : ℕ) (buffer : List ℕ) (s : Spells n buffer) (few : decimals ≤ 8) where
  abbrev text : List ℕ
  text = c_string buffer

  -- The number has no more digits than decimals.
  fraction-Shows :
      length text ≤ decimals
      → Shows n decimals (
          c_string (
            strncpy
              (memmove (replicate 30 0) 0 (b'0' ∷ b'.' ∷ replicate (decimals - length text) b'0'))
              (2 + (decimals - length text))
              buffer
              (30 - (2 + decimals - length text))))
  fraction-Shows short =
      let zeros = replicate {A = ℕ} (decimals - length text) b'0' in
      let front = b'0' ∷ b'.' ∷ zeros in
      let n' = 30 - (2 + decimals - length text) in
      let zeros_length = length-replicate {A = ℕ} (decimals - length text) b'0' in
      let m = 30 - length front in
      let whole_text : take n' text ≡ text = take_all n' text (omega arith) in
      let written = memmove_behind [] 30 0 front refl (omega (arith, zeros_length)) in
      let copied =
        strncpy_behind front m (2 + (decimals - length text)) buffer n'
          (omega (arith, zeros_length)) (omega (arith, zeros_length)) (printable text s.0) in
      let all_zeros = All-replicate IsDigit (decimals - length text) b'0' (omega arith) in
      let digits = All-append IsDigit zeros text all_zeros s.0 in
      record {
        whole = b'0' ∷ [];
        fraction = zeros ++ text;
        text_eq =
            ap (λ xs. c_string (strncpy xs (2 + (decimals - length text)) buffer n')) written
            ∙ (ap c_string (
                  copied
                  ∙ ap (λ xs. front ++ (xs ++ replicate (m - length xs) 0)) whole_text
                  ∙ ap (λ xs. b'0' ∷ b'.' ∷ xs)
                      (sym (append_assoc zeros text (replicate (m - length text) 0))))
                ∙ ended (b'0' ∷ []) (zeros ++ text) (m - length text) (omega arith) digits
                    (omega (arith, zeros_length)));
        whole_digits = omega arith;
        fraction_digits = digits;
        some_whole = omega arith;
        fraction_length =
            places decimals (length (zeros ++ text))
              (omega (arith, length-append {0} zeros text, zeros_length)) (omega (arith, s.2));
        no_decimals = λ none. absurd (omega (arith, none, s.2));
        value = omega (arith, number_of-zeros (decimals - length text) text, s.1);
        short = omega arith;
      }

  -- The number has more digits than decimals.
  module _ (long : decimals < length text) (most : length text ≤ 20) where
    abbrev shift : ℕ
    shift = length text - decimals

    abbrev front : List ℕ
    front = take shift text

    abbrev behind : List ℕ
    behind = drop shift text

    front-length : length front ≡ shift
    front-length = omega (arith, length-take shift text)

    behind-length : length behind ≡ decimals
    behind-length = omega (arith, length-drop shift text)

    value_eq : number_of 0 front * pow10 decimals + number_of 0 behind ≡ n
    value_eq =
        ap (λ k. number_of 0 front * pow10 k + number_of 0 behind) (sym behind-length)
        ∙ sym (number_of_from (number_of 0 front) behind)
        ∙ sym (number_of-append 0 front behind)
        ∙ ap (number_of 0) (take-append-drop shift text)
        ∙ s.1

    abbrev pointed : List ℕ
    pointed = front ++ (b'.' ∷ [])

    pointed-length : length pointed ≡ shift + 1
    pointed-length = omega (arith, length-append {0} front (b'.' ∷ []), front-length)

    -- The digits before the point, and the point.
    filled :
        set (memmove (replicate 30 0) 0 (take shift buffer)) shift b'.'
        ≡ pointed ++ replicate (29 - shift) 0
    filled =
        ap (λ xs. set (memmove (replicate 30 0) 0 xs) shift b'.')
          (take-c_string shift buffer (omega arith))
        ∙ (ap (λ xs. set xs shift b'.')
              (memmove_behind [] 30 0 front refl (omega (arith, front-length)))
            ∙ (set_behind front (30 - length front) shift b'.' (sym front-length)
                  (omega (arith, front-length))
                ∙ (ap (λ k. front ++ (b'.' ∷ replicate {A = ℕ} k 0)) (rest front-length)
                    ∙ sym (append_assoc front (b'.' ∷ []) (replicate (29 - shift) 0)))))
      where
        rest : {k : ℕ} → k ≡ shift → 30 - k - 1 ≡ 29 - shift
        rest e = omega arith

    text_split :
        (fraction : List ℕ) (m : ℕ)
        → All IsDigit fraction
        → 1 ≤ m
        → c_string (pointed ++ (fraction ++ replicate m 0)) ≡ front ++ (b'.' ∷ fraction)
    text_split fraction m digits room =
        ap c_string (
          append_assoc front (b'.' ∷ []) (fraction ++ replicate m 0)
          ∙ sym (append_assoc front (b'.' ∷ fraction) (replicate m 0)))
        ∙ ended front fraction m (All-take IsDigit shift text s.0) digits room

    pub whole-Shows :
        decimals ≡ 0
        → Shows n decimals (
            c_string (
              set
                (set (memmove (replicate 30 0) 0 (take shift buffer)) shift b'.')
                (shift + 1)
                b'0'))
    whole-Shows none = record {
      whole = front;
      fraction = b'0' ∷ [];
      text_eq =
          ap (λ xs. c_string (set xs (shift + 1) b'0')) filled
          ∙ (ap c_string (
                set_behind pointed (29 - shift) (shift + 1) b'0' (sym pointed-length) (omega arith))
              ∙ text_split (b'0' ∷ []) (29 - shift - 1) (omega arith) (omega arith));
      whole_digits = All-take IsDigit shift text s.0;
      fraction_digits = omega arith;
      some_whole = omega (arith, front-length);
      fraction_length = rw none refl;
      no_decimals = λ _. refl;
      value = omega (arith, value_eq, number_of_empty behind (omega (arith, behind-length, none)));
      short = omega (arith, front-length);
    }

    pub pointed-Shows :
        1 ≤ decimals
        → Shows n decimals (
            c_string (
              strncpy
                (set (memmove (replicate 30 0) 0 (take shift buffer)) shift b'.')
                (shift + 1)
                (drop shift buffer)
                decimals))
    pointed-Shows some =
        let inside : shift ≤ length text = omega arith in
        let source : c_string (drop shift buffer) ≡ behind = c_string-drop shift buffer inside in
        let digits = All-drop IsDigit shift text s.0 in
        let copied : take decimals (c_string (drop shift buffer)) ≡ behind =
          ap (take decimals) source ∙ take_all decimals behind (omega (arith, behind-length)) in
        record {
          whole = front;
          fraction = behind;
          text_eq =
              ap (λ xs. c_string (strncpy xs (shift + 1) (drop shift buffer) decimals)) filled
              ∙ (ap c_string (
                    strncpy_behind pointed (29 - shift) (shift + 1) (drop shift buffer) decimals
                      (sym pointed-length) (omega arith)
                      (subst⁻¹ (All Nonzero) source (printable behind digits))
                    ∙ ap (λ xs. pointed ++ (xs ++ replicate (29 - shift - length xs) 0)) copied)
                  ∙ text_split behind (29 - shift - length behind) digits
                      (omega (arith, behind-length)));
          whole_digits = All-take IsDigit shift text s.0;
          fraction_digits = digits;
          some_whole = omega (arith, front-length);
          fraction_length = places decimals (length behind) behind-length some;
          no_decimals = λ none. absurd (omega (arith, none, some));
          value = value_eq;
          short = omega (arith, front-length);
        }

-- A 64-bit number with at most 8 decimals, in 30 bytes: the text is a number before the point and its
-- digits behind it, as many as there are decimals, or one zero if there are none; together they are
-- the number divided by that power of ten.
pub format_fpu64-Shows :
    (n decimals : ℕ)
    → n < 2 ^ 64
    → decimals ≤ 8
    → Shows n decimals (c_string (format_fpu64 (replicate 30 0) 30 n decimals).1)
unfolding format_fpu64
format_fpu64-Shows n decimals small few =
    let buffer = (format_u64 (replicate 21 0) 21 n).1 in
    let (printed, bound) = format_u64_bound n small in
    let s = format_u64-Spells n small in
    let digits = strlen_lem buffer in
    rw (printed, digits)
      (elim (Bool-cases (leb (length (c_string buffer)) decimals)) [
        | inl short ↦
            let room : leb 30 (2 + decimals - length (c_string buffer)) ≡ false =
              lt→leb 30 (2 + decimals - length (c_string buffer)) (omega arith) in
            rw (short, room) (fraction-Shows n decimals buffer s few (leb→le _ _ short))
        | inr more ↦
            let long : decimals < length (c_string buffer) = leb→lt _ _ more in
            let most : length (c_string buffer) ≤ 20 = omega (arith, bound, digits) in
            let room : leb 30 (length (c_string buffer) + 1 + decimals) ≡ false =
              lt→leb 30 (length (c_string buffer) + 1 + decimals) (omega arith) in
            rw (more, room)
              (elim (Bool-cases (decimals == 0)) [
                | inl none ↦
                    rw none
                      (whole-Shows n decimals buffer s few long most ((==_iff decimals 0).0 none))
                | inr some ↦
                    rw some
                      (pointed-Shows n decimals buffer s few long most (at_least_one decimals some))
              ])
      ])
