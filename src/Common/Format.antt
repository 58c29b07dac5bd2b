-- ===== src/Common/Format.antt =====
-- common/format.c: decimal and hexadecimal text.
pub mod Bounds
pub mod Decimal
pub mod Reversal
pub mod Strings
pub mod Fixed
use ledger_app_neo.Prelude.{
  ◌^◌, ◌||◌, ℕ, zero, suc, ◌+◌, ◌-◌, ◌*◌, ◌/◌, ◌%◌, Bool, true, false, List, [], ◌∷◌, ◌++◌, set,
  take, drop, replicate, ltb, leb, ◌==◌, if◌then◌else◌, ℤ, pos, negsuc, is_negative, bit_and,
}
use ledger_app_neo.Word.{u8, byte_at, ◌>>>◌}
use ledger_app_neo.Common.Buffer.{memmove}

-- "-9223372036854775808" with its NUL, which `format_i64` writes over.
abbrev pub longest_i64 : List ℕ
longest_i64 =
    45 ∷ 57 ∷ 50 ∷ 50 ∷ 51 ∷ 51 ∷ 55 ∷ 50 ∷ 48 ∷ 51 ∷ 54 ∷ 56 ∷ 53 ∷ 52 ∷ 55 ∷ 55 ∷ 53 ∷ 56 ∷ 48
    ∷ 56 ∷ 0 ∷ []

-- `num / 10` rounds towards 0, and `num % 10` has the sign of `num`, so that its product with the
-- value's sign is the remainder of the magnitude.
abbrev pub quotient : ℤ → ℤ
quotient (pos n) = pos (n / 10)
quotient (negsuc n) = if ltb n 9 then pos 0 else negsuc ((n + 1) / 10 - 1)

abbrev pub last_digit : ℤ → ℕ
last_digit (pos n) = n % 10
last_digit (negsuc n) = (n + 1) % 10

abbrev pub is_zero : ℤ → Bool
is_zero (pos n) = n == 0
is_zero (negsuc n) = false

-- `while (num != 0)`: the digits from `p` on, and the pointer behind them. A number has at most 19.
unfoldable pub i64_loop : ℕ → List ℕ → ℕ → ℤ → List ℕ × ℕ
i64_loop zero temp p num = (temp, p)
i64_loop (suc fuel) temp p num =
    let rest = i64_loop fuel (set temp p (b'0' + last_digit num)) (p + 1) (quotient num) in
    if is_zero num then (temp, p) else rest

-- `while (--ptr >= temp)`: the characters before the pointer are put to `dst`, the last first.
unfoldable pub copy_back : ℕ → List ℕ → ℕ → List ℕ → List ℕ × ℕ
copy_back zero temp i dst = (dst, i)
copy_back (suc p) temp i dst = copy_back p temp (i + 1) (set dst i (byte_at temp p))

unfoldable pub format_i64 : List ℕ → ℕ → ℤ → Bool × List ℕ
unfolding i64_loop copy_back
format_i64 dst dst_len value =
    let (digits, p) = i64_loop 19 longest_i64 0 value in
    let (temp, p') : List ℕ × ℕ =
      if is_negative value
      then (set digits p b'-', p + 1)
      else if is_zero value
      then (set digits p b'0', p + 1)
      else (digits, p) in
    -- `(int) dst_len` is negative from 2 ^ 31 on.
    if ltb dst_len (p' + 1) || ltb (2 ^ 31 - 1) dst_len
    then (false, dst)
    else (let (dst', i) = copy_back p' temp 0 dst in (true, set dst' i 0))

-- `while (in > 9) { … }`: a flag that is false where the text does not fit, the memory, `i` and `in`.
-- The number loses a digit in each round, so as many rounds as it has digits are enough.
pub record Digits : Type 0 where
  pub fits : Bool
  pub out : List ℕ
  pub i : ℕ
  pub rest : ℕ

unfoldable pub digit_loop : ℕ → List ℕ → ℕ → ℕ → ℕ → Digits
digit_loop zero out out_len i n = record { fits = true; out = out; i = i; rest = n }
digit_loop (suc fuel) out out_len i n =
    let out' = set out i (n % 10 + b'0') in
    let i' = u8 (i + 1) in
    let next = digit_loop fuel out' out_len i' (n / 10) in
    if ltb 9 n
    then (if ltb out_len (i' + 1)
        then record { fits = false; out = out'; i = i'; rest = n / 10 }
        else next)
    else record { fits = true; out = out; i = i; rest = n }

-- `while (j < i) { swap; i--; j++; }`.
unfoldable pub reverse_loop : ℕ → List ℕ → ℕ → ℕ → List ℕ
reverse_loop zero out i j = out
reverse_loop (suc fuel) out i j =
    let swapped = set (set out j (byte_at out i)) i (byte_at out j) in
    let rest = reverse_loop fuel swapped (i - 1) (j + 1) in if ltb j i then rest else out

-- A 64-bit number has at most 20 digits.
unfoldable pub format_u64 : List ℕ → ℕ → ℕ → Bool × List ℕ
unfolding digit_loop reverse_loop
format_u64 out out_len n =
    if out_len == 0
    then (false, out)
    else (let d = digit_loop 20 out (out_len - 1) 0 n in
        if d.fits
        then (true, reverse_loop d.i (set (set d.out d.i (u8 (d.rest + b'0'))) (d.i + 1) 0) d.i 0)
        else (false, d.out))

-- The characters before the first NUL, and their number.
unfoldable pub c_string : List ℕ → List ℕ
c_string [] = []
c_string (c ∷ cs) = if c == 0 then [] else c ∷ c_string cs

unfoldable pub strlen : List ℕ → ℕ
strlen [] = 0
strlen (c ∷ cs) = if c == 0 then 0 else suc (strlen cs)

-- `strncpy (dst + at, src, n)`: at most `n` characters, and NULs up to `n`.
unfoldable pub strncpy : List ℕ → ℕ → List ℕ → ℕ → List ℕ
unfolding c_string
strncpy dst at src n =
    let text = take n (c_string src) in memmove dst at (text ++ replicate (n - strlen text) 0)

unfoldable pub format_fpu64 : List ℕ → ℕ → ℕ → ℕ → Bool × List ℕ
unfolding format_u64 strncpy strlen
format_fpu64 dst dst_len value decimals =
    let (printed, buffer) = format_u64 (replicate 21 0) 21 value in
    if printed
    then (let digits = strlen buffer in
        if leb digits decimals
        then (if leb dst_len (2 + decimals - digits)
            then (false, dst)
            else (let filled = memmove dst 0 (b'0' ∷ b'.' ∷ replicate (decimals - digits) b'0') in
                (
                  true,
                  strncpy filled (2 + (decimals - digits)) buffer
                      (dst_len - (2 + decimals - digits)),
                )))
        else if leb dst_len (digits + 1 + decimals)
        then (false, dst)
        else (let shift = digits - decimals in
            let filled = set (memmove dst 0 (take shift buffer)) shift b'.' in
            if decimals == 0
            then (true, set filled (shift + 1) b'0')
            else (true, strncpy filled (shift + 1) (drop shift buffer) decimals)))
    else (false, dst)

-- "0123456789ABCDEF".
abbrev pub hex_digits : List ℕ
hex_digits = 48 ∷ 49 ∷ 50 ∷ 51 ∷ 52 ∷ 53 ∷ 54 ∷ 55 ∷ 56 ∷ 57 ∷ 65 ∷ 66 ∷ 67 ∷ 68 ∷ 69 ∷ 70 ∷ []

-- The loop, over the bytes that are left: the memory, and the position and count that it reaches.
unfoldable pub hex_loop : List ℕ → ℕ → ℕ → List ℕ → List ℕ × ℕ
hex_loop [] i out_len out = (out, i)
hex_loop (b ∷ bytes) i out_len out =
    let high = byte_at hex_digits (bit_and b 0xF0 >>> 4) in
    let low = byte_at hex_digits (bit_and b 0x0F) in
    let rest = hex_loop bytes (i + 1) out_len (set (set out (2 * i) high) (2 * i + 1) low) in
    if leb (i * 2 + 3) out_len then rest else (out, i)

-- The returned count or -1, and the memory.
unfoldable pub format_hex : List ℕ → ℕ → List ℕ → ℕ → ℤ × List ℕ
unfolding hex_loop
format_hex input in_len out out_len =
    if ltb out_len (2 * in_len + 1)
    then (negsuc 0, out)
    else (let (out', i) = hex_loop (take in_len input) 0 out_len out in
        (pos (2 * i + 1), set out' (2 * i) 0))
