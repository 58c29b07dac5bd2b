-- ===== src/Common/Base58.antt =====
-- common/base58.c: base 58 text of at most 120 bytes, and back.
use ledger_app_neo.Prelude.{
  ℕ, zero, suc, ◌+◌, ◌-◌, ◌*◌, ◌/◌, ◌%◌, ◌^◌, ◌&&◌, List, [], ◌∷◌, ◌++◌, set, take, drop, replicate,
  ltb, leb, ◌==◌, if◌then◌else◌, ℤ, pos, negsuc, Bool, ◌||◌, Option, none, some, bit_and, length,
}
use ledger_app_neo.Word.{u8, u16, u32, byte_at}
use ledger_app_neo.Common.Buffer.{memmove}

abbrev pub max_dec_input_size : ℕ
max_dec_input_size = 164

abbrev pub max_enc_input_size : ℕ
max_enc_input_size = 120

-- ASCII codes of '1'..'9', 'A'..'Z' without 'I' and 'O', 'a'..'z' without 'l'.
abbrev pub base58_alphabet : List ℕ
base58_alphabet =
    49 ∷ 50 ∷ 51 ∷ 52 ∷ 53 ∷ 54 ∷ 55 ∷ 56 ∷ 57 ∷ 65 ∷ 66 ∷ 67 ∷ 68 ∷ 69 ∷ 70 ∷ 71 ∷ 72 ∷ 74 ∷ 75
    ∷ 76 ∷ 77 ∷ 78 ∷ 80 ∷ 81 ∷ 82 ∷ 83 ∷ 84 ∷ 85 ∷ 86 ∷ 87 ∷ 88 ∷ 89 ∷ 90 ∷ 97 ∷ 98 ∷ 99 ∷ 100 ∷ 101
    ∷ 102 ∷ 103 ∷ 104 ∷ 105 ∷ 106 ∷ 107 ∷ 109 ∷ 110 ∷ 111 ∷ 112 ∷ 113 ∷ 114 ∷ 115 ∷ 116 ∷ 117 ∷ 118
    ∷ 119 ∷ 120 ∷ 121 ∷ 122 ∷ []

-- The value of each letter, or 0xFF.
abbrev pub base58_table : List ℕ
base58_table =
    0xFF ∷ 0xFF ∷ 0xFF ∷ 0xFF ∷ 0xFF ∷ 0xFF ∷ 0xFF ∷ 0xFF ∷ 0xFF ∷ 0xFF ∷ 0xFF ∷ 0xFF ∷ 0xFF ∷ 0xFF
    ∷ 0xFF ∷ 0xFF ∷ 0xFF ∷ 0xFF ∷ 0xFF ∷ 0xFF ∷ 0xFF ∷ 0xFF ∷ 0xFF ∷ 0xFF ∷ 0xFF ∷ 0xFF ∷ 0xFF
    ∷ 0xFF ∷ 0xFF ∷ 0xFF ∷ 0xFF ∷ 0xFF ∷ 0xFF ∷ 0xFF ∷ 0xFF ∷ 0xFF ∷ 0xFF ∷ 0xFF ∷ 0xFF ∷ 0xFF
    ∷ 0xFF ∷ 0xFF ∷ 0xFF ∷ 0xFF ∷ 0xFF ∷ 0xFF ∷ 0xFF ∷ 0xFF ∷ 0xFF ∷ 0 ∷ 1 ∷ 2 ∷ 3 ∷ 4 ∷ 5 ∷ 6 ∷ 7
    ∷ 8 ∷ 0xFF ∷ 0xFF ∷ 0xFF ∷ 0xFF ∷ 0xFF ∷ 0xFF ∷ 0xFF ∷ 9 ∷ 10 ∷ 11 ∷ 12 ∷ 13 ∷ 14 ∷ 15 ∷ 16
    ∷ 0xFF ∷ 17 ∷ 18 ∷ 19 ∷ 20 ∷ 21 ∷ 0xFF ∷ 22 ∷ 23 ∷ 24 ∷ 25 ∷ 26 ∷ 27 ∷ 28 ∷ 29 ∷ 30 ∷ 31 ∷ 32
    ∷ 0xFF ∷ 0xFF ∷ 0xFF ∷ 0xFF ∷ 0xFF ∷ 0xFF ∷ 33 ∷ 34 ∷ 35 ∷ 36 ∷ 37 ∷ 38 ∷ 39 ∷ 40 ∷ 41 ∷ 42 ∷ 43
    ∷ 0xFF ∷ 44 ∷ 45 ∷ 46 ∷ 47 ∷ 48 ∷ 49 ∷ 50 ∷ 51 ∷ 52 ∷ 53 ∷ 54 ∷ 55 ∷ 56 ∷ 57 ∷ 0xFF ∷ 0xFF
    ∷ 0xFF ∷ 0xFF ∷ 0xFF ∷ []

-- `while ((i < n) && (bytes[i] == 0)) ++i`, on the rounds that are left.
unfoldable pub skip_zeros : ℕ → List ℕ → ℕ → ℕ
skip_zeros zero bytes i = i
skip_zeros (suc rounds) bytes i =
    let rest = skip_zeros rounds bytes (i + 1) in if byte_at bytes i == 0 then rest else i

-- The inner loop of the encoder, from index `j - 1` down: the digits, and the index it stopped at,
-- which wraps around to the largest `size_t` where the loop ran to its end.
unfoldable pub encode_digit : ℕ → List ℕ → ℕ → ℕ → List ℕ × ℕ
encode_digit zero buffer carry stop_at = (buffer, 2 ^ 32 - 1)
encode_digit (suc j) buffer carry stop_at =
    let total = carry + 256 * byte_at buffer j in
    let buffer' = set buffer j (total % 58) in
    let rest = encode_digit j buffer' (total / 58) stop_at in
    if leb j (u32 (stop_at + 2 ^ 32 - 1)) && (total / 58) == 0 then (buffer', j) else rest

-- The outer loop, over the bytes that are left.
unfoldable pub encode_bytes : ℕ → List ℕ → List ℕ → ℕ → List ℕ
encode_bytes output_size [] buffer stop_at = buffer
encode_bytes output_size (x ∷ xs) buffer stop_at =
    let (buffer', j) = encode_digit output_size buffer x stop_at in
    encode_bytes output_size xs buffer' j

-- The last loop: the characters of the digits from `j` on, on the rounds that are left.
unfoldable pub letters : ℕ → List ℕ → ℕ → List ℕ
letters zero buffer j = []
letters (suc rounds) buffer j =
    byte_at base58_alphabet (byte_at buffer j) ∷ letters rounds buffer (j + 1)

-- The returned length or -1, and the memory `out`.
unfoldable pub base58_encode : List ℕ → ℕ → List ℕ → ℕ → ℤ × List ℕ
unfolding encode_bytes letters encode_digit skip_zeros
base58_encode input in_len out out_len =
    if ltb max_enc_input_size in_len
    then (negsuc 0, out)
    else (let zero_count = skip_zeros in_len input 0 in
        let output_size = (in_len - zero_count) * 138 / 100 + 1 in
        let digits =
          encode_bytes output_size (drop zero_count (take in_len input))
            (replicate (max_enc_input_size * 138 / 100 + 1) 0) (output_size - 1) in
        let j = skip_zeros output_size digits 0 in
        if ltb out_len (zero_count + output_size - j) then (negsuc 0, out) else (
          pos (zero_count + (output_size - j)),
          memmove out 0 (
              replicate zero_count (byte_at base58_alphabet 0)
              ++ letters (output_size - j) digits j),
        ))

-- `for (i = 0; i < in_len; i++)`: the letters' values, or nothing where one is not a letter.
unfoldable pub decode_letters : ℕ → List ℕ → ℕ → List ℕ → Option (List ℕ)
decode_letters zero input i tmp = some tmp
decode_letters (suc rounds) input i tmp =
    let value = byte_at base58_table (byte_at input i) in
    let rest = decode_letters rounds input (i + 1) (set tmp i value) in
    if leb (length base58_table) (byte_at input i)
    then none
    else if value == 0xFF
    then none
    else rest

-- `for (div_loop = start_at; div_loop < in_len; div_loop++)`: a division of the number by 256, and the
-- remainder.
unfoldable pub divide : ℕ → ℕ → List ℕ → ℕ → List ℕ × ℕ
divide zero i tmp remainder = (tmp, remainder)
divide (suc rounds) i tmp remainder =
    let tmp_div = u16 (remainder * 58 + bit_and (byte_at tmp i) 0xFF) in
    divide rounds (i + 1) (set tmp i (u8 (tmp_div / 256))) (tmp_div % 256)

-- `while (start_at < in_len)`: the bytes, from the last one back, and the index of the first.
unfoldable pub decode_rounds : ℕ → ℕ → List ℕ → List ℕ → ℕ → ℕ → List ℕ × ℕ
unfolding divide
decode_rounds zero in_len tmp buffer j start_at = (buffer, j)
decode_rounds (suc fuel) in_len tmp buffer j start_at =
    let (tmp', remainder) = divide (in_len - start_at) start_at tmp 0 in
    let start_at' = if byte_at tmp' start_at == 0 then u8 (start_at + 1) else start_at in
    let j' = u8 (j + 255) in
    let rest = decode_rounds fuel in_len tmp' (set buffer j' (u8 remainder)) j' start_at' in
    if ltb start_at in_len then rest else (buffer, j)

-- `(int) out_len < length`, for a length that is not negative.
abbrev pub too_short : ℕ → ℕ → Bool
too_short out_len n = leb (2 ^ 31) out_len || ltb out_len n

-- What follows the loop over the letters.
unfoldable pub decode_values : ℕ → List ℕ → List ℕ → ℕ → ℤ × List ℕ
unfolding skip_zeros decode_rounds
decode_values in_len tmp out out_len =
    let zero_count = skip_zeros in_len tmp 0 in
    let (buffer, first) =
      decode_rounds in_len in_len tmp (replicate max_dec_input_size 0) (u8 in_len) zero_count in
    let j = skip_zeros (in_len - first) buffer first in
    let n = in_len - (j - zero_count) in
    if too_short out_len n
    then (negsuc 0, out)
    else (pos n, memmove out 0 (take n (drop (j - zero_count) buffer)))

-- The returned length or -1, and the memory `out`.
unfoldable pub base58_decode : List ℕ → ℕ → List ℕ → ℕ → ℤ × List ℕ
unfolding decode_letters decode_values
base58_decode input in_len out out_len =
    if ltb max_dec_input_size in_len || ltb in_len 2
    then (negsuc 0, out)
    else elim (decode_letters in_len input 0
        (memmove (replicate max_dec_input_size 0) 0 (take in_len input))) [
          | none ↦ (negsuc 0, out)
          | some tmp ↦ decode_values in_len tmp out out_len
        ]
