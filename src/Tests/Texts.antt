-- ===== src/Tests/Texts.antt =====
-- Texts and their numbers, at concrete ones.
use ledger_app_neo.Prelude.{ℕ, ◌≡◌, refl, List, [], ◌∷◌, replicate, pos, negsuc, true}
use ledger_app_neo.Common.Base58.{base58_encode, base58_decode}
use ledger_app_neo.Common.Format.{format_i64}

-- "Hello World!" in base 58.
abbrev hello : List ℕ
hello = 72 ∷ 101 ∷ 108 ∷ 108 ∷ 111 ∷ 32 ∷ 87 ∷ 111 ∷ 114 ∷ 108 ∷ 100 ∷ 33 ∷ []

abbrev hello_text : List ℕ
hello_text =
    50 ∷ 78 ∷ 69 ∷ 112 ∷ 111 ∷ 55 ∷ 84 ∷ 90 ∷ 82 ∷ 82 ∷ 114 ∷ 76 ∷ 90 ∷ 83 ∷ 105 ∷ 50 ∷ 85 ∷ []

hello_encoded : base58_encode (0 ∷ hello) 13 (replicate 18 0) 18 ≡ (pos 18, 49 ∷ hello_text)
unfolding base58_encode ledger_app_neo.Common.Buffer.memmove
hello_encoded = refl

hello_decoded : base58_decode (49 ∷ hello_text) 18 (replicate 13 1) 13 ≡ (pos 13, 0 ∷ hello)
unfolding base58_decode ledger_app_neo.Common.Buffer.memmove
hello_decoded = refl

-- "-120".
negative_text : format_i64 (replicate 5 1) 5 (negsuc 119) ≡ (true, 45 ∷ 49 ∷ 50 ∷ 48 ∷ 0 ∷ [])
unfolding format_i64
negative_text = refl
