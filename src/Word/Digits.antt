-- ===== src/Word/Digits.antt =====
-- `|` of the shifted bytes of a word is the number with those digits, for the six layouts of
-- common/read.c.
use ledger_app_neo.Prelude.{ℕ, ◌+◌, ◌*◌, ◌^◌, ◌<◌, ◌≡◌, ◌∙◌, bit_or, arith}
use ledger_app_neo.Word.{u16, u32, u64, ◌<<<◌}
use ledger_app_neo.Word.Bits.{or_low, or_high}

pub be16 :
    (a b : ℕ) → a < 256 → b < 256 → bit_or (u16 (a <<< 8)) (u16 (b <<< 0)) ≡ a * 2 ^ 8 + b * 2 ^ 0
be16 a b ha hb =
    or_low 8 (a * 2 ^ 0) (b * 2 ^ 0) (omega arith) (omega arith) (omega arith) ∙ omega arith

pub be32 :
    (a b c d : ℕ)
    → a < 256
    → b < 256
    → c < 256
    → d < 256
    → bit_or (bit_or (bit_or (u32 (a <<< 24)) (u32 (b <<< 16))) (u32 (c <<< 8))) (u32 (d <<< 0))
      ≡ a * 2 ^ 24 + b * 2 ^ 16 + c * 2 ^ 8 + d * 2 ^ 0
be32 a b c d ha hb hc hd =
    or_low 8 (a * 2 ^ 16 + b * 2 ^ 8 + c * 2 ^ 0) (d * 2 ^ 0)
      (or_low 16 (a * 2 ^ 8 + b * 2 ^ 0) (c * 2 ^ 8)
          (or_low 24 (a * 2 ^ 0) (b * 2 ^ 16) (omega arith) (omega arith) (omega arith)
            ∙ omega arith)
          (omega arith) (omega arith)
        ∙ omega arith)
      (omega arith) (omega arith)
    ∙ omega arith

pub be64 :
    (a b c d e f g h : ℕ)
    → a < 256
    → b < 256
    → c < 256
    → d < 256
    → e < 256
    → f < 256
    → g < 256
    → h < 256
    → bit_or
        (bit_or
          (bit_or
            (bit_or
              (bit_or
                (bit_or (bit_or (u64 (a <<< 56)) (u64 (b <<< 48))) (u64 (c <<< 40)))
                (u64 (d <<< 32)))
              (u64 (e <<< 24)))
            (u64 (f <<< 16)))
          (u64 (g <<< 8)))
        (u64 (h <<< 0))
      ≡ a * 2 ^ 56
        + b * 2 ^ 48
        + c * 2 ^ 40
        + d * 2 ^ 32
        + e * 2 ^ 24
        + f * 2 ^ 16
        + g * 2 ^ 8
        + h * 2 ^ 0
be64 a b c d e f g h ha hb hc hd he hf hg hh =
    or_low 8
      (a * 2 ^ 48 + b * 2 ^ 40 + c * 2 ^ 32 + d * 2 ^ 24 + e * 2 ^ 16 + f * 2 ^ 8 + g * 2 ^ 0)
      (h * 2 ^ 0)
      (or_low 16 (a * 2 ^ 40 + b * 2 ^ 32 + c * 2 ^ 24 + d * 2 ^ 16 + e * 2 ^ 8 + f * 2 ^ 0)
          (g * 2 ^ 8)
          (or_low 24 (a * 2 ^ 32 + b * 2 ^ 24 + c * 2 ^ 16 + d * 2 ^ 8 + e * 2 ^ 0) (f * 2 ^ 16)
              (or_low 32 (a * 2 ^ 24 + b * 2 ^ 16 + c * 2 ^ 8 + d * 2 ^ 0) (e * 2 ^ 24)
                  (or_low 40 (a * 2 ^ 16 + b * 2 ^ 8 + c * 2 ^ 0) (d * 2 ^ 32)
                      (or_low 48 (a * 2 ^ 8 + b * 2 ^ 0) (c * 2 ^ 40)
                          (or_low 56 (a * 2 ^ 0) (b * 2 ^ 48) (omega arith) (omega arith)
                              (omega arith)
                            ∙ omega arith)
                          (omega arith) (omega arith)
                        ∙ omega arith)
                      (omega arith) (omega arith)
                    ∙ omega arith)
                  (omega arith) (omega arith)
                ∙ omega arith)
              (omega arith) (omega arith)
            ∙ omega arith)
          (omega arith) (omega arith)
        ∙ omega arith)
      (omega arith) (omega arith)
    ∙ omega arith

pub le16 :
    (a b : ℕ) → a < 256 → b < 256 → bit_or (u16 (a <<< 0)) (u16 (b <<< 8)) ≡ a * 2 ^ 0 + b * 2 ^ 8
le16 a b ha hb = or_high 8 b (a * 2 ^ 0) (omega arith) (omega arith) (omega arith) ∙ omega arith

pub le32 :
    (a b c d : ℕ)
    → a < 256
    → b < 256
    → c < 256
    → d < 256
    → bit_or (bit_or (bit_or (u32 (a <<< 0)) (u32 (b <<< 8))) (u32 (c <<< 16))) (u32 (d <<< 24))
      ≡ a * 2 ^ 0 + b * 2 ^ 8 + c * 2 ^ 16 + d * 2 ^ 24
le32 a b c d ha hb hc hd =
    or_high 24 d (a * 2 ^ 0 + b * 2 ^ 8 + c * 2 ^ 16) (omega arith)
      (or_high 16 c (a * 2 ^ 0 + b * 2 ^ 8) (omega arith)
          (or_high 8 b (a * 2 ^ 0) (omega arith) (omega arith) (omega arith) ∙ omega arith)
          (omega arith)
        ∙ omega arith)
      (omega arith)
    ∙ omega arith

pub le64 :
    (a b c d e f g h : ℕ)
    → a < 256
    → b < 256
    → c < 256
    → d < 256
    → e < 256
    → f < 256
    → g < 256
    → h < 256
    → bit_or
        (bit_or
          (bit_or
            (bit_or
              (bit_or
                (bit_or (bit_or (u64 (a <<< 0)) (u64 (b <<< 8))) (u64 (c <<< 16)))
                (u64 (d <<< 24)))
              (u64 (e <<< 32)))
            (u64 (f <<< 40)))
          (u64 (g <<< 48)))
        (u64 (h <<< 56))
      ≡ a * 2 ^ 0
        + b * 2 ^ 8
        + c * 2 ^ 16
        + d * 2 ^ 24
        + e * 2 ^ 32
        + f * 2 ^ 40
        + g * 2 ^ 48
        + h * 2 ^ 56
le64 a b c d e f g h ha hb hc hd he hf hg hh =
    or_high 56 h
      (a * 2 ^ 0 + b * 2 ^ 8 + c * 2 ^ 16 + d * 2 ^ 24 + e * 2 ^ 32 + f * 2 ^ 40 + g * 2 ^ 48)
      (omega arith)
      (or_high 48 g (a * 2 ^ 0 + b * 2 ^ 8 + c * 2 ^ 16 + d * 2 ^ 24 + e * 2 ^ 32 + f * 2 ^ 40)
          (omega arith)
          (or_high 40 f (a * 2 ^ 0 + b * 2 ^ 8 + c * 2 ^ 16 + d * 2 ^ 24 + e * 2 ^ 32) (omega arith)
              (or_high 32 e (a * 2 ^ 0 + b * 2 ^ 8 + c * 2 ^ 16 + d * 2 ^ 24) (omega arith)
                  (or_high 24 d (a * 2 ^ 0 + b * 2 ^ 8 + c * 2 ^ 16) (omega arith)
                      (or_high 16 c (a * 2 ^ 0 + b * 2 ^ 8) (omega arith)
                          (or_high 8 b (a * 2 ^ 0) (omega arith) (omega arith) (omega arith)
                            ∙ omega arith)
                          (omega arith)
                        ∙ omega arith)
                      (omega arith)
                    ∙ omega arith)
                  (omega arith)
                ∙ omega arith)
              (omega arith)
            ∙ omega arith)
          (omega arith)
        ∙ omega arith)
      (omega arith)
    ∙ omega arith
