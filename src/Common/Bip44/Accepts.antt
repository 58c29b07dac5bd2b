-- ===== src/Common/Bip44/Accepts.antt =====
-- Which derivation paths `buffer_read_and_validate_bip44` of common/bip44.c accepts.
use ledger_app_neo.Prelude.{
  ℕ, ◌+◌, ◌*◌, ◌^◌, ◌≤◌, ◌<◌, ◌≡◌, refl, ap, ◌∙◌, arith, Bool, true, List, [], ◌∷◌, drop, drop-drop,
  length, length-drop, le→leb, set, ◌↔◌,
}
use ledger_app_neo.Common.Buffer.{Buffer, be, buffer_read_u32}
use ledger_app_neo.Common.Buffer.View.{IsValid, remaining, number_be, length-remaining}
use ledger_app_neo.Common.Buffer.Reads.{buffer_read_u32-Refines}
use ledger_app_neo.Common.Bip44.{buffer_read_and_validate_bip44}

-- The `i`-th of the big-endian words that the bytes stand for.
abbrev pub level : List ℕ → ℕ → ℕ
level xs i = number_be 4 (drop (4 * i) xs)

-- m/44'/888'/account'/change/address.
pub record IsNeoPath (xs : List ℕ) : Type 0 where
  pub purpose : level xs 0 ≡ 2 ^ 31 + 44
  pub coin_type : level xs 1 ≡ 2 ^ 31 + 888
  pub account_hardened : 2 ^ 31 ≤ level xs 2
  pub account_small : level xs 2 ≤ 2 ^ 31 + 16
  pub change : level xs 3 ≤ 1
  pub address : level xs 4 < 5000

-- A read of the next word.
pub record Word (xs : List ℕ) (b : Buffer) : Type 0 where
  pub value : (buffer_read_u32 b be).value ≡ number_be 4 xs
  pub rest : remaining (buffer_read_u32 b be).buffer ≡ drop 4 xs
  pub valid : IsValid (buffer_read_u32 b be).buffer

read-Word : {b : Buffer} (xs : List ℕ) → IsValid b → remaining b ≡ xs → 4 ≤ length xs → Word xs b
read-Word {b} xs v e fits =
    let r = buffer_read_u32-Refines v be in
    let seen = rw (e, le→leb 4 (length xs) fits) at r.seen in
    record {
      value = ap (λ (t : Bool × ℕ × List ℕ). t.1) seen;
      rest = ap (λ (t : Bool × ℕ × List ℕ). t.2) seen;
      valid = r.valid;
    }

-- The five words that are read.
pub record Words (xs : List ℕ) (b : Buffer) : Type 0 where
  pub in_size : 20 ≤ b.size
  pub word0 : (buffer_read_u32 b be).value ≡ level xs 0
  pub word1 : (buffer_read_u32 (buffer_read_u32 b be).buffer be).value ≡ level xs 1
  pub word2 :
      (buffer_read_u32 (buffer_read_u32 (buffer_read_u32 b be).buffer be).buffer be).value
      ≡ level xs 2
  pub word3 :
      (buffer_read_u32
        (buffer_read_u32 (buffer_read_u32 (buffer_read_u32 b be).buffer be).buffer be).buffer
        be).value
      ≡ level xs 3
  pub word4 :
      (buffer_read_u32
        (buffer_read_u32
          (buffer_read_u32 (buffer_read_u32 (buffer_read_u32 b be).buffer be).buffer be).buffer
          be).buffer
        be).value
      ≡ level xs 4

read-Words : {b : Buffer} → IsValid b → 20 ≤ length (remaining b) → Words (remaining b) b
read-Words {b} v enough =
    let xs = remaining b in
    let w0 = read-Word xs v refl (omega arith) in
    let w1 = read-Word (drop 4 xs) w0.valid w0.rest (omega (arith, length-drop 4 xs)) in
    let w2 =
      read-Word (drop 8 xs) w1.valid (w1.rest ∙ drop-drop 4 4 xs)
        (omega (arith, length-drop 8 xs)) in
    let w3 =
      read-Word (drop 12 xs) w2.valid (w2.rest ∙ drop-drop 8 4 xs)
        (omega (arith, length-drop 12 xs)) in
    let w4 =
      read-Word (drop 16 xs) w3.valid (w3.rest ∙ drop-drop 12 4 xs)
        (omega (arith, length-drop 16 xs)) in
    record {
      in_size = omega (arith, length-remaining v);
      word0 = w0.value;
      word1 = w1.value;
      word2 = w2.value;
      word3 = w3.value;
      word4 = w4.value;
    }

module _ {b : Buffer} (v : IsValid b) (enough : 20 ≤ length (remaining b)) (path : List ℕ)
    (status : ℕ) where
  accepted-IsNeoPath :
      (buffer_read_and_validate_bip44 b path status).success ≡ true → IsNeoPath (remaining b)
  unfolding buffer_read_and_validate_bip44
  accepted-IsNeoPath h =
      let w = read-Words v enough in
      record {
        purpose = ground (arith, w.word0);
        coin_type = ground (arith, w.word1);
        account_hardened = ground (arith, w.word2);
        account_small = ground (arith, w.word2);
        change = ground (arith, w.word3);
        address = ground (arith, w.word4);
      }

  IsNeoPath-accepted :
      IsNeoPath (remaining b) → (buffer_read_and_validate_bip44 b path status).success ≡ true
  unfolding buffer_read_and_validate_bip44
  IsNeoPath-accepted h = let w = read-Words v enough in ground (arith, w, h)

  -- On a valid buffer with at least 20 bytes left, success is reported exactly for the paths whose five
  -- big-endian words are 44', 888', a hardened account of at most 16, a change of 0 or 1, and an
  -- address index below 5000.
  pub bip44_accepts :
      ((buffer_read_and_validate_bip44 b path status).success ≡ true) ↔ IsNeoPath (remaining b)
  bip44_accepts = (accepted-IsNeoPath, IsNeoPath-accepted)

  abbrev levels : List ℕ → List ℕ
  levels p =
      let xs = remaining b in
      set (set (set (set (set p 0 (level xs 0)) 1 (level xs 1)) 2 (level xs 2)) 3 (level xs 3)) 4
        (level xs 4)

  stored :
      (buffer_read_and_validate_bip44 b path status).success ≡ true
      → (buffer_read_and_validate_bip44 b path status).path ≡ levels path
  unfolding buffer_read_and_validate_bip44
  stored h = let w = read-Words v enough in ground (arith, w)

  levels_lem :
      (p : List ℕ)
      → length p ≡ 5
      → levels p
        ≡ level (remaining b) 0
          ∷ level (remaining b) 1
          ∷ level (remaining b) 2
          ∷ level (remaining b) 3
          ∷ level (remaining b) 4
          ∷ []
  levels_lem [] h = absurd (omega arith)
  levels_lem (a ∷ []) h = absurd (omega arith)
  levels_lem (a ∷ c ∷ []) h = absurd (omega arith)
  levels_lem (a ∷ c ∷ d ∷ []) h = absurd (omega arith)
  levels_lem (a ∷ c ∷ d ∷ e ∷ []) h = absurd (omega arith)
  levels_lem (a ∷ c ∷ d ∷ e ∷ f ∷ []) h = refl
  levels_lem (a ∷ c ∷ d ∷ e ∷ f ∷ g ∷ rest) h = absurd (omega arith)

  -- On a valid buffer with at least 20 bytes left, and a path of five slots: where success is reported,
  -- the path holds the five words that were read, in order.
  pub bip44_stores :
      length path ≡ 5
      → (buffer_read_and_validate_bip44 b path status).success ≡ true
      → (buffer_read_and_validate_bip44 b path status).path
        ≡ level (remaining b) 0
          ∷ level (remaining b) 1
          ∷ level (remaining b) 2
          ∷ level (remaining b) 3
          ∷ level (remaining b) 4
          ∷ []
  bip44_stores n h = stored h ∙ levels_lem path n
