-- ===== src/Common/Format/Strings.antt =====
-- Texts that end with NULs in the memory of common/format.c.
use ledger_app_neo.Prelude.{
  ℕ, zero, suc, ◌+◌, ◌-◌, ◌≤◌, ◌≡◌, refl, ap, ◌∙◌, arith, false, List, [], ◌∷◌, ◌++◌, append_assoc,
  All, All-take, length-take, set, take, drop, length, length-append, length-replicate, replicate,
  take-append, ◌==◌, Bool-cases, inl, inr,
}
use ledger_app_neo.Common.Buffer.{memmove}
use ledger_app_neo.Common.Buffer.Moves.{memmove_lem}
use ledger_app_neo.Common.Format.{c_string, strlen, strncpy}

abbrev pub Nonzero : ℕ → Type 0
Nonzero c = 1 ≤ c

nonzero : (c : ℕ) → Nonzero c → (c == 0) ≡ false
nonzero c h = ground arith

pub c_string-ended :
    (xs : List ℕ) (m : ℕ) → All Nonzero xs → 1 ≤ m → c_string (xs ++ replicate m 0) ≡ xs
unfolding c_string
c_string-ended [] zero h some = absurd (omega arith)
c_string-ended [] (suc m) h some = refl
c_string-ended (x ∷ xs) m h some = rw (nonzero x h.0) (ap (◌∷◌ x) (c_string-ended xs m h.1 some))

pub strlen_lem : (xs : List ℕ) → strlen xs ≡ length (c_string xs)
unfolding strlen c_string
strlen_lem [] = refl
strlen_lem (x ∷ xs) = elim (Bool-cases (x == 0)) [
  | inl end ↦ rw end refl
  | inr more ↦ rw more (ap suc (strlen_lem xs))
]

pub take-c_string :
    (n : ℕ) (xs : List ℕ) → n ≤ length (c_string xs) → take n xs ≡ take n (c_string xs)
unfolding c_string
take-c_string zero xs h = refl
take-c_string (suc n) [] h = refl
take-c_string (suc n) (x ∷ xs) h = elim (Bool-cases (x == 0)) [
  | inl end ↦ absurd (omega (arith, rw end at h))
  | inr more ↦ rw more (ap (◌∷◌ x) (take-c_string n xs (omega (arith, rw more at h))))
]

pub c_string-drop :
    (n : ℕ) (xs : List ℕ) → n ≤ length (c_string xs) → c_string (drop n xs) ≡ drop n (c_string xs)
unfolding c_string
c_string-drop zero xs h = refl
c_string-drop (suc n) [] h = refl
c_string-drop (suc n) (x ∷ xs) h = elim (Bool-cases (x == 0)) [
  | inl end ↦ absurd (omega (arith, rw end at h))
  | inr more ↦ rw more (c_string-drop n xs (omega (arith, rw more at h)))
]

drop-replicate : (m n : ℕ) → drop {A = ℕ} m (replicate n 0) ≡ replicate (n - m) 0
drop-replicate zero n = let same : n ≡ n - 0 = omega arith in ap (λ k. replicate {A = ℕ} k 0) same
drop-replicate (suc m) zero =
    let same : 0 ≡ 0 - suc m = omega arith in ap (λ k. replicate {A = ℕ} k 0) same
drop-replicate (suc m) (suc n) =
    let same : n - m ≡ suc n - suc m = omega arith in
    drop-replicate m n ∙ ap (λ k. replicate {A = ℕ} k 0) same

-- Bytes that are put behind a text take the place of NULs.
pub memmove_behind :
    (xs : List ℕ) (m i : ℕ) (ys : List ℕ)
    → i ≡ length xs
    → length ys ≤ m
    → memmove (xs ++ replicate m 0) i ys ≡ xs ++ (ys ++ replicate (m - length ys) 0)
memmove_behind xs m i ys at room =
    memmove_lem (xs ++ replicate m 0) i ys
      (omega (arith, length-append {0} xs (replicate m 0), length-replicate {A = ℕ} m 0))
    ∙ (ap (λ zs. zs ++ (ys ++ drop (i + length ys) (xs ++ replicate m 0)))
          (ap (λ k. take k (xs ++ replicate m 0)) at ∙ take-append xs (replicate m 0))
        ∙ ap (λ zs. xs ++ (ys ++ zs)) (behind xs i at ∙ drop-replicate (length ys) m))
  where
    behind :
        (xs : List ℕ) (i : ℕ)
        → i ≡ length xs
        → drop (i + length ys) (xs ++ replicate m 0) ≡ drop (length ys) (replicate m 0)
    behind [] i at = ap (λ k. drop k (replicate m 0)) (omega arith)
    behind (x ∷ xs) zero at = absurd (omega arith)
    behind (x ∷ xs) (suc i) at =
        let front : suc i + length ys ≡ suc (i + length ys) = omega arith in
        ap (λ k. drop k (x ∷ (xs ++ replicate m 0))) front ∙ behind xs i (omega arith)

pub set_behind :
    (xs : List ℕ) (m i c : ℕ)
    → i ≡ length xs
    → 1 ≤ m
    → set (xs ++ replicate m 0) i c ≡ xs ++ (c ∷ replicate (m - 1) 0)
set_behind [] zero i c at room = absurd (omega arith)
set_behind [] (suc m) zero c at room = ap (λ k. c ∷ replicate k 0) (omega arith)
set_behind [] (suc m) (suc i) c at room = absurd (omega arith)
set_behind (x ∷ xs) m zero c at room = absurd (omega arith)
set_behind (x ∷ xs) m (suc i) c at room = ap (◌∷◌ x) (set_behind xs m i c (omega arith) room)

pub All-map : {P Q : ℕ → Type 0} (xs : List ℕ) → ((c : ℕ) → P c → Q c) → All P xs → All Q xs
All-map [] f h = tt
All-map (x ∷ xs) f h = (f x h.0, All-map xs f h.1)

pub replicate-append : (m n : ℕ) → replicate {A = ℕ} m 0 ++ replicate n 0 ≡ replicate (m + n) 0
replicate-append zero n = let same : n ≡ 0 + n = omega arith in ap (λ k. replicate {A = ℕ} k 0) same
replicate-append (suc m) n =
    let same : suc (m + n) ≡ suc m + n = omega arith in
    ap (◌∷◌ 0) (replicate-append m n) ∙ ap (λ k. replicate {A = ℕ} k 0) same

strlen-Nonzero : (xs : List ℕ) → All Nonzero xs → strlen xs ≡ length xs
unfolding strlen
strlen-Nonzero [] h = refl
strlen-Nonzero (x ∷ xs) h = rw (nonzero x h.0) (ap suc (strlen-Nonzero xs h.1))

pub strncpy_behind :
    (xs : List ℕ) (m i : ℕ) (src : List ℕ) (n : ℕ)
    → i ≡ length xs
    → n ≤ m
    → All Nonzero (c_string src)
    → strncpy (xs ++ replicate m 0) i src n
      ≡ xs ++ (take n (c_string src) ++ replicate (m - length (take n (c_string src))) 0)
unfolding strncpy
strncpy_behind xs m i src n at room h =
    let text = take n (c_string src) in
    let k : strlen text ≡ length text = strlen-Nonzero text (All-take Nonzero n (c_string src) h) in
    let few : length text ≤ n = omega (arith, length-take n (c_string src)) in
    let padded = text ++ replicate (n - length text) 0 in
    let long : length padded ≡ n = omega (
      arith,
      length-append {0} text (replicate (n - length text) 0),
      length-replicate {A = ℕ} (n - length text) 0,
      few,
    ) in
    let rest : n - length text + (m - length padded) ≡ m - length text = omega (arith, few, long) in
    rw k (
      memmove_behind xs m i padded at (omega (arith, long))
      ∙ ap (◌++◌ xs) (
          append_assoc text (replicate (n - length text) 0) (replicate (m - length padded) 0)
          ∙ ap (◌++◌ text) (
              replicate-append (n - length text) (m - length padded)
              ∙ ap (λ k. replicate {A = ℕ} k 0) rest)))
