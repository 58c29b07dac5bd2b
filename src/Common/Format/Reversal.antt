-- ===== src/Common/Format/Reversal.antt =====
-- What `reverse_loop` of common/format.c does to a text.
use ledger_app_neo.Prelude.{
  ℕ, zero, suc, ◌+◌, ◌-◌, ◌≤◌, ◌<◌, ◌≡◌, ◌≢◌, ==_iff, ◌⊎◌, refl, ap, ◌∙◌, arith, false, List, set,
  length, length-set, get_or-set_self, get_or-set_ne, ltb, ltb→lt, ltb→le, ◌==◌, Bool-cases, inl,
  inr,
}
use ledger_app_neo.Word.{byte_at}
use ledger_app_neo.Common.Format.{reverse_loop}

-- The swaps leave what is outside of them alone.
pub reverse_outside :
    (fuel : ℕ) (out : List ℕ) (i j k : ℕ)
    → (k < j) ⊎ (i < k)
    → byte_at (reverse_loop fuel out i j) k ≡ byte_at out k
unfolding reverse_loop
reverse_outside zero out i j k h = refl
reverse_outside (suc fuel) out i j k h = elim (Bool-cases (ltb j i)) [
  | inr done ↦ rw done refl
  | inl more ↦
      let first = set out j (byte_at out i) in
      let small = ltb→lt j i more in
      rw more (
        reverse_outside fuel (set first i (byte_at out j)) (i - 1) (j + 1) k (wider small)
        ∙ (get_or-set_ne first i k (byte_at out j) 0 (omega (arith, h, small))
            ∙ get_or-set_ne out j k (byte_at out i) 0 (omega (arith, h, small))))
]
  where
    wider : j < i → (k < j + 1) ⊎ (i - 1 < k)
    wider small = elim h [ inl before ↦ inl (omega arith) | inr behind ↦ inr (omega arith) ]

pub unequal : (a b : ℕ) → (a == b) ≡ false → a ≢ b
unequal a b h e = ground arith

-- They turn what is between them round.
pub reverse_inside :
    (fuel : ℕ) (out : List ℕ) (i j k : ℕ)
    → i < length out
    → i - j ≤ fuel
    → j ≤ k
    → k ≤ i
    → byte_at (reverse_loop fuel out i j) k ≡ byte_at out (i + j - k)
unfolding reverse_loop
reverse_inside zero out i j k room enough low high = ap (byte_at out) (omega arith)
reverse_inside (suc fuel) out i j k room enough low high = elim (Bool-cases (ltb j i)) [
  | inr done ↦ rw done (ap (byte_at out) (omega (arith, ltb→le j i done)))
  | inl more ↦
      let small = ltb→lt j i more in
      let first = set out j (byte_at out i) in
      let both = set first i (byte_at out j) in
      rw more (elim (Bool-cases (k == j)) [
        | inl left ↦
            let at_left : k ≡ j = (==_iff k j).0 left in
            reverse_outside fuel both (i - 1) (j + 1) k (inl (omega arith))
            ∙ (get_or-set_ne first i k (byte_at out j) 0 (omega arith)
                ∙ (ap (byte_at first) at_left
                    ∙ (get_or-set_self out j (byte_at out i) 0 (omega arith)
                        ∙ ap (byte_at out) (omega arith))))
        | inr not_left ↦ elim (Bool-cases (k == i)) [
          | inl right ↦
              let at_right : k ≡ i = (==_iff k i).0 right in
              reverse_outside fuel both (i - 1) (j + 1) k (inr (omega arith))
              ∙ (ap (byte_at both) at_right
                  ∙ (get_or-set_self first i (byte_at out j) 0
                        (omega (arith, length-set out j (byte_at out i)))
                      ∙ ap (byte_at out) (omega arith)))
          | inr not_right ↦
              let left_of : k ≢ j = unequal k j not_left in
              let right_of : k ≢ i = unequal k i not_right in
              let m : i - 1 + (j + 1) - k ≡ i + j - k = omega arith in
              reverse_inside fuel both (i - 1) (j + 1) k
                (omega
                  (arith, length-set out j (byte_at out i), length-set first i (byte_at out j)))
                (omega arith) (omega arith) (omega arith)
              ∙ (ap (byte_at both) m
                  ∙ (get_or-set_ne first i (i + j - k) (byte_at out j) 0 (omega arith)
                      ∙ get_or-set_ne out j (i + j - k) (byte_at out i) 0 (omega arith)))
        ]
      ])
]
