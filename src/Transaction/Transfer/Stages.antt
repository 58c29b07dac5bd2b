-- ===== src/Transaction/Transfer/Stages.antt =====
-- What each stage of the recognition has read when it goes on.
use ledger_app_neo.Prelude.{
  ℕ, ◌+◌, ◌-◌, ◌^◌, ◌≤◌, ◌<◌, ◌≡◌, sym, ap, ◌∙◌, ap₂, arith, true, ◌&&◌, List, [], ◌∷◌, take,
  length, length-take, leb, ◌==◌, ==_iff, Bool-cases, inl, inr, ℤ, pos, signed,
}
use mathlib.Core.Path.{subst⁻¹}
use ledger_app_neo.Word.{byte_at}
use ledger_app_neo.Common.Read.Value.{byte_at-IsByte}
use ledger_app_neo.Common.Buffer.{
  Reading, Buffer, le, buffer_read_s8, buffer_read_s16, buffer_read_s32, buffer_read_s64,
}
use ledger_app_neo.Common.Buffer.View.{
  IsValid, remaining, remaining-IsByte, number_le, number_le-take, take_one,
}
use ledger_app_neo.Common.Buffer.Reads.{
  Refines, list_read, buffer_read_s8-Refines, buffer_read_s16-Refines, buffer_read_s32-Refines,
  buffer_read_s64-Refines,
}
use ledger_app_neo.Transaction.Types.{Transaction}
use ledger_app_neo.Transaction.Monad.{Parse, Outcome, go, ◌>>=◌, read_value}
use ledger_app_neo.Transaction.Monad.Inversion.{
  Consumes, Consumes-none, >>=-go, go_injective, read_to-Consumes,
}
use ledger_app_neo.Transaction.Transfer.{parse_amount, u8_of_s8, set_amount}
use ledger_app_neo.Transaction.Transfer.Script.{
  Pushes, push, pushint8, pushint16, pushint32, pushint64,
}

abbrev pub with_amount : ℤ → Transaction → Transaction
with_amount z tx = record tx { amount = z }

-- The amount is stored, and the code that pushes it was read.
pub record Amount (opcode : ℕ) (p p' : Parse) : Type 0 where
  pub operand : List ℕ
  pub amount : ℤ
  pub pushes : Pushes (opcode ∷ operand) amount
  pub consumed : Consumes p operand p'
  pub stored : p'.tx ≡ with_amount amount p.tx

unsigned : (b : ℕ) → b < 256 → u8_of_s8 (signed (2 ^ 7) b) ≡ b
unsigned b h = ground arith

length_taken : (n : ℕ) (xs : List ℕ) → n ≤ length xs → length (take n xs) ≡ n
length_taken n xs h = omega (arith, length-take n xs)

-- Only the structure changes in a store.
Consumes-store :
    {p q p' : Parse} {bytes : List ℕ} {tx : Transaction}
    → Consumes p bytes q
    → ◌≡◌ {A = Outcome (Unit {0}) (Unit {0})} (go tt (record q { tx = tx })) (go tt p')
    → Consumes p bytes p' × (p'.tx ≡ tx)
Consumes-store {p} {bytes = bytes} c h =
    let same = sym (go_injective h).1 in
    (
      subst⁻¹ (Consumes p bytes) same
          (record { valid = c.valid; split = c.split; same_size = c.same_size }),
      ap (λ (q : Parse). q.tx) same,
    )

module _ {A : Type 0} (read : Buffer → Reading A) (n : ℕ) (zero_value : A) (decode : List ℕ → A)
    (shown : A → ℤ) {p : Parse}
    (r : Refines p.buf (list_read n zero_value decode (remaining p.buf)) (read p.buf)) where
  stored_amount :
      {p' : Parse}
      → (read_value read tt >>= λ z. set_amount (shown z)) p ≡ go tt p'
      → (n ≤ length (remaining p.buf))
        × Consumes p (take n (remaining p.buf)) p'
        × (p'.tx ≡ with_amount (shown (decode (remaining p.buf))) p.tx)
  stored_amount h =
      let (z, q, first, second) = >>=-go (read_value read tt) (λ z. set_amount (shown z)) p h in
      let (fits, value, consumed, same) =
        read_to-Consumes read (λ _ tx. tx) tt p n zero_value decode r first in
      let (all, stored) = Consumes-store consumed second in
      (fits, all, stored ∙ ap₂ (λ y tx. with_amount (shown y) tx) value same)

module _ (p : Parse) (v : IsValid p.buf) where
  abbrev rest : List ℕ
  rest = remaining p.buf

  first_byte : byte_at rest 0 < 256
  first_byte = byte_at-IsByte (remaining p.buf) 0 (remaining-IsByte v)

  Amount-s8 :
      {p' : Parse}
      → (read_value buffer_read_s8 tt >>= λ z. set_amount (pos (u8_of_s8 z))) p ≡ go tt p'
      → Amount 0x00 p p'
  Amount-s8 h =
      let (fits, consumed, stored) =
        stored_amount buffer_read_s8 1 (pos 0) (λ xs. signed (2 ^ 7) (number_le 1 xs))
          (λ z. pos (u8_of_s8 z)) (buffer_read_s8-Refines v) h in
      let same : number_le 1 rest ≡ byte_at rest 0 = omega arith in
      record {
        operand = byte_at rest 0 ∷ [];
        amount = pos (byte_at rest 0);
        pushes = pushint8 (byte_at rest 0) first_byte;
        consumed = rw (take_one rest fits) at consumed;
        stored =
            stored
            ∙ ap (λ n. with_amount (pos n) p.tx) (rw same (unsigned (byte_at rest 0) first_byte));
      }

  Amount-s16 :
      {p' : Parse}
      → (read_value (λ b. buffer_read_s16 b le) tt >>= set_amount) p ≡ go tt p'
      → Amount 0x01 p p'
  Amount-s16 h =
      let (fits, consumed, stored) =
        stored_amount (λ b. buffer_read_s16 b le) 2 (pos 0) (λ xs. signed (2 ^ 15) (number_le 2 xs))
          (λ z. z) (buffer_read_s16-Refines v) h in
      record {
        operand = take 2 rest;
        amount = signed (2 ^ 15) (number_le 2 (take 2 rest));
        pushes = pushint16 (take 2 rest) (length_taken 2 rest fits);
        consumed = consumed;
        stored =
            stored
            ∙ ap (λ x. with_amount (signed (2 ^ 15) x) p.tx)
                (sym (number_le-take 2 2 rest (omega arith)));
      }

  Amount-s32 :
      {p' : Parse}
      → (read_value (λ b. buffer_read_s32 b le) tt >>= set_amount) p ≡ go tt p'
      → Amount 0x02 p p'
  Amount-s32 h =
      let (fits, consumed, stored) =
        stored_amount (λ b. buffer_read_s32 b le) 4 (pos 0) (λ xs. signed (2 ^ 31) (number_le 4 xs))
          (λ z. z) (buffer_read_s32-Refines v) h in
      record {
        operand = take 4 rest;
        amount = signed (2 ^ 31) (number_le 4 (take 4 rest));
        pushes = pushint32 (take 4 rest) (length_taken 4 rest fits);
        consumed = consumed;
        stored =
            stored
            ∙ ap (λ x. with_amount (signed (2 ^ 31) x) p.tx)
                (sym (number_le-take 4 4 rest (omega arith)));
      }

  Amount-s64 :
      {p' : Parse}
      → (read_value (λ b. buffer_read_s64 b le) tt >>= set_amount) p ≡ go tt p'
      → Amount 0x03 p p'
  Amount-s64 h =
      let (fits, consumed, stored) =
        stored_amount (λ b. buffer_read_s64 b le) 8 (pos 0) (λ xs. signed (2 ^ 63) (number_le 8 xs))
          (λ z. z) (buffer_read_s64-Refines v) h in
      record {
        operand = take 8 rest;
        amount = signed (2 ^ 63) (number_le 8 (take 8 rest));
        pushes = pushint64 (take 8 rest) (length_taken 8 rest fits);
        consumed = consumed;
        stored =
            stored
            ∙ ap (λ x. with_amount (signed (2 ^ 63) x) p.tx)
                (sym (number_le-take 8 8 rest (omega arith)));
      }

  push-Amount :
      (opcode : ℕ) {p' : Parse}
      → leb 0x10 opcode && leb opcode 0x20 ≡ true
      → ◌≡◌ {A = Outcome (Unit {0}) (Unit {0})} (set_amount (pos (opcode - 0x10)) p) (go tt p')
      → Amount opcode p p'
  push-Amount opcode inside h =
      let range : (0x10 ≤ opcode) × (opcode ≤ 0x20) = ground arith in
      let same : 0x10 + (opcode - 0x10) ≡ opcode = omega arith in
      let within : opcode - 0x10 ≤ 16 = omega arith in
      let (consumed, stored) = Consumes-store (Consumes-none v) h in
      record {
        operand = [];
        amount = pos (opcode - 0x10);
        pushes = rw same at (push (opcode - 0x10) within);
        consumed = consumed;
        stored = stored;
      }

  opcode_at :
      (k opcode : ℕ) {p' : Parse} → (opcode == k) ≡ true → Amount k p p' → Amount opcode p p'
  opcode_at k opcode {p'} is a = subst⁻¹ (λ o. Amount o p p') ((==_iff opcode k).0 is) a

  -- Whatever `parse_amount` accepts is a push of the amount that it stores.
  pub parse_amount-Amount :
      (opcode : ℕ) {p' : Parse} → parse_amount opcode p ≡ go tt p' → Amount opcode p p'
  unfolding parse_amount
  parse_amount-Amount opcode h = elim (Bool-cases (leb 0x10 opcode && leb opcode 0x20)) [
    | inl small ↦ push-Amount opcode small (rw small at h)
    | inr not_small ↦ elim (Bool-cases (opcode == 0x00)) [
      | inl is ↦ opcode_at 0x00 opcode is (Amount-s8 (rw (not_small, is) at h))
      | inr not0 ↦ elim (Bool-cases (opcode == 0x01)) [
        | inl is ↦ opcode_at 0x01 opcode is (Amount-s16 (rw (not_small, not0, is) at h))
        | inr not1 ↦ elim (Bool-cases (opcode == 0x02)) [
          | inl is ↦ opcode_at 0x02 opcode is (Amount-s32 (rw (not_small, not0, not1, is) at h))
          | inr not2 ↦ elim (Bool-cases (opcode == 0x03)) [
            | inl is ↦
                opcode_at 0x03 opcode is (Amount-s64 (rw (not_small, not0, not1, not2, is) at h))
            | inr not3 ↦ cc (rw (not_small, not0, not1, not2, not3) at h)
          ]
        ]
      ]
    ]
  ]
