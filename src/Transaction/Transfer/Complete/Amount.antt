-- ===== src/Transaction/Transfer/Complete/Amount.antt =====
-- The first bytes of a transfer's script are read: the amount, and PUSHDATA1.
use ledger_app_neo.Prelude.{
  ℕ, ◌+◌, ◌-◌, ◌^◌, ◌≤◌, ◌<◌, ◌≡◌, refl, ap, arith, true, false, not, ◌&&◌, List, [], ◌∷◌, ◌++◌,
  length, leb, ◌==◌, ℤ, pos, signed,
}
use ledger_app_neo.Common.Buffer.{
  Buffer, Reading, be, le, buffer_read_u8, buffer_read_s8, buffer_read_u16, buffer_read_s16,
  buffer_read_s32, buffer_read_s64,
}
use ledger_app_neo.Common.Buffer.View.{remaining, number_le, number_be}
use ledger_app_neo.Common.Buffer.Reads.{
  Refines, list_read, buffer_read_u8-Refines, buffer_read_s8-Refines, buffer_read_u16-Refines,
  buffer_read_s16-Refines, buffer_read_s32-Refines, buffer_read_s64-Refines,
}
use ledger_app_neo.Common.Buffer.Cursor.{
  OnlyMoves, buffer_read_u8-ReadMoves, buffer_read_s8-ReadMoves, buffer_read_u16-ReadMoves,
  buffer_read_s16-ReadMoves, buffer_read_s32-ReadMoves, buffer_read_s64-ReadMoves,
}
use ledger_app_neo.Transaction.Types.{Transaction}
use ledger_app_neo.Transaction.Monad.{Parse, Outcome, ◌>>=◌, stop_if, modify, read_value}
use ledger_app_neo.Transaction.Monad.Forward.{
  At, Goes, Is, >>=-Goes, stop_if-Goes, modify-Goes, read_to-Goes, list_read_ahead,
  number_le-append,
}
use ledger_app_neo.Transaction.Transfer.{parse_amount, set_amount, u8_of_s8, expect_hash}
use ledger_app_neo.Transaction.Transfer.Script.{
  Pushes, push, pushint8, pushint16, pushint32, pushint64,
}

module _ (memory : List ℕ) (size : ℕ) where
  abbrev pub Here : Parse → List ℕ → Transaction → Type 0
  Here p bytes tx = At memory size p bytes (Is tx)

  abbrev pub Ends : {A : Type 0} → Outcome (Unit {0}) A → A → List ℕ → Transaction → Type 0
  Ends o a bytes tx = Goes memory size o a bytes (Is tx)

  pub store-Goes :
      (f : Transaction → Transaction) {p : Parse} {xs : List ℕ} {tx : Transaction}
      → Here p xs tx
      → Ends (modify f p) tt xs (f tx)
  store-Goes f at = modify-Goes memory size f (λ t e. ap f e) at

  abbrev pub with_amount : ℤ → Transaction → Transaction
  with_amount z tx = record tx { amount = z }

  -- One byte into a local variable.
  pub read_byte-Goes :
      {p : Parse} (byte : ℕ) (rest : List ℕ) {tx : Transaction}
      → Here p (byte ∷ rest) tx
      → Ends (read_value {E = Unit {0}} buffer_read_u8 tt p) byte rest tx
  read_byte-Goes {p} byte rest at =
      read_to-Goes memory size buffer_read_u8 (λ _ tx. tx) tt (list_read 1 0 (number_le 1))
        (buffer_read_u8-Refines at.valid) (buffer_read_u8-ReadMoves p.buf)
        (list_read_ahead 1 0 (number_le 1) (byte ∷ []) rest refl (omega arith)) (λ t e. e) at

  -- An operand that is stored as the amount.
  operand-Goes :
      (read : Buffer → Reading ℤ) (n : ℕ) (half : ℕ) {p : Parse} (xs rest : List ℕ)
      {tx : Transaction}
      → length xs ≡ n
      → Refines p.buf
          (list_read n (pos 0) (λ ys. signed half (number_le n ys)) (remaining p.buf))
          (read p.buf)
      → OnlyMoves p.buf (read p.buf).buffer
      → Here p (xs ++ rest) tx
      → Ends
          ((read_value {E = Unit {0}} read tt >>= set_amount) p)
          tt
          rest
          (with_amount (signed half (number_le n xs)) tx)
  operand-Goes read n half {p} xs rest long refines moves at =
      >>=-Goes memory size (read_value read tt) set_amount p
        (read_to-Goes memory size read (λ _ tx. tx) tt
          (list_read n (pos 0) (λ ys. signed half (number_le n ys))) refines moves
          (list_read_ahead n (pos 0) (λ ys. signed half (number_le n ys)) xs rest long
            (ap (signed half) (number_le-append n xs rest long)))
          (λ t e. e) at)
        (λ q at'. store-Goes (with_amount (signed half (number_le n xs))) at')

  -- The code that pushes an amount is an opcode, which `parse_amount` gets, and its operand.
  pub record Pushed (code : List ℕ) (z : ℤ) : Type 0 where
    pub opcode : ℕ
    pub operand : List ℕ
    pub code_eq : code ≡ opcode ∷ operand
    pub goes :
        (p : Parse) (rest : List ℕ) (tx : Transaction)
        → Here p (operand ++ rest) tx
        → Ends (parse_amount opcode p) tt rest (with_amount z tx)

  small : (n : ℕ) → n ≤ 16 → (leb 0x10 (0x10 + n) && leb (0x10 + n) 0x20) ≡ true
  small n h = ground arith

  pushed_opcode : (n : ℕ) → 0x10 + n - 0x10 ≡ n
  pushed_opcode n = omega arith

  unsigned : (b : ℕ) → b < 256 → pos (u8_of_s8 (signed (2 ^ 7) (number_le 1 (b ∷ [])))) ≡ pos b
  unsigned b h = ground arith

  push-Goes :
      (n : ℕ) {p : Parse} {rest : List ℕ} {tx : Transaction}
      → n ≤ 16
      → Here p rest tx
      → Ends (parse_amount (0x10 + n) p) tt rest (with_amount (pos n) tx)
  unfolding parse_amount
  push-Goes n h at = rw (small n h, pushed_opcode n) (store-Goes (with_amount (pos n)) at)

  pushint8-Goes :
      (b : ℕ) {p : Parse} (rest : List ℕ) {tx : Transaction}
      → b < 256
      → Here p (b ∷ rest) tx
      → Ends (parse_amount 0x00 p) tt rest (with_amount (pos b) tx)
  unfolding parse_amount
  pushint8-Goes b {p} rest {tx} h at =
      let value : ℤ = signed (2 ^ 7) (number_le 1 (b ∷ [])) in
      >>=-Goes memory size (read_value buffer_read_s8 tt) (λ v. set_amount (pos (u8_of_s8 v))) p
        (read_to-Goes memory size buffer_read_s8 (λ _ tx. tx) tt
          (list_read 1 (pos 0) (λ ys. signed (2 ^ 7) (number_le 1 ys)))
          (buffer_read_s8-Refines at.valid) (buffer_read_s8-ReadMoves p.buf)
          (list_read_ahead 1 (pos 0) (λ ys. signed (2 ^ 7) (number_le 1 ys)) (b ∷ []) rest
            {a = value} refl refl)
          (λ t e. e) at)
        (λ q at'. rw (unsigned b h) (store-Goes (with_amount (pos b)) at'))

  pub Pushes-Pushed : {code : List ℕ} {z : ℤ} → Pushes code z → Pushed code z
  unfolding parse_amount
  Pushes-Pushed (push n h) = record {
    opcode = 0x10 + n;
    operand = [];
    code_eq = refl;
    goes = λ p rest tx at. push-Goes n h at;
  }
  Pushes-Pushed (pushint8 b h) = record {
    opcode = 0x00;
    operand = b ∷ [];
    code_eq = refl;
    goes = λ p rest tx at. pushint8-Goes b rest h at;
  }
  Pushes-Pushed (pushint16 xs h) = record {
    opcode = 0x01;
    operand = xs;
    code_eq = refl;
    goes = λ p rest tx at.
        operand-Goes (λ b. buffer_read_s16 b le) 2 (2 ^ 15) xs rest h
          (buffer_read_s16-Refines at.valid) (buffer_read_s16-ReadMoves le p.buf) at;
  }
  Pushes-Pushed (pushint32 xs h) = record {
    opcode = 0x02;
    operand = xs;
    code_eq = refl;
    goes = λ p rest tx at.
        operand-Goes (λ b. buffer_read_s32 b le) 4 (2 ^ 31) xs rest h
          (buffer_read_s32-Refines at.valid) (buffer_read_s32-ReadMoves le p.buf) at;
  }
  Pushes-Pushed (pushint64 xs h) = record {
    opcode = 0x03;
    operand = xs;
    code_eq = refl;
    goes = λ p rest tx at.
        operand-Goes (λ b. buffer_read_s64 b le) 8 (2 ^ 63) xs rest h
          (buffer_read_s64-Refines at.valid) (buffer_read_s64-ReadMoves le p.buf) at;
  }

  -- PUSHDATA1 of 20 bytes.
  pub expect_hash-Goes :
      {p : Parse} (rest : List ℕ) {tx : Transaction}
      → Here p (0x0C ∷ 0x14 ∷ rest) tx
      → Ends (expect_hash p) tt rest tx
  unfolding expect_hash
  expect_hash-Goes {p} rest at =
      >>=-Goes memory size (read_value (λ b. buffer_read_u16 b be) tt)
        (λ word. stop_if (not (word == 0x0C14)) tt) p
        (read_to-Goes memory size (λ b. buffer_read_u16 b be) (λ _ tx. tx) tt
          (list_read 2 0 (number_be 2)) (buffer_read_u16-Refines at.valid be)
          (buffer_read_u16-ReadMoves be p.buf)
          (list_read_ahead 2 0 (number_be 2) (0x0C ∷ 0x14 ∷ []) rest {a = 0x0C14} refl refl)
          (λ t e. e) at)
        (λ q at'. stop_if-Goes memory size false tt refl at')
