-- ===== src/Transaction/Transfer/Unflagged.antt =====
-- What of the transaction the recognition in tx_utils.c leaves alone.
use ledger_app_neo.Prelude.{
  ◌≡◌, true, ℕ, refl, Bool, not, ◌&&◌, leb, ◌==◌, if◌then◌else◌, List, ℤ, pos,
}
use ledger_app_neo.Sdk.{Sdk}
use ledger_app_neo.Common.Buffer.{
  Buffer, Reading, le, be, buffer_can_read, buffer_read_u8, buffer_read_s8, buffer_read_u16,
  buffer_read_s16, buffer_read_s32, buffer_read_s64, buffer_seek_cur,
}
use ledger_app_neo.Transaction.Types.{Transaction, uint160_len}
use ledger_app_neo.Transaction.Monad.{Parse, Outcome, go, stop, ◌>>=◌, read_value}
use ledger_app_neo.Transaction.Monad.Keeps.{
  StopKeeps, Keeps, After, >>=-Keeps, >>=-StopKeeps, stop_if-Keeps, modify-Keeps, get-Keeps,
  read_to-Keeps, skip-Keeps, if-Keeps, modify-StopKeeps,
}
use ledger_app_neo.Transaction.Transfer.{
  Step, sequence, sequence2, set_amount, u8_of_s8, differs, neo_script_hash, gas_script_hash,
  expect_hash, parse_amount, parse_destination, parse_source, expect_bytes, parse_contract,
  parse_transfer, filled, try_parse_transfer_script,
}

abbrev pub is_transfer : Transaction → Bool
is_transfer tx = tx.is_system_asset_transfer

-- A part of the transaction that does not show the amount, the address or the asset.
pub record Untouched {ℓ} {V : Type ℓ} (part : Transaction → V) : Type ℓ where
  pub amount_kept : (z : ℤ) (tx : Transaction) → part (record tx { amount = z }) ≡ part tx
  pub address_kept :
      (xs : List ℕ) (tx : Transaction) → part (record tx { dst_address = xs }) ≡ part tx
  pub neo_kept : (neo : Bool) (tx : Transaction) → part (record tx { is_neo = neo }) ≡ part tx

pub is_transfer-Untouched : Untouched is_transfer
is_transfer-Untouched = record {
  amount_kept = λ z tx. refl;
  address_kept = λ xs tx. refl;
  neo_kept = λ neo tx. refl;
}

module _ {ℓ} {V : Type ℓ} (part : Transaction → V) (u : Untouched part) where
  abbrev Same : {A : Type 0} → Step A → Type ℓ
  Same m = Keeps part m

  reads : {A : Type 0} (read : Buffer → Reading A) → Same (read_value read tt)
  reads read = read_to-Keeps part read (λ _ tx. tx) tt (λ a tx. refl)

  infixr 5 ◌then◌
  abbrev ◌then◌ :
      {A B : Type 0} {m : Step A} {f : A → Step B}
      → Same m
      → ((a : A) → Same (f a))
      → Same (m >>= f)
  h then k = >>=-Keeps part _ _ h k

  infixl 4 ◌thus◌
  abbrev ◌thus◌ :
      {A B : Type 0} {m : Step A} {f : A → Step B}
      → Same m
      → ((a : A) → StopKeeps part (f a))
      → StopKeeps part (m >>= f)
  h thus k = >>=-StopKeeps part _ _ h k

  amount_Keeps : (z : ℤ) → Same (set_amount z)
  amount_Keeps z = modify-Keeps part _ (u.amount_kept z)

  gives_up_Keeps : Same {A = Unit {0}} (stop tt)
  gives_up_Keeps = record { after = λ p. refl }

  parse_amount_Keeps : (opcode : ℕ) → Same (parse_amount opcode)
  unfolding parse_amount
  parse_amount_Keeps opcode =
      if-Keeps part (leb 0x10 opcode && leb opcode 0x20) _ _ (amount_Keeps _) (
        if-Keeps part (opcode == 0x00) _ _
          (reads buffer_read_s8 then λ v. amount_Keeps (pos (u8_of_s8 v)))
          (if-Keeps part (opcode == 0x01) _ _
            (reads (λ b. buffer_read_s16 b le) then λ v. amount_Keeps v)
            (if-Keeps part (opcode == 0x02) _ _
              (reads (λ b. buffer_read_s32 b le) then λ v. amount_Keeps v)
              (if-Keeps part (opcode == 0x03) _ _
                (reads (λ b. buffer_read_s64 b le) then λ v. amount_Keeps v) gives_up_Keeps))))

  expect_hash_Keeps : Same expect_hash
  unfolding expect_hash
  expect_hash_Keeps =
      reads (λ b. buffer_read_u16 b be) then λ word. stop_if-Keeps part (not (word == 0x0C14)) tt

  seek_Keeps : (n : ℕ) → Same (λ q. go tt (record q { buf = (buffer_seek_cur q.buf n).1 }))
  seek_Keeps n = record { after = λ p. refl }

  module _ (sdk : Sdk) where
    parse_source_Keeps : Same (parse_source sdk)
    unfolding parse_source
    parse_source_Keeps = expect_hash_Keeps then λ _. skip-Keeps part uint160_len tt

    parse_destination_Keeps : Same (parse_destination sdk)
    unfolding parse_destination
    parse_destination_Keeps = expect_hash_Keeps then λ _. get-Keeps part then λ start.
        skip-Keeps part uint160_len tt then λ _. modify-Keeps part _ (λ tx. u.address_kept _ tx)

    expect_bytes_Keeps : (bytes : List ℕ) (n : ℕ) → Same (expect_bytes sdk bytes n)
    unfolding expect_bytes
    expect_bytes_Keeps bytes n = record {
      after = λ p.
          ((stop_if-Keeps part (not (buffer_can_read p.buf n)) tt then λ _.
          stop_if-Keeps part (differs sdk p.buf bytes n) tt)
              then λ _. seek_Keeps n).after
            p;
    }

    parse_contract_Keeps : Same (parse_contract sdk)
    unfolding parse_contract
    parse_contract_Keeps = record {
      after = λ p.
          ((stop_if-Keeps part (not (buffer_can_read p.buf uint160_len)) tt then λ _.
          if-Keeps part (not (differs sdk p.buf neo_script_hash uint160_len)) _ _
            (modify-Keeps part _ (u.neo_kept true))
            (stop_if-Keeps part (differs sdk p.buf gas_script_hash uint160_len) tt))
              then λ _. seek_Keeps uint160_len).after
            p;
    }

    -- A recognition that gives up has not set the flag.
    pub parse_transfer-StopKeeps : StopKeeps part (parse_transfer sdk)
    unfolding parse_transfer
    parse_transfer-StopKeeps = reads buffer_read_u8 thus λ first.
        stop_if-Keeps part (not (first == 0xB)) tt thus λ _. reads buffer_read_u8 thus λ opcode.
        parse_amount_Keeps opcode thus λ _. parse_destination_Keeps thus λ _.
        parse_source_Keeps thus λ _. expect_bytes_Keeps sequence 15 thus λ _.
        parse_contract_Keeps thus λ _. expect_bytes_Keeps sequence2 5 thus λ _.
        get-Keeps part thus λ end.
        stop_if-Keeps part (not (end.buf.offset == end.tx.script_size)) tt thus λ _.
        modify-StopKeeps part _

    module _
        (flag_kept : (tx : Transaction)
          → part (record tx { is_system_asset_transfer = true }) ≡ part tx) where
      parse_transfer_Keeps : Same (parse_transfer sdk)
      unfolding parse_transfer
      parse_transfer_Keeps = reads buffer_read_u8 then λ first.
          stop_if-Keeps part (not (first == 0xB)) tt then λ _. reads buffer_read_u8 then λ opcode.
          parse_amount_Keeps opcode then λ _. parse_destination_Keeps then λ _.
          parse_source_Keeps then λ _. expect_bytes_Keeps sequence 15 then λ _.
          parse_contract_Keeps then λ _. expect_bytes_Keeps sequence2 5 then λ _.
          get-Keeps part then λ end.
          stop_if-Keeps part (not (end.buf.offset == end.tx.script_size)) tt then λ _.
          modify-Keeps part _ flag_kept

      filled_After :
          (x : V) (o : Outcome (Unit {0}) (Unit {0})) → After part x o → part (filled sdk o) ≡ x
      filled_After x (go _ p) h = h
      filled_After x (stop _ p) h = h

      -- The recognition changes none of such a part.
      pub try_parse_transfer_script-kept :
          (script : Buffer) (tx : Transaction)
          → part (try_parse_transfer_script sdk script tx) ≡ part tx
      unfolding try_parse_transfer_script
      try_parse_transfer_script-kept script tx =
          let p : Parse = record { buf = script; tx = tx } in
          filled_After (part tx) (parse_transfer sdk p) (parse_transfer_Keeps.after p)
