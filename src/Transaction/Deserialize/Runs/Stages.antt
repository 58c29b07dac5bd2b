-- ===== src/Transaction/Deserialize/Runs/Stages.antt =====
-- All stages: the relation keeps when anything changes but what the recognition of transfers stores.
use ledger_app_neo.Prelude.{ℕ, ◌≡◌, refl, ap, ◌||◌, List, ltb, ◌==◌, is_negative, Bool, ℤ}
use ledger_app_neo.Word.{u8, u16}
use ledger_app_neo.Sdk.{Sdk}
use ledger_app_neo.Common.Buffer.{le, buffer_read_u8, buffer_read_u32, buffer_read_s64}
use ledger_app_neo.Common.Buffer.Cursor.{
  buffer_read_u8-ReadMoves, buffer_read_u32-ReadMoves, buffer_read_s64-ReadMoves,
}
use ledger_app_neo.Transaction.Types.{
  Transaction, ParserStatus, max_attributes, max_tx_signers, min_tx_signers,
}
use ledger_app_neo.Transaction.Monad.{Parse, modify, ◌>>=◌}
use ledger_app_neo.Transaction.Deserialize.{
  Stage, parse_signers, parse_attributes, parse_script, parse_header, parse_too_long, parse_stages,
  max_transaction_len,
}
use ledger_app_neo.Transaction.Deserialize.Runs.{
  Runs, Rules, Stores, >>=-Runs, stop_if-Runs, modify-Runs, get-Runs, pure-Runs, read_to-Runs,
  skip-Runs, varint-Runs,
}
use ledger_app_neo.Transaction.Deserialize.Runs.Signers.{
  parse_signers_loop-Runs, parse_attributes_loop-Runs,
}

-- What `try_parse_transfer_script` stores.
abbrev pub Flags : Type 0
Flags = ℤ × List ℕ × Bool × Bool

abbrev pub flags : Transaction → Flags
flags tx = (tx.amount, tx.dst_address, tx.is_neo, tx.is_system_asset_transfer)

-- What `parse_header` stores.
abbrev pub Fields : Type 0
Fields = ℕ × ℕ × ℤ × ℤ × ℕ

abbrev pub fields : Transaction → Fields
fields tx = (tx.version, tx.nonce, tx.system_fee, tx.network_fee, tx.valid_until_block)

abbrev pub both : Transaction → Flags × Fields
both tx = (flags tx, fields tx)

module _ {P : Parse → Parse → Type 0} (rules : Rules P)
    (stores : (f : Transaction → Transaction)
      → ((tx : Transaction) → flags (f tx) ≡ flags tx)
      → Stores P f) where
  infixr 5 ◌then◌
  abbrev ◌then◌ :
      {A B : Type 0} {m : Stage A} {f : A → Stage B}
      → Runs P m
      → ((a : A) → Runs P (f a))
      → Runs P (m >>= f)
  h then k = >>=-Runs rules h k

  pub parse_header-Runs : Runs P parse_header
  unfolding parse_header
  parse_header-Runs =
      read_to-Runs rules buffer_read_u8 (λ v tx. record tx { version = v })
        ParserStatus.version_parsing_error buffer_read_u8-ReadMoves
        (λ v p. stores (λ tx. record tx { version = v }) (λ tx. refl) p) refl
      then λ version.
          stop_if-Runs rules (ltb 0 version) ParserStatus.version_value_error refl then λ _.
          read_to-Runs rules (λ b. buffer_read_u32 b le) (λ v tx. record tx { nonce = v })
            ParserStatus.nonce_parsing_error (buffer_read_u32-ReadMoves le)
            (λ v p. stores (λ tx. record tx { nonce = v }) (λ tx. refl) p) refl
          then λ nonce.
              read_to-Runs rules (λ b. buffer_read_s64 b le) (λ v tx. record tx { system_fee = v })
                ParserStatus.system_fee_parsing_error (buffer_read_s64-ReadMoves le)
                (λ v p. stores (λ tx. record tx { system_fee = v }) (λ tx. refl) p) refl
              then λ fee.
                  stop_if-Runs rules (is_negative fee) ParserStatus.system_fee_value_error refl
                  then λ _.
                      read_to-Runs rules (λ b. buffer_read_s64 b le)
                        (λ v tx. record tx { network_fee = v })
                        ParserStatus.network_fee_parsing_error (buffer_read_s64-ReadMoves le)
                        (λ v p. stores (λ tx. record tx { network_fee = v }) (λ tx. refl) p) refl
                      then λ fee.
                          stop_if-Runs rules (is_negative fee) ParserStatus.network_fee_value_error
                            refl
                          then λ _.
                              read_to-Runs rules (λ b. buffer_read_u32 b le)
                                (λ v tx. record tx { valid_until_block = v })
                                ParserStatus.valid_until_block_parsing_error
                                (buffer_read_u32-ReadMoves le)
                                (λ v p.
                                  stores (λ tx. record tx { valid_until_block = v }) (λ tx. refl) p)
                                refl
                              then λ until. pure-Runs rules

  pub parse_too_long-Runs : Runs P parse_too_long
  parse_too_long-Runs = record {
    runs = λ p.
        (stop_if-Runs rules (ltb max_transaction_len p.buf.size) ParserStatus.invalid_length_error
            refl).runs
          p;
  }

-- Behind the header, its fields are left alone too.
module _ {P : Parse → Parse → Type 0} (rules : Rules P)
    (stores : (f : Transaction → Transaction)
      → ((tx : Transaction) → both (f tx) ≡ both tx)
      → Stores P f) where
  infixr 5 ◌next◌
  abbrev ◌next◌ :
      {A B : Type 0} {m : Stage A} {f : A → Stage B}
      → Runs P m
      → ((a : A) → Runs P (f a))
      → Runs P (m >>= f)
  h next k = >>=-Runs rules h k

  modify-stores :
      (f : Transaction → Transaction)
      → ((tx : Transaction) → both (f tx) ≡ both tx)
      → Runs P (modify f)
  modify-stores f h = modify-Runs rules f (stores f h)

  pub parse_signers-Runs : (sdk : Sdk) → Runs P (parse_signers sdk)
  unfolding parse_signers
  parse_signers-Runs sdk = varint-Runs rules ParserStatus.signer_length_parsing_error refl next λ n.
      stop_if-Runs rules (ltb n min_tx_signers || ltb max_tx_signers n)
        ParserStatus.signer_length_value_error refl
      next λ _. modify-stores (λ tx. record tx { signers_size = u8 n }) (λ tx. refl) next λ _.
          parse_signers_loop-Runs rules
            (λ xs p. stores (λ tx. record tx { signers = xs }) (λ tx. refl) p) sdk (u8 n) 0

  pub parse_attributes-Runs : Runs P parse_attributes
  unfolding parse_attributes
  parse_attributes-Runs =
      varint-Runs rules ParserStatus.attributes_length_parsing_error refl next λ n.
      stop_if-Runs rules (ltb max_attributes n || ltb 2 n)
        ParserStatus.attributes_length_value_error refl
      next λ _. modify-stores (λ tx. record tx { attributes_size = u8 n }) (λ tx. refl) next λ _.
          parse_attributes_loop-Runs rules
            (λ xs p. stores (λ tx. record tx { attributes = xs }) (λ tx. refl) p) (u8 n) 0

  pub parse_script-Runs : Runs P parse_script
  unfolding parse_script
  parse_script-Runs = varint-Runs rules ParserStatus.script_length_parsing_error refl next λ n.
      get-Runs rules next λ start.
      modify-stores (λ tx. record tx { script = start.buf.offset }) (λ tx. refl) next λ _.
      stop_if-Runs rules (ltb 0xFFFF n || n == 0) ParserStatus.script_length_value_error refl
      next λ _. skip-Runs rules n ParserStatus.script_length_value_error refl next λ _.
          modify-stores (λ tx. record tx { script_size = u16 n }) (λ tx. refl)

module _ {P : Parse → Parse → Type 0} (rules : Rules P)
    (stores : (f : Transaction → Transaction)
      → ((tx : Transaction) → flags (f tx) ≡ flags tx)
      → Stores P f) where
  infixr 5 ◌after◌
  abbrev ◌after◌ :
      {A B : Type 0} {m : Stage A} {f : A → Stage B}
      → Runs P m
      → ((a : A) → Runs P (f a))
      → Runs P (m >>= f)
  h after k = >>=-Runs rules h k

  Stores-both :
      (f : Transaction → Transaction) → ((tx : Transaction) → both (f tx) ≡ both tx) → Stores P f
  Stores-both f h = stores f (λ tx. ap (λ (x : Flags × Fields). x.0) (h tx))

  pub parse_stages-Runs : (sdk : Sdk) → Runs P (parse_stages sdk)
  unfolding parse_stages
  parse_stages-Runs sdk = parse_too_long-Runs rules stores after λ _.
      parse_header-Runs rules stores after λ _. parse_signers-Runs rules Stores-both sdk after λ _.
      parse_attributes-Runs rules Stores-both after λ _. parse_script-Runs rules Stores-both
