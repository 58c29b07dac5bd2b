-- ===== src/Transaction/Deserialize.antt =====
-- transaction/deserialize.c: fills the transaction from the raw bytes, stage by stage.
pub mod Runs
pub mod WellFormed
pub mod Accepted
pub mod Script
pub mod Header
pub mod Layout
pub mod Complete
use ledger_app_neo.Prelude.{
  ℕ, zero, suc, ◌+◌, Bool, false, not, ◌&&◌, ◌||◌, drop, get_or, set, ltb, ◌==◌, if◌then◌else◌,
  is_negative, bit_and,
}
use ledger_app_neo.Word.{u8, u16}
use ledger_app_neo.Sdk.{Sdk}
use ledger_app_neo.Common.Buffer.{
  Buffer, le, buffer_read_u8, buffer_read_u32, buffer_read_s64, buffer_read_varint,
}
use ledger_app_neo.Transaction.Types.{
  ParserStatus, Signer, Transaction, uint160_len, ecpoint_len, max_tx_signers, min_tx_signers,
  max_signer_sub_items, max_attributes, custom_contracts, custom_groups, global, high_priority,
  signer_at,
}
use ledger_app_neo.Transaction.Monad.{
  Parse, Outcome, go, stop, Parser, ◌>>=◌, ◌>>◌, pure, stop_if, modify, get, read_to, read_value,
  skip,
}
use ledger_app_neo.Transaction.Transfer.{try_parse_transfer_script}

abbrev pub max_transaction_len : ℕ
max_transaction_len = 1024

abbrev pub Stage : Type 0 → Type 0
Stage A = Parser ParserStatus A

-- Version to last valid block.
unfoldable pub parse_header : Stage (Unit {0})
parse_header = do
  version ←
      read_to buffer_read_u8 (λ v tx. record tx { version = v }) ParserStatus.version_parsing_error
  stop_if (ltb 0 version) ParserStatus.version_value_error
  nonce ←
      read_to (λ b. buffer_read_u32 b le) (λ v tx. record tx { nonce = v })
        ParserStatus.nonce_parsing_error
  system_fee ←
      read_to (λ b. buffer_read_s64 b le) (λ v tx. record tx { system_fee = v })
        ParserStatus.system_fee_parsing_error
  stop_if (is_negative system_fee) ParserStatus.system_fee_value_error
  network_fee ←
      read_to (λ b. buffer_read_s64 b le) (λ v tx. record tx { network_fee = v })
        ParserStatus.network_fee_parsing_error
  stop_if (is_negative network_fee) ParserStatus.network_fee_value_error
  valid_until ←
      read_to (λ b. buffer_read_u32 b le) (λ v tx. record tx { valid_until_block = v })
        ParserStatus.valid_until_block_parsing_error
  pure tt

-- `buffer_read_varint` into an uninitialised variable.
abbrev pub read_varint : ParserStatus → Stage ℕ
read_varint e = read_value (λ b. buffer_read_varint b 0) e

abbrev pub modify_signer : ℕ → (Signer → Signer) → Stage (Unit {0})
modify_signer i f = modify (λ tx. record tx { signers = set tx.signers i (f (signer_at tx i)) })

-- `for (j = 0; j < n; j++) { items[j] = ptr + offset; seek }`, on the rounds that are left.
unfoldable pub parse_items : ℕ → ℕ → (ℕ → ℕ → Signer → Signer) → ℕ → ℕ → Stage (Unit {0})
parse_items zero j store i item_len p = go tt p
parse_items (suc rounds) j store i item_len p =
    let rest = parse_items rounds (j + 1) store i item_len in
    ((get >>= λ q. modify_signer i (store j q.buf.offset))
        >> (skip item_len ParserStatus.signer_allowed_contract_parsing_error >> rest))
      p

abbrev pub store_contract : ℕ → ℕ → Signer → Signer
store_contract j item s = record s { allowed_contracts = set s.allowed_contracts j item }

abbrev pub store_group : ℕ → ℕ → Signer → Signer
store_group j item s = record s { allowed_groups = set s.allowed_groups j item }

-- `if ((value & CUSTOM_CONTRACTS) == CUSTOM_CONTRACTS) { … }`
unfoldable pub parse_contracts : ℕ → ℕ → Stage (Unit {0})
unfolding parse_items
parse_contracts i value =
    if bit_and value custom_contracts == custom_contracts
    then (do
      n ← read_varint ParserStatus.signer_allowed_contracts_length_parsing_error
      stop_if (ltb max_signer_sub_items n) ParserStatus.signer_allowed_contracts_length_value_error
      modify_signer i (λ s. record s { allowed_contracts_size = u8 n })
      parse_items n 0 store_contract i uint160_len)
    else pure tt

unfoldable pub parse_groups : ℕ → ℕ → Stage (Unit {0})
unfolding parse_items
parse_groups i value =
    if bit_and value custom_groups == custom_groups
    then (do
      n ← read_varint ParserStatus.signer_allowed_groups_length_parsing_error
      stop_if (ltb max_signer_sub_items n) ParserStatus.signer_allowed_groups_length_value_error
      modify_signer i (λ s. record s { allowed_groups_size = u8 n })
      parse_items n 0 store_group i ecpoint_len)
    else pure tt

module _ (sdk : Sdk) where
  -- `for (s = 0; s < i; s++)`: whether one of the accounts from `s` on is signer `i`'s.
  unfoldable pub account_seen : ℕ → ℕ → ℕ → Parse → Bool
  account_seen zero s i p = false
  account_seen (suc rounds) s i p =
      sdk.os_secure_memcmp (drop (signer_at p.tx s).account p.buf.ptr)
          (drop (signer_at p.tx i).account p.buf.ptr) uint160_len
        == 0
      || account_seen rounds (s + 1) i p

  -- One round of the signers' loop.
  unfoldable pub parse_signer : ℕ → Stage (Unit {0})
  unfolding account_seen parse_contracts parse_groups
  parse_signer i = do
    start ← get
    modify_signer i (λ s. record s { account = start.buf.offset })
    skip uint160_len ParserStatus.signer_account_parsing_error
    here ← get
    stop_if (account_seen i 0 i here) ParserStatus.signer_account_duplicate_error
    value ← read_value buffer_read_u8 ParserStatus.signer_scope_parsing_error
    modify_signer i (λ s. record s { scope = value })
    stop_if (bit_and value global == global && not (value == global))
        ParserStatus.signer_scope_value_error_global_flag
    parse_contracts i value
    parse_groups i value

  unfoldable pub parse_signers_loop : ℕ → ℕ → Stage (Unit {0})
  unfolding parse_signer
  parse_signers_loop zero i p = go tt p
  parse_signers_loop (suc rounds) i p =
      let rest = parse_signers_loop rounds (i + 1) in (parse_signer i >> rest) p

  unfoldable pub parse_signers : Stage (Unit {0})
  unfolding parse_signers_loop
  parse_signers = do
    n ← read_varint ParserStatus.signer_length_parsing_error
    stop_if (ltb n min_tx_signers || ltb max_tx_signers n) ParserStatus.signer_length_value_error
    modify (λ tx. record tx { signers_size = u8 n })
    parse_signers_loop (u8 n) 0

-- `for (j = 0; j < attributes_size; j++)`: whether a slot from `j` on holds that type.
unfoldable pub attribute_seen : ℕ → ℕ → ℕ → Transaction → Bool
attribute_seen zero j type tx = false
attribute_seen (suc rounds) j type tx =
    get_or tx.attributes j 0 == type || attribute_seen rounds (j + 1) type tx

unfoldable pub parse_attributes_loop : ℕ → ℕ → Stage (Unit {0})
unfolding attribute_seen
parse_attributes_loop zero i p = go tt p
parse_attributes_loop (suc rounds) i p =
    let rest = parse_attributes_loop rounds (i + 1) in
    (read_value buffer_read_u8 ParserStatus.attributes_unsupported_type >>= λ type.
    stop_if (not (type == high_priority)) ParserStatus.attributes_unsupported_type
    >> (get >>= λ q.
        stop_if (attribute_seen q.tx.attributes_size 0 type q.tx)
          ParserStatus.attributes_duplicate_type
        >> (modify (λ tx. record tx { attributes = set tx.attributes i type }) >> rest)))
      p

unfoldable pub parse_attributes : Stage (Unit {0})
unfolding parse_attributes_loop
parse_attributes = do
  n ← read_varint ParserStatus.attributes_length_parsing_error
  stop_if (ltb max_attributes n || ltb 2 n) ParserStatus.attributes_length_value_error
  modify (λ tx. record tx { attributes_size = u8 n })
  parse_attributes_loop (u8 n) 0

-- `script_length > 0xFFFF || script_length == 0 || !buffer_seek_cur(buf, script_length)`.
unfoldable pub parse_script : Stage (Unit {0})
parse_script = do
  n ← read_varint ParserStatus.script_length_parsing_error
  start ← get
  modify (λ tx. record tx { script = start.buf.offset })
  stop_if (ltb 0xFFFF n || n == 0) ParserStatus.script_length_value_error
  skip n ParserStatus.script_length_value_error
  modify (λ tx. record tx { script_size = u16 n })

-- The buffer over the script.
abbrev pub script_buffer : Parse → Buffer
script_buffer p = record { ptr = drop p.tx.script p.buf.ptr; size = p.tx.script_size; offset = 0 }

abbrev pub parse_too_long : Stage (Unit {0})
parse_too_long p = stop_if (ltb max_transaction_len p.buf.size) ParserStatus.invalid_length_error p

module _ (sdk : Sdk) where
  unfoldable pub parse_stages : Stage (Unit {0})
  unfolding parse_header parse_signers parse_attributes parse_script
  parse_stages = do parse_too_long; parse_header; parse_signers sdk; parse_attributes; parse_script

  abbrev pub recognise : Transaction → Parse → Parse
  recognise tx p = record p { tx = tx }

  -- After the stages: the transfer is looked for, and nothing may follow the script.
  unfoldable pub finish : Outcome ParserStatus (Unit {0}) → ParserStatus × Parse
  finish (stop e p) = (e, p)
  finish (go _ p) = (
    if p.buf.offset == p.buf.size
        then ParserStatus.parsing_ok
        else ParserStatus.invalid_length_error,
    recognise (try_parse_transfer_script sdk (script_buffer p) p.tx) p,
  )

  -- The returned status, the buffer and the transaction.
  unfoldable pub transaction_deserialize : Buffer → Transaction → ParserStatus × Parse
  unfolding parse_stages finish
  transaction_deserialize buf tx = finish (parse_stages (record { buf = buf; tx = tx }))
