-- ===== src/Transaction/Types.antt =====
-- transaction/types.h: the parsed transaction. A pointer into the raw transaction is its offset there.
use ledger_app_neo.Prelude.{ℕ, Bool, false, List, replicate, ℤ, pos, negsuc, get_or}

abbrev pub address_len : ℕ
address_len = 34

abbrev pub uint160_len : ℕ
uint160_len = 20

abbrev pub ecpoint_len : ℕ
ecpoint_len = 33

abbrev pub max_tx_signers : ℕ
max_tx_signers = 2

abbrev pub min_tx_signers : ℕ
min_tx_signers = 1

abbrev pub max_signer_sub_items : ℕ
max_signer_sub_items = 2

abbrev pub max_attributes : ℕ
max_attributes = 2

pub data ParserStatus : Type 0 where
  parsing_ok invalid_length_error version_parsing_error version_value_error : ParserStatus
  nonce_parsing_error system_fee_parsing_error system_fee_value_error : ParserStatus
  network_fee_parsing_error network_fee_value_error : ParserStatus
  valid_until_block_parsing_error signer_length_parsing_error : ParserStatus
  signer_length_value_error signer_account_parsing_error : ParserStatus
  signer_account_duplicate_error signer_scope_parsing_error : ParserStatus
  signer_scope_value_error_global_flag : ParserStatus
  signer_allowed_contracts_length_parsing_error : ParserStatus
  signer_allowed_contracts_length_value_error : ParserStatus
  signer_allowed_contract_parsing_error : ParserStatus
  signer_allowed_groups_length_parsing_error : ParserStatus
  signer_allowed_groups_length_value_error : ParserStatus
  signer_allowed_groups_parsing_error : ParserStatus
  attributes_length_parsing_error attributes_length_value_error : ParserStatus
  attributes_unsupported_type attributes_duplicate_type : ParserStatus
  script_length_parsing_error script_length_value_error : ParserStatus

-- The enumerators' values: `negsuc n` is -(n + 1).
unfoldable pub status_code : ParserStatus → ℤ
status_code parsing_ok = pos 1
status_code invalid_length_error = negsuc 0
status_code version_parsing_error = negsuc 1
status_code version_value_error = negsuc 2
status_code nonce_parsing_error = negsuc 3
status_code system_fee_parsing_error = negsuc 4
status_code system_fee_value_error = negsuc 5
status_code network_fee_parsing_error = negsuc 6
status_code network_fee_value_error = negsuc 7
status_code valid_until_block_parsing_error = negsuc 8
status_code signer_length_parsing_error = negsuc 9
status_code signer_length_value_error = negsuc 10
status_code signer_account_parsing_error = negsuc 11
status_code signer_account_duplicate_error = negsuc 12
status_code signer_scope_parsing_error = negsuc 13
status_code signer_scope_value_error_global_flag = negsuc 14
status_code signer_allowed_contracts_length_parsing_error = negsuc 15
status_code signer_allowed_contracts_length_value_error = negsuc 16
status_code signer_allowed_contract_parsing_error = negsuc 17
status_code signer_allowed_groups_length_parsing_error = negsuc 18
status_code signer_allowed_groups_length_value_error = negsuc 19
status_code signer_allowed_groups_parsing_error = negsuc 20
status_code attributes_length_parsing_error = negsuc 21
status_code attributes_length_value_error = negsuc 22
status_code attributes_unsupported_type = negsuc 23
status_code attributes_duplicate_type = negsuc 24
status_code script_length_parsing_error = negsuc 25
status_code script_length_value_error = negsuc 26

-- `witness_scope_e` and `tx_attribute_type_e`, as the bytes that they are compared with.
abbrev pub scope_none : ℕ
scope_none = 0

abbrev pub called_by_entry : ℕ
called_by_entry = 0x1

abbrev pub custom_contracts : ℕ
custom_contracts = 0x10

abbrev pub custom_groups : ℕ
custom_groups = 0x20

abbrev pub global : ℕ
global = 0x80

abbrev pub high_priority : ℕ
high_priority = 0x1

pub record Signer : Type 0 where
  pub account : ℕ
  pub scope : ℕ
  pub allowed_contracts : List ℕ
  pub allowed_contracts_size : ℕ
  pub allowed_groups : List ℕ
  pub allowed_groups_size : ℕ

-- An attribute is its type.
pub record Transaction : Type 0 where
  pub version : ℕ
  pub nonce : ℕ
  pub system_fee : ℤ
  pub network_fee : ℤ
  pub valid_until_block : ℕ
  pub signers : List Signer
  pub signers_size : ℕ
  pub attributes : List ℕ
  pub attributes_size : ℕ
  pub script : ℕ
  pub script_size : ℕ
  pub is_system_asset_transfer : Bool
  pub is_neo : Bool
  pub amount : ℤ
  pub dst_address : List ℕ

-- The zeroed structures.
abbrev pub empty_signer : Signer
empty_signer = record {
  account = 0;
  scope = 0;
  allowed_contracts = replicate max_signer_sub_items 0;
  allowed_contracts_size = 0;
  allowed_groups = replicate max_signer_sub_items 0;
  allowed_groups_size = 0;
}

abbrev pub empty_transaction : Transaction
empty_transaction = record {
  version = 0;
  nonce = 0;
  system_fee = pos 0;
  network_fee = pos 0;
  valid_until_block = 0;
  signers = replicate max_tx_signers empty_signer;
  signers_size = 0;
  attributes = replicate max_attributes 0;
  attributes_size = 0;
  script = 0;
  script_size = 0;
  is_system_asset_transfer = false;
  is_neo = false;
  amount = pos 0;
  dst_address = replicate address_len 0;
}

-- `tx->signers[i]`.
abbrev pub signer_at : Transaction → ℕ → Signer
signer_at tx i = get_or tx.signers i empty_signer
