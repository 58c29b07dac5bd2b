-- ===== src/Tests/Transfers.antt =====
-- The recognition of a transfer, at a transfer of five NEO.
use ledger_app_neo.Prelude.{◌≢◌, ◌≡◌, refl, true, length, take, arith}
use ledger_app_neo.Common.Buffer.{Buffer}
use ledger_app_neo.Common.Buffer.View.{IsValid}
use ledger_app_neo.Transaction.Types.{Transaction, ParserStatus, empty_transaction}
use ledger_app_neo.Transaction.Deserialize.{transaction_deserialize}
use ledger_app_neo.Transaction.Deserialize.Accepted.{
  Accepted, transaction_deserialize-Accepted, transaction_deserialize-groups,
}
use ledger_app_neo.Transaction.Transfer.{try_parse_transfer_script}
use ledger_app_neo.Transaction.Transfer.Recognition.{Transfers, recognised-IsTransfer}
use ledger_app_neo.Tests.Inputs.{
  accepted, raw_buffer, test_sdk, test_compares, transfer_script, all_bytes_lem,
}

abbrev pub script : Buffer
script = record { ptr = transfer_script; size = length transfer_script; offset = 0 }

abbrev pub script_tx : Transaction
script_tx = record empty_transaction { script_size = length transfer_script }

pub script-IsValid : IsValid script
script-IsValid = record {
  in_size = omega arith;
  in_memory = omega arith;
  addressable = omega arith;
  bytes = all_bytes_lem transfer_script refl;
}

flagged : (try_parse_transfer_script test_sdk script script_tx).is_system_asset_transfer ≡ true
unfolding try_parse_transfer_script ledger_app_neo.Common.Buffer.buffer_read_u8
    ledger_app_neo.Common.Buffer.buffer_seek_cur ledger_app_neo.Common.Buffer.buffer_read_u16
    ledger_app_neo.Common.Read.read_u16_be
flagged = refl

recognised-IsTransfer_example :
    Transfers test_sdk test_compares
      (take (length transfer_script) transfer_script)
      script_tx
      (try_parse_transfer_script test_sdk script script_tx)
recognised-IsTransfer_example =
    recognised-IsTransfer test_sdk test_compares script script_tx script-IsValid refl refl refl refl
      flagged

transaction_deserialize-Accepted_example :
    Accepted test_sdk raw_buffer (transaction_deserialize test_sdk raw_buffer empty_transaction).1
transaction_deserialize-Accepted_example =
    transaction_deserialize-Accepted test_sdk raw_buffer empty_transaction accepted

transaction_deserialize-groups_example :
    (transaction_deserialize test_sdk raw_buffer empty_transaction).0
    ≢ ParserStatus.signer_allowed_groups_parsing_error
transaction_deserialize-groups_example =
    transaction_deserialize-groups test_sdk raw_buffer empty_transaction
