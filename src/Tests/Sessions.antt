-- ===== src/Tests/Sessions.antt =====
-- Whole signatures, at a transfer of five NEO in two parts.
use ledger_app_neo.Prelude.{◌≡◌, refl, true, ℕ, List, [], ◌∷◌, take, drop}
use ledger_app_neo.Transaction.Types.{empty_transaction}
use ledger_app_neo.Transaction.Deserialize.{transaction_deserialize}
use ledger_app_neo.Transaction.Deserialize.Script.{
  ScriptTransfers, transaction_deserialize-ScriptTransfers,
}
use ledger_app_neo.Common.Buffer.View.{remaining}
use ledger_app_neo.Transaction.Deserialize.Runs.Stages.{fields}
use ledger_app_neo.Transaction.Deserialize.Header.{header_of, transaction_deserialize-header_of}
use ledger_app_neo.Ui.Display.Readable.{Readable}
use ledger_app_neo.Device.Context.{Device, State, RequestType, zero_context}
use ledger_app_neo.Device.Handlers.Presented.{Presented}
use ledger_app_neo.Tests.Inputs.{
  accepted, recognised, raw_buffer, raw_transaction, raw-IsValid, test_sdk, test_compares,
}
use ledger_app_neo.Tests.Commands.{device}

transaction_deserialize-ScriptTransfers_example :
    ScriptTransfers test_sdk test_compares raw_buffer empty_transaction
      (transaction_deserialize test_sdk raw_buffer empty_transaction).1.tx
transaction_deserialize-ScriptTransfers_example =
    transaction_deserialize-ScriptTransfers test_sdk test_compares raw_buffer empty_transaction
      raw-IsValid refl refl accepted recognised

transaction_deserialize-header_of_example :
    fields (transaction_deserialize test_sdk raw_buffer empty_transaction).1.tx
    ≡ header_of (remaining raw_buffer)
transaction_deserialize-header_of_example =
    transaction_deserialize-header_of test_sdk raw_buffer empty_transaction raw-IsValid accepted

-- A parsed transfer, before it is shown.
abbrev pub parsed_device : Device
parsed_device = record device {
  context = record zero_context {
    state = State.state_parsed;
    req_type = RequestType.confirm_transaction;
    network_magic = 860833102;
    transaction = record empty_transaction { is_system_asset_transfer = true; is_neo = true };
  };
}

abbrev pub magic : List ℕ
magic = 1 ∷ 2 ∷ 3 ∷ 4 ∷ []

abbrev pub first_chunk : List ℕ
first_chunk = take 60 raw_transaction

abbrev pub last_chunk : List ℕ
last_chunk = drop 60 raw_transaction
