-- ===== src/Tests/Layouts.antt =====
-- Transactions of the layout: a transfer of five NEO, and one with two signers.
use ledger_app_neo.Prelude.{
  ℕ, ◌≡◌, refl, ap, arith, true, ◌||◌, List, [], ◌∷◌, ◌++◌, get_or, length, replicate, pos,
}
use ledger_app_neo.Common.Buffer.{Buffer}
use ledger_app_neo.Common.Buffer.View.{IsValid}
use ledger_app_neo.Ui.Utils.{script_hash_to_address}
use ledger_app_neo.Transaction.Types.{empty_transaction, address_len, high_priority}
use ledger_app_neo.Transaction.Transfer.{try_parse_transfer_script}
use ledger_app_neo.Transaction.Transfer.Script.{IsTransfer, push}
use ledger_app_neo.Transaction.Transfer.Complete.{IsTransfer-recognised}
use ledger_app_neo.Transaction.Deserialize.{transaction_deserialize}
use ledger_app_neo.Transaction.Deserialize.Layout.{
  TransactionCode, SignerCode, one, double, priority,
}
use ledger_app_neo.Transaction.Deserialize.Complete.{Accepts, transaction_deserialize-Accepts}
use ledger_app_neo.Apdu.Dispatcher.{Build}
use ledger_app_neo.Tests.Inputs.{test_sdk, test_compares, transfer_script, all_bytes_lem}
use ledger_app_neo.Tests.Transfers.{script, script_tx, script-IsValid}

transfer : IsTransfer transfer_script (pos 5) (replicate 20 0xAA) true
transfer = record {
  pushed = 0x15 ∷ [];
  source = replicate 20 0xBB;
  pushes = push 5 (omega arith);
  destination_length = refl;
  source_length = refl;
  code_eq = refl;
}

IsTransfer-recognised_example :
    try_parse_transfer_script test_sdk script script_tx ≡ record script_tx {
      amount = pos 5;
      dst_address =
          script_hash_to_address test_sdk script_tx.dst_address address_len (replicate 20 0xAA);
      is_neo = true || script_tx.is_neo;
      is_system_asset_transfer = true;
    }
IsTransfer-recognised_example =
    IsTransfer-recognised test_sdk test_compares script script_tx (pos 5) (replicate 20 0xAA) true
      script-IsValid refl refl transfer

-- Called by entry only.
signer : SignerCode (replicate 20 0xCC) (replicate 20 0xCC ++ (1 ∷ []))
signer = record {
  scope = 1;
  contracts = [];
  groups = [];
  account_length = refl;
  alone = refl;
  contracts_ok = refl;
  groups_ok = refl;
  code_eq = refl;
}

abbrev test_build : Build
test_build = record { major = 1; minor = 0; patch = 0; appname = [] }

-- One contract and two groups.
abbrev rich_signer : List ℕ
rich_signer = replicate 20 0xDD ++ (0x31 ∷ ((1 ∷ replicate 20 0x11) ++ (2 ∷ replicate 66 0x22)))

second : SignerCode (replicate 20 0xDD) rich_signer
second = record {
  scope = 0x31;
  contracts = 1 ∷ replicate 20 0x11;
  groups = 2 ∷ replicate 66 0x22;
  account_length = refl;
  alone = refl;
  contracts_ok = record {
    count = 1;
    prefix = 1 ∷ [];
    items = replicate 20 0x11;
    counted = one 1 (omega arith);
    few = omega arith;
    items_length = refl;
    code_eq = refl;
  };
  groups_ok = record {
    count = 2;
    prefix = 2 ∷ [];
    items = replicate 66 0x22;
    counted = one 2 (omega arith);
    few = omega arith;
    items_length = refl;
    code_eq = refl;
  };
  code_eq = refl;
}

abbrev rich_transaction : List ℕ
rich_transaction =
    0
    ∷ (replicate 4 7
        ++ (replicate 8 1
            ++ (replicate 8 2
                ++ (replicate 4 9
                    ++ ((2 ∷ (replicate 20 0xCC ++ ((1 ∷ []) ++ rich_signer)))
                        ++ ((1 ∷ 1 ∷ []) ++ (3 ∷ 0x40 ∷ 0x41 ∷ 0x42 ∷ [])))))))

rich_code : TransactionCode rich_transaction (0x40 ∷ 0x41 ∷ 0x42 ∷ [])
rich_code = record {
  nonce = replicate 4 7;
  system_fee = replicate 8 1;
  network_fee = replicate 8 2;
  valid_until = replicate 4 9;
  signers = 2 ∷ (replicate 20 0xCC ++ ((1 ∷ []) ++ rich_signer));
  attributes = 1 ∷ high_priority ∷ [];
  prefix = 3 ∷ [];
  nonce_length = refl;
  system_fee_length = refl;
  system_fee_ok = omega arith;
  network_fee_length = refl;
  network_fee_ok = omega arith;
  valid_until_length = refl;
  signers_ok =
      double (2 ∷ []) (replicate 20 0xCC) (replicate 20 0xCC ++ (1 ∷ [])) (replicate 20 0xDD)
        rich_signer (one 2 (omega arith)) signer second
        (λ e. omega (arith, ap (λ (xs : List ℕ). get_or xs 0 0) e));
  attributes_ok = priority (1 ∷ []) (one 1 (omega arith));
  script_length = one 3 (omega arith);
  some_script = omega arith;
  bytes_eq = refl;
}

abbrev rich_buffer : Buffer
rich_buffer = record { ptr = rich_transaction; size = length rich_transaction; offset = 0 }

rich-IsValid : IsValid rich_buffer
rich-IsValid = record {
  in_size = omega arith;
  in_memory = omega arith;
  addressable = omega arith;
  bytes = all_bytes_lem rich_transaction refl;
}

transaction_deserialize-Accepts_example :
    Accepts test_sdk test_compares rich_buffer
      (0x40 ∷ 0x41 ∷ 0x42 ∷ [])
      (transaction_deserialize test_sdk rich_buffer empty_transaction).1
      (transaction_deserialize test_sdk rich_buffer empty_transaction).0
transaction_deserialize-Accepts_example =
    transaction_deserialize-Accepts test_sdk test_compares rich_buffer empty_transaction
      (0x40 ∷ 0x41 ∷ 0x42 ∷ []) (omega arith) rich-IsValid (refl, refl) rich_code
