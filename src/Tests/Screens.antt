-- ===== src/Tests/Screens.antt =====
-- The screens of a transaction with two signers, and the numbers on them.
use ledger_app_neo.Prelude.{◌≤◌, ◌≡◌, refl, arith, true, [], ◌∷◌, replicate, pos, negsuc, drop}
use ledger_app_neo.Common.Format.{format_u64, format_fpu64, strlen, c_string}
use ledger_app_neo.Common.Format.Bounds.{format_u64_bound, format_fpu64_fits}
use ledger_app_neo.Common.Format.Fixed.{Shows, format_fpu64-Shows}
use ledger_app_neo.Common.Format.Decimal.{Spells, format_u64-Spells}
use ledger_app_neo.Common.Varint.{varint_read, varint_write, varint_size}
use ledger_app_neo.Common.Varint.RoundTrip.{varint_read-varint_write}
use ledger_app_neo.Transaction.Types.{Transaction, empty_transaction, empty_signer}
use ledger_app_neo.Ui.Signers.{
  DisplayCtx, dynamic_screen, contracts, next_prop, next_prop_fuel, prev_prop, prev_prop_fuel,
}
use ledger_app_neo.Ui.Navigation.Texts.{Texts}
use ledger_app_neo.Ui.Signers.Depth.{prop_depth}
use ledger_app_neo.Ui.Signers.Walk.{at_contract, prev_prop-next_prop}
use ledger_app_neo.Ui.Display.{ui_display_transaction}
use ledger_app_neo.Ui.Display.Total.{ui_display_transaction-starts}
use ledger_app_neo.Device.Context.{Flow}
use ledger_app_neo.Tests.Inputs.{test_sdk}
use ledger_app_neo.Tests.Sessions.{parsed_device}

-- One allowed contract, then a signer with none.
abbrev two_signers : Transaction
two_signers = record empty_transaction {
  signers = record empty_signer { allowed_contracts_size = 1 } ∷ empty_signer ∷ [];
  signers_size = 2;
}

abbrev cursor : DisplayCtx
cursor = record {
  current_state = dynamic_screen;
  s_index = 0;
  p_index = contracts;
  c_index = pos 0;
  g_index = negsuc 0;
}

prop_depth_example :
    (next_prop_fuel two_signers 5 cursor ≡ next_prop two_signers cursor)
    × (prev_prop_fuel two_signers 5 cursor ≡ prev_prop two_signers cursor)
prop_depth_example = prop_depth two_signers 3 cursor

prev_prop-next_prop_example : prev_prop two_signers (next_prop two_signers cursor) ≡ cursor
prev_prop-next_prop_example =
    prev_prop-next_prop two_signers cursor
      (at_contract dynamic_screen 0 0 (omega arith) (omega arith))

abbrev no_texts : Texts
no_texts = record { title = []; text = []; scope_name = [] }

format_u64_bound_example :
    ((format_u64 (replicate 21 0) 21 18446744073709551615).0 ≡ true)
    × (strlen (format_u64 (replicate 21 0) 21 18446744073709551615).1 ≤ 20)
format_u64_bound_example = format_u64_bound 18446744073709551615 (omega arith)

format_u64-Spells_example : Spells 9070605040 (format_u64 (replicate 21 0) 21 9070605040).1
format_u64-Spells_example = format_u64-Spells 9070605040 (omega arith)

format_fpu64-Shows_example :
    Shows 1234567890 8 (c_string (format_fpu64 (replicate 30 0) 30 1234567890 8).1)
format_fpu64-Shows_example = format_fpu64-Shows 1234567890 8 (omega arith) (omega arith)

format_fpu64_fits_example : (format_fpu64 (replicate 30 0) 30 18446744073709551615 8).0 ≡ true
format_fpu64_fits_example = format_fpu64_fits 18446744073709551615 8 (omega arith) (omega arith)

three : varint_size 1000 ≡ 3
unfolding varint_size
three = refl

varint_read-varint_write_example :
    ((varint_write (replicate 6 7) 2 1000).0 ≡ pos (varint_size 1000))
    × (varint_read (drop 2 (varint_write (replicate 6 7) 2 1000).1) 4 0
        ≡ (pos (varint_size 1000), 1000))
varint_read-varint_write_example =
    varint_read-varint_write (replicate 6 7) 2 1000 4 0 (omega arith) (omega (arith, three))
      (omega (arith, three))

ui_display_transaction-starts_example :
    ((ui_display_transaction test_sdk parsed_device).0 ≡ pos 0)
    × ((ui_display_transaction test_sdk parsed_device).1.flow ≡ Flow.transaction_flow)
ui_display_transaction-starts_example =
    ui_display_transaction-starts test_sdk parsed_device refl refl (record {
      system_fee_range = omega arith;
      network_fee_range = omega arith;
      amount_range = omega arith;
    })
