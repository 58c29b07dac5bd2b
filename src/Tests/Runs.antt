-- ===== src/Tests/Runs.antt =====
-- Runs of the whole application, and the answers in them.
use ledger_app_neo.Prelude.{some, ℕ, ◌≡◌, refl, List, [], ◌∷◌, replicate, arith, true}
use ledger_app_neo.Sdk.{returns}
use ledger_app_neo.Device.Context.{Device}
use ledger_app_neo.Device.Io.{Waiting}
use ledger_app_neo.Device.Crypto.{signed_data}
use ledger_app_neo.Device.Sound.{Sound}
use ledger_app_neo.Device.Handlers.{ui_action_validate_transaction}
use ledger_app_neo.Device.Handlers.Approval.{
  CanReply, Makes, Approved, ui_action_validate_transaction-Approved,
}
use ledger_app_neo.Apdu.Parser.{Command}
use ledger_app_neo.Apdu.Dispatcher.{Build, apdu_dispatcher}
use ledger_app_neo.Apdu.Dispatcher.Refusals.{Sorted, apdu_dispatcher-Sorted}
use ledger_app_neo.Apdu.Loop.{Next, continues, app_round, main_start}
use ledger_app_neo.Apdu.Loop.Session.{no_more, boots, rounds, Reached-Sound}
use ledger_app_neo.Tests.Inputs.{test_sdk, all_bytes_lem}
use ledger_app_neo.Tests.Commands.{device, path_bytes}

abbrev build : Build
build = record { major = 1; minor = 0; patch = 0; appname = [] }

-- A path in the wrong place.
abbrev wrong_command : Command
wrong_command = record { cla = 0x80; ins = 2; p1 = 7; p2 = 0x80; lc = 20; cdata = some path_bytes }

apdu_dispatcher-Sorted_example :
    Sorted test_sdk build device wrong_command (apdu_dispatcher test_sdk build wrong_command device)
apdu_dispatcher-Sorted_example = apdu_dispatcher-Sorted test_sdk build device wrong_command

abbrev quiet : Device → Waiting
quiet d = (returns tt, d)

abbrev path_command : List ℕ
path_command = 0x80 ∷ 2 ∷ 0 ∷ 0x80 ∷ 20 ∷ path_bytes

abbrev after_path : Next × Device
after_path = app_round test_sdk build 16 quiet path_command (main_start test_sdk build 16 device)

continues_after_path : after_path.0 ≡ continues
unfolding app_round main_start ledger_app_neo.Apdu.Parser.apdu_parser
    ledger_app_neo.Device.Io.io_recv_command ledger_app_neo.Apdu.Dispatcher.apdu_dispatcher
    ledger_app_neo.Device.Handlers.handler_sign_tx
    ledger_app_neo.Common.Bip44.buffer_read_and_validate_bip44
    ledger_app_neo.Common.Buffer.buffer_read_u32 ledger_app_neo.Common.Buffer.buffer_seek_cur
    ledger_app_neo.Common.Buffer.memmove ledger_app_neo.Common.Read.read_u32_be
    ledger_app_neo.Device.Io.io_send_sw ledger_app_neo.Common.Write.write_u16_be
continues_after_path = refl

Reached-Sound_example : Sound 260 after_path.1
Reached-Sound_example =
    Reached-Sound test_sdk build 16 260
      (rounds quiet path_command (boots device refl) (λ x. no_more) same)
  where
    same : after_path ≡ (continues, after_path.1)
    same = rw (← continues_after_path) refl

signed_lem : Makes test_sdk (replicate 5 0) (replicate 36 0) (replicate 70 5)
signed_lem = record {
  key = replicate 32 7;
  derives = refl;
  signs = refl;
  short = omega arith;
  all_bytes = all_bytes_lem (replicate 70 5) refl;
}

can_reply : CanReply test_sdk device
can_reply = record {
  waits = refl;
  room = omega arith;
  memory = omega arith;
  capacity = refl;
  all_bytes = all_bytes_lem (replicate 72 0) refl;
}

signed_zeros : signed_data test_sdk device.context ≡ replicate 36 0
unfolding signed_data ledger_app_neo.Common.Write.write_u32_le ledger_app_neo.Common.Buffer.memmove
signed_zeros = refl

ui_action_validate_transaction-Approved_example :
    Approved test_sdk
      (replicate 70 5)
      device
      (ui_action_validate_transaction test_sdk true device).1
ui_action_validate_transaction-Approved_example =
    ui_action_validate_transaction-Approved test_sdk device can_reply (replicate 36 0)
      (replicate 70 5) signed_zeros signed_lem
