-- ===== src/Apdu/Loop.antt =====
-- main.c: the main loop, one round at a time, and the answers of the user that may come during its
-- wait for a command.
pub mod Session
use ledger_app_neo.Prelude.{
  ℕ, Bool, true, false, not, Option, none, some, List, ℤ, ◌==◌, if◌then◌else◌, is_negative, length,
}
use ledger_app_neo.Word.{u16}
use ledger_app_neo.Sdk.{Sdk, Call, returns, throws}
use ledger_app_neo.Common.Bip44.{sw_wrong_data_length}
use ledger_app_neo.Device.Context
use ledger_app_neo.Device.Context.{Device, Callback, Flow, zero_context}
use ledger_app_neo.Device.Io.{Waiting, io_send_sw, io_recv_command}
use ledger_app_neo.Device.Handlers.{Run, ui_action_validate_pubkey, ui_action_validate_transaction}
use ledger_app_neo.Ui.Steps.{Press, validate, about, main_menu, quit}
use ledger_app_neo.Ui.Menu.{ui_menu_main, ui_menu_about}
use ledger_app_neo.Apdu.Parser.{Command, apdu_parser}
use ledger_app_neo.Apdu.Dispatcher.{Build, apdu_dispatcher}

-- `continue`, `return`, or `EXCEPTION_IO_RESET` thrown on.
pub data Next : Type 0 where
  continues leaves resets : Next

module _ (sdk : Sdk) (build : Build) (io_reset : ℕ) where
  -- The handlers of exceptions: a reset is thrown on, any other number is sent as a status word.
  unfoldable pub catch : ℕ → Device → Next × Device
  catch e d = if e == io_reset then (resets, d) else (continues, (io_send_sw sdk (u16 e) d).1)

  unfoldable pub after_dispatch : Run → Next × Device
  unfolding catch
  after_dispatch (throws e, d) = catch e d
  after_dispatch (returns r, d) = if is_negative r then (leaves, d) else (continues, d)

  unfoldable pub handle : Option Command → Device → Next × Device
  unfolding after_dispatch
  handle none d = (continues, (io_send_sw sdk sw_wrong_data_length d).1)
  handle (some cmd) d = after_dispatch (apdu_dispatcher sdk build cmd d)

  -- What the loop does with the received length.
  unfoldable pub after_receiving : List ℕ → Call ℤ × Device → Next × Device
  unfolding handle
  after_receiving command (throws e, d) = catch e d
  after_receiving command (returns input_len, d) =
      if is_negative input_len
      then (leaves, d)
      else handle (apdu_parser d.apdu_buffer (length command)) d

  -- One round: `command` is what the host sends next, `during` what happens while it is waited for.
  unfoldable pub app_round : (Device → Waiting) → List ℕ → Device → Next × Device
  unfolding after_receiving
  app_round during command d = after_receiving command (io_recv_command d.io_state during command d)

  -- The reset before the loop.
  unfoldable pub app_start : Device → Device
  app_start d = record d { output_len = 0; io_state = Context.ready; context = zero_context }

  -- The call of `g_validate_callback`, which was set when the flow was shown.
  unfoldable pub answer : Callback → Bool → Device → Call (Unit {0}) × Device
  answer Callback.no_callback approved d = (returns tt, d)
  answer Callback.validate_pubkey approved d =
      (returns tt, ui_action_validate_pubkey sdk approved d)
  answer Callback.validate_transaction approved d = ui_action_validate_transaction sdk approved d

  -- `ui_menu_main` and `app_main` again, after a reset or when the main loop was left.
  unfoldable pub main_start : Device → Device
  unfolding app_start
  main_start d = app_start (ui_menu_main d)

  -- What the button of a step does; to quit never returns.
  unfoldable pub press : Press → Device → Option (Call (Unit {0}) × Device)
  unfolding answer
  press (validate approved) d = some (answer d.callback approved d)
  press about d = some (returns tt, ui_menu_about d)
  press main_menu d = some (returns tt, ui_menu_main d)
  press quit d = none
