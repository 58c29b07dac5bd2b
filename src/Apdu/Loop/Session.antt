-- ===== src/Apdu/Loop/Session.antt =====
-- Whole runs of the application: rounds of the main loop, the user's answers while it waits, and restarts.
use ledger_app_neo.Prelude.{
  ℕ, ◌≡◌, ◌≢◌, refl, arith, true, false, List, length, Option, none, some, Bool, ◌==◌, if-both,
  is_negative, ℤ,
}
use mathlib.Core.Path.{subst}
use mathlib.Core.List.{Mem}
use ledger_app_neo.Ui.Steps.{Press, validate, about, main_menu, quit, presses, steps}
use ledger_app_neo.Word.{u16}
use ledger_app_neo.Sdk.{Sdk, Call, returns, throws}
use ledger_app_neo.Common.Buffer.{memmove}
use ledger_app_neo.Common.Buffer.Moves.{length-memmove}
use ledger_app_neo.Common.Bip44.{sw_wrong_data_length}
use ledger_app_neo.Device.Context
use ledger_app_neo.Device.Context.{
  Device, Callback, Flow, IoState, sw_wrong_p1p2, sw_ins_not_supported, sw_cla_not_supported,
}
use ledger_app_neo.Device.Io.{Waiting, take_command, exchange, received_command, io_recv_command}
use ledger_app_neo.Device.Sound.{Sound, in_flow, in_menu, with_apdu, io_send_sw-Sound}
use ledger_app_neo.Device.Handlers.{Run}
use ledger_app_neo.Device.Handlers.Sound.{ui_action_validate_pubkey-Sound}
use ledger_app_neo.Device.Handlers.Sound.Signature.{ui_action_validate_transaction-Sound}
use ledger_app_neo.Apdu.Parser.{Command, apdu_parser}
use ledger_app_neo.Apdu.Dispatcher.{Build, apdu_dispatcher}
use ledger_app_neo.Apdu.Dispatcher.Sound.{apdu_dispatcher-Sound}
use ledger_app_neo.Apdu.Loop.{
  Next, continues, catch, after_dispatch, handle, after_receiving, app_round, main_start, answer,
  press,
}

module _ (sdk : Sdk) (build : Build) (io_reset : ℕ) where
  -- What may happen while a command is waited for: the user presses buttons of the shown flow's steps, any
  -- number of times, what a button does throws, or the device is reset.
  pub data Answers : Device → Waiting → Type 0 where
    no_more : {d : Device} → Answers d (returns tt, d)
    pressed :
        {d d' : Device} {w : Waiting} (call : Press)
        → Mem call (presses (steps d.flow))
        → press sdk build io_reset call d ≡ some (returns tt, d')
        → Answers d' w
        → Answers d w
    thrown :
        {d d' : Device} {e : ℕ} (call : Press)
        → Mem call (presses (steps d.flow))
        → press sdk build io_reset call d ≡ some (throws e, d')
        → Answers d (throws e, d')
    reset : {d : Device} → Answers d (throws io_reset, d)

  -- The devices that a run can reach, with an APDU buffer of `size` bytes: any one starts, the main loop
  -- goes round, and it starts again when it was left or reset.
  pub data Reached (size : ℕ) : Device → Type 0 where
    boots :
        (d : Device) → length d.apdu_buffer ≡ size → Reached size (main_start sdk build io_reset d)
    rounds :
        {d d' : Device} (during : Device → Waiting) (command : List ℕ)
        → Reached size d
        → ((x : Device) → Answers x (during x))
        → app_round sdk build io_reset during command d ≡ (continues, d')
        → Reached size d'
    restarts :
        {d d' : Device} {next : Next} (during : Device → Waiting) (command : List ℕ)
        → Reached size d
        → ((x : Device) → Answers x (during x))
        → app_round sdk build io_reset during command d ≡ (next, d')
        → next ≢ continues
        → Reached size (main_start sdk build io_reset d')

  module _ (size : ℕ) where
    main_start-Sound :
        (d : Device) → length d.apdu_buffer ≡ size → Sound size (main_start sdk build io_reset d)
    unfolding main_start
    main_start-Sound d h = record {
      raw_tx_size = refl;
      filled = omega arith;
      hash_size = refl;
      signature_size = refl;
      apdu_size = h;
      matched = tt;
    }

    answer-Sound :
        (c : Callback) (approved : Bool) (d : Device)
        → Sound size d
        → Sound size (answer sdk build io_reset c approved d).1
    unfolding answer
    answer-Sound Callback.no_callback approved d h = h
    answer-Sound Callback.validate_pubkey approved d h =
        ui_action_validate_pubkey-Sound sdk size approved d h
    answer-Sound Callback.validate_transaction approved d h =
        ui_action_validate_transaction-Sound sdk size approved d h

    abbrev SoundIfReturns : Option Waiting → Type 0
    SoundIfReturns none = Unit
    SoundIfReturns (some w) = Sound size w.1

    press-Sound :
        (call : Press) (d : Device)
        → Sound size d
        → SoundIfReturns (press sdk build io_reset call d)
    unfolding press
    press-Sound (validate approved) d h = answer-Sound d.callback approved d h
    press-Sound about d h = in_flow Flow.about_flow tt h
    press-Sound main_menu d h = in_menu h
    press-Sound quit d h = tt

    Answers-Sound : {d : Device} {w : Waiting} → Answers d w → Sound size d → Sound size w.1
    Answers-Sound no_more h = h
    Answers-Sound {d} (pressed call offered e rest) h =
        Answers-Sound rest (subst SoundIfReturns e (press-Sound call d h))
    Answers-Sound {d} (thrown call offered e) h = subst SoundIfReturns e (press-Sound call d h)
    Answers-Sound reset h = h

    abbrev SoundNext : Next × Device → Type 0
    SoundNext r = Sound size r.1

    catch-Sound : (e : ℕ) (d : Device) → Sound size d → SoundNext (catch sdk build io_reset e d)
    unfolding catch
    catch-Sound e d h = if-both SoundNext (e == io_reset) h (io_send_sw-Sound sdk size (u16 e) d h)

    after_dispatch-Sound :
        (r : Run) → Sound size r.1 → SoundNext (after_dispatch sdk build io_reset r)
    unfolding after_dispatch
    after_dispatch-Sound (throws e, d) h = catch-Sound e d h
    after_dispatch-Sound (returns r, d) h = if-both SoundNext (is_negative r) h h

    handle-Sound :
        (cmd : Option Command) (d : Device)
        → Sound size d
        → SoundNext (handle sdk build io_reset cmd d)
    unfolding handle
    handle-Sound none d h = io_send_sw-Sound sdk size sw_wrong_data_length d h
    handle-Sound (some cmd) d h =
        after_dispatch-Sound (apdu_dispatcher sdk build cmd d)
          (apdu_dispatcher-Sound sdk build size cmd d h)

    after_receiving-Sound :
        (command : List ℕ) (r : Call ℤ × Device)
        → Sound size r.1
        → SoundNext (after_receiving sdk build io_reset command r)
    unfolding after_receiving
    after_receiving-Sound command (throws e, d) h = catch-Sound e d h
    after_receiving-Sound command (returns n, d) h =
        if-both SoundNext (is_negative n) h
          (handle-Sound (apdu_parser d.apdu_buffer (length command)) d h)

    take_command-Sound :
        (command : List ℕ) (w : Waiting) → Sound size w.1 → Sound size (take_command command w).1
    take_command-Sound command (throws e, d) h = h
    take_command-Sound command (returns _, d) h =
        with_apdu d (memmove d.apdu_buffer 0 command) (length-memmove d.apdu_buffer 0 command) h

    received_command-Sound :
        (n : ℕ) (after : Device → Device) (w : Waiting)
        → ((d : Device) → Sound size d → Sound size (after d))
        → Sound size w.1
        → Sound size (received_command n after w).1
    received_command-Sound n after (throws e, d) k h = h
    received_command-Sound n after (returns _, d) k h = k d h

    module _ (during : Device → Waiting) (allowed : (x : Device) → Answers x (during x))
        (command : List ℕ) where
      exchange-Sound :
          (asynch : Bool) (d : Device)
          → Sound size d
          → Sound size (exchange asynch during command d).1
      exchange-Sound asynch d h =
          take_command-Sound command (during _) (Answers-Sound (allowed _) h)

      io_recv_command-Sound :
          (s : IoState) (d : Device)
          → Sound size d
          → Sound size (io_recv_command s during command d).1
      unfolding io_recv_command
      io_recv_command-Sound Context.ready d h =
          received_command-Sound (length command) (λ d'. d') _ (λ d' k. k)
            (exchange-Sound false (record d { io_state = Context.received }) h)
      io_recv_command-Sound Context.received d h =
          received_command-Sound (length command) (λ d'. record d' { io_state = Context.received })
            _ (λ d' k. k) (exchange-Sound true (record d { io_state = Context.waiting }) h)
      io_recv_command-Sound Context.waiting d h = h

      app_round-Sound :
          (d : Device) → Sound size d → SoundNext (app_round sdk build io_reset during command d)
      unfolding app_round
      app_round-Sound d h =
          after_receiving-Sound command (io_recv_command d.io_state during command d)
            (io_recv_command-Sound d.io_state d h)

    -- Whatever commands the host sends and whatever buttons of the shown flow the user presses, in any
    -- order and with exceptions and
    -- restarts: the sizes of the raw transaction's memory, the hash, the signature and the APDU buffer
    -- never change, the raw transaction fits into its memory, and the callback that an answer calls is
    -- that of the flow that is shown, so that approving an address never signs.
    pub Reached-Sound : {d : Device} → Reached size d → Sound size d
    Reached-Sound (boots d h) = main_start-Sound d h
    Reached-Sound (rounds {d} during command r allowed e) =
        subst SoundNext e (app_round-Sound during allowed command d (Reached-Sound r))
    Reached-Sound (restarts {d} {d'} during command r allowed e next) =
        let h = subst SoundNext e (app_round-Sound during allowed command d (Reached-Sound r)) in
        main_start-Sound d' h.apdu_size
