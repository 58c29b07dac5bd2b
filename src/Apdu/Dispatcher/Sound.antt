-- ===== src/Apdu/Dispatcher/Sound.antt =====
-- Every command that the dispatcher takes leaves the memory sound.
use ledger_app_neo.Prelude.{
  ℕ, List, Option, none, some, not, ◌&&◌, ◌||◌, ◌==◌, ltb, if-both, bit_and,
}
use ledger_app_neo.Sdk.{Sdk}
use ledger_app_neo.Common.Buffer.{Buffer}
use ledger_app_neo.Common.Bip44.{sw_wrong_data_length}
use ledger_app_neo.Device.Context.{
  Device, sw_wrong_p1p2, sw_ins_not_supported, sw_cla_not_supported,
}
use ledger_app_neo.Device.Io.{over}
use ledger_app_neo.Device.Sound.{Sound, io_send_sw-Sound}
use ledger_app_neo.Device.Handlers.{
  Run, returning, handler_get_version, handler_get_app_name, handler_get_public_key,
  handler_sign_tx,
}
use ledger_app_neo.Device.Handlers.Sound.{
  handler_get_version-Sound, handler_get_app_name-Sound, handler_get_public_key-Sound,
  handler_sign_tx-Sound,
}
use ledger_app_neo.Apdu.Parser.{Command}
use ledger_app_neo.Apdu.Dispatcher.{
  refuse, with_data, cla, get_app_name, get_version, sign_tx, get_public_key, p2_last, p2_more,
  p1_start, p1_max, Build, apdu_dispatcher,
}

module _ (sdk : Sdk) (build : Build) (size : ℕ) where
  abbrev pub SoundReply : Run → Type 0
  SoundReply r = Sound size r.1

  -- A named form, which keeps the many branches from being compared field by field.
  record Answered (r : Run) : Type 0 where
    sound : SoundReply r

  module _ (d : Device) (h : Sound size d) where
    refuse-Answered : (sw : ℕ) → Answered (refuse sdk build sw d)
    refuse-Answered sw = record { sound = io_send_sw-Sound sdk size sw d h }

    with_data-Answered :
        (cdata : Option (List ℕ)) (lc : ℕ) (handler : Buffer → Device → Run)
        → ((b : Buffer) → SoundReply (handler b d))
        → Answered (with_data sdk build cdata lc handler d)
    with_data-Answered none lc handler k = refuse-Answered sw_wrong_data_length
    with_data-Answered (some bytes) lc handler k = record { sound = k (over bytes lc) }

    version-Answered :
        Answered (returning (handler_get_version sdk build.major build.minor build.patch d))
    version-Answered = record {
      sound = handler_get_version-Sound sdk size build.major build.minor build.patch d h;
    }

    app_name-Answered : Answered (returning (handler_get_app_name sdk build.appname d))
    app_name-Answered = record { sound = handler_get_app_name-Sound sdk size build.appname d h }

    apdu_dispatcher-Answered : (cmd : Command) → Answered (apdu_dispatcher sdk build cmd d)
    unfolding apdu_dispatcher
    apdu_dispatcher-Answered cmd =
        if-both Answered (not (cmd.cla == cla)) (refuse-Answered sw_cla_not_supported) (
          if-both Answered (cmd.ins == get_version)
            (if-both Answered (not (cmd.p1 == 0) || not (cmd.p2 == 0))
              (refuse-Answered sw_wrong_p1p2) version-Answered)
            (if-both Answered (cmd.ins == get_app_name)
              (if-both Answered (not (cmd.p1 == 0) || not (cmd.p2 == 0))
                (refuse-Answered sw_wrong_p1p2) app_name-Answered)
              (if-both Answered (cmd.ins == get_public_key)
                (if-both Answered (ltb 0 cmd.p1 || ltb 1 cmd.p2) (refuse-Answered sw_wrong_p1p2) (
                  with_data-Answered cmd.cdata cmd.lc
                    (λ b. handler_get_public_key sdk b (not (cmd.p2 == 0)))
                    (λ b. handler_get_public_key-Sound sdk size b (not (cmd.p2 == 0)) d h)))
                (if-both Answered (cmd.ins == sign_tx)
                  (if-both Answered
                    (cmd.p1 == p1_start && not (cmd.p2 == p2_more)
                      || ltb p1_max cmd.p1
                      || not (cmd.p2 == p2_last) && not (cmd.p2 == p2_more))
                    (refuse-Answered sw_wrong_p1p2)
                    (with_data-Answered cmd.cdata cmd.lc
                      (λ b e.
                        returning
                          (handler_sign_tx sdk b cmd.p1 (not (bit_and cmd.p2 p2_more == 0)) e))
                      (λ b.
                        handler_sign_tx-Sound sdk size b cmd.p1 (not (bit_and cmd.p2 p2_more == 0))
                          d h)))
                  (refuse-Answered sw_ins_not_supported)))))

  pub apdu_dispatcher-Sound :
      (cmd : Command) (d : Device) → Sound size d → SoundReply (apdu_dispatcher sdk build cmd d)
  apdu_dispatcher-Sound cmd d h = (apdu_dispatcher-Answered d h cmd).sound
