-- ===== src/Apdu/Dispatcher.antt =====
-- apdu/dispatcher.c: the checks of a command's parameters, and the choice of its handler.
pub mod Sound
pub mod Refusals
use ledger_app_neo.Prelude.{
  ℕ, ◌&&◌, ◌||◌, not, Option, none, some, List, ltb, ◌==◌, if◌then◌else◌, bit_and,
}
use ledger_app_neo.Sdk.{Sdk}
use ledger_app_neo.Common.Buffer.{Buffer}
use ledger_app_neo.Common.Bip44.{sw_wrong_data_length}
use ledger_app_neo.Device.Context.{
  Device, sw_wrong_p1p2, sw_ins_not_supported, sw_cla_not_supported,
}
use ledger_app_neo.Device.Io.{io_send_sw, over}
use ledger_app_neo.Device.Handlers.{
  Run, returning, handler_get_version, handler_get_app_name, handler_get_public_key,
  handler_sign_tx,
}
use ledger_app_neo.Apdu.Parser.{Command}

abbrev pub cla : ℕ
cla = 0x80

-- `command_e`.
abbrev pub get_app_name : ℕ
get_app_name = 0x0

abbrev pub get_version : ℕ
get_version = 0x01

abbrev pub sign_tx : ℕ
sign_tx = 0x02

abbrev pub get_public_key : ℕ
get_public_key = 0x04

abbrev pub p2_last : ℕ
p2_last = 0x00

abbrev pub p2_more : ℕ
p2_more = 0x80

abbrev pub p1_start : ℕ
p1_start = 0x00

abbrev pub p1_max : ℕ
p1_max = 0x06

-- What the build fixes.
pub record Build : Type 0 where
  pub major : ℕ
  pub minor : ℕ
  pub patch : ℕ
  pub appname : List ℕ

module _ (sdk : Sdk) (build : Build) where
  abbrev pub refuse : ℕ → Device → Run
  refuse sw d = returning (io_send_sw sdk sw d)

  -- A handler of command data, which must not be empty.
  abbrev pub with_data : Option (List ℕ) → ℕ → (Buffer → Device → Run) → Device → Run
  with_data none lc handler d = refuse sw_wrong_data_length d
  with_data (some bytes) lc handler d = handler (over bytes lc) d

  unfoldable pub apdu_dispatcher : Command → Device → Run
  apdu_dispatcher cmd d =
      if not (cmd.cla == cla)
      then refuse sw_cla_not_supported d
      else if cmd.ins == get_version
      then (if not (cmd.p1 == 0) || not (cmd.p2 == 0)
          then refuse sw_wrong_p1p2 d
          else returning (handler_get_version sdk build.major build.minor build.patch d))
      else if cmd.ins == get_app_name
      then (if not (cmd.p1 == 0) || not (cmd.p2 == 0)
          then refuse sw_wrong_p1p2 d
          else returning (handler_get_app_name sdk build.appname d))
      else if cmd.ins == get_public_key
      then (if ltb 0 cmd.p1 || ltb 1 cmd.p2
          then refuse sw_wrong_p1p2 d
          else with_data cmd.cdata cmd.lc (λ b. handler_get_public_key sdk b (not (cmd.p2 == 0))) d)
      else if cmd.ins == sign_tx
      then (if cmd.p1 == p1_start && not (cmd.p2 == p2_more)
            || ltb p1_max cmd.p1
            || not (cmd.p2 == p2_last) && not (cmd.p2 == p2_more)
          then refuse sw_wrong_p1p2 d
          else with_data cmd.cdata cmd.lc
              (λ b e.
                returning (handler_sign_tx sdk b cmd.p1 (not (bit_and cmd.p2 p2_more == 0)) e))
              d)
      else refuse sw_ins_not_supported d
