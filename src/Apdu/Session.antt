-- ===== src/Apdu/Session.antt =====
-- A whole signature through apdu/dispatcher.c: the commands of the path, the network magic and the chunks.
use ledger_app_neo.Prelude.{ℕ, suc, Bool, true, false, List, [], ◌∷◌, length, some, if◌then◌else◌}
use ledger_app_neo.Sdk.{Sdk}
use ledger_app_neo.Device.Context.{Device}
use ledger_app_neo.Apdu.Parser.{Command}
use ledger_app_neo.Apdu.Dispatcher.{Build, p2_last, p2_more, sign_tx, cla, apdu_dispatcher}

-- The command of SIGN_TX with a number and some data.
abbrev pub sign_command : ℕ → Bool → List ℕ → Command
sign_command number more bytes = record {
  cla = cla;
  ins = sign_tx;
  p1 = number;
  p2 = if more then p2_more else p2_last;
  lc = length bytes;
  cdata = some bytes;
}

module _ (sdk : Sdk) (build : Build) where
  -- The device after a command.
  abbrev pub send : Command → Device → Device
  send cmd d = (apdu_dispatcher sdk build cmd d).1

  abbrev pub send_all : ℕ → List (List ℕ) → Device → Device
  send_all n [] d = d
  send_all n (xs ∷ xss) d = send_all (suc n) xss (send (sign_command n true xs) d)

  -- The path is command 0, the network magic 1, and the chunks follow from 2 on.
  abbrev pub send_session : List ℕ → List ℕ → List (List ℕ) → List ℕ → Device → Device
  send_session path magic chunks last d =
      let d1 = send (sign_command 1 true magic) (send (sign_command 0 true path) d) in
      send (sign_command (suc (suc (length chunks))) false last) (send_all 2 chunks d1)
