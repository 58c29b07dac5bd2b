-- ===== src/Apdu/Dispatcher/Refusals.antt =====
-- Which commands apdu/dispatcher.c gives to which handler, and why it refuses all others.
use ledger_app_neo.Prelude.{
  ℕ, ◌≤◌, ◌<◌, ◌+◌, ◌≡◌, ◌≢◌, ◌⊎◌, inl, inr, refl, arith, true, false, not, ◌&&◌, ◌||◌, Option,
  none, some, List, Bool, ltb, ◌==◌, ==_iff, if-cases, Bool-cases, bit_and,
}
use mathlib.Core.Path.{subst⁻¹}
use ledger_app_neo.Sdk.{Sdk}
use ledger_app_neo.Common.Buffer.{Buffer}
use ledger_app_neo.Common.Bip44.{sw_wrong_data_length}
use ledger_app_neo.Device.Context.{
  Device, sw_wrong_p1p2, sw_ins_not_supported, sw_cla_not_supported,
}
use ledger_app_neo.Device.Io.{io_send_sw, over}
use ledger_app_neo.Device.Handlers.{
  Run, returning, handler_get_version, handler_get_app_name, handler_get_public_key,
  handler_sign_tx,
}
use ledger_app_neo.Apdu.Parser.{Command}
use ledger_app_neo.Apdu.Dispatcher.{
  Build, with_data, cla, get_app_name, get_version, sign_tx, get_public_key, p2_last, p2_more,
  p1_start, p1_max, apdu_dispatcher,
}

-- The parameters of a part of a signature: the path first and with more to come, then the others.
abbrev pub SignParameters : ℕ → ℕ → Type 0
SignParameters p1 p2 = ((p1 ≡ 0) × (p2 ≡ 0x80)) ⊎ ((1 ≤ p1) × (p1 ≤ 6) × ((p2 ≡ 0) ⊎ (p2 ≡ 0x80)))

-- The parameters that do not fit the instruction.
pub data WrongParameters : ℕ → ℕ → ℕ → Type 0 where
  for_texts : (ins p1 p2 : ℕ) → ins ≤ 1 → 0 < p1 + p2 → WrongParameters ins p1 p2
  for_key : (p1 p2 : ℕ) → (0 < p1) ⊎ (1 < p2) → WrongParameters 4 p1 p2
  for_signature : (p1 p2 : ℕ) → ¬ SignParameters p1 p2 → WrongParameters 2 p1 p2

-- Why a command is refused, with the status word.
pub data Refusal (cmd : Command) : ℕ → Type 0 where
  wrong_class : cmd.cla ≢ 0x80 → Refusal cmd sw_cla_not_supported
  wrong_instruction :
      cmd.cla ≡ 0x80
      → cmd.ins ≢ 0
      → cmd.ins ≢ 1
      → cmd.ins ≢ 2
      → cmd.ins ≢ 4
      → Refusal cmd sw_ins_not_supported
  wrong_parameters :
      cmd.cla ≡ 0x80 → WrongParameters cmd.ins cmd.p1 cmd.p2 → Refusal cmd sw_wrong_p1p2
  wrong_data :
      cmd.cla ≡ 0x80
      → (cmd.ins ≡ 2) ⊎ (cmd.ins ≡ 4)
      → cmd.cdata ≡ none
      → Refusal cmd sw_wrong_data_length

module _ (sdk : Sdk) (build : Build) (d : Device) where
  -- A command that is handled, with what its handler does.
  pub data Handled (cmd : Command) : Run → Type 0 where
    is_version :
        cmd.cla ≡ 0x80
        → cmd.ins ≡ 1
        → cmd.p1 ≡ 0
        → cmd.p2 ≡ 0
        → Handled cmd (returning (handler_get_version sdk build.major build.minor build.patch d))
    is_app_name :
        cmd.cla ≡ 0x80
        → cmd.ins ≡ 0
        → cmd.p1 ≡ 0
        → cmd.p2 ≡ 0
        → Handled cmd (returning (handler_get_app_name sdk build.appname d))
    is_key :
        (bytes : List ℕ)
        → cmd.cla ≡ 0x80
        → cmd.ins ≡ 4
        → cmd.p1 ≡ 0
        → cmd.p2 ≡ 0
        → cmd.cdata ≡ some bytes
        → Handled cmd (handler_get_public_key sdk (over bytes cmd.lc) false d)
    is_shown_key :
        (bytes : List ℕ)
        → cmd.cla ≡ 0x80
        → cmd.ins ≡ 4
        → cmd.p1 ≡ 0
        → cmd.p2 ≡ 1
        → cmd.cdata ≡ some bytes
        → Handled cmd (handler_get_public_key sdk (over bytes cmd.lc) true d)
    is_part :
        (bytes : List ℕ)
        → cmd.cla ≡ 0x80
        → cmd.ins ≡ 2
        → cmd.p1 ≤ 6
        → cmd.p2 ≡ 0x80
        → cmd.cdata ≡ some bytes
        → Handled cmd (returning (handler_sign_tx sdk (over bytes cmd.lc) cmd.p1 true d))
    is_last_part :
        (bytes : List ℕ)
        → cmd.cla ≡ 0x80
        → cmd.ins ≡ 2
        → 1 ≤ cmd.p1
        → cmd.p1 ≤ 6
        → cmd.p2 ≡ 0
        → cmd.cdata ≡ some bytes
        → Handled cmd (returning (handler_sign_tx sdk (over bytes cmd.lc) cmd.p1 false d))

  -- A command is handled, or it is refused with the status word for what is wrong with it.
  pub data Sorted (cmd : Command) : Run → Type 0 where
    handled : {r : Run} → Handled cmd r → Sorted cmd r
    refused : (sw : ℕ) → Refusal cmd sw → Sorted cmd (returning (io_send_sw sdk sw d))

  by_data :
      (cmd : Command) (handler : Buffer → Device → Run)
      → cmd.cla ≡ 0x80
      → (cmd.ins ≡ 2) ⊎ (cmd.ins ≡ 4)
      → ((bytes : List ℕ) → cmd.cdata ≡ some bytes → Sorted cmd (handler (over bytes cmd.lc) d))
      → Sorted cmd (with_data sdk build cmd.cdata cmd.lc handler d)
  by_data cmd handler c i is = go cmd.cdata refl
    where
      go :
          (data' : Option (List ℕ))
          → cmd.cdata ≡ data'
          → Sorted cmd (with_data sdk build data' cmd.lc handler d)
      go none e = refused sw_wrong_data_length (wrong_data c i e)
      go (some bytes) e = is bytes e

  equal : (a b : ℕ) → (a == b) ≡ true → a ≡ b
  equal a b h = (==_iff a b).0 h

  other : (a b : ℕ) → (a == b) ≡ false → a ≢ b
  other a b h = ground arith

  wrong :
      (cmd : Command)
      → cmd.cla ≡ 0x80
      → WrongParameters cmd.ins cmd.p1 cmd.p2
      → Sorted cmd (returning (io_send_sw sdk sw_wrong_p1p2 d))
  wrong cmd c w = refused sw_wrong_p1p2 (wrong_parameters c w)

  -- The guards of the parameters.
  texts_wrong : (a b : ℕ) → (not (a == 0) || not (b == 0)) ≡ true → 0 < a + b
  texts_wrong a b h = ground arith

  texts_right : (a b : ℕ) → (not (a == 0) || not (b == 0)) ≡ false → (a ≡ 0) × (b ≡ 0)
  texts_right a b h = (ground arith, ground arith)

  key_wrong : (a b : ℕ) → (ltb 0 a || ltb 1 b) ≡ true → (0 < a) ⊎ (1 < b)
  key_wrong a b h = elim (Bool-cases (ltb 0 a)) [
    | inl chunk ↦ inl (ground arith)
    | inr none' ↦ inr (ground arith)
  ]

  key_right : (a b : ℕ) → (ltb 0 a || ltb 1 b) ≡ false → (a ≡ 0) × (b ≤ 1)
  key_right a b h = (ground arith, ground arith)

  abbrev bad_part : ℕ → ℕ → Bool
  bad_part a b = a == 0 && not (b == 0x80) || ltb 6 a || not (b == 0) && not (b == 0x80)

  part_wrong : (a b : ℕ) → bad_part a b ≡ true → ¬ SignParameters a b
  part_wrong a b h (inl (first, more)) = cc (rw (first, more) at h)
  part_wrong a b h (inr (low, high, inl last)) = ground arith
  part_wrong a b h (inr (low, high, inr more)) = ground arith

  part_high : (a b : ℕ) → bad_part a b ≡ false → a ≤ 6
  part_high a b h = ground arith

  part_last : (a b : ℕ) → bad_part a b ≡ false → (b == 0x80) ≡ false → (1 ≤ a) × (b ≡ 0)
  part_last a b h e = (ground arith, ground arith)

  of_instruction :
      (cmd : Command) (ins : ℕ)
      → cmd.ins ≡ ins
      → WrongParameters ins cmd.p1 cmd.p2
      → WrongParameters cmd.ins cmd.p1 cmd.p2
  of_instruction cmd ins e w = subst⁻¹ (λ (i : ℕ). WrongParameters i cmd.p1 cmd.p2) e w

  key_or_shown :
      (cmd : Command)
      → cmd.cla ≡ 0x80
      → cmd.ins ≡ 4
      → cmd.p1 ≡ 0
      → cmd.p2 ≤ 1
      → (bytes : List ℕ) → cmd.cdata ≡ some bytes
      → Sorted cmd (handler_get_public_key sdk (over bytes cmd.lc) (not (cmd.p2 == 0)) d)
  key_or_shown cmd c i first low bytes e = elim (Bool-cases (cmd.p2 == 0)) [
    | inl hidden ↦ rw hidden (handled (is_key bytes c i first (equal cmd.p2 0 hidden) e))
    | inr shown ↦ rw shown (handled (is_shown_key bytes c i first (ground arith) e))
  ]

  part_or_last :
      (cmd : Command)
      → cmd.cla ≡ 0x80
      → cmd.ins ≡ 2
      → bad_part cmd.p1 cmd.p2 ≡ false
      → (bytes : List ℕ) → cmd.cdata ≡ some bytes
      → Sorted cmd (
          returning
            (handler_sign_tx sdk (over bytes cmd.lc) cmd.p1 (not (bit_and cmd.p2 p2_more == 0)) d))
  part_or_last cmd c i h bytes e = elim (Bool-cases (cmd.p2 == 0x80)) [
    | inl more ↦
        let is : cmd.p2 ≡ 0x80 = equal cmd.p2 0x80 more in
        let flag : not (bit_and cmd.p2 p2_more == 0) ≡ true = rw is refl in
        rw flag (handled (is_part bytes c i (part_high cmd.p1 cmd.p2 h) is e))
    | inr last ↦
        let (low, is) = part_last cmd.p1 cmd.p2 h last in
        let flag : not (bit_and cmd.p2 p2_more == 0) ≡ false = rw is refl in
        rw flag (handled (is_last_part bytes c i low (part_high cmd.p1 cmd.p2 h) is e))
  ]

  -- Every command of the right class, instruction and parameters, with data where its instruction needs some,
  -- has the effect of its handler on this data with these parameters; every other one only sends a status
  -- word, which says whether the class, the instruction, the parameters or the missing data is wrong.
  pub apdu_dispatcher-Sorted : (cmd : Command) → Sorted cmd (apdu_dispatcher sdk build cmd d)
  unfolding apdu_dispatcher
  apdu_dispatcher-Sorted cmd =
      if-cases (Sorted cmd) (not (cmd.cla == cla))
        (λ h. refused sw_cla_not_supported (wrong_class (ground arith)))
        (λ h.
          let c : cmd.cla ≡ 0x80 = ground arith in
          if-cases (Sorted cmd) (cmd.ins == get_version)
            (λ i.
              let is = equal cmd.ins 1 i in
              if-cases (Sorted cmd) (not (cmd.p1 == 0) || not (cmd.p2 == 0))
                (λ h. wrong cmd c (
                  for_texts cmd.ins cmd.p1 cmd.p2 (omega (arith, is))
                    (texts_wrong cmd.p1 cmd.p2 h)))
                (λ h.
                  let (first, second) = texts_right cmd.p1 cmd.p2 h in
                  handled (is_version c is first second)))
            (λ not_version.
              if-cases (Sorted cmd) (cmd.ins == get_app_name)
                (λ i.
                  let is = equal cmd.ins 0 i in
                  if-cases (Sorted cmd) (not (cmd.p1 == 0) || not (cmd.p2 == 0))
                    (λ h. wrong cmd c (
                      for_texts cmd.ins cmd.p1 cmd.p2 (omega (arith, is))
                        (texts_wrong cmd.p1 cmd.p2 h)))
                    (λ h.
                      let (first, second) = texts_right cmd.p1 cmd.p2 h in
                      handled (is_app_name c is first second)))
                (λ not_name.
                  if-cases (Sorted cmd) (cmd.ins == get_public_key)
                    (λ i.
                      let is = equal cmd.ins 4 i in
                      if-cases (Sorted cmd) (ltb 0 cmd.p1 || ltb 1 cmd.p2)
                        (λ h. wrong cmd c (
                          of_instruction cmd 4 is
                            (for_key cmd.p1 cmd.p2 (key_wrong cmd.p1 cmd.p2 h))))
                        (λ h.
                          let (first, low) = key_right cmd.p1 cmd.p2 h in
                          by_data cmd _ c (inr is) (key_or_shown cmd c is first low)))
                    (λ not_key.
                      if-cases (Sorted cmd) (cmd.ins == sign_tx)
                        (λ i.
                          let is = equal cmd.ins 2 i in
                          if-cases (Sorted cmd)
                            (cmd.p1 == p1_start && not (cmd.p2 == p2_more)
                              || ltb p1_max cmd.p1
                              || not (cmd.p2 == p2_last) && not (cmd.p2 == p2_more))
                            (λ h. wrong cmd c (
                              of_instruction cmd 2 is
                                (for_signature cmd.p1 cmd.p2 (part_wrong cmd.p1 cmd.p2 h))))
                            (λ h. by_data cmd _ c (inl is) (part_or_last cmd c is h)))
                        (λ not_sign. refused sw_ins_not_supported (
                          wrong_instruction c (other cmd.ins 0 not_name)
                            (other cmd.ins 1 not_version) (other cmd.ins 2 not_sign)
                            (other cmd.ins 4 not_key)))))))
