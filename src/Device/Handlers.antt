-- ===== src/Device/Handlers.antt =====
-- handler/, helper/ and ui/action/: the commands, and what the user's answer does.
pub mod Chunks
pub mod Order
pub mod Collecting
pub mod Ranges
pub mod Presented
pub mod Offers
pub mod Session
pub mod Sound
pub mod Approval
use ledger_app_neo.Prelude.{
  ℕ, ◌+◌, ◌-◌, ◌&&◌, ◌||◌, Bool, true, false, not, List, [], ◌∷◌, take, length, replicate, ltb,
  ◌==◌, if◌then◌else◌, ℤ, pos, negsuc, is_negative,
}
use ledger_app_neo.Word.{u8}
use ledger_app_neo.Sdk.{Sdk, Call, returns, throws}
use ledger_app_neo.Common.Buffer.{Buffer, le, buffer_read_u32, buffer_move, memmove}
use ledger_app_neo.Common.Bip44.{buffer_read_and_validate_bip44}
use ledger_app_neo.Transaction.Types.{ParserStatus, status_code}
use ledger_app_neo.Transaction.Deserialize.{max_transaction_len, transaction_deserialize}
use ledger_app_neo.Ui.Display.{ui_display_transaction, ui_display_address, is_transaction}
use ledger_app_neo.Ui.Menu.{ui_menu_main}
use ledger_app_neo.Device.Context
use ledger_app_neo.Device.Context.{
  Context, Device, State, RequestType, zero_context, raw_public_key, with_context, set_state, sw_ok,
  sw_deny, sw_bad_state, sw_wrong_tx_length, sw_tx_parsing_fail, sw_sign_fail,
  sw_magic_parsing_fail,
}
use ledger_app_neo.Device.Io.{Reply, over, io_send_sw, io_send_response}
use ledger_app_neo.Device.Crypto.{crypto_derive_private_key, crypto_init_public_key, crypto_sign_tx}

-- A call that returns, or an exception with the state that it leaves.
abbrev pub Run : Type 0
Run = Call ℤ × Device

abbrev pub returning : Reply → Run
returning (r, d) = (returns r, d)

module _ (sdk : Sdk) where
  -- helper/send_response.c: 0x04 and the key.
  unfoldable pub helper_send_response_pubkey : Device → Reply
  helper_send_response_pubkey d =
      io_send_response sdk (over (0x04 ∷ raw_public_key d.context) 65) sw_ok d

  -- The version numbers and the name of the build are arguments.
  unfoldable pub handler_get_version : ℕ → ℕ → ℕ → Device → Reply
  handler_get_version major minor patch d =
      io_send_response sdk (over (u8 major ∷ u8 minor ∷ u8 patch ∷ []) 3) sw_ok d

  unfoldable pub handler_get_app_name : List ℕ → Device → Reply
  handler_get_app_name name d = io_send_response sdk (over name (length name)) sw_ok d

  -- What `handler_get_public_key` does with the derived key, or with the SDK's exception.
  unfoldable pub answer_pubkey : Bool → Call (List ℕ) → Device → Run
  unfolding helper_send_response_pubkey
  answer_pubkey show_on_screen (throws e) d = (throws e, d)
  answer_pubkey show_on_screen (returns key) d =
      let d' = with_context (λ c. record c { raw_tx = memmove c.raw_tx 0 key }) d in
      returning
        (if show_on_screen then ui_display_address sdk d' else helper_send_response_pubkey d')

  -- `crypto_derive_private_key` and `crypto_init_public_key`.
  unfoldable pub derive_pubkey : List ℕ → Call (List ℕ)
  derive_pubkey path = elim (crypto_derive_private_key sdk path) [
    | returns key ↦ crypto_init_public_key sdk key
    | throws e ↦ throws e
  ]

  -- `G_context.state = CONFIRM_ADDRESS` stores the enumerator 0 of the other enumeration, which is
  -- `STATE_NONE` there.
  unfoldable pub handler_get_public_key : Buffer → Bool → Device → Run
  unfolding answer_pubkey derive_pubkey
  handler_get_public_key cdata show_on_screen d =
      let r = buffer_read_and_validate_bip44 cdata (replicate 5 0) 0 in
      let d' = record d {
        context = record zero_context { state = State.state_none; bip44_path = r.path };
      } in
      if r.success
      then answer_pubkey show_on_screen (derive_pubkey r.path) d'
      else returning (io_send_sw sdk r.status d')

  -- The first command of a signature: a fresh context, and the derivation path.
  unfoldable pub sign_path : Buffer → Device → Reply
  sign_path cdata d =
      let r = buffer_read_and_validate_bip44 cdata (replicate 5 0) 0 in
      let c = record zero_context {
        req_type = RequestType.confirm_transaction;
        bip44_path = r.path;
      } in
      if r.success
      then io_send_sw sdk sw_ok (record d { context = record c { state = State.state_bip44_ok } })
      else io_send_sw sdk r.status (record d { context = c })

  abbrev pub is_bip44_ok : State → Bool
  is_bip44_ok State.state_bip44_ok = true
  is_bip44_ok _ = false

  abbrev pub is_magic_ok : State → Bool
  is_magic_ok State.state_magic_ok = true
  is_magic_ok _ = false

  -- The second one: the network magic.
  unfoldable pub sign_magic : Buffer → Device → Reply
  sign_magic cdata d =
      if not (is_transaction sdk d.context.req_type) && not (is_bip44_ok d.context.state)
      then io_send_sw sdk sw_bad_state d
      else (let r = buffer_read_u32 cdata le in
          let d' = with_context (λ c. record c { network_magic = r.value }) d in
          if r.success
          then io_send_sw sdk sw_ok (set_state State.state_magic_ok d')
          else io_send_sw sdk sw_magic_parsing_fail d')

  -- The data of a further command is put behind the transaction's bytes.
  unfoldable pub append_chunk : Buffer → Context → Bool × Context
  append_chunk cdata c =
      let (copied, raw_tx, rest) = buffer_move cdata c.raw_tx c.raw_tx_len cdata.size in
      if ltb max_transaction_len (c.raw_tx_len + cdata.size) || not copied
      then (false, c)
      else (true, record c { raw_tx = raw_tx; raw_tx_len = c.raw_tx_len + cdata.size })

  -- `(uint8_t) status`.
  abbrev pub low_byte : ℤ → ℕ
  low_byte (pos n) = u8 n
  low_byte (negsuc n) = 255 - u8 n

  -- The last command: what follows the parsing.
  unfoldable pub after_parsing : ParserStatus → Device → Reply
  after_parsing ParserStatus.parsing_ok d = ui_display_transaction sdk (
      with_context
        (λ c. record c {
          state = State.state_parsed;
          hash = memmove c.hash 0 (sdk.sha256 (take c.raw_tx_len c.raw_tx));
        })
        d)
  after_parsing status d =
      io_send_response sdk (over (low_byte (status_code status) ∷ []) 1) sw_tx_parsing_fail d

  unfoldable pub parse_and_show : Device → Reply
  unfolding after_parsing
  parse_and_show d =
      let c = d.context in
      let (status, p) = transaction_deserialize sdk (over c.raw_tx c.raw_tx_len) c.transaction in
      after_parsing status (with_context (λ c. record c { transaction = p.tx }) d)

  unfoldable pub sign_chunk : Buffer → Bool → Device → Reply
  unfolding append_chunk parse_and_show
  sign_chunk cdata more d =
      if not (is_transaction sdk d.context.req_type) && not (is_magic_ok d.context.state)
      then io_send_sw sdk sw_bad_state d
      else (let (appended, c) = append_chunk cdata d.context in
          let d' = record d { context = c } in
          if appended
          then (if more then io_send_sw sdk sw_ok d' else parse_and_show d')
          else io_send_sw sdk sw_wrong_tx_length d')

  -- `chunk` is the first parameter of a command, a byte.
  unfoldable pub handler_sign_tx : Buffer → ℕ → Bool → Device → Reply
  unfolding sign_path sign_magic sign_chunk
  handler_sign_tx cdata chunk more d =
      if chunk == 0
      then sign_path cdata d
      else if chunk == 1
      then sign_magic cdata d
      else sign_chunk cdata more d

  unfoldable pub ui_action_validate_pubkey : Bool → Device → Device
  ui_action_validate_pubkey approved d =
      ui_menu_main (if approved then helper_send_response_pubkey d else io_send_sw sdk sw_deny d).1

  -- After `crypto_sign_tx`, unless it threw.
  unfoldable pub answer_signature : Call (ℤ × Context) → Device → Call (Unit {0}) × Device
  answer_signature (throws e) d = (throws e, d)
  answer_signature (returns (result, c)) d =
      let d' = record d { context = c } in
      (
        returns tt,
        ui_menu_main
            (if is_negative result
              then io_send_sw sdk sw_sign_fail (set_state State.state_none d')
              else io_send_response sdk (over c.signature c.signature_len) sw_ok d').1,
      )

  unfoldable pub ui_action_validate_transaction : Bool → Device → Call (Unit {0}) × Device
  unfolding answer_signature
  ui_action_validate_transaction approved d =
      let d' = set_state State.state_approved d in
      if approved
      then answer_signature (crypto_sign_tx sdk d'.context) d'
      else (returns tt, ui_menu_main (io_send_sw sdk sw_deny (set_state State.state_none d)).1)
