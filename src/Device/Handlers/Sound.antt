-- ===== src/Device/Handlers/Sound.antt =====
-- The handlers and the user's answers leave the memory sound.
pub mod Signature
use ledger_app_neo.Prelude.{
  ℕ, ◌+◌, ◌≡◌, refl, ◌∙◌, arith, Bool, not, ◌&&◌, List, [], ◌∷◌, take, drop, length, replicate, ltb,
  ltb→le, ◌==◌, Bool-cases, inl, inr, if-both,
}
use ledger_app_neo.Sdk.{Sdk, Call, returns, throws}
use ledger_app_neo.Common.Buffer.{
  Buffer, le, left, buffer_read_u32, buffer_copy, buffer_move, memmove,
}
use ledger_app_neo.Common.Buffer.Moves.{length-memmove}
use ledger_app_neo.Common.Bip44.{buffer_read_and_validate_bip44}
use ledger_app_neo.Transaction.Types.{ParserStatus, status_code}
use ledger_app_neo.Transaction.Deserialize.{max_transaction_len, transaction_deserialize}
use ledger_app_neo.Ui.Display.{is_transaction}
use ledger_app_neo.Ui.Display.Sound.{ui_display_transaction-Sound, ui_display_address-Sound}
use ledger_app_neo.Device.Context.{
  Context, Device, State, RequestType, zero_context, with_context, set_state, sw_ok, sw_deny,
  sw_bad_state, sw_wrong_tx_length, sw_tx_parsing_fail, sw_magic_parsing_fail,
}
use ledger_app_neo.Device.Io.{Reply, over}
use ledger_app_neo.Device.Sound.{
  Memory, Sound, KeepsSound, in_menu, io_send_sw-Sound, io_send_response-Sound,
}
use ledger_app_neo.Device.Handlers.{
  Run, helper_send_response_pubkey, handler_get_version, handler_get_app_name, answer_pubkey,
  derive_pubkey, handler_get_public_key, sign_path, sign_magic, append_chunk, after_parsing,
  parse_and_show, sign_chunk, handler_sign_tx, ui_action_validate_pubkey, is_bip44_ok, is_magic_ok,
  low_byte,
}

module _ (sdk : Sdk) (size : ℕ) where
  abbrev pub SoundRun : {A : Type 0} → A × Device → Type 0
  SoundRun r = Sound size r.1

  -- A cleared context, with the APDU buffer as it was.
  cleared :
      (d : Device)
      → Sound size d
      → Memory size
          (replicate 1024 0)
          0
          (replicate 32 0)
          (replicate 72 0)
          d.apdu_buffer
          d.callback
          d.flow
  cleared d h = record {
    raw_tx_size = refl;
    filled = omega arith;
    hash_size = refl;
    signature_size = refl;
    apdu_size = h.apdu_size;
    matched = h.matched;
  }

  pubkey-Sound : KeepsSound size (helper_send_response_pubkey sdk)
  unfolding helper_send_response_pubkey
  pubkey-Sound d h = io_send_response-Sound sdk size _ sw_ok d h

  pub handler_get_version-Sound :
      (major minor patch : ℕ) → KeepsSound size (handler_get_version sdk major minor patch)
  unfolding handler_get_version
  handler_get_version-Sound major minor patch d h = io_send_response-Sound sdk size _ sw_ok d h

  pub handler_get_app_name-Sound : (name : List ℕ) → KeepsSound size (handler_get_app_name sdk name)
  unfolding handler_get_app_name
  handler_get_app_name-Sound name d h = io_send_response-Sound sdk size _ sw_ok d h

  answer_pubkey-Sound :
      (show : Bool) (key : Call (List ℕ)) (d : Device)
      → Sound size d
      → SoundRun (answer_pubkey sdk show key d)
  unfolding answer_pubkey
  answer_pubkey-Sound show (throws e) d h = h
  answer_pubkey-Sound show (returns key) d h =
      let d' = with_context (λ c. record c { raw_tx = memmove c.raw_tx 0 key }) d in
      let h' : Sound size d' = record {
        raw_tx_size = length-memmove d.context.raw_tx 0 key ∙ h.raw_tx_size;
        filled = h.filled;
        hash_size = h.hash_size;
        signature_size = h.signature_size;
        apdu_size = h.apdu_size;
        matched = h.matched;
      } in
      if-both (λ (r : Reply). Sound size r.1) show (ui_display_address-Sound sdk size d' h')
        (pubkey-Sound d' h')

  pub handler_get_public_key-Sound :
      (cdata : Buffer) (show : Bool) (d : Device)
      → Sound size d
      → SoundRun (handler_get_public_key sdk cdata show d)
  unfolding handler_get_public_key
  handler_get_public_key-Sound cdata show d h =
      let r = buffer_read_and_validate_bip44 cdata (replicate 5 0) 0 in
      let d' = record d {
        context = record zero_context { state = State.state_none; bip44_path = r.path };
      } in
      if-both (λ (r : Run). Sound size r.1) r.success
        (answer_pubkey-Sound show (derive_pubkey sdk r.path) d' (cleared d h))
        (io_send_sw-Sound sdk size r.status d' (cleared d h))

  sign_path-Sound : (cdata : Buffer) → KeepsSound size (sign_path sdk cdata)
  unfolding sign_path
  sign_path-Sound cdata d h =
      let r = buffer_read_and_validate_bip44 cdata (replicate 5 0) 0 in
      let c = record zero_context {
        req_type = RequestType.confirm_transaction;
        bip44_path = r.path;
      } in
      if-both (λ (r : Reply). Sound size r.1) r.success
        (io_send_sw-Sound sdk size sw_ok
          (record d { context = record c { state = State.state_bip44_ok } }) (cleared d h))
        (io_send_sw-Sound sdk size r.status (record d { context = c }) (cleared d h))

  sign_magic-Sound : (cdata : Buffer) → KeepsSound size (sign_magic sdk cdata)
  unfolding sign_magic
  sign_magic-Sound cdata d h =
      let r = buffer_read_u32 cdata le in
      let d' = with_context (λ c. record c { network_magic = r.value }) d in
      if-both (λ (r : Reply). Sound size r.1)
        (not (is_transaction sdk d.context.req_type) && not (is_bip44_ok sdk d.context.state))
        (io_send_sw-Sound sdk size sw_bad_state d h)
        (if-both (λ (r : Reply). Sound size r.1) r.success
          (io_send_sw-Sound sdk size sw_ok (set_state State.state_magic_ok d') h)
          (io_send_sw-Sound sdk size sw_magic_parsing_fail d' h))

  -- What `buffer_move` leaves of the memory.
  length-buffer_move :
      (b : Buffer) (memory : List ℕ) (out out_len : ℕ)
      → length (buffer_move b memory out out_len).1 ≡ length memory
  unfolding buffer_move buffer_copy
  length-buffer_move b memory out out_len = elim (Bool-cases (ltb out_len (left b))) [
    | inl large ↦ rw large
    | inr fits ↦ rw fits (length-memmove memory out (take (left b) (drop b.offset b.ptr)))
  ]

  append_chunk-Sound :
      (cdata : Buffer) (d : Device)
      → Sound size d
      → Sound size (record d { context = (append_chunk sdk cdata d.context).1 })
  unfolding append_chunk
  append_chunk-Sound cdata d h =
      let c = d.context in
      elim (Bool-cases (ltb max_transaction_len (c.raw_tx_len + cdata.size))) [
        | inl long ↦ rw long h
        | inr short ↦ rw short (
            if-both (λ (r : Bool × Context). Sound size (record d { context = r.1 }))
              (not (buffer_move cdata c.raw_tx c.raw_tx_len cdata.size).0) h
              (record {
                raw_tx_size =
                    length-buffer_move cdata c.raw_tx c.raw_tx_len cdata.size ∙ h.raw_tx_size;
                filled = ltb→le 1024 (c.raw_tx_len + cdata.size) short;
                hash_size = h.hash_size;
                signature_size = h.signature_size;
                apdu_size = h.apdu_size;
                matched = h.matched;
              }))
      ]

  after_parsing-Sound : (status : ParserStatus) → KeepsSound size (after_parsing sdk status)
  unfolding after_parsing
  after_parsing-Sound ParserStatus.parsing_ok d h =
      let hash = sdk.sha256 (take d.context.raw_tx_len d.context.raw_tx) in
      ui_display_transaction-Sound sdk size
        (with_context (λ c. record c { state = State.state_parsed; hash = memmove c.hash 0 hash })
          d)
        (record {
          raw_tx_size = h.raw_tx_size;
          filled = h.filled;
          hash_size = length-memmove d.context.hash 0 hash ∙ h.hash_size;
          signature_size = h.signature_size;
          apdu_size = h.apdu_size;
          matched = h.matched;
        })
  after_parsing-Sound status d h =
      io_send_response-Sound sdk size (over (low_byte sdk (status_code status) ∷ []) 1)
        sw_tx_parsing_fail d h

  parse_and_show-Sound : KeepsSound size (parse_and_show sdk)
  unfolding parse_and_show
  parse_and_show-Sound d h =
      let (status, p) =
        transaction_deserialize sdk (over d.context.raw_tx d.context.raw_tx_len)
          d.context.transaction in
      after_parsing-Sound status (with_context (λ c. record c { transaction = p.tx }) d) h

  sign_chunk-Sound : (cdata : Buffer) (more : Bool) → KeepsSound size (sign_chunk sdk cdata more)
  unfolding sign_chunk
  sign_chunk-Sound cdata more d h =
      let r = append_chunk sdk cdata d.context in
      let d' = record d { context = r.1 } in
      let h' = append_chunk-Sound cdata d h in
      if-both (λ (r : Reply). Sound size r.1)
        (not (is_transaction sdk d.context.req_type) && not (is_magic_ok sdk d.context.state))
        (io_send_sw-Sound sdk size sw_bad_state d h)
        (if-both (λ (r : Reply). Sound size r.1) r.0
          (if-both (λ (r : Reply). Sound size r.1) more (io_send_sw-Sound sdk size sw_ok d' h')
            (parse_and_show-Sound d' h'))
          (io_send_sw-Sound sdk size sw_wrong_tx_length d' h'))

  pub handler_sign_tx-Sound :
      (cdata : Buffer) (chunk : ℕ) (more : Bool)
      → KeepsSound size (handler_sign_tx sdk cdata chunk more)
  unfolding handler_sign_tx
  handler_sign_tx-Sound cdata chunk more d h =
      if-both (λ (r : Reply). Sound size r.1) (chunk == 0) (sign_path-Sound cdata d h)
        (if-both (λ (r : Reply). Sound size r.1) (chunk == 1) (sign_magic-Sound cdata d h)
          (sign_chunk-Sound cdata more d h))

  pub ui_action_validate_pubkey-Sound :
      (approved : Bool) (d : Device)
      → Sound size d
      → Sound size (ui_action_validate_pubkey sdk approved d)
  unfolding ui_action_validate_pubkey
  ui_action_validate_pubkey-Sound approved d h = in_menu (
      if-both (λ (r : Reply). Sound size r.1) approved (pubkey-Sound d h)
        (io_send_sw-Sound sdk size sw_deny d h))
