-- ===== src/Device/Handlers/Sound/Signature.antt =====
-- The user's answer to a transaction, and the signature, leave the memory sound.
use ledger_app_neo.Prelude.{ℕ, ◌∙◌, Bool, List, if-both, ℤ, pos, negsuc, is_negative}
use ledger_app_neo.Sdk.{Sdk, Call, returns, throws}
use ledger_app_neo.Common.Buffer.Moves.{length-memmove}
use ledger_app_neo.Device.Context.{Context, Device, State, set_state, sw_ok, sw_deny, sw_sign_fail}
use ledger_app_neo.Device.Io.{Reply, over}
use ledger_app_neo.Device.Crypto.{
  ◌>>=◌, crypto_sign_tx, store_signature, crypto_derive_private_key, signed_data,
}
use ledger_app_neo.Device.Sound.{Sound, in_menu, io_send_sw-Sound, io_send_response-Sound}
use ledger_app_neo.Device.Handlers.{answer_signature, ui_action_validate_transaction}

module _ (sdk : Sdk) (size : ℕ) where
  -- A context with a stored signature.
  abbrev Signed : Device → Call (ℤ × Context) → Type 0
  Signed d (throws e) = Unit
  Signed d (returns r) = Sound size (record d { context = r.1 })

  store_signature-Signed :
      (d : Device) (r : ℤ × List ℕ)
      → Sound size d
      → Signed d (returns (store_signature sdk d.context r))
  unfolding store_signature
  store_signature-Signed d (pos n, bytes) h = record {
    raw_tx_size = h.raw_tx_size;
    filled = h.filled;
    hash_size = h.hash_size;
    signature_size = length-memmove d.context.signature 0 bytes ∙ h.signature_size;
    apdu_size = h.apdu_size;
    matched = h.matched;
  }
  store_signature-Signed d (negsuc n, bytes) h = record {
    raw_tx_size = h.raw_tx_size;
    filled = h.filled;
    hash_size = h.hash_size;
    signature_size = length-memmove d.context.signature 0 bytes ∙ h.signature_size;
    apdu_size = h.apdu_size;
    matched = h.matched;
  }

  Signed-bind :
      {A : Type 0} (d : Device) (call : Call A) (f : A → Call (ℤ × Context))
      → ((a : A) → Signed d (f a))
      → Signed d (call >>= f)
  Signed-bind d (throws e) f h = tt
  Signed-bind d (returns a) f h = h a

  crypto_sign_tx-Signed : (d : Device) → Sound size d → Signed d (crypto_sign_tx sdk d.context)
  unfolding crypto_sign_tx
  crypto_sign_tx-Signed d h =
      Signed-bind d (crypto_derive_private_key sdk d.context.bip44_path) _ (λ key.
        Signed-bind d (sdk.ecdsa_sign key (sdk.sha256 (signed_data sdk d.context))) _
          (λ signed. store_signature-Signed d signed h))

  answer_signature-Sound :
      (call : Call (ℤ × Context)) (d : Device)
      → Signed d call
      → Sound size d
      → Sound size (answer_signature sdk call d).1
  unfolding answer_signature
  answer_signature-Sound (throws e) d k h = h
  answer_signature-Sound (returns (result, c)) d k h =
      let d' = record d { context = c } in
      in_menu (
        if-both (λ (r : Reply). Sound size r.1) (is_negative result)
          (io_send_sw-Sound sdk size sw_sign_fail (set_state State.state_none d') k)
          (io_send_response-Sound sdk size (over c.signature c.signature_len) sw_ok d' k))

  pub ui_action_validate_transaction-Sound :
      (approved : Bool) (d : Device)
      → Sound size d
      → Sound size (ui_action_validate_transaction sdk approved d).1
  unfolding ui_action_validate_transaction
  ui_action_validate_transaction-Sound approved d h =
      let d' = set_state State.state_approved d in
      if-both (λ (r : Call (Unit {0}) × Device). Sound size r.1) approved
        (answer_signature-Sound (crypto_sign_tx sdk d'.context) d' (crypto_sign_tx-Signed d' h) h)
        (in_menu (io_send_sw-Sound sdk size sw_deny (set_state State.state_none d) h))
