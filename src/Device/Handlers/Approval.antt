-- ===== src/Device/Handlers/Approval.antt =====
-- What the user's approval of a transaction does in ui/action/validate.c.
use ledger_app_neo.Prelude.{
  ℕ, ◌-◌, ◌≤◌, ◌≡◌, refl, ap, ◌∙◌, arith, true, List, ◌∷◌, ◌++◌, length, All, pos,
}
use ledger_app_neo.Word.{IsByte, u8}
use ledger_app_neo.Sdk.{Sdk, returns}
use ledger_app_neo.Common.Buffer.{memmove}
use ledger_app_neo.Common.Buffer.View.{IsValid, remaining}
use ledger_app_neo.Common.Buffer.Moves.{take-memmove_at, length-memmove, All-memmove}
use ledger_app_neo.Device.Context.{Context, Device, State, Flow, waiting, sw_ok, set_state}
use ledger_app_neo.Device.Io.{over}
use ledger_app_neo.Device.Io.Framing.{status_bytes, io_send_response_sends}
use ledger_app_neo.Device.Crypto.{signed_data, crypto_sign_tx}
use ledger_app_neo.Device.Handlers.{ui_action_validate_transaction}
use ledger_app_neo.Device.Handlers.Chunks.{over-IsValid}

module _ (sdk : Sdk) where
  -- The host waits, and the memory for the signature and for the reply is there.
  pub record CanReply (d : Device) : Type 0 where
    pub waits : d.io_state ≡ waiting
    pub room : 74 ≤ sdk.io_apdu_buffer_size
    pub memory : sdk.io_apdu_buffer_size ≤ length d.apdu_buffer
    pub capacity : length d.context.signature ≡ 72
    pub all_bytes : All IsByte d.context.signature

  -- The SDK makes this signature of the hash of that message with the key of that path.
  pub record Makes (path message signature : List ℕ) : Type 0 where
    pub key : List ℕ
    pub derives : sdk.derive_node path ≡ returns key
    pub signs :
        sdk.ecdsa_sign key (sdk.sha256 message) ≡ returns (pos (length signature), signature)
    pub short : length signature ≤ 72
    pub all_bytes : All IsByte signature

  -- What an approved transaction leaves.
  pub record Approved (signature : List ℕ) (d d' : Device) : Type 0 where
    pub sent : d'.transmitted ≡ (signature ++ status_bytes sw_ok) ∷ d.transmitted
    pub flow_eq : d'.flow ≡ Flow.menu_flow

  module _ (d : Device) (can : CanReply d) (message signature : List ℕ)
      (is : signed_data sdk d.context ≡ message)
      (makes : Makes d.context.bip44_path message signature) where
    abbrev signed : Context
    signed = record (d.context) {
      state = State.state_approved;
      signature = memmove d.context.signature 0 signature;
      signature_len = u8 (length signature);
    }

    crypto_sign_tx-signed :
        crypto_sign_tx sdk (set_state State.state_approved d).context ≡ returns (pos 0, signed)
    unfolding crypto_sign_tx
    crypto_sign_tx-signed = rw (makes.derives, is, makes.signs)

    whole : u8 (length signature) ≡ length signature
    whole = omega (arith, makes.short)

    signature-IsValid : IsValid (over signed.signature signed.signature_len)
    signature-IsValid =
        over-IsValid signed.signature signed.signature_len
          (omega (
            arith,
            whole,
            makes.short,
            can.capacity,
            length-memmove d.context.signature 0 signature,
          ))
          (omega (arith, whole, makes.short))
          (All-memmove d.context.signature 0 signature can.all_bytes makes.all_bytes)

    signature-remaining : remaining (over signed.signature signed.signature_len) ≡ signature
    signature-remaining =
        take-memmove_at d.context.signature 0 signature (u8 (length signature) - 0)
          (omega (arith, whole)) (omega (arith, makes.short, can.capacity))

    -- Where the host waits for the reply, there is memory for it, and the SDK makes a signature of at most
    -- 72 bytes of the hash of the message with the derived key: when the user approves the transaction,
    -- this signature followed by SW_OK and nothing else is sent, and the menu is shown.
    pub ui_action_validate_transaction-Approved :
        Approved signature d (ui_action_validate_transaction sdk true d).1
    unfolding ui_action_validate_transaction
    ui_action_validate_transaction-Approved = rw crypto_sign_tx-signed (record {
      sent =
          io_send_response_sends sdk (over signed.signature signed.signature_len) signature-IsValid
            (record d { context = signed })
            (omega (arith, ap length signature-remaining, makes.short, can.room)) can.memory sw_ok
            can.waits
          ∙ ap (λ xs. (xs ++ status_bytes sw_ok) ∷ d.transmitted) signature-remaining;
      flow_eq = refl;
    })
