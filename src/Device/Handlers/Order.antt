-- ===== src/Device/Handlers/Order.antt =====
-- The order of the commands of a signature in handler/sign_tx.c.
use ledger_app_neo.Prelude.{
  ℕ, ◌+◌, ◌≡◌, refl, ap, ◌∙◌, arith, Bool, true, false, not, List, ◌==◌, Bool-cases, inl, inr,
  replicate, length, ◌++◌, take, take_all, All, ◌<◌, ltb, zero, suc, ◌||◌,
}
use ledger_app_neo.Common.Bip44.{buffer_read_and_validate_bip44}
use ledger_app_neo.Sdk.{Sdk, Call, returns, throws}
use ledger_app_neo.Common.Buffer.{Buffer, buffer_move, memmove}
use ledger_app_neo.Device.Context.{
  zero_context, raw_public_key, with_context, Device, Context, State, RequestType, sw_bad_state,
}
use ledger_app_neo.Device.Io.{over, io_send_sw}
use ledger_app_neo.Device.Io.Kept.{io_send_sw_context, io_send_response_context}
use ledger_app_neo.Device.Handlers.Chunks.{Holds, received_bytes, append_chunk_fits}
use ledger_app_neo.Transaction.Types.{address_len}
use ledger_app_neo.Ui.Utils.{address_from_pubkey}
use mathlib.Core.Bool.{false≢true}
use ledger_app_neo.Transaction.Deserialize.{max_transaction_len}
use mathlib.Core.Path.{subst⁻¹}
use ledger_app_neo.Word.{IsByte}
use ledger_app_neo.Device.Handlers.{
  answer_pubkey, helper_send_response_pubkey, append_chunk, handler_sign_tx, sign_path, sign_magic,
  sign_chunk, handler_get_public_key,
}
use ledger_app_neo.Ui.Display.{ui_display_address}

module _ (sdk : Sdk) where
  sign_path_req :
      (cdata : Buffer) (d : Device)
      → (sign_path sdk cdata d).1.context.req_type ≡ RequestType.confirm_transaction
  unfolding sign_path
  sign_path_req cdata d =
      elim (Bool-cases (buffer_read_and_validate_bip44 cdata (replicate 5 0) 0).success) [
        | inl ok ↦ rw (ok, io_send_sw_context sdk)
        | inr bad ↦ rw (bad, io_send_sw_context sdk)
      ]

  -- No signature is in progress.
  pub record Idle (c : Context) : Type 0 where
    pub is_address : c.req_type ≡ RequestType.confirm_address
    pub no_state : c.state ≡ State.state_none

  display_context : (d : Device) → Idle d.context → (ui_display_address sdk d).1.context ≡ d.context
  unfolding ui_display_address
  display_context d h =
      rw (h.is_address, h.no_state)
        (elim (Bool-cases
          (address_from_pubkey sdk (raw_public_key d.context) (replicate address_len 0)
            address_len).0) [
              | inl converted ↦ rw converted
              | inr refused ↦ rw refused (io_send_sw_context sdk _ _)
            ])

  answer_pubkey-Idle :
      (show_on_screen : Bool) (key : Call (List ℕ)) (d : Device)
      → Idle d.context
      → Idle (answer_pubkey sdk show_on_screen key d).1.context
  unfolding answer_pubkey helper_send_response_pubkey
  answer_pubkey-Idle show_on_screen (throws e) d h = h
  answer_pubkey-Idle true (returns key) d h =
      subst⁻¹ Idle
        (display_context (with_context (λ c. record c { raw_tx = memmove c.raw_tx 0 key }) d)
          (record { is_address = h.is_address; no_state = h.no_state }))
        (record { is_address = h.is_address; no_state = h.no_state })
  answer_pubkey-Idle false (returns key) d h =
      subst⁻¹ Idle (io_send_response_context sdk _ _ _)
        (record { is_address = h.is_address; no_state = h.no_state })

  -- GET_PUBLIC_KEY ends a signature that was in progress, however it is answered.
  handler_get_public_key-Idle :
      (cdata : Buffer) (show_on_screen : Bool) (d : Device)
      → Idle (handler_get_public_key sdk cdata show_on_screen d).1.context
  unfolding handler_get_public_key
  handler_get_public_key-Idle cdata show_on_screen d =
      elim (Bool-cases (buffer_read_and_validate_bip44 cdata (replicate 5 0) 0).success) [
        | inl ok ↦
            rw ok (
              answer_pubkey-Idle show_on_screen _ _ (record { is_address = refl; no_state = refl }))
        | inr bad ↦ rw bad (
            subst⁻¹ Idle (io_send_sw_context sdk _ _)
              (record { is_address = refl; no_state = refl }))
      ]

  Idle-refuses :
      (cdata : Buffer) (n : ℕ) (more : Bool) (d : Device)
      → Idle d.context
      → handler_sign_tx sdk cdata (suc n) more d ≡ io_send_sw sdk sw_bad_state d
  unfolding handler_sign_tx sign_magic sign_chunk
  Idle-refuses cdata zero more d h = rw (h.is_address, h.no_state)
  Idle-refuses cdata (suc n) more d h =
      let not_first : (suc (suc n) == 0) ≡ false = ground arith in
      let not_second : (suc (suc n) == 1) ≡ false = ground arith in
      rw (not_first, not_second, h.is_address, h.no_state)

  -- After GET_PUBLIC_KEY, whatever it answered, every SIGN_TX command but the first is answered with
  -- SW_BAD_STATE, and changes nothing else.
  pub handler_sign_tx-handler_get_public_key :
      (path : Buffer) (show_on_screen : Bool) (cdata : Buffer) (n : ℕ) (more : Bool) (d : Device)
      → let d' = (handler_get_public_key sdk path show_on_screen d).1 in
        handler_sign_tx sdk cdata (suc n) more d' ≡ io_send_sw sdk sw_bad_state d'
  handler_sign_tx-handler_get_public_key path show_on_screen cdata n more d =
      Idle-refuses cdata n more _ (handler_get_public_key-Idle path show_on_screen d)

  -- What `sign_path` leaves, on success and on failure.
  pub record Started (c : Context) : Type 0 where
    pub is_transaction_eq : c.req_type ≡ RequestType.confirm_transaction
    pub nothing_received : c.raw_tx_len ≡ 0
    pub holds : Holds c

  pub sign_path-Started : (cdata : Buffer) (d : Device) → Started (sign_path sdk cdata d).1.context
  unfolding sign_path
  sign_path-Started cdata d =
      elim (Bool-cases (buffer_read_and_validate_bip44 cdata (replicate 5 0) 0).success) [
        | inl ok ↦ rw ok (subst⁻¹ Started (io_send_sw_context sdk _ _) fresh)
        | inr bad ↦ rw bad (subst⁻¹ Started (io_send_sw_context sdk _ _) fresh)
      ]
    where
      fresh :
          {path : List ℕ} {state : State}
          → Started (record zero_context {
            req_type = RequestType.confirm_transaction;
            bip44_path = path;
            state = state;
          })
      fresh = record {
        is_transaction_eq = refl;
        nothing_received = refl;
        holds = record { capacity = refl; filled = omega arith };
      }

  -- A chunk that fits is kept, where a transaction is to be signed.
  sign_chunk_keeps :
      (cdata : Buffer) (d : Device)
      → d.context.req_type ≡ RequestType.confirm_transaction
      → (append_chunk sdk cdata d.context).0 ≡ true
      → (sign_chunk sdk cdata true d).1.context ≡ (append_chunk sdk cdata d.context).1
  unfolding sign_chunk append_chunk
  sign_chunk_keeps cdata d is h =
      elim (Bool-cases (
        ltb max_transaction_len (d.context.raw_tx_len + cdata.size)
        || not (buffer_move cdata d.context.raw_tx d.context.raw_tx_len cdata.size).0)) [
          | inl refused ↦ absurd (false≢true (rw refused at h))
          | inr fits ↦ rw (is, fits) (io_send_sw_context sdk _ _)
        ]

  -- A chunk of fewer than 256 bytes that comes right after the path's command, without the network
  -- magic between them, is stored as the first bytes of the transaction, whether that path was accepted
  -- or refused.
  pub chunk-after-sign_path :
      (path : Buffer) (bytes : List ℕ) (n : ℕ) (d : Device)
      → length bytes < 256
      → All IsByte bytes
      → received_bytes
          (handler_sign_tx sdk
            (over bytes (length bytes))
            (suc (suc n))
            true
            (handler_sign_tx sdk path 0 true d).1).1.context
        ≡ bytes
  unfolding handler_sign_tx
  chunk-after-sign_path path bytes n d small ok =
      let d' = (sign_path sdk path d).1 in
      let s = sign_path-Started path d in
      let not_first : (suc (suc n) == 0) ≡ false = ground arith in
      let not_second : (suc (suc n) == 1) ≡ false = ground arith in
      let (appended, bytes_eq, _) =
        append_chunk_fits sdk bytes (length bytes) (omega arith) small ok s.holds
          (omega (arith, s.nothing_received)) in
      rw (not_first, not_second)
        (ap received_bytes
            (sign_chunk_keeps (over bytes (length bytes)) d' s.is_transaction_eq appended)
          ∙ (bytes_eq
              ∙ (ap (λ k. take k d'.context.raw_tx ++ take (length bytes) bytes) s.nothing_received
                  ∙ take_all (length bytes) bytes (omega arith))))
