-- ===== src/Ui/Display/Sound.antt =====
-- The displays of ui/display.c leave the memory as it is.
use ledger_app_neo.Prelude.{
  if-both, refl, ℕ, ◌||◌, ◌+◌, not, List, [], replicate, Bool-cases, inl, inr, if◌then◌else◌,
}
use ledger_app_neo.Word.{u64}
use ledger_app_neo.Sdk.{Sdk}
use ledger_app_neo.Transaction.Types.{Transaction, address_len}
use ledger_app_neo.Common.Format.{c_string}
use ledger_app_neo.Ui.Display.Shown.{until_step, total_step, network_step, transfer_step}
use ledger_app_neo.Ui.Utils.{address_from_pubkey}
use ledger_app_neo.Device.Context.{
  Callback, Device, Screens, State, raw_public_key, set_state, sw_display_system_fee_fail,
  sw_display_network_fee_fail, sw_display_total_fee_fail, sw_display_token_transfer_amount_fail,
}
use ledger_app_neo.Device.Io.{Reply}
use ledger_app_neo.Device.Sound.{Matches, KeepsSound, if-Sound, io_send_sw-Sound}
use ledger_app_neo.Ui.Display.{
  create_transaction_flow, amount_text, show_amount, snprintf, format_int, network_text,
  with_screens, u64_of, gas_text, neo_text, show_flow, show_fees, show_network, show_transaction,
  ui_display_transaction, ui_display_address, is_transaction, is_parsed, is_none,
}

module _ (sdk : Sdk) (size : ℕ) where
  show_amount-Keeps :
      (value decimals : ℕ) (label : List ℕ) (length failure : ℕ)
      (store : List ℕ → Screens → Screens) (next : Device → Reply)
      → KeepsSound size next
      → KeepsSound size (show_amount sdk value decimals label length failure store next)
  show_amount-Keeps value decimals label length failure store next keeps d h =
      elim (Bool-cases (amount_text value decimals).0) [
        | inl printed ↦ rw printed (keeps _ h)
        | inr failed ↦ rw failed (io_send_sw-Sound sdk size failure (with_screens (store []) d) h)
      ]

  transaction-Matches :
      (tx : Transaction) → Matches Callback.validate_transaction (create_transaction_flow tx)
  unfolding create_transaction_flow
  transaction-Matches tx =
      if-both (Matches Callback.validate_transaction) tx.is_system_asset_transfer refl refl

  show_flow-Keeps : KeepsSound size (show_flow sdk)
  unfolding show_flow
  show_flow-Keeps d h = record {
    raw_tx_size = h.raw_tx_size;
    filled = h.filled;
    hash_size = h.hash_size;
    signature_size = h.signature_size;
    apdu_size = h.apdu_size;
    matched = transaction-Matches d.context.transaction;
  }

  total_step-Keeps : (tx : Transaction) → KeepsSound size (total_step sdk tx)
  total_step-Keeps tx d h =
      show_amount-Keeps (u64 (u64_of tx.network_fee + u64_of tx.system_fee)) 8 gas_text 30
        sw_display_total_fee_fail (λ t s. record s { total_fees = t }) (until_step sdk tx)
        (λ d' h'.
          show_flow-Keeps
            (with_screens
              (λ s. record s { valid_until_block = snprintf 11 (format_int tx.valid_until_block) })
              d')
            h')
        d h

  network_step-Keeps : (tx : Transaction) → KeepsSound size (network_step sdk tx)
  network_step-Keeps tx d h =
      show_amount-Keeps (u64_of tx.network_fee) 8 gas_text 30 sw_display_network_fee_fail
        (λ t s. record s { network_fee = t }) (total_step sdk tx) (total_step-Keeps tx) d h

  show_fees-Keeps : KeepsSound size (show_fees sdk)
  unfolding show_fees
  show_fees-Keeps d h =
      let tx = d.context.transaction in
      show_amount-Keeps (u64_of tx.system_fee) 8 gas_text 30 sw_display_system_fee_fail
        (λ t s. record s { system_fee = t }) (network_step sdk tx) (network_step-Keeps tx) d h

  show_network-Keeps : KeepsSound size (show_network sdk)
  unfolding show_network
  show_network-Keeps d h =
      show_fees-Keeps
        (with_screens (λ s. record s { network = network_text d.context.network_magic }) d) h

  transfer_step-Keeps : (tx : Transaction) → KeepsSound size (transfer_step sdk tx)
  transfer_step-Keeps tx d h =
      show_amount-Keeps (u64_of tx.amount) (if tx.is_neo then 0 else 8)
        (if tx.is_neo then neo_text else gas_text) 64 sw_display_token_transfer_amount_fail
        (λ t s. record s { text = t }) (show_network sdk) show_network-Keeps d h

  show_transaction-Keeps : KeepsSound size (show_transaction sdk)
  unfolding show_transaction
  show_transaction-Keeps d h =
      let tx = d.context.transaction in
      let d1 = with_screens (λ s. record s { address = snprintf 35 (c_string tx.dst_address) }) d in
      if-Sound size tx.is_system_asset_transfer (transfer_step sdk tx d1) (show_network sdk d)
        (transfer_step-Keeps tx d1 h) (show_network-Keeps d h)

  pub ui_display_transaction-Sound : KeepsSound size (ui_display_transaction sdk)
  unfolding ui_display_transaction
  ui_display_transaction-Sound d h =
      elim (Bool-cases
        (not (is_transaction sdk d.context.req_type) || not (is_parsed sdk d.context.state))) [
          | inl refused ↦ rw refused (io_send_sw-Sound sdk size _ (set_state State.state_none d) h)
          | inr shown ↦ rw shown (show_transaction-Keeps d h)
        ]

  pub ui_display_address-Sound : KeepsSound size (ui_display_address sdk)
  unfolding ui_display_address
  ui_display_address-Sound d h =
      elim (Bool-cases
        (is_transaction sdk d.context.req_type || not (is_none sdk d.context.state))) [
          | inl refused ↦ rw refused (io_send_sw-Sound sdk size _ (set_state State.state_none d) h)
          | inr idle ↦
              rw idle
                (elim (Bool-cases
                  (address_from_pubkey sdk (raw_public_key d.context) (replicate address_len 0)
                    address_len).0) [
                      | inl converted ↦ rw converted (record {
                        raw_tx_size = h.raw_tx_size;
                        filled = h.filled;
                        hash_size = h.hash_size;
                        signature_size = h.signature_size;
                        apdu_size = h.apdu_size;
                        matched = refl;
                      })
                      | inr failed ↦ rw failed (
                          io_send_sw-Sound sdk size _
                            (with_screens (λ s. record s { address = [] }) d) h)
                    ])
        ]
