-- ===== src/Ui/Display/Total.antt =====
-- The display of a parsed transaction in ui/display.c never fails: every amount fits.
use ledger_app_neo.Prelude.{
  ℕ, ◌+◌, ◌^◌, ◌≤◌, ◌<◌, ◌≡◌, refl, ◌∙◌, arith, Bool, true, false, List, if◌then◌else◌, if_false,
  if-both, pos, ◌||◌, not,
}
use mathlib.Core.Path.{subst⁻¹}
use ledger_app_neo.Word.{u64}
use ledger_app_neo.Sdk.{Sdk}
use ledger_app_neo.Common.Format.{c_string}
use ledger_app_neo.Common.Format.Bounds.{format_fpu64_fits}
use ledger_app_neo.Transaction.Types.{Transaction}
use ledger_app_neo.Device.Context.{
  Device, Screens, State, RequestType, Flow, sw_display_system_fee_fail,
  sw_display_network_fee_fail, sw_display_total_fee_fail, sw_display_token_transfer_amount_fail,
}
use ledger_app_neo.Device.Io.{Reply}
use ledger_app_neo.Ui.Display.{
  snprintf, u64_of, gas_text, neo_text, amount_text, labelled, network_text, with_screens,
  create_transaction_flow, show_amount, show_flow, show_fees, show_network, show_transaction,
  ui_display_transaction, is_transaction, is_parsed,
}
use ledger_app_neo.Ui.Display.Shown.{
  fee_line, amount_line, until_step, total_step, network_step, transfer_step, fees, texts,
}

-- The amounts of a transaction are 64-bit integers.
pub record Ranges (tx : Transaction) : Type 0 where
  pub system_fee_range : u64_of tx.system_fee < 2 ^ 64
  pub network_fee_range : u64_of tx.network_fee < 2 ^ 64
  pub amount_range : u64_of tx.amount < 2 ^ 64

module _ (sdk : Sdk) where
  show_amount_prints :
      (value decimals : ℕ) (label : List ℕ) (size failure : ℕ) (store : List ℕ → Screens → Screens)
      (next : Device → Reply) (d : Device)
      → value < 2 ^ 64
      → decimals ≤ 8
      → show_amount sdk value decimals label size failure store next d
        ≡ next
            (with_screens (store (snprintf size (labelled label (amount_text value decimals).1))) d)
  show_amount_prints value decimals label size failure store next d small few =
      rw (format_fpu64_fits value decimals small few) refl

  show_fees_shows :
      (d : Device)
      → Ranges d.context.transaction
      → show_fees sdk d ≡ show_flow sdk (with_screens (fees sdk d.context.transaction) d)
  unfolding show_fees
  show_fees_shows d r =
      let tx = d.context.transaction in
      let d1 = with_screens (λ s. record s { system_fee = fee_line (u64_of tx.system_fee) }) d in
      let d2 = with_screens (λ s. record s { network_fee = fee_line (u64_of tx.network_fee) }) d1 in
      show_amount_prints (u64_of tx.system_fee) 8 gas_text 30 sw_display_system_fee_fail
        (λ t s. record s { system_fee = t }) (network_step sdk tx) d r.system_fee_range
        (omega arith)
      ∙ (show_amount_prints (u64_of tx.network_fee) 8 gas_text 30 sw_display_network_fee_fail
            (λ t s. record s { network_fee = t }) (total_step sdk tx) d1 r.network_fee_range
            (omega arith)
          ∙ show_amount_prints (u64 (u64_of tx.network_fee + u64_of tx.system_fee)) 8 gas_text 30
              sw_display_total_fee_fail (λ t s. record s { total_fees = t }) (until_step sdk tx) d2
              (omega arith) (omega arith))

  show_network_shows :
      (d : Device)
      → Ranges d.context.transaction
      → show_network sdk d
        ≡ show_flow sdk (
            with_screens
              (λ s.
                fees sdk d.context.transaction
                  (record s { network = network_text d.context.network_magic }))
              d)
  unfolding show_network
  show_network_shows d r =
      show_fees_shows
        (with_screens (λ s. record s { network = network_text d.context.network_magic }) d) r

  decimals_few : (neo : Bool) → (if neo then 0 else 8) ≤ 8
  decimals_few true = omega arith
  decimals_few false = omega arith

  transfer_step_shows :
      (d : Device)
      → Ranges d.context.transaction
      → let tx = d.context.transaction in
        transfer_step sdk tx
          (with_screens (λ s. record s { address = snprintf 35 (c_string tx.dst_address) }) d)
        ≡ show_flow sdk (with_screens (texts sdk d.context) d)
  transfer_step_shows d r =
      let tx = d.context.transaction in
      let d1 = with_screens (λ s. record s { address = snprintf 35 (c_string tx.dst_address) }) d in
      let d2 =
        with_screens (λ s. record s { text = amount_line tx.is_neo (u64_of tx.amount) }) d1 in
      show_amount_prints (u64_of tx.amount) (if tx.is_neo then 0 else 8)
        (if tx.is_neo then neo_text else gas_text) 64 sw_display_token_transfer_amount_fail
        (λ t s. record s { text = t }) (show_network sdk) d1 r.amount_range (decimals_few tx.is_neo)
      ∙ show_network_shows d2 r

  -- The flow that is started, and success.
  abbrev Starts : Device → Reply → Type 0
  Starts d r = (r.0 ≡ pos 0) × (r.1.flow ≡ create_transaction_flow d.context.transaction)

  show_flow-Starts :
      (f : Screens → Screens) (d : Device) → Starts d (show_flow sdk (with_screens f d))
  unfolding show_flow
  show_flow-Starts f d = (refl, refl)

  show_transaction-Starts :
      (d : Device) → Ranges d.context.transaction → Starts d (show_transaction sdk d)
  unfolding show_transaction
  show_transaction-Starts d r =
      let tx = d.context.transaction in
      let d1 = with_screens (λ s. record s { address = snprintf 35 (c_string tx.dst_address) }) d in
      if-both (Starts d) tx.is_system_asset_transfer
        (subst⁻¹ (Starts d) (transfer_step_shows d r) (show_flow-Starts (texts sdk d.context) d))
        (subst⁻¹ (Starts d) (show_network_shows d r) (
          show_flow-Starts
            (λ s. fees sdk tx (record s { network = network_text d.context.network_magic })) d))

  -- A parsed transaction whose amounts are 64-bit integers is always shown: no amount fails to be printed,
  -- and the flow that starts is the one of transfers exactly for a transaction that is marked as one, else the
  -- one that can only be aborted.
  pub ui_display_transaction-starts :
      (d : Device)
      → d.context.req_type ≡ RequestType.confirm_transaction
      → d.context.state ≡ State.state_parsed
      → Ranges d.context.transaction
      → ((ui_display_transaction sdk d).0 ≡ pos 0)
        × ((ui_display_transaction sdk d).1.flow ≡ (
            if d.context.transaction.is_system_asset_transfer
            then Flow.transaction_flow
            else Flow.abort_flow))
  unfolding ui_display_transaction create_transaction_flow
  ui_display_transaction-starts d request parsed r =
      let shown =
        if_false
          (not (is_transaction sdk d.context.req_type) || not (is_parsed sdk d.context.state)) _
          (show_transaction sdk d) (guard d.context.req_type d.context.state request parsed) in
      subst⁻¹ (Starts d) shown (show_transaction-Starts d r)
    where
      guard :
          (q : RequestType) (s : State)
          → q ≡ RequestType.confirm_transaction
          → s ≡ State.state_parsed
          → (not (is_transaction sdk q) || not (is_parsed sdk s)) ≡ false
      guard q s h k = rw (h, k) refl
