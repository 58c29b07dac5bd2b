-- ===== src/Ui/Display/Shown.antt =====
-- What ui/display.c shows when it ends with the flow that can be approved.
use ledger_app_neo.Prelude.{
  if_true, if_false, ℕ, ◌+◌, ◌≡◌, refl, sym, ap, ◌∙◌, Bool, true, not, ◌||◌, List, [], Bool-cases,
  inl, inr, if◌then◌else◌,
}
use mathlib.Core.Path.{subst⁻¹}
use mathlib.Core.Bool.{false≢true}
use ledger_app_neo.Word.{u64}
use ledger_app_neo.Sdk.{Sdk}
use ledger_app_neo.Common.Format.{c_string}
use ledger_app_neo.Transaction.Types.{Transaction}
use ledger_app_neo.Device.Context.{
  Context, Device, Screens, Callback, Flow, set_state, State, sw_bad_state,
  sw_display_system_fee_fail, sw_display_network_fee_fail, sw_display_total_fee_fail,
  sw_display_token_transfer_amount_fail,
}
use ledger_app_neo.Device.Io.{Reply, io_send_sw}
use ledger_app_neo.Device.Io.Kept.{io_send_sw_flow}
use ledger_app_neo.Ui.Display.{
  snprintf, format_int, u64_of, gas_text, neo_text, amount_text, labelled, network_text,
  with_screens, create_transaction_flow, show_amount, show_flow, show_fees, show_network,
  show_transaction, ui_display_transaction, is_transaction, is_parsed,
}

abbrev Approvable : Device → Type 0
Approvable d = d.flow ≡ Flow.transaction_flow

abbrev InMenu : Device → Type 0
InMenu d = d.flow ≡ Flow.menu_flow

menu-not : (d : Device) → InMenu d → Approvable d → ⊥
menu-not d h k = cc

-- A fee's text, and an amount's.
abbrev pub fee_line : ℕ → List ℕ
fee_line value = snprintf 30 (labelled gas_text (amount_text value 8).1)

abbrev pub amount_line : Bool → ℕ → List ℕ
amount_line neo value =
    snprintf 64
      (labelled (if neo then neo_text else gas_text) (amount_text value (if neo then 0 else 8)).1)

module _ (sdk : Sdk) where
  show_amount_printed :
      (value decimals : ℕ) (label : List ℕ) (size failure : ℕ) (store : List ℕ → Screens → Screens)
      (next : Device → Reply) (d : Device)
      → InMenu d
      → Approvable (show_amount sdk value decimals label size failure store next d).1
      → show_amount sdk value decimals label size failure store next d
        ≡ next
            (with_screens (store (snprintf size (labelled label (amount_text value decimals).1))) d)
  show_amount_printed value decimals label size failure store next d menu h =
      elim (Bool-cases (amount_text value decimals).0) [
        | inl printed ↦ rw printed
        | inr failed ↦ absurd (
            let cleared = with_screens (store []) d in
            menu-not (io_send_sw sdk failure cleared).1 (io_send_sw_flow sdk failure cleared ∙ menu)
              (rw failed at h))
      ]

  -- The steps of `show_fees` behind its first one.
  abbrev pub until_step : Transaction → Device → Reply
  until_step tx d = show_flow sdk (
      with_screens
        (λ s. record s { valid_until_block = snprintf 11 (format_int tx.valid_until_block) }) d)

  abbrev pub total_step : Transaction → Device → Reply
  total_step tx d =
      show_amount sdk (u64 (u64_of tx.network_fee + u64_of tx.system_fee)) 8 gas_text 30
        sw_display_total_fee_fail (λ t s. record s { total_fees = t }) (until_step tx) d

  abbrev pub network_step : Transaction → Device → Reply
  network_step tx d =
      show_amount sdk (u64_of tx.network_fee) 8 gas_text 30 sw_display_network_fee_fail
        (λ t s. record s { network_fee = t }) (total_step tx) d

  abbrev pub fees : Transaction → Screens → Screens
  fees tx s = record s {
    system_fee = fee_line (u64_of tx.system_fee);
    network_fee = fee_line (u64_of tx.network_fee);
    total_fees = fee_line (u64 (u64_of tx.network_fee + u64_of tx.system_fee));
    valid_until_block = snprintf 11 (format_int tx.valid_until_block);
  }

  show_fees_shown :
      (d : Device)
      → InMenu d
      → Approvable (show_fees sdk d).1
      → show_fees sdk d ≡ show_flow sdk (with_screens (fees d.context.transaction) d)
  unfolding show_fees
  show_fees_shown d menu h =
      let tx = d.context.transaction in
      let e1 =
        show_amount_printed (u64_of tx.system_fee) 8 gas_text 30 sw_display_system_fee_fail
          (λ t s. record s { system_fee = t }) (network_step tx) d menu h in
      let d1 = with_screens (λ s. record s { system_fee = fee_line (u64_of tx.system_fee) }) d in
      let e2 =
        show_amount_printed (u64_of tx.network_fee) 8 gas_text 30 sw_display_network_fee_fail
          (λ t s. record s { network_fee = t }) (total_step tx) d1 menu
          (ap (λ (r : Reply). r.1.flow) (sym e1) ∙ h) in
      let d2 = with_screens (λ s. record s { network_fee = fee_line (u64_of tx.network_fee) }) d1 in
      let e3 =
        show_amount_printed (u64 (u64_of tx.network_fee + u64_of tx.system_fee)) 8 gas_text 30
          sw_display_total_fee_fail (λ t s. record s { total_fees = t }) (until_step tx) d2 menu
          (ap (λ (r : Reply). r.1.flow) (sym e2 ∙ sym e1) ∙ h) in
      e1 ∙ (e2 ∙ e3)

  -- The texts of a transfer, and the callback that its approval calls.
  pub record Shown (c : Context) (d : Device) : Type 0 where
    pub is_transfer : c.transaction.is_system_asset_transfer ≡ true
    pub context_eq : d.context ≡ c
    pub callback_eq : d.callback ≡ Callback.validate_transaction
    pub address_eq : d.screens.address ≡ snprintf 35 (c_string c.transaction.dst_address)
    pub text_eq : d.screens.text ≡ amount_line c.transaction.is_neo (u64_of c.transaction.amount)
    pub network_eq : d.screens.network ≡ network_text c.network_magic
    pub system_fee_eq : d.screens.system_fee ≡ fee_line (u64_of c.transaction.system_fee)
    pub network_fee_eq : d.screens.network_fee ≡ fee_line (u64_of c.transaction.network_fee)
    pub total_fees_eq :
        d.screens.total_fees
        ≡ fee_line (u64 (u64_of c.transaction.network_fee + u64_of c.transaction.system_fee))
    pub valid_until_block_eq :
        d.screens.valid_until_block ≡ snprintf 11 (format_int c.transaction.valid_until_block)

  show_flow_transfer :
      (d : Device)
      → Approvable (show_flow sdk d).1
      → d.context.transaction.is_system_asset_transfer ≡ true
  unfolding show_flow create_transaction_flow
  show_flow_transfer d h = elim (Bool-cases d.context.transaction.is_system_asset_transfer) [
    | inl is ↦ is
    | inr other ↦ cc (rw other at h)
  ]

  show_network_shown :
      (d : Device)
      → InMenu d
      → Approvable (show_network sdk d).1
      → show_network sdk d
        ≡ show_flow sdk (
            with_screens
              (λ s.
                fees d.context.transaction
                  (record s { network = network_text d.context.network_magic }))
              d)
  unfolding show_network
  show_network_shown d menu h =
      show_fees_shown
        (with_screens (λ s. record s { network = network_text d.context.network_magic }) d) menu h

  show_network-transfer :
      (d : Device)
      → InMenu d
      → Approvable (show_network sdk d).1
      → d.context.transaction.is_system_asset_transfer ≡ true
  show_network-transfer d menu h =
      show_flow_transfer
        (with_screens
          (λ s.
            fees d.context.transaction
              (record s { network = network_text d.context.network_magic }))
          d)
        (ap (λ (r : Reply). r.1.flow) (sym (show_network_shown d menu h)) ∙ h)

  -- The device when the flow of a transfer starts.
  abbrev pub texts : Context → Screens → Screens
  texts c s =
      let tx = c.transaction in
      fees tx (record s {
        address = snprintf 35 (c_string tx.dst_address);
        text = amount_line tx.is_neo (u64_of tx.amount);
        network = network_text c.network_magic;
      })

  show_flow-Shown :
      (d : Device)
      → d.context.transaction.is_system_asset_transfer ≡ true
      → Shown d.context (show_flow sdk (with_screens (texts d.context) d)).1
  unfolding show_flow
  show_flow-Shown d is = record {
    is_transfer = is;
    context_eq = refl;
    callback_eq = refl;
    address_eq = refl;
    text_eq = refl;
    network_eq = refl;
    system_fee_eq = refl;
    network_fee_eq = refl;
    total_fees_eq = refl;
    valid_until_block_eq = refl;
  }

  abbrev pub transfer_step : Transaction → Device → Reply
  transfer_step tx d =
      show_amount sdk (u64_of tx.amount) (if tx.is_neo then 0 else 8)
        (if tx.is_neo then neo_text else gas_text) 64 sw_display_token_transfer_amount_fail
        (λ t s. record s { text = t }) (show_network sdk) d

  show_transaction-transfer :
      (d : Device)
      → InMenu d
      → Approvable (show_transaction sdk d).1
      → d.context.transaction.is_system_asset_transfer ≡ true
      → show_transaction sdk d ≡ show_flow sdk (with_screens (texts d.context) d)
  unfolding show_transaction
  show_transaction-transfer d menu h is =
      let tx = d.context.transaction in
      let d1 = with_screens (λ s. record s { address = snprintf 35 (c_string tx.dst_address) }) d in
      let d2 =
        with_screens (λ s. record s { text = amount_line tx.is_neo (u64_of tx.amount) }) d1 in
      let e0 : show_transaction sdk d ≡ transfer_step tx d1 =
        if_true tx.is_system_asset_transfer (transfer_step tx d1) (show_network sdk d) is in
      let h1 : Approvable (transfer_step tx d1).1 = ap (λ (r : Reply). r.1.flow) (sym e0) ∙ h in
      let e =
        show_amount_printed (u64_of tx.amount) (if tx.is_neo then 0 else 8)
          (if tx.is_neo then neo_text else gas_text) 64 sw_display_token_transfer_amount_fail
          (λ t s. record s { text = t }) (show_network sdk) d1 menu h1 in
      e0 ∙ (e ∙ show_network_shown d2 menu (ap (λ (r : Reply). r.1.flow) (sym e) ∙ h1))

  show_transaction-Shown :
      (d : Device)
      → InMenu d
      → Approvable (show_transaction sdk d).1
      → Shown d.context (show_transaction sdk d).1
  unfolding show_transaction
  show_transaction-Shown d menu h =
      elim (Bool-cases d.context.transaction.is_system_asset_transfer) [
        | inl is ↦
            subst⁻¹ (λ (r : Reply). Shown d.context r.1) (show_transaction-transfer d menu h is)
              (show_flow-Shown d is)
        | inr other ↦
            let d1 =
              with_screens
                (λ s. record s {
                  address = snprintf 35 (c_string d.context.transaction.dst_address);
                })
                d in
            let e =
              if_false d.context.transaction.is_system_asset_transfer
                (transfer_step d.context.transaction d1) (show_network sdk d) other in
            let k : Approvable (show_network sdk d).1 = ap (λ (r : Reply). r.1.flow) (sym e) ∙ h in
            absurd (false≢true (sym other ∙ show_network-transfer d menu k))
      ]

  -- Where the menu was shown and the transaction's display ends with the flow that can be approved: the
  -- transaction is marked as a transfer, and the texts are those of its destination, amount, network,
  -- fees and last block.
  pub ui_display_transaction-Shown :
      (d : Device)
      → d.flow ≡ Flow.menu_flow
      → (ui_display_transaction sdk d).1.flow ≡ Flow.transaction_flow
      → Shown d.context (ui_display_transaction sdk d).1
  unfolding ui_display_transaction
  ui_display_transaction-Shown d menu h =
      elim (Bool-cases
        (not (is_transaction sdk d.context.req_type) || not (is_parsed sdk d.context.state))) [
          | inl refused ↦
              let d' = set_state State.state_none d in
              absurd (
                menu-not (io_send_sw sdk sw_bad_state d').1
                  (io_send_sw_flow sdk sw_bad_state d' ∙ menu) (rw refused at h))
          | inr shown ↦ rw shown (show_transaction-Shown d menu (rw shown at h))
        ]
