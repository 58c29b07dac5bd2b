-- ===== src/Ui/Display.antt =====
-- ui/display.c: the checks and the texts before an address or a transaction is shown.
pub mod Shown
pub mod Total
pub mod Sound
pub mod Readable
use ledger_app_neo.Prelude.{
  ℕ, zero, suc, ◌+◌, ◌-◌, ◌/◌, ◌%◌, ◌^◌, ◌||◌, Bool, true, false, List, [], ◌∷◌, ◌++◌, take,
  replicate, ltb, ◌==◌, not, if◌then◌else◌, ℤ, pos, negsuc, signed,
}
use ledger_app_neo.Word.{u64}
use ledger_app_neo.Sdk.{Sdk}
use ledger_app_neo.Common.Format.{format_fpu64, c_string}
use ledger_app_neo.Transaction.Types.{Transaction, address_len}
use ledger_app_neo.Ui.Signers.{reset_signer_display_state}
use ledger_app_neo.Ui.Utils.{address_from_pubkey}
use ledger_app_neo.Device.Context.{
  Device, Screens, State, RequestType, Callback, Flow, raw_public_key, set_state, sw_bad_state,
  sw_convert_to_address_fail, sw_display_system_fee_fail, sw_display_network_fee_fail,
  sw_display_total_fee_fail, sw_display_token_transfer_amount_fail,
}
use ledger_app_neo.Device.Io.{Reply, io_send_sw}

abbrev pub network_mainnet : ℕ
network_mainnet = 860833102

abbrev pub network_testnet : ℕ
network_testnet = 877933390

-- `snprintf (dst, size, …)` keeps the first `size - 1` characters of the text.
abbrev pub snprintf : ℕ → List ℕ → List ℕ
snprintf size text = take (size - 1) text

-- `%d` of a 32-bit value: the decimal digits, least significant first, then reversed by the prefix.
unfoldable pub decimal : ℕ → ℕ → List ℕ → List ℕ
decimal zero n suffix = suffix
decimal (suc fuel) n suffix =
    let longer = decimal fuel (n / 10) ((n % 10 + b'0') ∷ suffix) in
    if ltb n 10 then (n + b'0') ∷ suffix else longer

abbrev pub decimal_int : ℤ → List ℕ
decimal_int (pos n) = decimal 10 n []
decimal_int (negsuc n) = b'-' ∷ decimal 10 (n + 1) []

abbrev pub format_int : ℕ → List ℕ
format_int word = decimal_int (signed (2 ^ 31) word)

-- `(uint64_t) z` of an `int64_t`.
abbrev pub u64_of : ℤ → ℕ
u64_of (pos n) = n
u64_of (negsuc n) = 2 ^ 64 - 1 - n

abbrev pub gas_text : List ℕ
gas_text = 71 ∷ 65 ∷ 83 ∷ 32 ∷ []

abbrev pub neo_text : List ℕ
neo_text = 78 ∷ 69 ∷ 79 ∷ 32 ∷ []

-- `format_fpu64` into 30 zeroed bytes.
abbrev pub amount_text : ℕ → ℕ → Bool × List ℕ
amount_text value decimals = format_fpu64 (replicate 30 0) 30 value decimals

-- "GAS %.*s" or "NEO %.*s".
abbrev pub labelled : List ℕ → List ℕ → List ℕ
labelled label buffer = label ++ c_string (take 30 buffer)

abbrev pub network_text : ℕ → List ℕ
network_text magic =
    if magic == network_mainnet
    then snprintf 11 (77 ∷ 97 ∷ 105 ∷ 110 ∷ 78 ∷ 101 ∷ 116 ∷ [])
    else if magic == network_testnet
    then snprintf 11 (84 ∷ 101 ∷ 115 ∷ 116 ∷ 78 ∷ 101 ∷ 116 ∷ [])
    else snprintf 11 (format_int magic)

abbrev pub with_screens : (Screens → Screens) → Device → Device
with_screens f d = record d { screens = f d.screens }

-- The flow that `create_transaction_flow` builds: only transfers can be approved.
unfoldable pub create_transaction_flow : Transaction → Flow
create_transaction_flow tx =
    if tx.is_system_asset_transfer then Flow.transaction_flow else Flow.abort_flow

module _ (sdk : Sdk) where
  -- A text by `format_fpu64`, or the status word that reports that it does not fit; the old text is cleared
  -- before.
  abbrev pub show_amount :
      ℕ → ℕ → List ℕ → ℕ → ℕ → (List ℕ → Screens → Screens) → (Device → Reply) → Device → Reply
  show_amount value decimals label size failure store next d =
      let (printed, buffer) = amount_text value decimals in
      if printed
      then next (with_screens (store (snprintf size (labelled label buffer))) d)
      else io_send_sw sdk failure (with_screens (store []) d)

  -- `ux_flow_init` of the flow, with its callback, at the first dynamic screen.
  unfoldable pub show_flow : Device → Reply
  unfolding create_transaction_flow
  show_flow d = (
    pos 0,
    record d {
      callback = Callback.validate_transaction;
      flow = create_transaction_flow d.context.transaction;
      display = reset_signer_display_state;
    },
  )

  -- The fees and the last block.
  unfoldable pub show_fees : Device → Reply
  unfolding show_flow
  show_fees d =
      let tx = d.context.transaction in
      show_amount (u64_of tx.system_fee) 8 gas_text 30 sw_display_system_fee_fail
        (λ t s. record s { system_fee = t })
        (show_amount (u64_of tx.network_fee) 8 gas_text 30 sw_display_network_fee_fail
          (λ t s. record s { network_fee = t })
          (show_amount (u64 (u64_of tx.network_fee + u64_of tx.system_fee)) 8 gas_text 30
            sw_display_total_fee_fail (λ t s. record s { total_fees = t })
            (λ d'. show_flow (
              with_screens
                (λ s. record s {
                  valid_until_block = snprintf 11 (format_int tx.valid_until_block);
                })
                d'))))
        d

  unfoldable pub show_network : Device → Reply
  unfolding show_fees
  show_network d =
      show_fees (with_screens (λ s. record s { network = network_text d.context.network_magic }) d)

  -- The destination and the amount of a transfer, then the rest.
  unfoldable pub show_transaction : Device → Reply
  unfolding show_network
  show_transaction d =
      let tx = d.context.transaction in
      if tx.is_system_asset_transfer
      then show_amount (u64_of tx.amount) (if tx.is_neo then 0 else 8)
          (if tx.is_neo then neo_text else gas_text) 64 sw_display_token_transfer_amount_fail
          (λ t s. record s { text = t }) show_network
          (with_screens (λ s. record s { address = snprintf 35 (c_string tx.dst_address) }) d)
      else show_network d

  abbrev pub is_parsed : State → Bool
  is_parsed State.state_parsed = true
  is_parsed _ = false

  abbrev pub is_none : State → Bool
  is_none State.state_none = true
  is_none _ = false

  abbrev pub is_transaction : RequestType → Bool
  is_transaction RequestType.confirm_transaction = true
  is_transaction RequestType.confirm_address = false

  unfoldable pub ui_display_transaction : Device → Reply
  unfolding show_transaction
  ui_display_transaction d =
      if not (is_transaction d.context.req_type) || not (is_parsed d.context.state)
      then io_send_sw sdk sw_bad_state (set_state State.state_none d)
      else show_transaction d

  unfoldable pub ui_display_address : Device → Reply
  ui_display_address d =
      if is_transaction d.context.req_type || not (is_none d.context.state)
      then io_send_sw sdk sw_bad_state (set_state State.state_none d)
      else (let (converted, address) =
            address_from_pubkey sdk (raw_public_key d.context) (replicate address_len 0)
              address_len in
          if converted
          then (
            pos 0,
            record (with_screens (λ s. record s { address = snprintf 35 (c_string address) }) d) {
              callback = Callback.validate_pubkey;
              flow = Flow.pubkey_flow;
            },
          )
          else io_send_sw sdk sw_convert_to_address_fail
              (with_screens (λ s. record s { address = [] }) d))
