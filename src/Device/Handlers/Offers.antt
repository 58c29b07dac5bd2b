-- ===== src/Device/Handlers/Offers.antt =====
-- Every transfer that is sent through handler/sign_tx.c is shown for approval.
use ledger_app_neo.Prelude.{
  ℕ, ◌≡◌, refl, ap, ◌∙◌, arith, Bool, List, take, length, if◌then◌else◌, ℤ,
}
use mathlib.Core.Path.{subst⁻¹}
use ledger_app_neo.Sdk.{Sdk, Compares}
use ledger_app_neo.Common.Buffer.View.{IsValid, remaining}
use ledger_app_neo.Transaction.Types.{Transaction}
use ledger_app_neo.Transaction.Transfer.Script.{IsTransfer}
use ledger_app_neo.Transaction.Deserialize.{transaction_deserialize}
use ledger_app_neo.Transaction.Deserialize.Header.{transaction_deserialize-header_of}
use ledger_app_neo.Transaction.Deserialize.Layout.{TransactionCode}
use ledger_app_neo.Transaction.Deserialize.Complete.Reads.{Fresh}
use ledger_app_neo.Transaction.Deserialize.Complete.{transaction_deserialize-AcceptsTransfer}
use ledger_app_neo.Ui.Display.Total.{ui_display_transaction-starts}
use ledger_app_neo.Device.Context.{Device, Flow}
use ledger_app_neo.Device.Io.{over}
use ledger_app_neo.Device.Io.Kept.{inner}
use ledger_app_neo.Device.Handlers.{parse_and_show, after_parsing}
use ledger_app_neo.Device.Handlers.Collecting.{Collecting}
use ledger_app_neo.Device.Handlers.Ranges.{fields-Ranges}
use ledger_app_neo.Device.Handlers.Presented.{ready_to_show}

module _ (sdk : Sdk) (compares : Compares sdk) where
  pub parse_and_show-offers :
      {m : ℕ} {bytes : List ℕ} (d : Device) (script : List ℕ) (amount : ℤ) (destination : List ℕ)
      (neo : Bool)
      → Collecting m bytes (inner d)
      → TransactionCode bytes script
      → IsTransfer script amount destination neo
      → (parse_and_show sdk d).1.flow ≡ Flow.transaction_flow
  unfolding parse_and_show after_parsing
  parse_and_show-offers {bytes = bytes} d script amount destination neo h code transfer =
      let c = d.context in
      let buf = over c.raw_tx c.raw_tx_len in
      let v : IsValid buf = record {
        in_size = omega arith;
        in_memory = omega (arith, h.holds);
        addressable = omega (arith, h.holds);
        bytes = h.all_bytes;
      } in
      let fresh : Fresh c.transaction = (
        ap (λ (t : Transaction). length t.signers) h.unparsed,
        ap (λ (t : Transaction). t.attributes) h.unparsed,
      ) in
      let received : remaining buf ≡ bytes = ap (λ n. take n c.raw_tx) (omega arith) ∙ h.received in
      let a =
        transaction_deserialize-AcceptsTransfer sdk compares buf c.transaction script amount
          destination neo (omega (arith, h.holds)) v fresh
          (subst⁻¹ (λ xs. TransactionCode xs script) received code) transfer in
      let header = transaction_deserialize-header_of sdk buf c.transaction v a.status_eq in
      let tx = (transaction_deserialize sdk buf c.transaction).1.tx in
      let ranges = fields-Ranges (remaining buf) tx header a.amount_eq transfer.pushes in
      let shown =
        ui_display_transaction-starts sdk (ready_to_show sdk tx d) h.request refl ranges in
      rw a.status_eq (
        shown.1
        ∙ ap (λ flagged. if flagged then Flow.transaction_flow else Flow.abort_flow) a.flag_eq)
