-- ===== src/Device/Handlers/Ranges.antt =====
-- The amounts of a transaction that was read from bytes are 64-bit integers.
use ledger_app_neo.Prelude.{ℕ, ◌^◌, ◌≤◌, ◌<◌, ◌≡◌, ap, arith, List, drop, ℤ, signed}
use mathlib.Core.Path.{subst⁻¹}
use ledger_app_neo.Common.Buffer.View.{number_le}
use ledger_app_neo.Transaction.Types.{Transaction}
use ledger_app_neo.Transaction.Transfer.Script.{
  Pushes, push, pushint8, pushint16, pushint32, pushint64,
}
use ledger_app_neo.Transaction.Deserialize.Runs.Stages.{Fields, fields}
use ledger_app_neo.Transaction.Deserialize.Header.{header_of}
use ledger_app_neo.Ui.Display.{u64_of}
use ledger_app_neo.Ui.Display.Total.{Ranges}

-- The unsigned value of a signed number of at most 64 bits.
u64_of-signed : (half n : ℕ) → half ≤ 2 ^ 63 → u64_of (signed half n) < 2 ^ 64
u64_of-signed half n h = ground arith

Pushes-range : {code : List ℕ} {amount : ℤ} → Pushes code amount → u64_of amount < 2 ^ 64
Pushes-range (push n h) = omega arith
Pushes-range (pushint8 b h) = omega arith
Pushes-range (pushint16 xs h) = u64_of-signed (2 ^ 15) (number_le 2 xs) (omega arith)
Pushes-range (pushint32 xs h) = u64_of-signed (2 ^ 31) (number_le 4 xs) (omega arith)
Pushes-range (pushint64 xs h) = u64_of-signed (2 ^ 63) (number_le 8 xs) (omega arith)

pub fields-Ranges :
    (bytes : List ℕ) (tx : Transaction) {code : List ℕ} {amount : ℤ}
    → fields tx ≡ header_of bytes
    → tx.amount ≡ amount
    → Pushes code amount
    → Ranges tx
fields-Ranges bytes tx header amount_eq pushes =
    let fee : (n : ℕ) → u64_of (signed (2 ^ 63) n) < 2 ^ 64 =
      λ n. u64_of-signed (2 ^ 63) n (omega arith) in
    record {
      system_fee_range =
          subst⁻¹ (λ z. u64_of z < 2 ^ 64) (ap (λ (f : Fields). f.2) header)
            (fee (number_le 8 (drop 5 bytes)));
      network_fee_range =
          subst⁻¹ (λ z. u64_of z < 2 ^ 64) (ap (λ (f : Fields). f.3) header)
            (fee (number_le 8 (drop 13 bytes)));
      amount_range = subst⁻¹ (λ z. u64_of z < 2 ^ 64) amount_eq (Pushes-range pushes);
    }
