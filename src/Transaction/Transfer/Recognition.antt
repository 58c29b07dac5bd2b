-- ===== src/Transaction/Transfer/Recognition.antt =====
-- A script that tx_utils.c takes for a transfer is one.
use ledger_app_neo.Prelude.{
  ℕ, ◌-◌, ◌≡◌, refl, sym, ap, ◌∙◌, arith, Bool, true, false, not, ◌||◌, List, [], ◌∷◌, ◌++◌,
  append-nil, take, drop, ◌==◌, ==_iff, ℤ,
}
use mathlib.Core.Path.{subst, subst⁻¹}
use mathlib.Core.Bool.{false≢true}
use ledger_app_neo.Sdk.{Sdk, Compares}
use ledger_app_neo.Common.Buffer.{Buffer, buffer_read_u8}
use ledger_app_neo.Common.Buffer.View.{IsValid, remaining}
use ledger_app_neo.Ui.Utils.{script_hash_to_address}
use ledger_app_neo.Transaction.Types.{Transaction, address_len}
use ledger_app_neo.Transaction.Monad.{Parse, Outcome, go, stop, ◌>>=◌, ◌>>◌, stop_if, read_value}
use ledger_app_neo.Transaction.Monad.Inversion.{stop_if-then, Consumes-trans, >>=-go}
use ledger_app_neo.Transaction.Transfer.{
  Step, parse_amount, parse_transfer, try_parse_transfer_script, filled,
}
use ledger_app_neo.Transaction.Transfer.Script.{transfer_code, IsTransfer}
use ledger_app_neo.Transaction.Transfer.Stages.{Amount, with_amount, parse_amount-Amount}
use ledger_app_neo.Transaction.Transfer.Parts.{Reads, not-not}
use ledger_app_neo.Transaction.Transfer.Unflagged.{
  is_transfer, is_transfer-Untouched, parse_transfer-StopKeeps,
}
use ledger_app_neo.Transaction.Transfer.Sound.{
  Call, from_destination, from_destination-Call, read_byte-Reads,
}
use ledger_app_neo.Transaction.Monad.Keeps.{Stopped}

or_false : (b : Bool) → (b || false) ≡ b
or_false true = refl
or_false false = refl

module _ (sdk : Sdk) (compares : Compares sdk) where
  -- The script from its first byte on.
  pub record Recognised (p p' : Parse) : Type 0 where
    pub amount : ℤ
    pub destination : List ℕ
    pub neo : Bool
    pub code : List ℕ
    pub is : IsTransfer code amount destination neo
    pub split : remaining p.buf ≡ code ++ remaining p'.buf
    pub at_end : p'.buf.offset ≡ p.tx.script_size
    pub same_size : p'.buf.size ≡ p.buf.size
    pub stored : p'.tx ≡ record (p.tx) {
      amount = amount;
      dst_address = script_hash_to_address sdk p.tx.dst_address address_len destination;
      is_neo = neo || p.tx.is_neo;
      is_system_asset_transfer = true;
    }

  abbrev from_amount : Step (Unit {0})
  from_amount = read_value buffer_read_u8 tt >>= λ opcode.
      parse_amount opcode >> from_destination sdk compares

  recognise :
      {p a c d p' : Parse} {first opcode : ℕ}
      → Reads p (first ∷ []) a
      → first ≡ 0x0B
      → Reads a (opcode ∷ []) c
      → Amount opcode c d
      → Call sdk compares d p'
      → Recognised p p'
  recognise {p} {p' = p'} {opcode = opcode} one first_eq two three call =
      let all =
        Consumes-trans one.consumed
          (Consumes-trans two.consumed (Consumes-trans three.consumed call.consumed)) in
      let code = transfer_code (opcode ∷ three.operand) call.destination call.source call.neo in
      let kept = three.stored ∙ ap (with_amount three.amount) (two.kept ∙ one.kept) in
      let stored_eq =
        call.stored
        ∙ ap
            (λ (tx : Transaction). record tx {
              dst_address = script_hash_to_address sdk tx.dst_address address_len call.destination;
              is_neo = call.neo || tx.is_neo;
              is_system_asset_transfer = true;
            })
            kept in
      record {
        amount = three.amount;
        destination = call.destination;
        neo = call.neo;
        code = code;
        is = record {
          pushed = opcode ∷ three.operand;
          source = call.source;
          pushes = three.pushes;
          destination_length = call.destination_length;
          source_length = call.source_length;
          code_eq = refl;
        };
        split = all.split ∙ ap (λ b. (b ∷ drop 1 code) ++ remaining p'.buf) first_eq;
        at_end = call.at_end ∙ ap (λ (tx : Transaction). tx.script_size) stored_eq;
        same_size = all.same_size;
        stored = stored_eq;
      }

  pub parse_transfer-Recognised :
      (p : Parse) {p' : Parse} → IsValid p.buf → parse_transfer sdk p ≡ go tt p' → Recognised p p'
  unfolding parse_transfer
  parse_transfer-Recognised p {p'} v h =
      let (first, a, h1, k1) =
        >>=-go (read_value buffer_read_u8 tt)
          (λ first. stop_if (not (first == 0xB)) tt >> from_amount) p h in
      let one = read_byte-Reads p v h1 in
      let (is, k2) = stop_if-then (not (first == 0xB)) tt from_amount a k1 in
      let first_eq : first ≡ 0xB = (==_iff first 0xB).0 (not-not _ is) in
      let (opcode, c, h3, k3) =
        >>=-go (read_value buffer_read_u8 tt)
          (λ opcode. parse_amount opcode >> from_destination sdk compares) a k2 in
      let two = read_byte-Reads a one.consumed.valid h3 in
      let (_, d, h4, k4) = >>=-go (parse_amount opcode) (λ _. from_destination sdk compares) c k3 in
      let three = parse_amount-Amount c two.consumed.valid opcode h4 in
      let call = from_destination-Call sdk compares d three.consumed.valid k4 in
      recognise one first_eq two three call

  -- What the recognition of a script has stored, and what the script is.
  pub record Transfers (code : List ℕ) (tx result : Transaction) : Type 0 where
    pub amount : ℤ
    pub destination : List ℕ
    pub neo : Bool
    pub is : IsTransfer code amount destination neo
    pub amount_eq : result.amount ≡ amount
    pub is_neo_eq : result.is_neo ≡ neo
    pub address_eq :
        result.dst_address ≡ script_hash_to_address sdk tx.dst_address address_len destination

  whole_script :
      {p p' : Parse}
      → Recognised p p'
      → p.buf.offset ≡ 0
      → p.tx.script_size ≡ p.buf.size
      → p.tx.is_neo ≡ false
      → Transfers (take p.buf.size p.buf.ptr) p.tx p'.tx
  whole_script {p} {p'} r at_start size other =
      let nothing_left : p'.buf.size - p'.buf.offset ≡ 0 =
        omega (arith, r.same_size, r.at_end, size) in
      let rest : remaining p'.buf ≡ [] =
        ap (λ n. take n (drop p'.buf.offset p'.buf.ptr)) nothing_left in
      let all : remaining p.buf ≡ take p.buf.size p.buf.ptr =
        ap (λ n. take (p.buf.size - n) (drop n p.buf.ptr)) at_start
        ∙ ap (λ n. take n p.buf.ptr) (omega arith) in
      let code_eq : take p.buf.size p.buf.ptr ≡ r.code =
        sym all ∙ (r.split ∙ (ap (◌++◌ r.code) rest ∙ append-nil r.code)) in
      record {
        amount = r.amount;
        destination = r.destination;
        neo = r.neo;
        is = subst⁻¹ (λ xs. IsTransfer xs r.amount r.destination r.neo) code_eq r.is;
        amount_eq = ap (λ (t : Transaction). t.amount) r.stored;
        is_neo_eq =
            ap (λ (t : Transaction). t.is_neo) r.stored ∙ (ap (◌||◌ r.neo) other ∙ or_false r.neo);
        address_eq = ap (λ (t : Transaction). t.dst_address) r.stored;
      }

  conclude :
      (p : Parse) (o : Outcome (Unit {0}) (Unit {0}))
      → parse_transfer sdk p ≡ o
      → IsValid p.buf
      → p.buf.offset ≡ 0
      → p.tx.script_size ≡ p.buf.size
      → p.tx.is_neo ≡ false
      → p.tx.is_system_asset_transfer ≡ false
      → is_transfer (filled sdk o) ≡ true
      → Transfers (take p.buf.size p.buf.ptr) p.tx (filled sdk o)
  conclude p (go tt p') e v at_start size other unset h =
      whole_script (parse_transfer-Recognised p v e) at_start size other
  conclude p (stop tt p') e v at_start size other unset h =
      let kept = (parse_transfer-StopKeeps is_transfer is_transfer-Untouched sdk).stopped p in
      let same = subst (Stopped is_transfer (is_transfer p.tx)) e kept in
      absurd (false≢true (sym unset ∙ (sym same ∙ h)))

  -- With a comparison that behaves as documented, on a valid buffer over the whole script, of the size that
  -- the transaction has for it, and with the flags unset: where the script ends up marked as a
  -- transfer, it is from its first to its last byte a call of `transfer` on NEO or GAS, and the amount,
  -- the asset and the address that were stored are those of that call, in which the operand of
  -- PUSHINT8 counts as unsigned.
  pub recognised-IsTransfer :
      (script : Buffer) (tx : Transaction)
      → IsValid script
      → script.offset ≡ 0
      → tx.script_size ≡ script.size
      → tx.is_neo ≡ false
      → tx.is_system_asset_transfer ≡ false
      → (try_parse_transfer_script sdk script tx).is_system_asset_transfer ≡ true
      → Transfers (take script.size script.ptr) tx (try_parse_transfer_script sdk script tx)
  unfolding try_parse_transfer_script
  recognised-IsTransfer script tx v at_start size other unset h =
      let p : Parse = record { buf = script; tx = tx } in
      conclude p (parse_transfer sdk p) refl v at_start size other unset h
