-- ===== src/Transaction/Deserialize/Script.antt =====
-- Where transaction/deserialize.c finds the script, and the transfer that is recognised in it.
use ledger_app_neo.Prelude.{
  All-drop, ℕ, ◌+◌, ◌<◌, ◌^◌, ◌≡◌, refl, sym, ap, ◌∙◌, arith, true, false, ◌||◌, ltb, ◌==◌, ==_iff,
  take, drop, Bool-cases, inl, inr, length-drop,
}
use mathlib.Core.Path.{subst, subst⁻¹}
use mathlib.Core.Bool.{false≢true}
use ledger_app_neo.Word.{IsByte, u16}
use ledger_app_neo.Sdk.{Sdk, Compares}
use ledger_app_neo.Common.Buffer.{Buffer}
use ledger_app_neo.Common.Buffer.View.{IsValid}
use ledger_app_neo.Transaction.Types.{Transaction, ParserStatus, address_len}
use ledger_app_neo.Transaction.Transfer.Script.{IsTransfer}
use ledger_app_neo.Ui.Utils.{script_hash_to_address}
use ledger_app_neo.Transaction.Monad.{Parse, Outcome, go, stop, skip}
use ledger_app_neo.Transaction.Monad.Inversion.{>>=-go, go_injective, stop_if-then, skip-Consumes}
use ledger_app_neo.Transaction.Transfer.{try_parse_transfer_script}
use ledger_app_neo.Transaction.Transfer.Recognition.{Transfers, recognised-IsTransfer}
use ledger_app_neo.Transaction.Transfer.Unflagged.{Untouched, try_parse_transfer_script-kept}
use ledger_app_neo.Transaction.Deserialize.{
  read_varint, parse_too_long, parse_header, parse_signers, parse_attributes, parse_script,
  parse_stages, finish, transaction_deserialize, script_buffer,
}
use ledger_app_neo.Transaction.Deserialize.Runs.{is_never_reported, Ran, varint-Runs}
use ledger_app_neo.Transaction.Deserialize.Runs.Stages.{
  Flags, parse_too_long-Runs, parse_header-Runs, parse_signers-Runs, parse_attributes-Runs,
}
use ledger_app_neo.Transaction.Deserialize.Runs.Relations.{
  ran, Moving-Rules, Stores-Moving, parse_stages-flags, Anything, parse_stages-Anything,
}

-- The script ends where the cursor is.
pub record ScriptEnds (p q : Parse) : Type 0 where
  pub valid : IsValid q.buf
  pub same_ptr : q.buf.ptr ≡ p.buf.ptr
  pub same_size : q.buf.size ≡ p.buf.size
  pub ends : q.tx.script + q.tx.script_size ≡ q.buf.offset

short_script : (n : ℕ) → (ltb 0xFFFF n || n == 0) ≡ false → (n < 2 ^ 32) × (u16 n ≡ n)
short_script n h = (ground arith, ground arith)

parse_script-ScriptEnds :
    (p : Parse) {q : Parse} → IsValid p.buf → parse_script p ≡ go tt q → ScriptEnds p q
unfolding parse_script
parse_script-ScriptEnds p {q} v h =
    let (n, a, h1, k1) = >>=-go (read_varint ParserStatus.script_length_parsing_error) _ p h in
    let m = ran (varint-Runs Moving-Rules ParserStatus.script_length_parsing_error refl) p h1 in
    let b : Parse = record a { tx = record (a.tx) { script = a.buf.offset } } in
    let (range, k2) = stop_if-then (ltb 0xFFFF n || n == 0) _ _ b k1 in
    let (small, whole) = short_script n range in
    let (_, c, h3, k3) = >>=-go (skip n ParserStatus.script_length_value_error) _ b k2 in
    let (_, consumed, same, moved) = skip-Consumes n _ b (m.valid v) small h3 in
    let last : record c { tx = record (c.tx) { script_size = u16 n } } ≡ q = (go_injective k3).1 in
    subst (ScriptEnds p) last (record {
      valid = consumed.valid;
      same_ptr = ap (λ (x : Buffer). x.ptr) moved ∙ m.same_ptr;
      same_size = consumed.same_size ∙ m.same_size;
      ends = omega (
        arith,
        whole,
        ap (λ (t : Transaction). t.script) same,
        ap (λ (x : Buffer). x.offset) moved,
      );
    })

pub parse_stages-ScriptEnds :
    (sdk : Sdk) (p : Parse) {q : Parse}
    → IsValid p.buf
    → parse_stages sdk p ≡ go tt q
    → ScriptEnds p q
unfolding parse_stages
parse_stages-ScriptEnds sdk p {q} v h =
    let (_, a, h1, k1) = >>=-go parse_too_long _ p h in
    let (_, b, h2, k2) = >>=-go parse_header _ a k1 in
    let (_, c, h3, k3) = >>=-go (parse_signers sdk) _ b k2 in
    let (_, d, h4, k4) = >>=-go parse_attributes _ c k3 in
    let m1 = ran (parse_too_long-Runs Moving-Rules (λ f k. Stores-Moving f)) p h1 in
    let m2 = ran (parse_header-Runs Moving-Rules (λ f k. Stores-Moving f)) a h2 in
    let m3 = ran (parse_signers-Runs Moving-Rules (λ f k. Stores-Moving f) sdk) b h3 in
    let m4 = ran (parse_attributes-Runs Moving-Rules (λ f k. Stores-Moving f)) c h4 in
    let e = parse_script-ScriptEnds d (m4.valid (m3.valid (m2.valid (m1.valid v)))) k4 in
    record {
      valid = e.valid;
      same_ptr = e.same_ptr ∙ (m4.same_ptr ∙ (m3.same_ptr ∙ (m2.same_ptr ∙ m1.same_ptr)));
      same_size = e.same_size ∙ (m4.same_size ∙ (m3.same_size ∙ (m2.same_size ∙ m1.same_size)));
      ends = e.ends;
    }

pub script_buffer-IsValid : {p q : Parse} → ScriptEnds p q → IsValid (script_buffer q)
script_buffer-IsValid {q = q} e = record {
  in_size = omega arith;
  in_memory = omega (arith, e.ends, e.valid, length-drop q.tx.script q.buf.ptr);
  addressable = omega (arith, e.ends, e.valid);
  bytes = All-drop IsByte q.tx.script q.buf.ptr e.valid.bytes;
}

abbrev pub place : Transaction → ℕ × ℕ
place tx = (tx.script, tx.script_size)

pub place-Untouched : Untouched place
place-Untouched = record {
  amount_kept = λ z tx. refl;
  address_kept = λ xs tx. refl;
  neo_kept = λ neo tx. refl;
}

module _ (sdk : Sdk) (compares : Compares sdk) where
  -- The bytes from the script on, to the end, are a transfer, and its values are stored.
  pub record ScriptTransfers (buf : Buffer) (tx result : Transaction) : Type 0 where
    pub ends : result.script + result.script_size ≡ buf.size
    pub transfers :
        Transfers sdk compares (take result.script_size (drop result.script buf.ptr)) tx result

  module _ (p : Parse) (v : IsValid p.buf) (other : p.tx.is_neo ≡ false)
      (unset : p.tx.is_system_asset_transfer ≡ false) where
    at_the_end :
        {q : Parse}
        → parse_stages sdk p ≡ go tt q
        → q.buf.offset ≡ q.buf.size
        → (try_parse_transfer_script sdk (script_buffer q) q.tx).is_system_asset_transfer ≡ true
        → ScriptTransfers p.buf p.tx (try_parse_transfer_script sdk (script_buffer q) q.tx)
    at_the_end {q} h end flagged =
        let e = parse_stages-ScriptEnds sdk p v h in
        let same = parse_stages-flags sdk p h in
        let result = try_parse_transfer_script sdk (script_buffer q) q.tx in
        let kept =
          try_parse_transfer_script-kept place place-Untouched sdk (λ tx. refl) (script_buffer q)
            q.tx in
        let t =
          recognised-IsTransfer sdk compares (script_buffer q) q.tx (script_buffer-IsValid e) refl
            refl (ap (λ (f : Flags). f.2) same ∙ other) (ap (λ (f : Flags). f.3) same ∙ unset)
            flagged in
        record {
          ends = ap (λ (s : ℕ × ℕ). s.0 + s.1) kept ∙ (e.ends ∙ (end ∙ e.same_size));
          transfers = record {
            amount = t.amount;
            destination = t.destination;
            neo = t.neo;
            is =
                subst⁻¹ (λ code. IsTransfer code t.amount t.destination t.neo)
                  (ap (λ (s : ℕ × ℕ). take s.1 (drop s.0 p.buf.ptr)) kept
                    ∙ ap (λ ptr. take q.tx.script_size (drop q.tx.script ptr)) (sym e.same_ptr))
                  t.is;
            amount_eq = t.amount_eq;
            is_neo_eq = t.is_neo_eq;
            address_eq =
                t.address_eq
                ∙ ap (λ (f : Flags). script_hash_to_address sdk f.1 address_len t.destination) same;
          };
        }

    finish-ScriptTransfers :
        (o : Outcome ParserStatus (Unit {0}))
        → parse_stages sdk p ≡ o
        → Ran Anything p o
        → (finish sdk o).0 ≡ ParserStatus.parsing_ok
        → (finish sdk o).1.tx.is_system_asset_transfer ≡ true
        → ScriptTransfers p.buf p.tx (finish sdk o).1.tx
    unfolding finish
    finish-ScriptTransfers (stop e q) same failed h flagged =
        absurd (false≢true (sym failed ∙ ap is_never_reported h))
    finish-ScriptTransfers (go tt q) same _ h flagged =
        elim (Bool-cases (q.buf.offset == q.buf.size)) [
          | inl end ↦ at_the_end same ((==_iff q.buf.offset q.buf.size).0 end) flagged
          | inr early ↦ absurd (false≢true (ap is_never_reported (rw early at h)))
        ]

  -- With a comparison that behaves as documented, from a valid buffer into a transaction with the flags
  -- unset: where success is reported and the script is marked as a transfer, the script is the last
  -- bytes of the buffer, these are a call of `transfer` on NEO or GAS, and the stored amount, asset
  -- and address are those of that call.
  pub transaction_deserialize-ScriptTransfers :
      (buf : Buffer) (tx : Transaction)
      → IsValid buf
      → tx.is_neo ≡ false
      → tx.is_system_asset_transfer ≡ false
      → (transaction_deserialize sdk buf tx).0 ≡ ParserStatus.parsing_ok
      → (transaction_deserialize sdk buf tx).1.tx.is_system_asset_transfer ≡ true
      → ScriptTransfers buf tx (transaction_deserialize sdk buf tx).1.tx
  unfolding transaction_deserialize
  transaction_deserialize-ScriptTransfers buf tx v other unset h flagged =
      let p : Parse = record { buf = buf; tx = tx } in
      finish-ScriptTransfers p v other unset (parse_stages sdk p) refl
        ((parse_stages-Anything sdk).runs p) h flagged
