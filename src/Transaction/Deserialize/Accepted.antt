-- ===== src/Transaction/Deserialize/Accepted.antt =====
-- What a transaction that transaction/deserialize.c accepts looks like.
use ledger_app_neo.Prelude.{
  ℕ, ◌≤◌, ◌≡◌, ◌≢◌, refl, sym, ap, ◌∙◌, arith, ltb, ltb→le, ◌==◌, ==_iff, Bool-cases, inl, inr,
}
use mathlib.Core.Bool.{false≢true}
use ledger_app_neo.Sdk.{Sdk}
use ledger_app_neo.Common.Buffer.{Buffer}
use ledger_app_neo.Transaction.Types.{Transaction, ParserStatus}
use ledger_app_neo.Transaction.Monad.{Parse, Outcome, go, stop}
use ledger_app_neo.Transaction.Monad.Inversion.{>>=-go, stop_if-go}
use ledger_app_neo.Transaction.Transfer.Unflagged.{Untouched, try_parse_transfer_script-kept}
use ledger_app_neo.Transaction.Deserialize.{
  parse_too_long, parse_header, parse_signers, parse_attributes, parse_stages, finish,
  transaction_deserialize, max_transaction_len, script_buffer,
}
use ledger_app_neo.Transaction.Deserialize.WellFormed.{
  HeaderOk, Header, moved, upto_attributes, parse_header-HeaderOk, parse_signers_lem,
  parse_attributes_lem, parse_script_lem,
}
use ledger_app_neo.Transaction.Deserialize.Runs.{is_never_reported, Ran}
use ledger_app_neo.Transaction.Deserialize.Runs.Relations.{Anything, parse_stages-Anything}

-- The values that the format allows.
pub record IsWellFormed (tx : Transaction) : Type 0 where
  pub header_ok : HeaderOk tx
  pub some_signer : 1 ≤ tx.signers_size
  pub few_signers : tx.signers_size ≤ 2
  pub few_attributes : tx.attributes_size ≤ 2
  pub some_script : 1 ≤ tx.script_size

abbrev sizes : Transaction → ((Header × ℕ) × ℕ) × ℕ
sizes tx = (upto_attributes tx, tx.script_size)

unchanged : {t t' : Transaction} → sizes t' ≡ sizes t → IsWellFormed t → IsWellFormed t'
unchanged e w = record {
  header_ok = moved (ap (λ (x : ((Header × ℕ) × ℕ) × ℕ). x.0.0.0) e) w.header_ok;
  some_signer = omega (arith, ap (λ (x : ((Header × ℕ) × ℕ) × ℕ). x.0.0.1) e, w.some_signer);
  few_signers = omega (arith, ap (λ (x : ((Header × ℕ) × ℕ) × ℕ). x.0.0.1) e, w.few_signers);
  few_attributes = omega (arith, ap (λ (x : ((Header × ℕ) × ℕ) × ℕ). x.0.1) e, w.few_attributes);
  some_script = omega (arith, ap (λ (x : ((Header × ℕ) × ℕ) × ℕ). x.1) e, w.some_script);
}

sizes-Untouched : Untouched sizes
sizes-Untouched = record {
  amount_kept = λ z tx. refl;
  address_kept = λ xs tx. refl;
  neo_kept = λ neo tx. refl;
}

module _ (sdk : Sdk) where
  parse_stages-IsWellFormed :
      (p : Parse) {q : Parse}
      → parse_stages sdk p ≡ go tt q
      → (p.buf.size ≤ 1024) × IsWellFormed q.tx
  unfolding parse_stages
  parse_stages-IsWellFormed p {q} h =
      let (_, a, h1, k1) = >>=-go parse_too_long _ p h in
      let (size, _) = stop_if-go (ltb max_transaction_len p.buf.size) _ p h1 in
      let (_, b, h2, k2) = >>=-go parse_header _ a k1 in
      let (_, c, h3, k3) = >>=-go (parse_signers sdk) _ b k2 in
      let (_, d, h4, k4) = >>=-go parse_attributes _ c k3 in
      let (low, high, same) = parse_signers_lem sdk b h3 in
      let (attributes, same2) = parse_attributes_lem c h4 in
      let (script, same3) = parse_script_lem d k4 in
      let ends = ap (λ (x : (Header × ℕ) × ℕ). x.0) same3 ∙ same2 in
      (
        ltb→le 1024 _ size,
        record {
          header_ok = moved (ap (λ (x : Header × ℕ). x.0) ends ∙ same) (parse_header-HeaderOk a h2);
          some_signer = omega (arith, ap (λ (x : Header × ℕ). x.1) ends, low);
          few_signers = omega (arith, ap (λ (x : Header × ℕ). x.1) ends, high);
          few_attributes = omega (arith, ap (λ (x : (Header × ℕ) × ℕ). x.1) same3, attributes);
          some_script = script;
        },
      )

  -- What a reported success means.
  pub record Accepted (buf : Buffer) (p : Parse) : Type 0 where
    pub short : buf.size ≤ 1024
    pub at_end : p.buf.offset ≡ p.buf.size
    pub is : IsWellFormed p.tx

  finished :
      (p : Parse) (o : Outcome ParserStatus (Unit {0}))
      → parse_stages sdk p ≡ o
      → Ran Anything p o
      → (finish sdk o).0 ≡ ParserStatus.parsing_ok
      → Accepted p.buf (finish sdk o).1
  unfolding finish
  finished p (stop e q) same failed h = absurd (false≢true (sym failed ∙ ap is_never_reported h))
  finished p (go tt q) same failed h = elim (Bool-cases (q.buf.offset == q.buf.size)) [
    | inl end ↦
        let (short, w) = parse_stages-IsWellFormed p same in
        record {
          short = short;
          at_end = (==_iff q.buf.offset q.buf.size).0 end;
          is =
              unchanged
                (try_parse_transfer_script-kept sizes sizes-Untouched sdk (λ tx. refl)
                  (script_buffer q) q.tx)
                w;
        }
    | inr other ↦ absurd (false≢true (ap is_never_reported (rw other at h)))
  ]

  -- Where success is reported, the transaction has at most 1024 bytes, all of them were read, its version is
  -- 0, no fee is negative, it has one or two signers and at most two attributes, and its script is
  -- not empty.
  pub transaction_deserialize-Accepted :
      (buf : Buffer) (tx : Transaction)
      → (transaction_deserialize sdk buf tx).0 ≡ ParserStatus.parsing_ok
      → Accepted buf (transaction_deserialize sdk buf tx).1
  unfolding transaction_deserialize
  transaction_deserialize-Accepted buf tx h =
      let p : Parse = record { buf = buf; tx = tx } in
      finished p (parse_stages sdk p) refl ((parse_stages-Anything sdk).runs p) h

  finish_groups :
      (p : Parse) (o : Outcome ParserStatus (Unit {0}))
      → Ran Anything p o
      → (finish sdk o).0 ≢ ParserStatus.signer_allowed_groups_parsing_error
  unfolding finish
  finish_groups p (stop e q) failed h = absurd (false≢true (sym failed ∙ ap is_never_reported h))
  finish_groups p (go tt q) failed h = elim (Bool-cases (q.buf.offset == q.buf.size)) [
    | inl end ↦ cc (rw end at h)
    | inr other ↦ cc (rw other at h)
  ]

  -- No transaction is reported to end within an allowed group: that status is never returned.
  pub transaction_deserialize-groups :
      (buf : Buffer) (tx : Transaction)
      → (transaction_deserialize sdk buf tx).0 ≢ ParserStatus.signer_allowed_groups_parsing_error
  unfolding transaction_deserialize
  transaction_deserialize-groups buf tx =
      let p : Parse = record { buf = buf; tx = tx } in
      finish_groups p (parse_stages sdk p) ((parse_stages-Anything sdk).runs p)
