-- ===== src/Transaction/Deserialize/Runs/Relations.antt =====
-- Relations that the stages of transaction/deserialize.c keep: nothing but the statuses, a part of the
-- transaction, and a buffer that is valid over the same memory.
use ledger_app_neo.Prelude.{◌≡◌, refl, List, ◌∙◌, ℕ}
use mathlib.Core.Path.{subst}
use ledger_app_neo.Sdk.{Sdk}
use ledger_app_neo.Common.Buffer.Cursor.{OnlyMoves}
use ledger_app_neo.Transaction.Types.{Transaction, Signer}
use ledger_app_neo.Transaction.Monad.{Parse, go}
use ledger_app_neo.Transaction.Deserialize.{
  Stage, parse_stages, parse_signers_loop, parse_attributes_loop,
}
use ledger_app_neo.Transaction.Deserialize.Runs.{Ran, Runs, Rules, Stores}
use ledger_app_neo.Transaction.Deserialize.Runs.Signers.{
  parse_signers_loop-Runs, parse_attributes_loop-Runs,
}
use ledger_app_neo.Transaction.Deserialize.Runs.Stages.{flags, parse_stages-Runs}

-- A run that went on.
pub ran :
    {P : Parse → Parse → Type 0} {A : Type 0} {m : Stage A}
    → Runs P m
    → (p : Parse) {a : A} {q : Parse} → m p ≡ go a q
    → P p q
ran {P} k p h = subst (Ran P p) h (k.runs p)

abbrev pub Anything : Parse → Parse → Type 0
Anything p q = Unit

pub parse_stages-Anything : (sdk : Sdk) → Runs Anything (parse_stages sdk)
parse_stages-Anything sdk =
    parse_stages-Runs (record { reflexive = λ p. tt; transitive = λ h k. tt; moves = λ p b h. tt })
      (λ f h p. tt) sdk

module _ {V : Type 0} (part : Transaction → V) where
  abbrev pub Same : Parse → Parse → Type 0
  Same p q = part q.tx ≡ part p.tx

  pub Same-Rules : Rules Same
  Same-Rules = record { reflexive = λ p. refl; transitive = λ h k. k ∙ h; moves = λ p b h. refl }

  pub signers_loop_kept :
      ((xs : List Signer) (tx : Transaction) → part (record tx { signers = xs }) ≡ part tx)
      → (sdk : Sdk) (n i : ℕ) (p : Parse) {q : Parse} → parse_signers_loop sdk n i p ≡ go tt q
      → part q.tx ≡ part p.tx
  signers_loop_kept kept sdk n i p =
      ran (parse_signers_loop-Runs Same-Rules (λ xs p. kept xs p.tx) sdk n i) p

  pub attributes_loop_kept :
      ((xs : List ℕ) (tx : Transaction) → part (record tx { attributes = xs }) ≡ part tx)
      → (n i : ℕ) (p : Parse) {q : Parse} → parse_attributes_loop n i p ≡ go tt q
      → part q.tx ≡ part p.tx
  attributes_loop_kept kept n i p =
      ran (parse_attributes_loop-Runs Same-Rules (λ xs p. kept xs p.tx) n i) p

module _ (sdk : Sdk) (p : Parse) {q : Parse} (h : parse_stages sdk p ≡ go tt q) where
  pub parse_stages-flags : flags q.tx ≡ flags p.tx
  parse_stages-flags = ran (parse_stages-Runs (Same-Rules flags) (λ f kept r. kept r.tx) sdk) p h

-- The buffers before and after.
abbrev pub Moving : Parse → Parse → Type 0
Moving p q = OnlyMoves p.buf q.buf

stays : (p : Parse) → Moving p p
stays p = record { valid = λ v. v; same_ptr = refl; same_size = refl }

pub Moving-Rules : Rules Moving
Moving-Rules = record {
  reflexive = stays;
  transitive = λ f g. record {
    valid = λ v. g.valid (f.valid v);
    same_ptr = g.same_ptr ∙ f.same_ptr;
    same_size = g.same_size ∙ f.same_size;
  };
  moves = λ p b f. f;
}

-- A change of the transaction.
pub Stores-Moving : (f : Transaction → Transaction) → Stores Moving f
Stores-Moving f p = stays p
