-- ===== src/Transaction/Deserialize/Runs.antt =====
-- A relation that every step of transaction/deserialize.c keeps, and the statuses with which it stops.
pub mod Signers
pub mod Stages
pub mod Relations
use ledger_app_neo.Prelude.{ℕ, ◌≡◌, Bool, true, false, Bool-cases, inl, inr, if◌then◌else◌}
use ledger_app_neo.Common.Buffer.{
  Buffer, Reading, buffer_read_u8, buffer_read_varint, buffer_seek_cur,
}
use ledger_app_neo.Common.Buffer.Cursor.{
  OnlyMoves, ReadMoves, buffer_seek_cur-OnlyMoves, buffer_read_u8-ReadMoves,
  buffer_read_varint-ReadMoves,
}
use ledger_app_neo.Transaction.Types.{Transaction, ParserStatus}
use ledger_app_neo.Transaction.Monad.{
  Parse, Outcome, go, stop, ◌>>=◌, pure, stop_if, modify, get, read_to, read_value, skip,
}
use ledger_app_neo.Transaction.Deserialize.{Stage, read_varint}

-- Success, and the status that is meant for the end of the data within an allowed group.
abbrev pub is_never_reported : ParserStatus → Bool
is_never_reported ParserStatus.parsing_ok = true
is_never_reported ParserStatus.signer_allowed_groups_parsing_error = true
is_never_reported _ = false

module _ (P : Parse → Parse → Type 0) where
  -- Where a run goes on, it ends in a related state; where it stops, with another status.
  abbrev pub Ran : {A : Type 0} → Parse → Outcome ParserStatus A → Type 0
  Ran p (go a q) = P p q
  Ran p (stop e q) = is_never_reported e ≡ false

  pub record Runs {A : Type 0} (m : Stage A) : Type 0 where
    pub runs : (p : Parse) → Ran p (m p)

  -- A change of the transaction.
  abbrev pub Stores : (Transaction → Transaction) → Type 0
  Stores f = (p : Parse) → P p (record p { tx = f p.tx })

  -- A preorder that a moving cursor does not leave.
  pub record Rules : Type 0 where
    pub reflexive : (p : Parse) → P p p
    pub transitive : {p q r : Parse} → P p q → P q r → P p r
    pub moves : (p : Parse) (b : Buffer) → OnlyMoves p.buf b → P p (record p { buf = b })

module _ {P : Parse → Parse → Type 0} (rules : Rules P) where
  Ran-trans :
      {A : Type 0} {p q : Parse} (o : Outcome ParserStatus A) → P p q → Ran P q o → Ran P p o
  Ran-trans (go a r) first rest = rules.transitive first rest
  Ran-trans (stop e r) first rest = rest

  Ran-bind :
      {A B : Type 0} (p : Parse) (o : Outcome ParserStatus A) (f : A → Stage B)
      → Ran P p o
      → ((a : A) → Runs P (f a))
      → Ran P p (elim o [ go a p' ↦ f a p' | stop e p' ↦ stop e p' ])
  Ran-bind p (go a q) f h k = Ran-trans (f a q) h ((k a).runs q)
  Ran-bind p (stop e q) f h k = h

  pub >>=-Runs :
      {A B : Type 0} {m : Stage A} {f : A → Stage B}
      → Runs P m
      → ((a : A) → Runs P (f a))
      → Runs P (m >>= f)
  >>=-Runs {m = m} {f = f} h k = record { runs = λ p. Ran-bind p (m p) f (h.runs p) k }

  pub stop_if-Runs :
      (test : Bool) (e : ParserStatus) → is_never_reported e ≡ false → Runs P (stop_if test e)
  stop_if-Runs true e h = record { runs = λ p. h }
  stop_if-Runs false e h = record { runs = λ p. rules.reflexive p }

  pub modify-Runs : (f : Transaction → Transaction) → Stores P f → Runs P (modify f)
  modify-Runs f h = record { runs = h }

  pub get-Runs : Runs P get
  get-Runs = record { runs = rules.reflexive }

  pub pure-Runs : Runs P (pure tt)
  pure-Runs = record { runs = rules.reflexive }

  pub read_to-Runs :
      {A : Type 0} (read : Buffer → Reading A) (store : A → Transaction → Transaction)
      (e : ParserStatus)
      → ReadMoves read
      → ((a : A) → Stores P (store a))
      → is_never_reported e ≡ false
      → Runs P (read_to read store e)
  read_to-Runs read store e moves stores h = record {
    runs = λ p. elim (Bool-cases (read p.buf).success) [
      | inl done ↦ rw done (
          rules.transitive (rules.moves p (read p.buf).buffer (moves p.buf))
            (stores (read p.buf).value (record p { buf = (read p.buf).buffer })))
      | inr failed ↦ rw failed h
    ];
  }

  pub skip-Runs : (n : ℕ) (e : ParserStatus) → is_never_reported e ≡ false → Runs P (skip n e)
  skip-Runs n e h = record {
    runs = λ p. elim (Bool-cases (buffer_seek_cur p.buf n).0) [
      | inl done ↦
          rw done (rules.moves p (buffer_seek_cur p.buf n).1 (buffer_seek_cur-OnlyMoves p.buf n))
      | inr failed ↦ rw failed h
    ];
  }

  pub varint-Runs : (e : ParserStatus) → is_never_reported e ≡ false → Runs P (read_varint e)
  varint-Runs e h =
      read_to-Runs (λ b. buffer_read_varint b 0) (λ _ tx. tx) e (buffer_read_varint-ReadMoves 0)
        (λ _ p. rules.reflexive p) h

  pub byte-Runs :
      (e : ParserStatus) → is_never_reported e ≡ false → Runs P (read_value buffer_read_u8 e)
  byte-Runs e h =
      read_to-Runs buffer_read_u8 (λ _ tx. tx) e buffer_read_u8-ReadMoves (λ _ p. rules.reflexive p)
        h

pub if-Runs :
    {P : Parse → Parse → Type 0} {A : Type 0} (test : Bool) (m k : Stage A)
    → Runs P m
    → Runs P k
    → Runs P (if test then m else k)
if-Runs true m k h h' = h
if-Runs false m k h h' = h'
