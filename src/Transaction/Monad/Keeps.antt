-- ===== src/Transaction/Monad/Keeps.antt =====
-- Parts of the transaction that steps leave alone, whether they go on or stop.
use ledger_app_neo.Prelude.{ℕ, ◌≡◌, refl, Bool, true, false, Bool-cases, inl, inr, if◌then◌else◌}
use mathlib.Core.Path.{subst}
use ledger_app_neo.Common.Buffer.{Buffer, Reading, buffer_seek_cur}
use ledger_app_neo.Transaction.Types.{Transaction}
use ledger_app_neo.Transaction.Monad.{
  Parse, Outcome, go, stop, Parser, ◌>>=◌, stop_if, modify, read_to, skip, get,
}

module _ {ℓ} {V : Type ℓ} (part : Transaction → V) where
  -- The part after a run is `x`; or it is, where the run stopped.
  abbrev pub After : {E A : Type 0} → V → Outcome E A → Type ℓ
  After x (go a p) = part p.tx ≡ x
  After x (stop e p) = part p.tx ≡ x

  abbrev pub Stopped : {E A : Type 0} → V → Outcome E A → Type ℓ
  Stopped x (go a p) = Unit
  Stopped x (stop e p) = part p.tx ≡ x

  -- A step that keeps the part, and one that keeps it where it stops.
  pub record Keeps {E A : Type 0} (m : Parser E A) : Type ℓ where
    pub after : (p : Parse) → After (part p.tx) (m p)

  pub record StopKeeps {E A : Type 0} (m : Parser E A) : Type ℓ where
    pub stopped : (p : Parse) → Stopped (part p.tx) (m p)

  module _ {E A B : Type 0} where
    After-bind :
        (x : V) (o : Outcome E A) (f : A → Parser E B)
        → After x o
        → ((a : A) → Keeps (f a))
        → After x (elim o [ go a p' ↦ f a p' | stop e p' ↦ stop e p' ])
    After-bind x (go a p) f h k = subst (λ y. After y (f a p)) h ((k a).after p)
    After-bind x (stop e p) f h k = h

    Stopped-bind :
        (x : V) (o : Outcome E A) (f : A → Parser E B)
        → After x o
        → ((a : A) → StopKeeps (f a))
        → Stopped x (elim o [ go a p' ↦ f a p' | stop e p' ↦ stop e p' ])
    Stopped-bind x (go a p) f h k = subst (λ y. Stopped y (f a p)) h ((k a).stopped p)
    Stopped-bind x (stop e p) f h k = h

    pub >>=-Keeps :
        (m : Parser E A) (f : A → Parser E B) → Keeps m → ((a : A) → Keeps (f a)) → Keeps (m >>= f)
    >>=-Keeps m f h k = record { after = λ p. After-bind (part p.tx) (m p) f (h.after p) k }

    pub >>=-StopKeeps :
        (m : Parser E A) (f : A → Parser E B)
        → Keeps m
        → ((a : A) → StopKeeps (f a))
        → StopKeeps (m >>= f)
    >>=-StopKeeps m f h k = record { stopped = λ p. Stopped-bind (part p.tx) (m p) f (h.after p) k }

  module _ {E : Type 0} where
    pub stop_if-Keeps : (test : Bool) (e : E) → Keeps (stop_if test e)
    stop_if-Keeps true e = record { after = λ p. refl }
    stop_if-Keeps false e = record { after = λ p. refl }

    pub modify-Keeps :
        (f : Transaction → Transaction)
        → ((tx : Transaction) → part (f tx) ≡ part tx)
        → Keeps {E = E} (modify f)
    modify-Keeps f h = record { after = λ p. h p.tx }

    pub get-Keeps : Keeps {E = E} get
    get-Keeps = record { after = λ p. refl }

    pub read_to-Keeps :
        {A : Type 0} (read : Buffer → Reading A) (store : A → Transaction → Transaction) (e : E)
        → ((a : A) (tx : Transaction) → part (store a tx) ≡ part tx)
        → Keeps (read_to read store e)
    read_to-Keeps read store e h = record {
      after = λ p. elim (Bool-cases (read p.buf).success) [
        | inl done ↦ rw done (h (read p.buf).value p.tx)
        | inr failed ↦ rw failed (h (read p.buf).value p.tx)
      ];
    }

    pub skip-Keeps : (n : ℕ) (e : E) → Keeps (skip n e)
    skip-Keeps n e = record {
      after = λ p. elim (Bool-cases (buffer_seek_cur p.buf n).0) [
        | inl done ↦ rw done refl
        | inr failed ↦ rw failed refl
      ];
    }

    -- A choice between two steps.
    pub if-Keeps :
        {A : Type 0} (test : Bool) (m k : Parser E A)
        → Keeps m
        → Keeps k
        → Keeps (if test then m else k)
    if-Keeps true m k h h' = h
    if-Keeps false m k h h' = h'

    pub Keeps-StopKeeps : {A : Type 0} {m : Parser E A} → Keeps m → StopKeeps m
    Keeps-StopKeeps {m = m} h = record { stopped = λ p. weaken (part p.tx) (m p) (h.after p) }
      where
        weaken : {A : Type 0} (x : V) (o : Outcome E A) → After x o → Stopped x o
        weaken x (go a p) h = tt
        weaken x (stop e p) h = h

    pub modify-StopKeeps : (f : Transaction → Transaction) → StopKeeps {E = E} (modify f)
    modify-StopKeeps f = record { stopped = λ p. tt }
