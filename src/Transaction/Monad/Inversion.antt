-- ===== src/Transaction/Monad/Inversion.antt =====
-- What a run of the parsers' steps that goes on says about the bytes that it consumed.
use ledger_app_neo.Prelude.{
  ℕ, ◌^◌, ◌-◌, ◌≤◌, ◌<◌, ◌≡◌, refl, sym, ap, ◌∙◌, arith, Bool, true, false, List, [], ◌++◌,
  append_assoc, take, drop, length, take-append-drop, leb, leb→le, leb→lt, Bool-cases, inl, inr,
}
use mathlib.Core.Path.{subst⁻¹}
use mathlib.Core.Bool.{false≢true}
use ledger_app_neo.Common.Buffer.{Buffer, Reading}
use ledger_app_neo.Common.Buffer.View.{
  IsValid, remaining, ahead, buffer_seek_cur_within, buffer_seek_cur_beyond, remaining-ahead,
  length-remaining, ahead-IsValid,
}
use ledger_app_neo.Common.Buffer.Reads.{Refines, list_read}
use ledger_app_neo.Transaction.Types.{Transaction}
use ledger_app_neo.Transaction.Monad.{
  Parse, Outcome, go, stop, Parser, ◌>>=◌, ◌>>◌, stop_if, read_to, skip,
}

-- A step that goes on consumed `bytes`.
pub record Consumes (p : Parse) (bytes : List ℕ) (p' : Parse) : Type 0 where
  pub valid : IsValid p'.buf
  pub split : remaining p.buf ≡ bytes ++ remaining p'.buf
  pub same_size : p'.buf.size ≡ p.buf.size

pub Consumes-none : {p : Parse} → IsValid p.buf → Consumes p [] p
Consumes-none v = record { valid = v; split = refl; same_size = refl }

pub Consumes-trans :
    {p q r : Parse} {xs ys : List ℕ} → Consumes p xs q → Consumes q ys r → Consumes p (xs ++ ys) r
Consumes-trans {r = r} {xs = xs} {ys = ys} c d = record {
  valid = d.valid;
  split = c.split ∙ ap (◌++◌ xs) d.split ∙ sym (append_assoc xs ys (remaining r.buf));
  same_size = d.same_size ∙ c.same_size;
}

module _ {E A B : Type 0} where
  split_outcome :
      {f : A → Parser E B} {b : B} {p'' : Parse} (o : Outcome E A)
      → elim o [ go a p' ↦ f a p' | stop e p' ↦ stop e p' ] ≡ go b p''
      → (a : A) × (p' : Parse) × (o ≡ go a p') × (f a p' ≡ go b p'')
  split_outcome (go a p') h = (a, p', refl, h)
  split_outcome (stop e p') h = cc

  pub >>=-go :
      (m : Parser E A) (f : A → Parser E B) (p : Parse) {b : B} {p'' : Parse}
      → (m >>= f) p ≡ go b p''
      → (a : A) × (p' : Parse) × (m p ≡ go a p') × (f a p' ≡ go b p'')
  >>=-go m f p h = split_outcome (m p) h

pub go_injective :
    {E A : Type 0} {a b : A} {p q : Parse}
    → ◌≡◌ {A = Outcome E A} (go a p) (go b q)
    → (a ≡ b) × (p ≡ q)
go_injective h = (cc, cc)

pub stop_if-go :
    {E : Type 0} (test : Bool) (e : E) (p : Parse) {u : Unit {0}} {p' : Parse}
    → stop_if test e p ≡ go u p'
    → (test ≡ false) × (p' ≡ p)
stop_if-go true e p h = cc
stop_if-go false e p h = (refl, sym (go_injective h).1)

pub stop_if-then :
    {E B : Type 0} (test : Bool) (e : E) (k : Parser E B) (p : Parse) {b : B} {p' : Parse}
    → (stop_if test e >> k) p ≡ go b p'
    → (test ≡ false) × (k p ≡ go b p')
stop_if-then true e k p h = cc
stop_if-then false e k p h = (refl, h)

module _ {E A : Type 0} (read : Buffer → Reading A) (store : A → Transaction → Transaction) (e : E)
    (p : Parse) where
  pub read_to-go :
      {a : A} {p' : Parse}
      → read_to read store e p ≡ go a p'
      → ((read p.buf).success ≡ true)
        × (a ≡ (read p.buf).value)
        × (p'.buf ≡ (read p.buf).buffer)
        × (p'.tx ≡ store (read p.buf).value p.tx)
  read_to-go h = elim (Bool-cases (read p.buf).success) [
    | inl done ↦
        let same = go_injective (rw done at h) in
        (
          done,
          sym same.0,
          ap (λ (q : Parse). q.buf) (sym same.1),
          ap (λ (q : Parse). q.tx) (sym same.1),
        )
    | inr failed ↦ cc (rw failed at h)
  ]

  -- A read of `n` bytes, by what it refines.
  pub read_to-Consumes :
      (n : ℕ) (zero_value : A) (decode : List ℕ → A) {a : A} {p' : Parse}
      → Refines p.buf (list_read n zero_value decode (remaining p.buf)) (read p.buf)
      → read_to read store e p ≡ go a p'
      → (n ≤ length (remaining p.buf))
        × (a ≡ decode (remaining p.buf))
        × Consumes p (take n (remaining p.buf)) p'
        × (p'.tx ≡ store a p.tx)
  read_to-Consumes n zero_value decode {a} {p'} r h =
      let (done, same_value, same_buffer, same_tx) = read_to-go h in
      elim (Bool-cases (leb n (length (remaining p.buf)))) [
        | inl fits ↦
            let seen = rw fits at r.seen in
            let rest : remaining (read p.buf).buffer ≡ drop n (remaining p.buf) =
              ap (λ (t : Bool × A × List ℕ). t.2) seen in
            (
              leb→le _ _ fits,
              same_value ∙ ap (λ (t : Bool × A × List ℕ). t.1) seen,
              record {
                valid = subst⁻¹ IsValid same_buffer r.valid;
                split =
                    sym (take-append-drop n (remaining p.buf))
                    ∙ ap (◌++◌ (take n (remaining p.buf)))
                        (sym rest ∙ ap remaining (sym same_buffer));
                same_size = ap (λ (b : Buffer). b.size) same_buffer ∙ r.same_size;
              },
              same_tx ∙ ap (λ x. store x p.tx) (sym same_value),
            )
        | inr short ↦
            let seen = rw short at r.seen in
            absurd (false≢true (sym (ap (λ (t : Bool × A × List ℕ). t.0) seen) ∙ done))
      ]

module _ {E : Type 0} (n : ℕ) (e : E) (p : Parse) (v : IsValid p.buf) where
  -- A seek of an addressable length.
  pub skip-Consumes :
      {u : Unit {0}} {p' : Parse}
      → n < 2 ^ 32
      → skip n e p ≡ go u p'
      → (n ≤ length (remaining p.buf))
        × Consumes p (take n (remaining p.buf)) p'
        × (p'.tx ≡ p.tx)
        × (p'.buf ≡ ahead p.buf n)
  skip-Consumes {p' = p'} small h = elim (Bool-cases (leb n (p.buf.size - p.buf.offset))) [
    | inl fits ↦
        let within = buffer_seek_cur_within v n (leb→le _ _ fits) in
        let same = (go_injective (rw within at h)).1 in
        let same_buffer : p'.buf ≡ ahead p.buf n = ap (λ (q : Parse). q.buf) (sym same) in
        (
          omega (arith, leb→le _ _ fits, length-remaining v),
          record {
            valid = subst⁻¹ IsValid same_buffer (ahead-IsValid v n (leb→le _ _ fits));
            split =
                sym (take-append-drop n (remaining p.buf))
                ∙ ap (◌++◌ (take n (remaining p.buf)))
                    (sym (remaining-ahead v n) ∙ ap remaining (sym same_buffer));
            same_size = ap (λ (b : Buffer). b.size) same_buffer;
          },
          ap (λ (q : Parse). q.tx) (sym same),
          same_buffer,
        )
    | inr beyond ↦ cc (rw (buffer_seek_cur_beyond v n small (leb→lt _ _ beyond)) at h)
  ]
