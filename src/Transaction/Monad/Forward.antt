-- ===== src/Transaction/Monad/Forward.antt =====
-- Runs of the parsers' steps that go on, from the bytes that are ahead: what is read, and what is left.
use ledger_app_neo.Prelude.{
  ℕ, ◌-◌, ◌≤◌, ◌≡◌, refl, sym, ap, ◌∙◌, arith, Bool, true, false, List, ◌++◌, drop, take, take-take,
  take-append, length, length-append, drop-append, le→leb,
}
use mathlib.Core.Path.{subst⁻¹}
use ledger_app_neo.Common.Buffer.{Buffer, Reading, buffer_seek_cur}
use ledger_app_neo.Common.Buffer.View.{
  IsValid, remaining, ahead, buffer_seek_cur_within, remaining-ahead, length-remaining,
  ahead-IsValid, number_le, number_le-take,
}
use ledger_app_neo.Common.Buffer.Reads.{Refines, list_read, view}
use ledger_app_neo.Common.Buffer.Cursor.{OnlyMoves}
use ledger_app_neo.Transaction.Types.{Transaction}
use ledger_app_neo.Transaction.Monad.{
  Parse, Outcome, go, Parser, ◌>>=◌, stop_if, modify, read_to, skip,
}

-- The run is over this memory, with these bytes ahead and such a transaction.
pub record At (memory : List ℕ) (size : ℕ) (p : Parse) (bytes : List ℕ) (P : Transaction → Type 0)
    : Type 0 where
  pub valid : IsValid p.buf
  pub bytes_eq : remaining p.buf ≡ bytes
  pub holds : P p.tx
  pub memory_eq : p.buf.ptr ≡ memory
  pub size_eq : p.buf.size ≡ size

-- The step goes on with this value.
pub record Goes (memory : List ℕ) (size : ℕ) {E A : Type 0} (o : Outcome E A) (a : A)
    (bytes : List ℕ) (P : Transaction → Type 0) : Type 0 where
  pub state : Parse
  pub goes : o ≡ go a state
  pub at : At memory size state bytes P

abbrev pub Is : Transaction → Transaction → Type 0
Is tx t = t ≡ tx

pub weaken :
    {memory : List ℕ} {size : ℕ} {p : Parse} {bytes : List ℕ} {P Q : Transaction → Type 0}
    → At memory size p bytes P
    → ((t : Transaction) → P t → Q t)
    → At memory size p bytes Q
weaken {p = p} at h = record {
  valid = at.valid;
  bytes_eq = at.bytes_eq;
  holds = h p.tx at.holds;
  memory_eq = at.memory_eq;
  size_eq = at.size_eq;
}

module _ (memory : List ℕ) (size : ℕ) where
  pub >>=-Goes :
      {E A B : Type 0} (m : Parser E A) (f : A → Parser E B) (p : Parse) {a : A} {b : B}
      {xs ys : List ℕ} {P Q : Transaction → Type 0}
      → Goes memory size (m p) a xs P
      → ((q : Parse) → At memory size q xs P → Goes memory size (f a q) b ys Q)
      → Goes memory size ((m >>= f) p) b ys Q
  >>=-Goes m f p g k = rw (g.goes, ◌>>=◌) (k g.state g.at)

  pub stop_if-Goes :
      {E : Type 0} (test : Bool) (e : E) {p : Parse} {xs : List ℕ} {P : Transaction → Type 0}
      → test ≡ false
      → At memory size p xs P
      → Goes memory size (stop_if test e p) tt xs P
  stop_if-Goes test e {p} h at = record { state = p; goes = rw h refl; at = at }

  pub modify-Goes :
      {E : Type 0} (f : Transaction → Transaction) {p : Parse} {xs : List ℕ}
      {P Q : Transaction → Type 0}
      → ((t : Transaction) → P t → Q (f t))
      → At memory size p xs P
      → Goes memory size (modify {E = E} f p) tt xs Q
  modify-Goes f {p} keep at = record {
    state = record p { tx = f p.tx };
    goes = refl;
    at = record {
      valid = at.valid;
      bytes_eq = at.bytes_eq;
      holds = keep p.tx at.holds;
      memory_eq = at.memory_eq;
      size_eq = at.size_eq;
    };
  }

  -- A read that a caller sees as one of these bytes.
  pub read_to-Goes :
      {E A : Type 0} (read : Buffer → Reading A) (store : A → Transaction → Transaction) (e : E)
      {p : Parse} (expected : List ℕ → Bool × A × List ℕ) {a : A} {xs rest : List ℕ}
      {P Q : Transaction → Type 0}
      → Refines p.buf (expected (remaining p.buf)) (read p.buf)
      → OnlyMoves p.buf (read p.buf).buffer
      → expected xs ≡ (true, a, rest)
      → ((t : Transaction) → P t → Q (store a t))
      → At memory size p xs P
      → Goes memory size (read_to read store e p) a rest Q
  read_to-Goes {A = A} read store e {p} expected {a} {rest = rest} {Q = Q} r moves is keep at =
      let seen : view (read p.buf) ≡ (true, a, rest) = r.seen ∙ ap expected at.bytes_eq ∙ is in
      let done : (read p.buf).success ≡ true = ap (λ (x : Bool × A × List ℕ). x.0) seen in
      let value : (read p.buf).value ≡ a = ap (λ (x : Bool × A × List ℕ). x.1) seen in
      let after : Parse = record {
        buf = (read p.buf).buffer;
        tx = store (read p.buf).value p.tx;
      } in
      record {
        state = after;
        goes = rw done (ap (λ v. go v after) value);
        at = record {
          valid = r.valid;
          bytes_eq = ap (λ (x : Bool × A × List ℕ). x.2) seen;
          holds = subst⁻¹ (λ v. Q (store v p.tx)) value (keep p.tx at.holds);
          memory_eq = moves.same_ptr ∙ at.memory_eq;
          size_eq = r.same_size ∙ at.size_eq;
        };
      }

  module _ (n : ℕ) {p : Parse} (xs rest : List ℕ) {P : Transaction → Type 0} (long : length xs ≡ n)
      (at : At memory size p (xs ++ rest) P) where
    pub room : n ≤ p.buf.size - p.buf.offset
    room =
        omega
          (arith, length-remaining at.valid, ap length at.bytes_eq, length-append {0} xs rest, long)

    -- The memory at the cursor starts with them.
    pub ahead_bytes : take n (drop p.buf.offset p.buf.ptr) ≡ xs
    ahead_bytes =
        sym (take-take n (p.buf.size - p.buf.offset) (drop p.buf.offset p.buf.ptr) room)
        ∙ ap (take n) at.bytes_eq
        ∙ ap (λ k. take k (xs ++ rest)) (sym long)
        ∙ take-append xs rest

    ahead-At : At memory size (record p { buf = ahead p.buf n }) rest P
    ahead-At = record {
      valid = ahead-IsValid at.valid n room;
      bytes_eq =
          remaining-ahead at.valid n
          ∙ ap (drop n) at.bytes_eq
          ∙ ap (λ k. drop k (xs ++ rest)) (sym long)
          ∙ drop-append xs rest;
      holds = at.holds;
      memory_eq = at.memory_eq;
      size_eq = at.size_eq;
    }

    -- A seek over the first of the bytes ahead, with the test of its result and without.
    pub skip-Goes : {E : Type 0} (e : E) → Goes memory size (skip n e p) tt rest P
    skip-Goes e = record {
      state = record p { buf = ahead p.buf n };
      goes = rw (buffer_seek_cur_within at.valid n room) refl;
      at = ahead-At;
    }

    pub seek-Goes :
        {E : Type 0}
        → Goes memory size {E = E}
            (go tt (record p { buf = (buffer_seek_cur p.buf n).1 }))
            tt
            rest
            P
    seek-Goes = record {
      state = record p { buf = ahead p.buf n };
      goes = rw (buffer_seek_cur_within at.valid n room) refl;
      at = ahead-At;
    }

-- What a read of a list makes of bytes that are ahead.
pub list_read_ahead :
    {A : Type 0} (n : ℕ) (zero_value : A) (decode : List ℕ → A) (xs rest : List ℕ) {a : A}
    → length xs ≡ n
    → decode (xs ++ rest) ≡ a
    → list_read n zero_value decode (xs ++ rest) ≡ (true, a, rest)
list_read_ahead n zero_value decode xs rest {a} long is =
    rw (le→leb n (length (xs ++ rest)) (omega (arith, length-append {0} xs rest)), is)
      (ap (λ ys. (true, a, ys)) (ap (λ k. drop k (xs ++ rest)) (sym long) ∙ drop-append xs rest))

pub number_le-append :
    (n : ℕ) (xs rest : List ℕ) → length xs ≡ n → number_le n (xs ++ rest) ≡ number_le n xs
number_le-append n xs rest long =
    sym (number_le-take n n (xs ++ rest) (omega arith))
    ∙ ap (number_le n) (ap (λ k. take k (xs ++ rest)) (sym long) ∙ take-append xs rest)
