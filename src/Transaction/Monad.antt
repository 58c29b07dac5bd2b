-- ===== src/Transaction/Monad.antt =====
-- A parser's run: the buffer and the structure that it fills, and an early return.
pub mod Inversion
pub mod Keeps
pub mod Forward
use ledger_app_neo.Prelude.{ℕ, Bool, true, false, if◌then◌else◌}
use ledger_app_neo.Common.Buffer.{Buffer, Reading, buffer_seek_cur}
use ledger_app_neo.Transaction.Types.{Transaction}

pub record Parse : Type 0 where
  pub buf : Buffer
  pub tx : Transaction

-- `stop` is a `return` in the middle, with what it returns.
pub data Outcome (E A : Type 0) : Type 0 where
  go : A → Parse → Outcome E A
  stop : E → Parse → Outcome E A

abbrev pub Parser : Type 0 → Type 0 → Type 0
Parser E A = Parse → Outcome E A

infixl 5 ◌>>=◌ ◌>>◌
abbrev pub ◌>>=◌ : {E A B : Type 0} → Parser E A → (A → Parser E B) → Parser E B
◌>>=◌ m f p = elim (m p) [ go a p' ↦ f a p' | stop e p' ↦ stop e p' ]

abbrev pub ◌>>◌ : {E B : Type 0} → Parser E (Unit {0}) → Parser E B → Parser E B
m >> k = m >>= λ _. k

abbrev pub pure : {E A : Type 0} → A → Parser E A
pure a p = go a p

-- `if (test) return e;`
abbrev pub stop_if : {E : Type 0} → Bool → E → Parser E (Unit {0})
stop_if true e p = stop e p
stop_if false e p = go tt p

abbrev pub modify : {E : Type 0} → (Transaction → Transaction) → Parser E (Unit {0})
modify f p = go tt (record p { tx = f p.tx })

abbrev pub get : {E : Type 0} → Parser E Parse
get p = go p p

-- `if (!buffer_read_…(buf, &tx->field)) return e;`: the field is stored on failure too.
abbrev pub read_to :
    {E A : Type 0} → (Buffer → Reading A) → (A → Transaction → Transaction) → E → Parser E A
read_to read store e p =
    let r = read p.buf in
    let p' : Parse = record { buf = r.buffer; tx = store r.value p.tx } in
    if r.success then go r.value p' else stop e p'

-- The same into a local variable.
abbrev pub read_value : {E A : Type 0} → (Buffer → Reading A) → E → Parser E A
read_value read e = read_to read (λ _ tx. tx) e

-- `if (!buffer_seek_cur(buf, n)) return e;`
abbrev pub skip : {E : Type 0} → ℕ → E → Parser E (Unit {0})
skip n e p =
    let s = buffer_seek_cur p.buf n in
    let p' = record p { buf = s.1 } in if s.0 then go tt p' else stop e p'
