-- ===== src/Apdu/Parser/RoundTrip.antt =====
-- `apdu_parser` of apdu/parser.c against the layout of a command.
use ledger_app_neo.Prelude.{
  ℕ, suc, ◌-◌, ◌≡◌, refl, ap, ◌∙◌, arith, true, false, List, [], ◌∷◌, Option, none, some, length,
  ltb, ◌==◌, ==_iff, if◌then◌else◌, Bool-cases, inl, inr,
}
use ledger_app_neo.Apdu.Parser.{Command, apdu_parser}

-- A command of the host: class, instruction, two parameters, the length of the data, and the data.
abbrev pub encode : ℕ → ℕ → ℕ → ℕ → List ℕ → List ℕ
encode cla ins p1 p2 bytes = cla ∷ ins ∷ p1 ∷ p2 ∷ length bytes ∷ bytes

abbrev pub data_of : List ℕ → Option (List ℕ)
data_of [] = none
data_of (x ∷ xs) = some (x ∷ xs)

-- A command of class, instruction, parameters, length and data is parsed into these fields; its data is
-- absent where it has no bytes.
pub apdu_parser-encode :
    (cla ins p1 p2 : ℕ) (bytes : List ℕ)
    → apdu_parser (encode cla ins p1 p2 bytes) (length (encode cla ins p1 p2 bytes))
      ≡ some (record {
        cla = cla;
        ins = ins;
        p1 = p1;
        p2 = p2;
        lc = length bytes;
        cdata = data_of bytes;
      })
unfolding apdu_parser
apdu_parser-encode cla ins p1 p2 [] = refl
apdu_parser-encode cla ins p1 p2 (x ∷ xs) =
    let n = length (x ∷ xs) in
    let long : ltb (suc (suc (suc (suc (suc n))))) 5 ≡ false = ground arith in
    let same : (suc (suc (suc (suc (suc n)))) - 5 == n) ≡ true = ground arith in
    let some_data : ltb 0 n ≡ true = ground arith in rw (long, same, some_data)

some_injective : {A : Type 0} {a b : A} → ◌≡◌ {A = Option A} (some a) (some b) → a ≡ b
some_injective h = cc

data_of_lem : (bytes : List ℕ) → (if ltb 0 (length bytes) then some bytes else none) ≡ data_of bytes
data_of_lem [] = refl
data_of_lem (x ∷ xs) = let some_data : ltb 0 (suc (length xs)) ≡ true = ground arith in rw some_data

-- Where the parser accepts a list of bytes as a command, the list is the layout of that command's fields
-- and of some data, whose length the command has, and the command's data is that one.
pub apdu_parser-some :
    (buf : List ℕ) {cmd : Command}
    → apdu_parser buf (length buf) ≡ some cmd
    → (bytes : List ℕ) × (buf ≡ encode cmd.cla cmd.ins cmd.p1 cmd.p2 bytes)
      × (cmd.lc ≡ length bytes)
      × (cmd.cdata ≡ data_of bytes)
unfolding apdu_parser
apdu_parser-some [] h = cc
apdu_parser-some (a ∷ []) h = cc
apdu_parser-some (a ∷ b ∷ []) h = cc
apdu_parser-some (a ∷ b ∷ c ∷ []) h = cc
apdu_parser-some (a ∷ b ∷ c ∷ d ∷ []) h = cc
apdu_parser-some (a ∷ b ∷ c ∷ d ∷ e ∷ bytes) h =
    let n = length bytes in
    let long : ltb (suc (suc (suc (suc (suc n))))) 5 ≡ false = ground arith in
    elim (Bool-cases (suc (suc (suc (suc (suc n)))) - 5 == e)) [
      | inl same ↦
          let e_eq : e ≡ n = omega (arith, (==_iff (suc (suc (suc (suc (suc n)))) - 5) e).0 same) in
          let is = some_injective (rw (long, same) at h) in
          (
            bytes,
            rw (← is) (ap (λ m. a ∷ b ∷ c ∷ d ∷ m ∷ bytes) e_eq),
            rw (← is) e_eq,
            rw (← is) (ap (λ m. if ltb 0 m then some bytes else none) e_eq ∙ data_of_lem bytes),
          )
      | inr other ↦ cc (rw (long, other) at h)
    ]
