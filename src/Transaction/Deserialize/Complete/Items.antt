-- ===== src/Transaction/Deserialize/Complete/Items.antt =====
-- The allowed contracts and groups of a signer are read.
use ledger_app_neo.Prelude.{
  ℕ, zero, suc, ◌+◌, ◌-◌, ◌*◌, ◌≤◌, ◌≡◌, refl, sym, ap, ◌∙◌, arith, Bool, true, false, List, [],
  ◌∷◌, ◌++◌, append_assoc, take, drop, take-append-drop, length, length-take, length-drop, set, ltb,
  le→ltb, if◌then◌else◌,
}
use mathlib.Core.Path.{subst}
use ledger_app_neo.Word.{u8}
use ledger_app_neo.Transaction.Types.{
  Transaction, Signer, ParserStatus, signer_at, custom_contracts, custom_groups,
  max_signer_sub_items,
}
use ledger_app_neo.Transaction.Monad.{Parse, ◌>>=◌, ◌>>◌, pure, stop_if, skip}
use ledger_app_neo.Transaction.Monad.Forward.{
  At, Goes, >>=-Goes, stop_if-Goes, modify-Goes, skip-Goes,
}
use ledger_app_neo.Transaction.Deserialize.{
  Stage, read_varint, modify_signer, parse_items, store_contract, store_group, parse_contracts,
  parse_groups,
}
use ledger_app_neo.Transaction.Deserialize.Layout.{Optional, has_flag}
use ledger_app_neo.Transaction.Deserialize.Complete.Reads.{varint-Goes}

abbrev pub set_signer : ℕ → (Signer → Signer) → Transaction → Transaction
set_signer i f tx = record tx { signers = set tx.signers i (f (signer_at tx i)) }

-- Stores into a signer that leave its account alone keep such a fact.
pub record Stays (i : ℕ) (J : Transaction → Type 0) : Type 0 where
  pub stays :
      (f : Signer → Signer) (t : Transaction)
      → ((s : Signer) → (f s).account ≡ s.account)
      → J t
      → J (set_signer i f t)

fewer : (n len k : ℕ) → k ≡ suc n * len → k - len ≡ n * len
fewer n len k h = grind arith

module _ (memory : List ℕ) (size i : ℕ) {J : Transaction → Type 0} (keeps : Stays i J) where
  pub set-Goes :
      (f : Signer → Signer) {p : Parse} {xs : List ℕ}
      → ((s : Signer) → (f s).account ≡ s.account)
      → At memory size p xs J
      → Goes memory size (modify_signer i f p) tt xs J
  set-Goes f same at = modify-Goes memory size (set_signer i f) (λ t h. keeps.stays f t same h) at

  items-Goes :
      (n j : ℕ) (store : ℕ → ℕ → Signer → Signer) (len : ℕ) {p : Parse} (items rest : List ℕ)
      → ((k item : ℕ) (s : Signer) → (store k item s).account ≡ s.account)
      → length items ≡ n * len
      → At memory size p (items ++ rest) J
      → Goes memory size (parse_items n j store i len p) tt rest J
  unfolding parse_items
  items-Goes zero j store len {p} [] rest same long at = record { state = p; goes = refl; at = at }
  items-Goes zero j store len {p} (x ∷ items) rest same long at = absurd (omega arith)
  items-Goes (suc n) j store len {p} items rest same long at =
      let first = take len items in
      let others = drop len items in
      let enough : len ≤ length items = grind arith in
      let split : items ++ rest ≡ first ++ (others ++ rest) =
        ap (λ xs. xs ++ rest) (sym (take-append-drop len items)) ∙ append_assoc first others rest in
      let at' = subst (λ xs. At memory size p xs J) split at in
      >>=-Goes memory size (modify_signer i (store j p.buf.offset))
        (λ _.
          skip len ParserStatus.signer_allowed_contract_parsing_error
          >> parse_items n (j + 1) store i len)
        p (set-Goes (store j p.buf.offset) (same j p.buf.offset) at')
        λ p1 a1.
          >>=-Goes memory size (skip len ParserStatus.signer_allowed_contract_parsing_error)
            (λ _. parse_items n (j + 1) store i len) p1
            (skip-Goes memory size len first (others ++ rest)
              (omega (arith, length-take len items, enough)) a1 _)
            λ p2 a2.
              items-Goes n (j + 1) store len others rest same
                (length-drop len items ∙ fewer n len (length items) long) a2

  abbrev listed :
      (ℕ → ℕ → Signer → Signer)
      → ℕ
      → (ℕ → Signer → Signer)
      → ParserStatus
      → ParserStatus
      → Stage (Unit {0})
  listed store len sized unread many = read_varint unread >>= λ n.
      stop_if (ltb max_signer_sub_items n) many
      >> (modify_signer i (sized n) >> parse_items n 0 store i len)

  listed-Goes :
      (present : Bool) (store : ℕ → ℕ → Signer → Signer) (len : ℕ) (sized : ℕ → Signer → Signer)
      (unread many : ParserStatus) {p : Parse} (code rest : List ℕ)
      → ((k item : ℕ) (s : Signer) → (store k item s).account ≡ s.account)
      → ((n : ℕ) (s : Signer) → (sized n s).account ≡ s.account)
      → Optional present len code
      → At memory size p (code ++ rest) J
      → Goes memory size
          ((if present then listed store len sized unread many else pure tt) p)
          tt
          rest
          J
  listed-Goes false store len sized unread many {p} code rest same same' is at = record {
    state = p;
    goes = refl;
    at = subst (λ xs. At memory size p (xs ++ rest) J) is at;
  }
  listed-Goes true store len sized unread many {p} code rest same same' is at =
      let split : code ++ rest ≡ is.prefix ++ (is.items ++ rest) =
        ap (λ xs. xs ++ rest) is.code_eq ∙ append_assoc is.prefix is.items rest in
      let n = is.count in
      >>=-Goes memory size (read_varint unread)
        (λ n.
          stop_if (ltb max_signer_sub_items n) many
          >> (modify_signer i (sized n) >> parse_items n 0 store i len))
        p
        (varint-Goes memory size unread (is.items ++ rest) is.counted
          (subst (λ xs. At memory size p xs J) split at))
        λ p1 a1.
          >>=-Goes memory size (stop_if (ltb max_signer_sub_items n) many)
            (λ _. modify_signer i (sized n) >> parse_items n 0 store i len) p1
            (stop_if-Goes memory size _ many (le→ltb 2 n is.few) a1)
            λ p2 a2.
              >>=-Goes memory size (modify_signer i (sized n)) (λ _. parse_items n 0 store i len) p2
                (set-Goes (sized n) (same' n) a2)
                λ p3 a3. items-Goes n 0 store len is.items rest same is.items_length a3

  pub contracts-Goes :
      (scope : ℕ) {p : Parse} (code rest : List ℕ)
      → Optional (has_flag scope custom_contracts) 20 code
      → At memory size p (code ++ rest) J
      → Goes memory size (parse_contracts i scope p) tt rest J
  unfolding parse_contracts
  contracts-Goes scope code rest is at =
      listed-Goes (has_flag scope custom_contracts) store_contract 20
        (λ n s. record s { allowed_contracts_size = u8 n })
        ParserStatus.signer_allowed_contracts_length_parsing_error
        ParserStatus.signer_allowed_contracts_length_value_error code rest (λ k item s. refl)
        (λ n s. refl) is at

  pub groups-Goes :
      (scope : ℕ) {p : Parse} (code rest : List ℕ)
      → Optional (has_flag scope custom_groups) 33 code
      → At memory size p (code ++ rest) J
      → Goes memory size (parse_groups i scope p) tt rest J
  unfolding parse_groups
  groups-Goes scope code rest is at =
      listed-Goes (has_flag scope custom_groups) store_group 33
        (λ n s. record s { allowed_groups_size = u8 n })
        ParserStatus.signer_allowed_groups_length_parsing_error
        ParserStatus.signer_allowed_groups_length_value_error code rest (λ k item s. refl)
        (λ n s. refl) is at
