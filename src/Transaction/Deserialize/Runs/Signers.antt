-- ===== src/Transaction/Deserialize/Runs/Signers.antt =====
-- The signers and the attributes: the relation need only keep when their lists change.
use ledger_app_neo.Prelude.{ℕ, zero, suc, ◌+◌, refl, not, ◌&&◌, List, ltb, ◌==◌, bit_and}
use ledger_app_neo.Word.{u8}
use ledger_app_neo.Sdk.{Sdk}
use ledger_app_neo.Transaction.Types.{
  Signer, ParserStatus, custom_contracts, custom_groups, global, high_priority, uint160_len,
  ecpoint_len, max_signer_sub_items,
}
use ledger_app_neo.Transaction.Monad.{Parse, ◌>>=◌}
use ledger_app_neo.Transaction.Deserialize.{
  Stage, modify_signer, parse_items, store_contract, store_group, parse_contracts, parse_groups,
  account_seen, parse_signer, parse_signers_loop, parse_attributes_loop, attribute_seen,
}
use ledger_app_neo.Transaction.Deserialize.Runs.{
  Runs, Rules, Stores, >>=-Runs, stop_if-Runs, modify-Runs, get-Runs, pure-Runs, skip-Runs,
  varint-Runs, byte-Runs, if-Runs,
}

module _ {P : Parse → Parse → Type 0} (rules : Rules P) where
  infixr 5 ◌then◌
  abbrev ◌then◌ :
      {A B : Type 0} {m : Stage A} {f : A → Stage B}
      → Runs P m
      → ((a : A) → Runs P (f a))
      → Runs P (m >>= f)
  h then k = >>=-Runs rules h k

  module _ (kept : (xs : List Signer) → Stores P (λ tx. record tx { signers = xs })) where
    signer-Runs : (i : ℕ) (f : Signer → Signer) → Runs P (modify_signer i f)
    signer-Runs i f = modify-Runs rules _ (λ p. kept _ p)

    parse_items-Runs :
        (n j : ℕ) (store : ℕ → ℕ → Signer → Signer) (i len : ℕ)
        → Runs P (parse_items n j store i len)
    unfolding parse_items
    parse_items-Runs zero j store i len = record { runs = rules.reflexive }
    parse_items-Runs (suc n) j store i len = record {
      runs = λ p.
          ((get-Runs rules then λ q. signer-Runs i (store j q.buf.offset)) then λ _.
          skip-Runs rules len ParserStatus.signer_allowed_contract_parsing_error refl then λ _.
          parse_items-Runs n (j + 1) store i len).runs
            p;
    }

    parse_contracts-Runs : (i value : ℕ) → Runs P (parse_contracts i value)
    unfolding parse_contracts
    parse_contracts-Runs i value =
        if-Runs (bit_and value custom_contracts == custom_contracts) _ _
          (varint-Runs rules ParserStatus.signer_allowed_contracts_length_parsing_error refl
            then λ n.
                stop_if-Runs rules (ltb max_signer_sub_items n)
                  ParserStatus.signer_allowed_contracts_length_value_error refl
                then λ _. signer-Runs i (λ s. record s { allowed_contracts_size = u8 n }) then λ _.
                    parse_items-Runs n 0 store_contract i uint160_len)
          (pure-Runs rules)

    parse_groups-Runs : (i value : ℕ) → Runs P (parse_groups i value)
    unfolding parse_groups
    parse_groups-Runs i value =
        if-Runs (bit_and value custom_groups == custom_groups) _ _
          (varint-Runs rules ParserStatus.signer_allowed_groups_length_parsing_error refl then λ n.
            stop_if-Runs rules (ltb max_signer_sub_items n)
              ParserStatus.signer_allowed_groups_length_value_error refl
            then λ _. signer-Runs i (λ s. record s { allowed_groups_size = u8 n }) then λ _.
                parse_items-Runs n 0 store_group i ecpoint_len)
          (pure-Runs rules)

    parse_signer-Runs : (sdk : Sdk) (i : ℕ) → Runs P (parse_signer sdk i)
    unfolding parse_signer
    parse_signer-Runs sdk i = get-Runs rules then λ start.
        signer-Runs i (λ s. record s { account = start.buf.offset }) then λ _.
        skip-Runs rules uint160_len ParserStatus.signer_account_parsing_error refl then λ _.
        get-Runs rules then λ here.
        stop_if-Runs rules (account_seen sdk i 0 i here) ParserStatus.signer_account_duplicate_error
          refl
        then λ _. byte-Runs rules ParserStatus.signer_scope_parsing_error refl then λ value.
            signer-Runs i (λ s. record s { scope = value }) then λ _.
            stop_if-Runs rules (bit_and value global == global && not (value == global))
              ParserStatus.signer_scope_value_error_global_flag refl
            then λ _. parse_contracts-Runs i value then λ _. parse_groups-Runs i value

    pub parse_signers_loop-Runs : (sdk : Sdk) (n i : ℕ) → Runs P (parse_signers_loop sdk n i)
    unfolding parse_signers_loop
    parse_signers_loop-Runs sdk zero i = record { runs = rules.reflexive }
    parse_signers_loop-Runs sdk (suc n) i = record {
      runs = λ p. (parse_signer-Runs sdk i then λ _. parse_signers_loop-Runs sdk n (i + 1)).runs p;
    }

  pub parse_attributes_loop-Runs :
      ((xs : List ℕ) → Stores P (λ tx. record tx { attributes = xs }))
      → (n i : ℕ) → Runs P (parse_attributes_loop n i)
  unfolding parse_attributes_loop
  parse_attributes_loop-Runs kept zero i = record { runs = rules.reflexive }
  parse_attributes_loop-Runs kept (suc n) i = record {
    runs = λ p.
        (byte-Runs rules ParserStatus.attributes_unsupported_type refl then λ type.
        stop_if-Runs rules (not (type == high_priority)) ParserStatus.attributes_unsupported_type
          refl
        then λ _. get-Runs rules then λ q.
            stop_if-Runs rules (attribute_seen q.tx.attributes_size 0 type q.tx)
              ParserStatus.attributes_duplicate_type refl
            then λ _. modify-Runs rules _ (λ p. kept _ p) then λ _.
                parse_attributes_loop-Runs kept n (i + 1)).runs
          p;
  }
