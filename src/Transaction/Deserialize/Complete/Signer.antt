-- ===== src/Transaction/Deserialize/Complete/Signer.antt =====
-- A signer of the layout is read, if its account is new.
use ledger_app_neo.Prelude.{
  ℕ, ◌<◌, ◌≡◌, refl, sym, ap, ◌∙◌, false, not, ◌&&◌, List, ◌∷◌, ◌++◌, append_assoc, take, drop,
  length, set, get_or-set_self, ◌==◌,
}
use mathlib.Core.Path.{subst}
use ledger_app_neo.Sdk.{Sdk}
use ledger_app_neo.Common.Buffer.{buffer_read_u8}
use ledger_app_neo.Transaction.Types.{Transaction, Signer, ParserStatus, signer_at, global}
use ledger_app_neo.Transaction.Monad.{Parse, ◌>>=◌, ◌>>◌, stop_if, get, read_value, skip}
use ledger_app_neo.Transaction.Monad.Forward.{
  At, Goes, >>=-Goes, stop_if-Goes, modify-Goes, skip-Goes, ahead_bytes,
}
use ledger_app_neo.Transaction.Deserialize.{
  Stage, modify_signer, parse_contracts, parse_groups, account_seen, parse_signer,
}
use ledger_app_neo.Transaction.Deserialize.Layout.{has_flag, SignerCode}
use ledger_app_neo.Transaction.Deserialize.Complete.Reads.{byte-Goes}
use ledger_app_neo.Transaction.Deserialize.Complete.Items.{
  set_signer, set-Goes, Stays, contracts-Goes, groups-Goes,
}

-- The account of a signer is in the memory.
abbrev pub Account : List ℕ → ℕ → List ℕ → Transaction → Type 0
Account memory s account tx = take 20 (drop (signer_at tx s).account memory) ≡ account

module _ (memory : List ℕ) (size : ℕ) (sdk : Sdk) (i : ℕ) (K : Transaction → Type 0)
    (inside : (t : Transaction) → K t → i < length t.signers)
    (keeps : (s : Signer) (t : Transaction)
      → K t
      → K (record t { signers = set t.signers i s })) where
  abbrev pub With : List ℕ → Transaction → Type 0
  With account t = K t × Account memory i account t

  pub With-Stays : (account : List ℕ) → Stays i (With account)
  With-Stays account = record {
    stays = λ f t same h.
        let s = f (signer_at t i) in
        (
          keeps s t h.0,
          ap (λ (s : Signer). take 20 (drop s.account memory))
                (get_or-set_self t.signers i s _ (inside t h.0))
              ∙ ap (λ a. take 20 (drop a memory)) (same (signer_at t i))
              ∙ h.1,
        );
  }

  abbrev from_scope : Stage (Unit {0})
  from_scope = read_value buffer_read_u8 ParserStatus.signer_scope_parsing_error >>= λ value.
      modify_signer i (λ s. record s { scope = value })
      >> (stop_if (has_flag value global && not (value == global))
            ParserStatus.signer_scope_value_error_global_flag
          >> (parse_contracts i value >> parse_groups i value))

  abbrev from_account : Stage (Unit {0})
  from_account = get >>= λ here.
      stop_if (account_seen sdk i 0 i here) ParserStatus.signer_account_duplicate_error
      >> from_scope

  -- A signer whose account is no earlier one's.
  pub signer-Goes :
      {p : Parse} (account code rest : List ℕ)
      → SignerCode account code
      → ((q : Parse) → q.buf.ptr ≡ memory → With account q.tx → account_seen sdk i 0 i q ≡ false)
      → At memory size p (code ++ rest) K
      → Goes memory size (parse_signer sdk i p) tt rest (With account)
  unfolding parse_signer
  signer-Goes {p} account code rest is fresh at =
      let behind_scope = is.contracts ++ (is.groups ++ rest) in
      let split : code ++ rest ≡ account ++ (is.scope ∷ behind_scope) =
        ap (λ xs. xs ++ rest) is.code_eq
        ∙ append_assoc account (is.scope ∷ (is.contracts ++ is.groups)) rest
        ∙ ap (λ xs. account ++ (is.scope ∷ xs)) (append_assoc is.contracts is.groups rest) in
      let start = subst (λ xs. At memory size p xs K) split at in
      let there : take 20 (drop p.buf.offset memory) ≡ account =
        ap (λ xs. take 20 (drop p.buf.offset xs)) (sym start.memory_eq)
        ∙ ahead_bytes memory size 20 account (is.scope ∷ behind_scope) is.account_length start in
      let stored = λ (s : Signer). record s { account = p.buf.offset } in
      >>=-Goes memory size (modify_signer i stored)
        (λ _. skip 20 ParserStatus.signer_account_parsing_error >> from_account) p
        (modify-Goes memory size (set_signer i stored) {Q = With account}
          (λ t h. (
            keeps (stored (signer_at t i)) t h,
            ap (λ (s : Signer). take 20 (drop s.account memory))
                  (get_or-set_self t.signers i (stored (signer_at t i)) _ (inside t h))
                ∙ there,
          ))
          start)
        λ p1 a1.
          >>=-Goes memory size (skip 20 ParserStatus.signer_account_parsing_error)
            (λ _. from_account) p1
            (skip-Goes memory size 20 account (is.scope ∷ behind_scope) is.account_length a1 _)
            λ p2 a2.
              >>=-Goes memory size
                (stop_if (account_seen sdk i 0 i p2) ParserStatus.signer_account_duplicate_error)
                (λ _. from_scope) p2
                (stop_if-Goes memory size _ _ (fresh p2 a2.memory_eq a2.holds) a2)
                λ p3 a3.
                  >>=-Goes memory size
                    (read_value buffer_read_u8 ParserStatus.signer_scope_parsing_error)
                    (λ value.
                      modify_signer i (λ s. record s { scope = value })
                      >> (stop_if (has_flag value global && not (value == global))
                            ParserStatus.signer_scope_value_error_global_flag
                          >> (parse_contracts i value >> parse_groups i value)))
                    p3 (byte-Goes memory size (λ _ tx. tx) _ is.scope behind_scope (λ t h. h) a3)
                    λ p4 a4.
                      >>=-Goes memory size (modify_signer i (λ s. record s { scope = is.scope }))
                        (λ _.
                          stop_if (has_flag is.scope global && not (is.scope == global))
                            ParserStatus.signer_scope_value_error_global_flag
                          >> (parse_contracts i is.scope >> parse_groups i is.scope))
                        p4
                        (set-Goes memory size i (With-Stays account)
                          (λ s. record s { scope = is.scope }) (λ s. refl) a4)
                        λ p5 a5.
                          >>=-Goes memory size
                            (stop_if (has_flag is.scope global && not (is.scope == global))
                              ParserStatus.signer_scope_value_error_global_flag)
                            (λ _. parse_contracts i is.scope >> parse_groups i is.scope) p5
                            (stop_if-Goes memory size _ _ is.alone a5)
                            λ p6 a6.
                              >>=-Goes memory size (parse_contracts i is.scope)
                                (λ _. parse_groups i is.scope) p6
                                (contracts-Goes memory size i (With-Stays account) is.scope
                                  is.contracts (is.groups ++ rest) is.contracts_ok a6)
                                λ p7 a7.
                                  groups-Goes memory size i (With-Stays account) is.scope is.groups
                                    rest is.groups_ok a7
