-- ===== src/Ui/Navigation/Forward.antt =====
-- The step forward of ui/display.c, from every screen of a signer.
use ledger_app_neo.Prelude.{
  ℕ, ◌+◌, ◌<◌, ◌≡◌, refl, arith, Bool-cases, inl, inr, ltb, ◌==◌, if◌then◌else◌, ℤ, pos, negsuc,
}
use ledger_app_neo.Transaction.Types.{Transaction, signer_at}
use ledger_app_neo.Ui.Signers.{
  DisplayCtx, dynamic_screen, index, contracts, groups, end, next_prop, next_prop_fuel, next_group,
  next_signer, chain,
}

abbrev pub cursor : ℕ → ℕ → ℤ → ℤ → DisplayCtx
cursor s p c g = record {
  current_state = dynamic_screen;
  s_index = s;
  p_index = p;
  c_index = c;
  g_index = g;
}

-- The cursor at the head of a signer, and at a contract.
abbrev pub at_head : ℕ → ℕ → DisplayCtx
at_head s p = cursor s p (negsuc 0) (negsuc 0)

abbrev pub contract_cursor : ℕ → ℕ → DisplayCtx
contract_cursor s i = cursor s contracts (pos i) (negsuc 0)

module _ (tx : Transaction) where
  -- The cursor at a group, and behind the groups or the contracts.
  abbrev pub group_cursor : ℕ → ℕ → DisplayCtx
  group_cursor s i = cursor s groups (pos (signer_at tx s).allowed_contracts_size) (pos i)

  abbrev pub behind : ℕ → DisplayCtx
  behind s =
      if s + 1 == tx.signers_size
      then record (group_cursor s (signer_at tx s).allowed_groups_size) { p_index = end }
      else at_head (s + 1) index

  abbrev pub at_groups : ℕ → ℕ → DisplayCtx
  at_groups s i = if ltb i (signer_at tx s).allowed_groups_size then group_cursor s i else behind s

  abbrev pub at_contracts : ℕ → ℕ → DisplayCtx
  at_contracts s i =
      if ltb i (signer_at tx s).allowed_contracts_size then contract_cursor s i else at_groups s 0

  -- The step forward.
  pub next-group :
      (s i : ℕ)
      → i < (signer_at tx s).allowed_groups_size
      → next_prop tx (group_cursor s i) ≡ at_groups s (i + 1)
  unfolding next_prop_fuel
  next-group s i h = ground arith

  -- The step to the groups, behind the contracts.
  to_groups :
      (s c : ℕ)
      → c ≡ (signer_at tx s).allowed_contracts_size
      → chain tx
          (next_group tx (cursor s groups (pos c) (negsuc 0)))
          (next_signer tx (next_prop_fuel tx 1))
        ≡ at_groups s 0
  unfolding next_prop_fuel
  to_groups s c e = elim (Bool-cases (ltb 0 (signer_at tx s).allowed_groups_size)) [
    | inl more ↦ rw (e, more) refl
    | inr few ↦
        let empty : (signer_at tx s).allowed_groups_size ≡ 0 = ground arith in rw (e, empty) refl
  ]

  pub next-contract :
      (s i : ℕ)
      → i < (signer_at tx s).allowed_contracts_size
      → next_prop tx (contract_cursor s i) ≡ at_contracts s (i + 1)
  unfolding next_prop_fuel
  next-contract s i h = elim (Bool-cases (ltb (i + 1) (signer_at tx s).allowed_contracts_size)) [
    | inl more ↦ rw more refl
    | inr last ↦ rw last (to_groups s (i + 1) (ground arith))
  ]

  pub next-scope : (s : ℕ) → next_prop tx (at_head s 3) ≡ at_contracts s 0
  unfolding next_prop_fuel
  next-scope s = elim (Bool-cases (ltb 0 (signer_at tx s).allowed_contracts_size)) [
    | inl more ↦ rw more refl
    | inr last ↦ rw last (to_groups s 0 (ground arith))
  ]
