-- ===== src/Ui/Signers/Depth.antt =====
-- `next_prop` and `prev_prop` of ui/display.c call themselves once at most.
use ledger_app_neo.Prelude.{
  ℕ, suc, ◌+◌, ◌-◌, ◌&&◌, ◌≡◌, refl, sym, ap, ◌∙◌, Bool, true, false, ltb, ◌==◌, Bool-cases, inl,
  inr, if◌then◌else◌, pos, negsuc,
}
use ledger_app_neo.Word.{u8}
use ledger_app_neo.Transaction.Types.{Transaction, signer_at}
use ledger_app_neo.Ui.Signers.{
  DisplayCtx, Flow, done, onward, start, index, contracts, end, chain, chain_flow, next_contract,
  next_group, next_signer, next_prop_fuel, next_prop, prev_group, prev_contract, prev_signer,
  prev_prop_fuel, prev_prop,
}

and_false : (b : Bool) → (b && false) ≡ false
and_false true = refl
and_false false = refl

module _ (tx : Transaction) where
  chain_same :
      (f : Flow) (k k' : DisplayCtx → DisplayCtx)
      → ((d : DisplayCtx) → k d ≡ k' d)
      → chain tx f k ≡ chain tx f k'
  chain_same (done d) k k' h = refl
  chain_same (onward d) k k' h = h d

  -- The cursor that the second call of `next_prop` starts from, and that of `prev_prop`.
  abbrev pub next_start : DisplayCtx → DisplayCtx
  next_start d = record d {
    s_index = d.s_index + 1;
    c_index = negsuc 0;
    g_index = negsuc 0;
    p_index = start;
  }

  abbrev pub prev_start : DisplayCtx → DisplayCtx
  prev_start d = record d {
    s_index = d.s_index - 1;
    p_index = end;
    g_index = pos (signer_at tx (d.s_index - 1)).allowed_groups_size;
    c_index = pos (signer_at tx (d.s_index - 1)).allowed_contracts_size;
  }

  pub next_restarted :
      (n : ℕ) (d : DisplayCtx)
      → next_prop_fuel tx (suc n) (next_start d) ≡ record (next_start d) { p_index = index }
  unfolding next_prop_fuel
  next_restarted n d = refl

  next_signer_same :
      (again again' : DisplayCtx → DisplayCtx) (d : DisplayCtx)
      → again (next_start d) ≡ again' (next_start d)
      → next_signer tx again d ≡ next_signer tx again' d
  unfolding next_signer
  next_signer_same again again' d h =
      ap (λ x. if d.p_index == end then (if d.s_index + 1 == tx.signers_size then d else x) else d)
        h

  next_depth : (n : ℕ) (d : DisplayCtx) → next_prop_fuel tx (suc (suc n)) d ≡ next_prop_fuel tx 2 d
  unfolding next_prop_fuel
  next_depth n d =
      let moved : DisplayCtx =
        if ltb d.p_index contracts then record d { p_index = u8 (d.p_index + 1) } else d in
      chain_same (chain_flow tx (next_contract tx moved) (next_group tx))
        (next_signer tx (next_prop_fuel tx (suc n))) (next_signer tx (next_prop_fuel tx 1))
        (λ x.
          next_signer_same (next_prop_fuel tx (suc n)) (next_prop_fuel tx 1) x
            (next_restarted n x ∙ sym (next_restarted 0 x)))

  prev_same :
      (again again' : DisplayCtx → DisplayCtx) (d : DisplayCtx)
      → again (prev_start d) ≡ again' (prev_start d)
      → prev_signer tx again d ≡ prev_signer tx again' d
  unfolding prev_signer
  prev_same again again' d h =
      ap
        (λ x.
          if u8 (d.p_index + 255) == start && ltb 0 d.s_index
          then x
          else record d { p_index = u8 (d.p_index + 255) })
        h

  -- The second call of `prev_prop` returns in its own statements.
  prev_restarted :
      (n : ℕ) (d : DisplayCtx)
      → prev_prop_fuel tx (suc n) (prev_start d) ≡ prev_prop_fuel tx 1 (prev_start d)
  unfolding prev_prop_fuel
  prev_restarted n d =
      let s = signer_at tx (d.s_index - 1) in
      rw (and_false (d.s_index - 1 == 0)) (elim (Bool-cases (ltb 0 s.allowed_groups_size)) [
        | inl some_group ↦ rw some_group refl
        | inr no_group ↦ rw no_group (elim (Bool-cases (ltb 0 s.allowed_contracts_size)) [
          | inl some_contract ↦ rw some_contract refl
          | inr no_contract ↦ rw no_contract refl
        ])
      ])

  prev_depth : (n : ℕ) (d : DisplayCtx) → prev_prop_fuel tx (suc (suc n)) d ≡ prev_prop_fuel tx 2 d
  unfolding prev_prop_fuel
  prev_depth n d =
      let moved : DisplayCtx =
        if d.p_index == end then record d { p_index = u8 (d.p_index + 255) } else d in
      ap (λ x. if d.s_index == 0 && d.p_index == index then record d { p_index = start } else x)
        (chain_same (chain_flow tx (prev_group tx moved) (prev_contract tx))
          (prev_signer tx (prev_prop_fuel tx (suc n))) (prev_signer tx (prev_prop_fuel tx 1))
          (λ x. prev_same (prev_prop_fuel tx (suc n)) (prev_prop_fuel tx 1) x (prev_restarted n x)))

  -- Two calls are as good as any greater number: at every cursor, `next_prop` and `prev_prop` call
  -- themselves once at most.
  pub prop_depth :
      (n : ℕ) (d : DisplayCtx)
      → (next_prop_fuel tx (suc (suc n)) d ≡ next_prop tx d)
        × (prev_prop_fuel tx (suc (suc n)) d ≡ prev_prop tx d)
  prop_depth n d = (next_depth n d, prev_depth n d)
