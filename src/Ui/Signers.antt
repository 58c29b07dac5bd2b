-- ===== src/Ui/Signers.antt =====
-- ui/display.c, `next_prop` and `prev_prop`: a cursor over the properties of the transaction's signers.
pub mod Walk
pub mod Depth
use ledger_app_neo.Prelude.{
  ℕ, zero, suc, ◌+◌, ◌-◌, ◌&&◌, Bool, true, false, ltb, ◌==◌, if◌then◌else◌, ℤ, pos, negsuc,
}
use ledger_app_neo.Word.{u8}
use ledger_app_neo.Transaction.Types.{Transaction, Signer, signer_at}

pub data Screen : Type 0 where
  static_screen dynamic_screen : Screen

-- `enum e_signer_state`, by its values; `signer_property[i]` is `i`.
abbrev pub start : ℕ
start = 0

abbrev pub index : ℕ
index = 1

abbrev pub contracts : ℕ
contracts = 4

abbrev pub groups : ℕ
groups = 5

abbrev pub end : ℕ
end = 6

-- `c_index` and `g_index` are signed bytes, and -1 before the first item.
pub record DisplayCtx : Type 0 where
  pub current_state : Screen
  pub s_index : ℕ
  pub p_index : ℕ
  pub c_index : ℤ
  pub g_index : ℤ

unfoldable pub reset_signer_display_state : DisplayCtx
reset_signer_display_state = record {
  current_state = static_screen;
  s_index = 0;
  p_index = 0;
  c_index = negsuc 0;
  g_index = negsuc 0;
}

-- `z + 1` and `z - 1`.
abbrev pub succ : ℤ → ℤ
succ (pos n) = pos (n + 1)
succ (negsuc zero) = pos 0
succ (negsuc (suc n)) = negsuc n

abbrev pub pred : ℤ → ℤ
pred (pos zero) = negsuc 0
pred (pos (suc n)) = pos n
pred (negsuc n) = negsuc (n + 1)

-- `z < n` for a size `n`, and `0 < z`.
abbrev pub below : ℤ → ℕ → Bool
below (pos m) n = ltb m n
below (negsuc m) n = true

abbrev pub positive : ℤ → Bool
positive (pos n) = ltb 0 n
positive (negsuc n) = false

-- An early return of `next_prop` or `prev_prop`, or the context that its next statement sees.
pub data Flow : Type 0 where
  done : DisplayCtx → Flow
  onward : DisplayCtx → Flow

module _ (tx : Transaction) where
  abbrev pub signer : DisplayCtx → Signer
  signer d = signer_at tx d.s_index

  -- The two `if` statements of `next_prop` over the lists of a signer.
  unfoldable pub next_contract : DisplayCtx → Flow
  next_contract d =
      if d.p_index == contracts
      then (if below (succ d.c_index) (signer d).allowed_contracts_size
          then done (record d { c_index = succ d.c_index })
          else onward (record d { c_index = succ d.c_index; p_index = u8 (d.p_index + 1) }))
      else onward d

  unfoldable pub next_group : DisplayCtx → Flow
  next_group d =
      if d.p_index == groups
      then (if below (succ d.g_index) (signer d).allowed_groups_size
          then done (record d { g_index = succ d.g_index })
          else onward (record d { g_index = succ d.g_index; p_index = u8 (d.p_index + 1) }))
      else onward d

  -- `next_prop`, which calls itself for the next signer; that call is the last one.
  unfoldable pub next_signer : (DisplayCtx → DisplayCtx) → DisplayCtx → DisplayCtx
  next_signer again d =
      if d.p_index == end
      then (if d.s_index + 1 == tx.signers_size
          then d
          else again (record d {
            s_index = d.s_index + 1;
            c_index = negsuc 0;
            g_index = negsuc 0;
            p_index = start;
          }))
      else d

  abbrev pub chain : Flow → (DisplayCtx → DisplayCtx) → DisplayCtx
  chain (done d) k = d
  chain (onward d) k = k d

  abbrev pub chain_flow : Flow → (DisplayCtx → Flow) → Flow
  chain_flow (done d) k = done d
  chain_flow (onward d) k = k d

  unfoldable pub next_prop_fuel : ℕ → DisplayCtx → DisplayCtx
  unfolding next_contract next_group next_signer
  next_prop_fuel zero d = d
  next_prop_fuel (suc fuel) d =
      let again = next_prop_fuel fuel in
      let moved =
        if ltb d.p_index contracts then record d { p_index = u8 (d.p_index + 1) } else d in
      chain (chain_flow (next_contract moved) next_group) (next_signer again)

  -- `prev_prop`: the statements over the groups and the contracts, then the step back.
  unfoldable pub prev_group : DisplayCtx → Flow
  prev_group d =
      if d.p_index == groups
      then (if positive d.g_index
          then done (record d { g_index = pred d.g_index })
          else onward (record d { g_index = pred d.g_index; p_index = u8 (d.p_index + 255) }))
      else onward d

  unfoldable pub prev_contract : DisplayCtx → Flow
  prev_contract d =
      if d.p_index == contracts
      then (if positive d.c_index
          then done (record d { c_index = pred d.c_index })
          else onward (record d { c_index = pred d.c_index }))
      else onward d

  unfoldable pub prev_signer : (DisplayCtx → DisplayCtx) → DisplayCtx → DisplayCtx
  prev_signer again d =
      let back = record d { p_index = u8 (d.p_index + 255) } in
      let s = d.s_index - 1 in
      if back.p_index == start && ltb 0 back.s_index
      then again (record back {
        s_index = s;
        p_index = end;
        g_index = pos (signer_at tx s).allowed_groups_size;
        c_index = pos (signer_at tx s).allowed_contracts_size;
      })
      else back

  unfoldable pub prev_prop_fuel : ℕ → DisplayCtx → DisplayCtx
  unfolding prev_group prev_contract prev_signer
  prev_prop_fuel zero d = d
  prev_prop_fuel (suc fuel) d =
      let again = prev_prop_fuel fuel in
      let moved = if d.p_index == end then record d { p_index = u8 (d.p_index + 255) } else d in
      if d.s_index == 0 && d.p_index == index
      then record d { p_index = start }
      else chain (chain_flow (prev_group moved) prev_contract) (prev_signer again)

  -- One call deep: a signer has properties, so the second call returns before a third.
  abbrev pub next_prop : DisplayCtx → DisplayCtx
  next_prop d = next_prop_fuel 2 d

  abbrev pub prev_prop : DisplayCtx → DisplayCtx
  prev_prop d = prev_prop_fuel 2 d
