-- ===== src/Ui/Signers/Walk.antt =====
-- The walk of ui/display.c through the signers' properties: where its cursor can be, and that a step
-- forward and a step back are inverse.
use ledger_app_neo.Prelude.{ℕ, ◌≤◌, ◌<◌, ◌≡◌, arith, pos, negsuc}
use ledger_app_neo.Transaction.Types.{Transaction, signer_at}
use ledger_app_neo.Ui.Signers.{
  DisplayCtx, Screen, start, contracts, groups, next_prop, next_prop_fuel, prev_prop,
  prev_prop_fuel,
}

-- The cursor at a property that is shown: before the first one, at the index, the account or the scope of a
-- signer, at one of its allowed contracts, or at one of its allowed groups.
pub data Shows (tx : Transaction) : DisplayCtx → Type 0 where
  before :
      (screen : Screen)
      → Shows tx (record {
        current_state = screen;
        s_index = 0;
        p_index = start;
        c_index = negsuc 0;
        g_index = negsuc 0;
      })
  at_head :
      (screen : Screen) (s p : ℕ)
      → s < tx.signers_size
      → 1 ≤ p
      → p ≤ 3
      → Shows tx (record {
        current_state = screen;
        s_index = s;
        p_index = p;
        c_index = negsuc 0;
        g_index = negsuc 0;
      })
  at_contract :
      (screen : Screen) (s i : ℕ)
      → s < tx.signers_size
      → i < (signer_at tx s).allowed_contracts_size
      → Shows tx (record {
        current_state = screen;
        s_index = s;
        p_index = contracts;
        c_index = pos i;
        g_index = negsuc 0;
      })
  at_group :
      (screen : Screen) (s i : ℕ)
      → s < tx.signers_size
      → i < (signer_at tx s).allowed_groups_size
      → Shows tx (record {
        current_state = screen;
        s_index = s;
        p_index = groups;
        c_index = pos (signer_at tx s).allowed_contracts_size;
        g_index = pos i;
      })

module _ (tx : Transaction) where
  -- From every property that is shown, the step forward, also one to the next signer or beyond the last
  -- one, is undone by the step back.
  pub prev_prop-next_prop : (d : DisplayCtx) → Shows tx d → prev_prop tx (next_prop tx d) ≡ d
  unfolding next_prop_fuel prev_prop_fuel
  prev_prop-next_prop _ (before screen) = ground arith
  prev_prop-next_prop _ (at_head screen s p in_signers low high) = ground arith
  prev_prop-next_prop _ (at_contract screen s i in_signers in_list) = ground arith
  prev_prop-next_prop _ (at_group screen s i in_signers in_list) = ground arith
