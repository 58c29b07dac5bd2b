-- ===== src/Ui/Navigation/Tour.antt =====
-- The tour of ui/display.c through the dynamic screens: what a user sees who enters them from above and
-- goes on to the screens below.
use ledger_app_neo.Prelude.{Option, none, ◌==◌, if◌then◌else◌, ◌&&◌}
use ledger_app_neo.Transaction.Types.{Transaction}
use ledger_app_neo.Ui.Signers.{DisplayCtx, static_screen, dynamic_screen, end}
use ledger_app_neo.Ui.Navigation.{
  Move, ux_flow_next, bnnn_paging_edgecase, found, go_to, Shown, shown,
}
use ledger_app_neo.Ui.Navigation.Texts.{Texts}

module _ (tx : Transaction) where
  -- Where the lower delimiter leads from a dynamic screen, by the cursor after the step forward.
  abbrev data_at : DisplayCtx → Option Shown
  data_at d = if d.s_index == tx.signers_size && d.p_index == end then none else shown tx d

  abbrev landed : DisplayCtx → DisplayCtx × Move
  landed d = (
    record d { current_state = found (data_at d) dynamic_screen static_screen },
    go_to (data_at d) bnnn_paging_edgecase ux_flow_next,
  )

  abbrev picked : Option Shown × DisplayCtx → Move → Move → DisplayCtx × Move
  picked r hit miss =
      (record r.1 { current_state = found r.0 dynamic_screen static_screen }, go_to r.0 hit miss)
