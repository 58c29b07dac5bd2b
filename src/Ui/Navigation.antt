-- ===== src/Ui/Navigation.antt =====
-- ui/display.c, the dynamic screens: what is shown at the cursor, and the moves of the flow around it.
pub mod Texts
pub mod Screens
pub mod Forward
pub mod Tour
use ledger_app_neo.Prelude.{
  ℕ, ◌+◌, ◌&&◌, Bool, true, false, Option, none, some, List, get_or, ◌==◌, if◌then◌else◌, ℤ, pos,
  negsuc,
}
use ledger_app_neo.Transaction.Types.{Transaction, signer_at}
use ledger_app_neo.Ui.Signers.{
  DisplayCtx, Screen, static_screen, dynamic_screen, next_prop, prev_prop, start, index, contracts,
  groups, end, succ,
}

pub data Direction : Type 0 where
  forward backward : Direction

-- The screen that `get_next_data` fills, with the arguments that it prints (Ui/Navigation/Texts). A pointer
-- is an offset into the raw transaction.
pub data Shown : Type 0 where
  signer_index : ℕ → ℕ → Shown
  account : ℕ → Shown
  scope : ℕ → Shown
  contract : ℤ → ℕ → ℕ → Shown
  group : ℤ → ℕ → ℕ → Shown

-- An item by its signed index; one below 0 is outside the array.
abbrev pub item_at : List ℕ → ℤ → ℕ
item_at items (pos i) = get_or items i 0
item_at items (negsuc i) = 0

-- The calls that move the flow.
pub data Move : Type 0 where
  ux_flow_next ux_flow_prev bnnn_paging_edgecase : Move

abbrev pub found : Option Shown → Screen → Screen → Screen
found none a b = b
found (some x) a b = a

abbrev pub go_to : Option Shown → Move → Move → Move
go_to none a b = b
go_to (some x) a b = a

module _ (tx : Transaction) where
  unfoldable pub moved : Direction → DisplayCtx → DisplayCtx
  moved forward d = next_prop tx d
  moved backward d = prev_prop tx d

  -- `switch (display)`.
  unfoldable pub shown : DisplayCtx → Option Shown
  shown d =
      let s = signer_at tx d.s_index in
      if d.p_index == start
      then none
      else if d.p_index == index
      then some (signer_index (d.s_index + 1) tx.signers_size)
      else if d.p_index == 2
      then some (account s.account)
      else if d.p_index == 3
      then some (scope s.scope)
      else if d.p_index == contracts
      then some (
          contract (succ d.c_index) s.allowed_contracts_size
            (item_at s.allowed_contracts d.c_index))
      else if d.p_index == groups
      then some (group (succ d.g_index) s.allowed_groups_size (item_at s.allowed_groups d.g_index))
      else none

  -- The cursor after the move, and what is to be shown there.
  unfoldable pub get_next_data : Direction → DisplayCtx → Option Shown × DisplayCtx
  unfolding moved shown
  get_next_data direction d =
      let d' = moved direction d in
      if d'.s_index == tx.signers_size && d'.p_index == end then (none, d') else (shown d', d')

  abbrev screen_after : Screen → Direction → DisplayCtx → Move → Move → DisplayCtx × Move
  screen_after s direction d hit miss =
      let (data', d') = get_next_data direction d in
      (record d' { current_state = found data' dynamic_screen s }, go_to data' hit miss)

  -- `display_next_state`, for the two delimiters and the two kinds of screen.
  unfoldable pub display_state : Bool → Screen → DisplayCtx → DisplayCtx × Move
  unfolding get_next_data
  display_state true static_screen d =
      screen_after static_screen forward d ux_flow_next ux_flow_next
  display_state true dynamic_screen d =
      screen_after static_screen backward d ux_flow_next ux_flow_prev
  display_state false static_screen d =
      screen_after static_screen backward d ux_flow_prev ux_flow_prev
  display_state false dynamic_screen d =
      screen_after static_screen forward d bnnn_paging_edgecase ux_flow_next

  unfoldable pub display_next_state : Bool → DisplayCtx → DisplayCtx × Move
  unfolding display_state
  display_next_state is_upper_delimiter d = display_state is_upper_delimiter d.current_state d
