-- ===== src/Ui/Steps.antt =====
-- ui/display.c and ui/menu.c: the steps of the flows, what each shows, and what its button does.
use ledger_app_neo.Prelude.{Bool, true, false, List, [], ◌∷◌}
use Prim.Native.String.{String}
use ledger_app_neo.Device.Context.{Flow}

pub data Icon : Type 0 where
  icon_eye icon_validate_14 icon_crossmark badge_neo icon_certificate icon_dashboard_x icon_back :
      Icon

-- The global texts that a step points to, and the version that the build defines.
pub data Text : Type 0 where
  g_address g_text g_system_fee g_network g_network_fee g_total_fees g_valid_until_block
        appversion :
      Text
  literal : String → Text

pub data Title : Type 0 where
  fixed : String → Title
  g_title : Title

-- The call of a step with a button: the callback with an answer, a menu, or the end of the application.
pub data Press : Type 0 where
  validate : Bool → Press
  about main_menu quit : Press

-- The layouts of the SDK that are used; a delimiter is shown by `display_next_state`.
pub data Step : Type 0 where
  pn : Icon → String → Step
  pnn : Icon → String → String → Step
  bn : String → Text → Step
  bnnn_paging : Title → Text → Step
  pb : Icon → String → Press → Step
  delimiter : (is_upper_delimiter : Bool) → Step

abbrev pub ux_display_confirm_addr_step : Step
ux_display_confirm_addr_step = pn icon_eye "Confirm Address"

abbrev pub ux_display_address_step : Step
ux_display_address_step = bnnn_paging (fixed "Address") g_address

abbrev pub ux_display_approve_step : Step
ux_display_approve_step = pb icon_validate_14 "Approve" (validate true)

abbrev pub ux_display_reject_step : Step
ux_display_reject_step = pb icon_crossmark "Reject" (validate false)

abbrev pub ux_display_pubkey_flow : List Step
ux_display_pubkey_flow =
    ux_display_confirm_addr_step ∷ ux_display_address_step ∷ ux_display_approve_step
    ∷ ux_display_reject_step ∷ []

abbrev pub ux_display_review_step : Step
ux_display_review_step = pnn icon_eye "Review" "Transaction"

abbrev pub ux_display_dst_address_step : Step
ux_display_dst_address_step = bnnn_paging (fixed "Destination addr") g_address

abbrev pub ux_display_token_amount_step : Step
ux_display_token_amount_step = bnnn_paging (fixed "Token amount") g_text

abbrev pub ux_display_systemfee_step : Step
ux_display_systemfee_step = bnnn_paging (fixed "System fee") g_system_fee

abbrev pub ux_display_network_step : Step
ux_display_network_step = bnnn_paging (fixed "Target network") g_network

abbrev pub ux_display_networkfee_step : Step
ux_display_networkfee_step = bnnn_paging (fixed "Network fee") g_network_fee

abbrev pub ux_display_total_fee : Step
ux_display_total_fee = bnnn_paging (fixed "Total fees") g_total_fees

abbrev pub ux_display_validuntilblock_step : Step
ux_display_validuntilblock_step = bnnn_paging (fixed "Valid until height") g_valid_until_block

abbrev pub ux_display_no_arbitrary_script_step : Step
ux_display_no_arbitrary_script_step =
    bnnn_paging (fixed "Error") (literal "Only NEO or GAS transfer scripts are supported.")

abbrev pub ux_display_abort_step : Step
ux_display_abort_step = pb icon_validate_14 "Understood, abort.." (validate false)

abbrev pub ux_upper_delimiter : Step
ux_upper_delimiter = delimiter true

abbrev pub ux_display_generic : Step
ux_display_generic = bnnn_paging g_title g_text

abbrev pub ux_lower_delimiter : Step
ux_lower_delimiter = delimiter false

-- The array that `create_transaction_flow` fills, up to its end, by the flag of a transfer.
unfoldable pub ux_display_transaction_flow : (is_system_asset_transfer : Bool) → List Step
ux_display_transaction_flow false = ux_display_no_arbitrary_script_step ∷ ux_display_abort_step ∷ []
ux_display_transaction_flow true =
    ux_display_review_step ∷ ux_display_dst_address_step ∷ ux_display_token_amount_step
    ∷ ux_display_network_step ∷ ux_display_systemfee_step ∷ ux_display_networkfee_step
    ∷ ux_display_total_fee ∷ ux_display_validuntilblock_step ∷ ux_upper_delimiter
    ∷ ux_display_generic ∷ ux_lower_delimiter ∷ ux_display_approve_step ∷ ux_display_reject_step
    ∷ []

abbrev pub ux_menu_ready_step : Step
ux_menu_ready_step = pn badge_neo "Wake up NEO.."

abbrev pub ux_menu_version_step : Step
ux_menu_version_step = bn "Version" appversion

abbrev pub ux_menu_about_step : Step
ux_menu_about_step = pb icon_certificate "About" about

abbrev pub ux_menu_exit_step : Step
ux_menu_exit_step = pb icon_dashboard_x "Quit" quit

abbrev pub ux_menu_main_flow : List Step
ux_menu_main_flow =
    ux_menu_ready_step ∷ ux_menu_version_step ∷ ux_menu_about_step ∷ ux_menu_exit_step ∷ []

abbrev pub ux_menu_info_step : Step
ux_menu_info_step = bn "NEO3 App" (literal "(c) 2021 COZ Inc")

abbrev pub ux_menu_back_step : Step
ux_menu_back_step = pb icon_back "Back" main_menu

abbrev pub ux_menu_about_flow : List Step
ux_menu_about_flow = ux_menu_info_step ∷ ux_menu_back_step ∷ []

-- The steps of the flow that was started last.
unfoldable pub steps : Flow → List Step
unfolding ux_display_transaction_flow
steps Flow.menu_flow = ux_menu_main_flow
steps Flow.about_flow = ux_menu_about_flow
steps Flow.pubkey_flow = ux_display_pubkey_flow
steps Flow.abort_flow = ux_display_transaction_flow false
steps Flow.transaction_flow = ux_display_transaction_flow true

-- The calls of the buttons of some steps.
unfoldable pub presses : List Step → List Press
presses [] = []
presses (pb icon text call ∷ rest) = call ∷ presses rest
presses (_ ∷ rest) = presses rest
