-- ===== src/Ui/Navigation/Screens.antt =====
-- What a user of ui/display.c is to see of the signers, and a tour through these screens.
use ledger_app_neo.Prelude.{ℕ, zero, suc, ◌+◌, ◌≡◌, false, some, List, [], ◌∷◌, ◌++◌, get_or, pos}
use ledger_app_neo.Transaction.Types.{Transaction, Signer, signer_at}
use ledger_app_neo.Ui.Signers.{DisplayCtx, static_screen, dynamic_screen}
use ledger_app_neo.Ui.Navigation.{
  Move, ux_flow_next, Shown, signer_index, account, scope, contract, group, shown,
  display_next_state,
}
use ledger_app_neo.Ui.Navigation.Texts.{Texts, print, printed}

-- The screens of the allowed contracts and of the allowed groups, in order.
abbrev pub contract_screens : Signer → ℕ → ℕ → List Shown
contract_screens s i zero = []
contract_screens s i (suc n) =
    contract (pos (i + 1)) s.allowed_contracts_size (get_or s.allowed_contracts i 0)
    ∷ contract_screens s (i + 1) n

abbrev pub group_screens : Signer → ℕ → ℕ → List Shown
group_screens s i zero = []
group_screens s i (suc n) =
    group (pos (i + 1)) s.allowed_groups_size (get_or s.allowed_groups i 0)
    ∷ group_screens s (i + 1) n

module _ (tx : Transaction) where
  -- From a cursor and the move that led there: as long as the screen is a dynamic one, its text is seen,
  -- and the user goes on through the lower delimiter; the tour ends where the flow goes on to the next
  -- static screen.
  pub data Tour : DisplayCtx → Move → List Shown → Type 0 where
    ends : (d : DisplayCtx) → d.current_state ≡ static_screen → Tour d ux_flow_next []
    sees :
        (d : DisplayCtx) (m : Move) (x : Shown) (xs : List Shown)
        → d.current_state ≡ dynamic_screen
        → shown tx d ≡ some x
        → Tour (display_next_state tx false d).0 (display_next_state tx false d).1 xs
        → Tour d m (x ∷ xs)

  abbrev pub From : DisplayCtx × Move → List Shown → Type 0
  From r xs = Tour r.0 r.1 xs

  -- The screens of a signer, and of a number of signers.
  abbrev pub signer_screens : ℕ → List Shown
  signer_screens i =
      let s = signer_at tx i in
      signer_index (i + 1) tx.signers_size
        ∷ account s.account
        ∷ scope s.scope
        ∷ contract_screens s 0 s.allowed_contracts_size
      ++ group_screens s 0 s.allowed_groups_size

  abbrev pub all_screens : ℕ → ℕ → List Shown
  all_screens i zero = []
  all_screens i (suc n) = signer_screens i ++ all_screens (i + 1) n

-- The same with what is printed: on each dynamic screen of the tour the user reads the title and the text
-- that were printed for it.
module _ (tx : Transaction) (hex : List ℕ → List ℕ) (memory : List ℕ) where
  pub data Reads : DisplayCtx → Move → Texts → List (List ℕ × List ℕ) → Type 0 where
    leaves :
        (d : DisplayCtx) (t : Texts) → d.current_state ≡ static_screen → Reads d ux_flow_next t []
    reads :
        (d : DisplayCtx) (m : Move) (x : Shown) (t : Texts) (rest : List (List ℕ × List ℕ))
        → d.current_state ≡ dynamic_screen
        → shown tx d ≡ some x
        → Reads
            (display_next_state tx false d).0
            (display_next_state tx false d).1
            (print hex memory x t)
            rest
        → Reads d m t (((print hex memory x t).title, (print hex memory x t).text) ∷ rest)

  pub Tour-Reads :
      {d : DisplayCtx} {m : Move} {xs : List Shown}
      → Tour tx d m xs
      → (t : Texts) → Reads d m t (printed hex memory t xs)
  Tour-Reads (ends d static) t = leaves d t static
  Tour-Reads (sees d m x xs dynamic is rest) t =
      reads d m x t (printed hex memory (print hex memory x t) xs) dynamic is
        (Tour-Reads rest (print hex memory x t))
