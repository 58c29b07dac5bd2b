-- ===== src/Ui/Navigation/Texts.antt =====
-- ui/display.c: what `get_next_data` prints into the title and the text of a dynamic screen.
use ledger_app_neo.Prelude.{
  ℕ, ◌-◌, ◌≤◌, arith, All, length-take, List, [], ◌∷◌, ◌++◌, take, drop, length, ◌==◌,
  if◌then◌else◌, ℤ, pos, negsuc, bit_and,
}
use ledger_app_neo.Transaction.Types.{
  scope_none, global, called_by_entry, custom_contracts, custom_groups, uint160_len, ecpoint_len,
}
use ledger_app_neo.Ui.Display.{snprintf, decimal_int}
use ledger_app_neo.Ui.Navigation.{Shown, signer_index, account, scope, contract, group}

-- `g_title`, `g_text` and `g_scope`, without their terminating NULs.
pub record Texts : Type 0 where
  pub title : List ℕ
  pub text : List ℕ
  pub scope_name : List ℕ

-- "By Entry,", "Contracts," and "Groups,", where the scope has the flag.
abbrev flag : ℕ → ℕ → List ℕ → List ℕ
flag value bit text = if bit_and value bit == 0 then [] else text

-- What `g_scope` holds, and the returned length: where no flag is known, nothing is written and the length
-- is -1.
unfoldable pub parse_scope_name : List ℕ → ℕ → List ℕ × ℤ
parse_scope_name g_scope value =
    if value == scope_none
    then (78 ∷ 111 ∷ 110 ∷ 101 ∷ [], pos 4)
    else if value == global
    then (71 ∷ 108 ∷ 111 ∷ 98 ∷ 97 ∷ 108 ∷ [], pos 6)
    else (let text =
          flag value called_by_entry (66 ∷ 121 ∷ 32 ∷ 69 ∷ 110 ∷ 116 ∷ 114 ∷ 121 ∷ 44 ∷ [])
          ++ flag value custom_contracts
              (67 ∷ 111 ∷ 110 ∷ 116 ∷ 114 ∷ 97 ∷ 99 ∷ 116 ∷ 115 ∷ 44 ∷ [])
          ++ flag value custom_groups (71 ∷ 114 ∷ 111 ∷ 117 ∷ 112 ∷ 115 ∷ 44 ∷ []) in
        if length text == 0 then (g_scope, negsuc 0) else (text, pos (length text - 1)))

-- "%.*s": a negative precision counts as none.
abbrev precise : ℤ → List ℕ → List ℕ
precise (pos n) text = take n text
precise (negsuc n) text = text

-- "%d of %d", behind a label.
abbrev counted : List ℕ → ℤ → ℕ → List ℕ
counted label i n = label ++ (decimal_int i ++ ((32 ∷ 111 ∷ 102 ∷ 32 ∷ []) ++ decimal_int (pos n)))

abbrev contract_label : List ℕ
contract_label = 67 ∷ 111 ∷ 110 ∷ 116 ∷ 114 ∷ 97 ∷ 99 ∷ 116 ∷ 32 ∷ []

abbrev group_label : List ℕ
group_label = 71 ∷ 114 ∷ 111 ∷ 117 ∷ 112 ∷ 32 ∷ []

-- A title and a text of at most 63 characters.
abbrev pub Fits : List ℕ × List ℕ → Type 0
Fits (title, text) = (length title ≤ 63) × (length text ≤ 63)

-- `hex` is the SDK's "%.*H".
module _ (hex : List ℕ → List ℕ) (memory : List ℕ) where
  abbrev bytes_at : ℕ → ℕ → List ℕ
  bytes_at place size = hex (take size (drop place memory))

  -- Titles and texts are cut at 63 characters, which leaves out the last three digits of a group.
  unfoldable pub print : Shown → Texts → Texts
  unfolding parse_scope_name
  print (signer_index i n) t = record t {
    title = snprintf 64 (83 ∷ 105 ∷ 103 ∷ 110 ∷ 101 ∷ 114 ∷ []);
    text = snprintf 64 (counted [] (pos i) n);
  }
  print (account place) t = record t {
    title = snprintf 64 (65 ∷ 99 ∷ 99 ∷ 111 ∷ 117 ∷ 110 ∷ 116 ∷ []);
    text = snprintf 64 (bytes_at place 20);
  }
  print (scope value) t =
      let (name, size) = parse_scope_name t.scope_name value in
      record {
        title = snprintf 64 (83 ∷ 99 ∷ 111 ∷ 112 ∷ 101 ∷ []);
        text = snprintf 64 (precise size name);
        scope_name = name;
      }
  print (contract i n place) t = record t {
    title = snprintf 64 (counted contract_label i n);
    text = snprintf 64 (bytes_at place uint160_len);
  }
  print (group i n place) t = record t {
    title = snprintf 64 (counted group_label i n);
    text = snprintf 64 (bytes_at place ecpoint_len);
  }

  -- The titles and texts of screens that are printed one after the other.
  abbrev pub printed : Texts → List Shown → List (List ℕ × List ℕ)
  printed t [] = []
  printed t (x ∷ xs) = ((print x t).title, (print x t).text) ∷ printed (print x t) xs

  cut : (text : List ℕ) → length (snprintf 64 text) ≤ 63
  cut text = omega (arith, length-take 63 text)

  print-Fits : (x : Shown) (t : Texts) → Fits ((print x t).title, (print x t).text)
  unfolding print
  print-Fits (signer_index i n) t = omega (arith, length-take {A = ℕ} 63)
  print-Fits (account place) t = omega (arith, length-take {A = ℕ} 63)
  print-Fits (scope value) t = omega (arith, length-take {A = ℕ} 63)
  print-Fits (contract i n place) t =
      (cut (counted contract_label i n), cut (bytes_at place uint160_len))
  print-Fits (group i n place) t = (cut (counted group_label i n), cut (bytes_at place ecpoint_len))

  pub printed-Fits : (t : Texts) (xs : List Shown) → All Fits (printed t xs)
  printed-Fits t [] = tt
  printed-Fits t (x ∷ xs) = (print-Fits x t, printed-Fits (print x t) xs)
