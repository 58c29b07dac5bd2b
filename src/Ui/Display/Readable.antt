-- ===== src/Ui/Display/Readable.antt =====
-- The texts of ui/display.c read as numbers, apart from how they are made.
use ledger_app_neo.Prelude.{
  ℕ, zero, suc, ◌+◌, ◌-◌, ◌*◌, ◌/◌, ◌%◌, ◌^◌, ◌≤◌, ◌<◌, ◌≡◌, ◌≢◌, refl, sym, ap, ◌∙◌, arith, Bool,
  true, false, List, [], ◌∷◌, ◌++◌, append_assoc, append-nil, lt→ltb, All, All-append, take,
  take_all, length, length-append, ltb, ◌==◌, if◌then◌else◌, Bool-cases, inl, inr,
}
use mathlib.Core.Path.{subst⁻¹}
use ledger_app_neo.Word.{u64}
use ledger_app_neo.Sdk.{Sdk}
use ledger_app_neo.Common.Format.{c_string}
use ledger_app_neo.Common.Format.Decimal.{IsDigit, number_of, pow10}
use ledger_app_neo.Common.Format.Fixed.{Shows, number_of-append, format_fpu64-Shows}
use ledger_app_neo.Device.Context.{Context, Device, Callback, Flow}
use ledger_app_neo.Ui.Display.{
  snprintf, decimal, format_int, u64_of, gas_text, neo_text, amount_text, labelled, network_text,
  network_mainnet, network_testnet, ui_display_transaction,
}
use ledger_app_neo.Ui.Display.Shown.{fee_line, amount_line, ui_display_transaction-Shown}
use ledger_app_neo.Ui.Display.Total.{Ranges}

-- Decimal digits, at least one, that are the number when they are read from the left.
pub record Digits (n : ℕ) (text : List ℕ) : Type 0 where
  pub all_digits : All IsDigit text
  pub value : number_of 0 text ≡ n
  pub some_digit : 1 ≤ length text

-- A label, and a number with its decimals behind a point.
pub record Labelled (label : List ℕ) (n decimals : ℕ) (text : List ℕ) : Type 0 where
  pub number : List ℕ
  pub text_eq : text ≡ label ++ number
  pub shows : Shows n decimals number

-- `decimal` puts the digits before what is there.
record Prefixed (n size : ℕ) (suffix text : List ℕ) : Type 0 where
  digits : List ℕ
  text_eq : text ≡ digits ++ suffix
  spells : Digits n digits
  short : length digits ≤ size

one_digit :
    (n size : ℕ) (suffix : List ℕ)
    → n < 10
    → 1 ≤ size
    → Prefixed n size suffix ((n + b'0') ∷ suffix)
one_digit n size suffix small room = record {
  digits = (n + b'0') ∷ [];
  text_eq = refl;
  spells = record { all_digits = omega arith; value = omega arith; some_digit = omega arith };
  short = omega arith;
}

decimal-Prefixed :
    (fuel n : ℕ) (suffix : List ℕ)
    → n < pow10 (suc fuel)
    → Prefixed n (suc fuel) suffix (decimal (suc fuel) n suffix)
unfolding decimal pow10
decimal-Prefixed zero n suffix small =
    let digit : ltb n 10 ≡ true = ground arith in
    rw digit (one_digit n 1 suffix (omega (arith, small)) (omega arith))
decimal-Prefixed (suc fuel) n suffix small = elim (Bool-cases (ltb n 10)) [
  | inl digit ↦ rw digit (one_digit n (suc (suc fuel)) suffix (ground arith) (omega arith))
  | inr more ↦
      let r = decimal-Prefixed fuel (n / 10) ((n % 10 + b'0') ∷ suffix) (omega (arith, small)) in
      let last = (n % 10 + b'0') ∷ [] in
      rw more (record {
        digits = r.digits ++ last;
        text_eq = r.text_eq ∙ sym (append_assoc r.digits last suffix);
        spells = record {
          all_digits = All-append IsDigit r.digits last r.spells.all_digits (omega arith);
          value =
              number_of-append 0 r.digits last
              ∙ (ap (λ v. v * 10 + (n % 10 + b'0' - b'0')) r.spells.value ∙ omega arith);
          some_digit = omega (arith, r.spells.some_digit, length-append r.digits last);
        };
        short = omega (arith, r.short, length-append r.digits last);
      })
]

-- `%d` of a 32-bit value below 2 ^ 31 into 11 characters.
format_int-Digits : (n : ℕ) → n < 2 ^ 31 → Digits n (snprintf 11 (format_int n))
unfolding pow10
format_int-Digits n small =
    let r = decimal-Prefixed 9 n [] (omega (arith, small)) in
    let positive : ltb n (2 ^ 31) ≡ true = lt→ltb n (2 ^ 31) small in
    let text : snprintf 11 (decimal 10 n []) ≡ r.digits =
      ap (take 10) (r.text_eq ∙ append-nil r.digits) ∙ take_all 10 r.digits r.short in
    rw (positive, text) r.spells

c_string-take :
    (n : ℕ) (xs : List ℕ) → length (c_string xs) < n → c_string (take n xs) ≡ c_string xs
unfolding c_string
c_string-take zero xs h = absurd (omega (arith, h))
c_string-take (suc n) [] h = refl
c_string-take (suc n) (x ∷ xs) h = elim (Bool-cases (x == 0)) [
  | inl end ↦ rw end refl
  | inr more ↦ rw more (ap (◌∷◌ x) (c_string-take n xs (omega (arith, rw more at h))))
]

Shows-short :
    {n decimals : ℕ} {text : List ℕ} → Shows n decimals text → decimals ≤ 8 → length text ≤ 22
Shows-short {n} {decimals} {text} s few =
    let places : length s.fraction ≤ decimals + 1 = elim (Bool-cases (decimals == 0)) [
      | inl none' ↦ omega (arith, (rw none' at s.fraction_length))
      | inr some' ↦ omega (arith, (rw some' at s.fraction_length))
    ] in
    let split = ap length s.text_eq ∙ length-append s.whole (b'.' ∷ s.fraction) in
    omega (arith, places, split, s.short)

labelled-Labelled :
    (label : List ℕ) (size n decimals : ℕ)
    → n < 2 ^ 64
    → decimals ≤ 8
    → length label + 22 < size
    → Labelled label n decimals (snprintf size (labelled label (amount_text n decimals).1))
labelled-Labelled label size n decimals small few room =
    let buffer = (amount_text n decimals).1 in
    let s = format_fpu64-Shows n decimals small few in
    let short : length (c_string buffer) ≤ 22 = Shows-short s few in
    let whole = label ++ c_string buffer in
    record {
      number = c_string buffer;
      text_eq =
          ap (λ xs. take (size - 1) (label ++ xs)) (c_string-take 30 buffer (omega (arith, short)))
          ∙ take_all (size - 1) whole
              (omega (arith, short, room, length-append label (c_string buffer)));
      shows = s;
    }

abbrev pub main_net : List ℕ
main_net = 77 ∷ 97 ∷ 105 ∷ 110 ∷ 78 ∷ 101 ∷ 116 ∷ []

abbrev pub test_net : List ℕ
test_net = 84 ∷ 101 ∷ 115 ∷ 116 ∷ 78 ∷ 101 ∷ 116 ∷ []

-- What can be read on the screens of a transfer.
pub record Readable (c : Context) (d : Device) : Type 0 where
  pub is_transfer : c.transaction.is_system_asset_transfer ≡ true
  pub callback_eq : d.callback ≡ Callback.validate_transaction
  pub address_eq : d.screens.address ≡ take 34 (c_string c.transaction.dst_address)
  pub amount :
      Labelled
        (if c.transaction.is_neo then neo_text else gas_text)
        (u64_of c.transaction.amount)
        (if c.transaction.is_neo then 0 else 8)
        d.screens.text
  pub on_main_net : c.network_magic ≡ 860833102 → d.screens.network ≡ main_net
  pub on_test_net : c.network_magic ≡ 877933390 → d.screens.network ≡ test_net
  pub on_other_net :
      c.network_magic ≢ 860833102
      → c.network_magic ≢ 877933390
      → c.network_magic < 2 ^ 31
      → Digits c.network_magic d.screens.network
  pub system_fee : Labelled gas_text (u64_of c.transaction.system_fee) 8 d.screens.system_fee
  pub network_fee : Labelled gas_text (u64_of c.transaction.network_fee) 8 d.screens.network_fee
  pub total_fees :
      Labelled gas_text
        (u64 (u64_of c.transaction.network_fee + u64_of c.transaction.system_fee))
        8
        d.screens.total_fees
  pub valid_until_block :
      c.transaction.valid_until_block < 2 ^ 31
      → Digits c.transaction.valid_until_block d.screens.valid_until_block

network_text-main : (n : ℕ) → n ≡ network_mainnet → network_text n ≡ main_net
network_text-main n e = rw e refl

network_text-test : (n : ℕ) → n ≡ network_testnet → network_text n ≡ test_net
network_text-test n e = rw e refl

network_text-other :
    (n : ℕ) → n ≢ network_mainnet → n ≢ network_testnet → n < 2 ^ 31 → Digits n (network_text n)
network_text-other n main test small =
    let not_main : (n == network_mainnet) ≡ false = ground arith in
    let not_test : (n == network_testnet) ≡ false = ground arith in
    rw (not_main, not_test) (format_int-Digits n small)

fee_line-Labelled : (n : ℕ) → n < 2 ^ 64 → Labelled gas_text n 8 (fee_line n)
fee_line-Labelled n small = labelled-Labelled gas_text 30 n 8 small (omega arith) (omega arith)

amount_line-Labelled :
    (neo : Bool) (n : ℕ)
    → n < 2 ^ 64
    → Labelled (if neo then neo_text else gas_text) n (if neo then 0 else 8) (amount_line neo n)
amount_line-Labelled true n small =
    labelled-Labelled neo_text 64 n 0 small (omega arith) (omega arith)
amount_line-Labelled false n small =
    labelled-Labelled gas_text 64 n 8 small (omega arith) (omega arith)

module _ (sdk : Sdk) where
  pub ui_display_transaction-Readable :
      (d : Device)
      → d.flow ≡ Flow.menu_flow
      → Ranges d.context.transaction
      → (ui_display_transaction sdk d).1.flow ≡ Flow.transaction_flow
      → Readable d.context (ui_display_transaction sdk d).1
  ui_display_transaction-Readable d menu ranges approvable =
      let s = ui_display_transaction-Shown sdk d menu approvable in
      let c = d.context in
      let tx = c.transaction in
      let total = u64 (u64_of tx.network_fee + u64_of tx.system_fee) in
      record {
        is_transfer = s.is_transfer;
        callback_eq = s.callback_eq;
        address_eq = s.address_eq;
        amount =
            subst⁻¹ (Labelled _ (u64_of tx.amount) (if tx.is_neo then 0 else 8)) s.text_eq
              (amount_line-Labelled tx.is_neo (u64_of tx.amount) ranges.amount_range);
        on_main_net = λ e. s.network_eq ∙ network_text-main c.network_magic e;
        on_test_net = λ e. s.network_eq ∙ network_text-test c.network_magic e;
        on_other_net = λ main test small.
            subst⁻¹ (Digits c.network_magic) s.network_eq
              (network_text-other c.network_magic main test small);
        system_fee =
            subst⁻¹ (Labelled gas_text (u64_of tx.system_fee) 8) s.system_fee_eq
              (fee_line-Labelled (u64_of tx.system_fee) ranges.system_fee_range);
        network_fee =
            subst⁻¹ (Labelled gas_text (u64_of tx.network_fee) 8) s.network_fee_eq
              (fee_line-Labelled (u64_of tx.network_fee) ranges.network_fee_range);
        total_fees =
            subst⁻¹ (Labelled gas_text total 8) s.total_fees_eq
              (fee_line-Labelled total (omega arith));
        valid_until_block = λ small.
            subst⁻¹ (Digits tx.valid_until_block) s.valid_until_block_eq
              (format_int-Digits tx.valid_until_block small);
      }
