-- ===== src/Device/Handlers/Presented.antt =====
-- What the user is asked to approve once the last bytes of a transaction were received.
use ledger_app_neo.Prelude.{
  ℕ, ◌+◌, ◌≤◌, ◌≡◌, refl, drop_all, sym, ap, ◌∙◌, arith, Bool, List, [], ◌∷◌, ◌++◌, append-nil,
  take, drop, drop-take, length, All, ℤ,
}
use mathlib.Core.Path.{subst, subst⁻¹}
use ledger_app_neo.Word.{IsByte, u8, ◌>>>◌}
use ledger_app_neo.Sdk.{Sdk, Compares}
use ledger_app_neo.Common.Buffer.{memmove}
use ledger_app_neo.Common.Buffer.View.{IsValid, remaining, number_le}
use ledger_app_neo.Common.Buffer.Moves.{memmove_lem}
use ledger_app_neo.Common.Format.{c_string}
use ledger_app_neo.Transaction.Types.{
  ParserStatus, status_code, Transaction, empty_transaction, address_len,
}
use ledger_app_neo.Transaction.Transfer.Script.{IsTransfer}
use ledger_app_neo.Transaction.Deserialize.{transaction_deserialize}
use ledger_app_neo.Transaction.Deserialize.Accepted.{IsWellFormed, transaction_deserialize-Accepted}
use ledger_app_neo.Transaction.Deserialize.Script.{
  ScriptTransfers, transaction_deserialize-ScriptTransfers,
}
use ledger_app_neo.Transaction.Deserialize.Runs.Stages.{fields}
use ledger_app_neo.Transaction.Deserialize.Header.{header_of, transaction_deserialize-header_of}
use ledger_app_neo.Ui.Utils.{script_hash_to_address}
use ledger_app_neo.Ui.Display.{ui_display_transaction, snprintf, u64_of, network_text}
use ledger_app_neo.Ui.Display.Readable.{Readable, ui_display_transaction-Readable}
use ledger_app_neo.Device.Handlers.Ranges.{fields-Ranges}
use ledger_app_neo.Ui.Display.Shown.{Shown, amount_line, ui_display_transaction-Shown}
use ledger_app_neo.Device.Context.{Context, Device, State, Flow, with_context, sw_tx_parsing_fail}
use ledger_app_neo.Device.Io.{over}
use ledger_app_neo.Device.Io.Kept.{inner, io_send_response_flow}
use ledger_app_neo.Device.Crypto.{signed_data}
use ledger_app_neo.Device.Crypto.Message.{magic_bytes, signed_data_lem}
use ledger_app_neo.Device.Handlers.{low_byte, after_parsing, parse_and_show}
use ledger_app_neo.Device.Handlers.Collecting.{Collecting, length-received}

module _ (sdk : Sdk) where
  parsing_result :
      (status : ParserStatus) (d : Device)
      → d.flow ≡ Flow.menu_flow
      → (after_parsing sdk status d).1.flow ≡ Flow.transaction_flow
      → status ≡ ParserStatus.parsing_ok
  unfolding after_parsing
  parsing_result ParserStatus.parsing_ok d menu h = refl
  parsing_result status d menu h = cc (
    io_send_response_flow sdk (over (low_byte sdk (status_code status) ∷ []) 1) sw_tx_parsing_fail d
        ∙ menu,
    h,
  )

  -- The device before the display: the parsed transaction, and the hash of its bytes.
  abbrev pub ready_to_show : Transaction → Device → Device
  ready_to_show tx d =
      with_context
        (λ c. record c {
          transaction = tx;
          state = State.state_parsed;
          hash = memmove c.hash 0 (sdk.sha256 (take c.raw_tx_len c.raw_tx));
        })
        d

-- Four bytes and the number that they stand for.
magic_bytes-number_le :
    (magic : List ℕ) → length magic ≡ 4 → All IsByte magic → magic_bytes (number_le 4 magic) ≡ magic
magic_bytes-number_le (a ∷ b ∷ c ∷ e ∷ []) four ok =
    let a_ok = ok.0 in
    let b_ok = ok.1.0 in
    let c_ok = ok.1.1.0 in
    let e_ok = ok.1.1.1.0 in
    let first : u8 (number_le 4 (a ∷ b ∷ c ∷ e ∷ []) >>> 0) ≡ a = omega arith in
    let second : u8 (number_le 4 (a ∷ b ∷ c ∷ e ∷ []) >>> 8) ≡ b = omega arith in
    let third : u8 (number_le 4 (a ∷ b ∷ c ∷ e ∷ []) >>> 16) ≡ c = omega arith in
    let fourth : u8 (number_le 4 (a ∷ b ∷ c ∷ e ∷ []) >>> 24) ≡ e = omega arith in
    rw (first, second, third, fourth)
magic_bytes-number_le [] four ok = absurd (omega arith)
magic_bytes-number_le (a ∷ []) four ok = absurd (omega arith)
magic_bytes-number_le (a ∷ b ∷ []) four ok = absurd (omega arith)
magic_bytes-number_le (a ∷ b ∷ c ∷ []) four ok = absurd (omega arith)
magic_bytes-number_le (a ∷ b ∷ c ∷ e ∷ x ∷ xs) four ok = absurd (omega arith)

module _ (sdk : Sdk) (compares : Compares sdk) where
  -- What the user is asked to approve, for the transaction of these bytes: a transfer of an amount of an
  -- asset to a destination, which the script at their end makes, and the message that is signed.
  pub record Presented (magic bytes : List ℕ) (d : Device) : Type 0 where
    pub short : length bytes ≤ 1024
    pub well_formed : IsWellFormed d.context.transaction
    pub header : fields d.context.transaction ≡ header_of bytes
    pub shown : Shown sdk d.context d
    pub readable : Readable d.context d
    pub magic_eq : d.context.network_magic ≡ number_le 4 magic
    pub amount : ℤ
    pub destination : List ℕ
    pub neo : Bool
    pub makes : IsTransfer (drop d.context.transaction.script bytes) amount destination neo
    pub address_shown :
        d.screens.address
        ≡ snprintf 35 (
            c_string
              (script_hash_to_address sdk empty_transaction.dst_address address_len destination))
    pub text_shown : d.screens.text ≡ amount_line neo (u64_of amount)
    pub network_shown : d.screens.network ≡ network_text (number_le 4 magic)
    pub message : signed_data sdk d.context ≡ magic ++ sdk.sha256 bytes

  module _ (magic bytes : List ℕ) (four : length magic ≡ 4) (ok : All IsByte magic)
      (hash_length : length (sdk.sha256 bytes) ≡ 32) where
    presented :
        (tx : Transaction) (d d' : Device)
        → Collecting (number_le 4 magic) bytes (inner d)
        → IsWellFormed tx
        → ScriptTransfers sdk compares
            (over d.context.raw_tx d.context.raw_tx_len)
            d.context.transaction
            tx
        → fields tx ≡ header_of (remaining (over d.context.raw_tx d.context.raw_tx_len))
        → Shown sdk (ready_to_show sdk tx d).context d'
        → Readable (ready_to_show sdk tx d).context d'
        → Presented magic bytes d'
    presented tx d d' h w t header shown readable =
        let tx_eq : d'.context.transaction ≡ tx =
          ap (λ (c : Context). c.transaction) shown.context_eq in
        let hash_eq : d'.context.hash ≡ sdk.sha256 bytes =
          ap (λ (c : Context). c.hash) shown.context_eq
          ∙ (ap (λ xs. memmove d.context.hash 0 (sdk.sha256 xs)) h.received
              ∙ replaced d.context.hash (sdk.sha256 bytes) (h.hash_length ∙ sym hash_length)) in
        let magic_eq : d'.context.network_magic ≡ number_le 4 magic =
          ap (λ (c : Context). c.network_magic) shown.context_eq ∙ h.magic_eq in
        let code_eq : take tx.script_size (drop tx.script d.context.raw_tx) ≡ drop tx.script bytes =
          ap (λ n. take n (drop tx.script d.context.raw_tx)) (omega (arith, t.ends))
          ∙ (sym (drop-take d.context.raw_tx_len tx.script d.context.raw_tx)
              ∙ ap (drop tx.script) h.received) in
        record {
          short = omega (arith, length-received h, h.holds);
          well_formed = subst⁻¹ IsWellFormed tx_eq w;
          header =
              ap fields tx_eq
              ∙ (header
                  ∙ (ap (λ n. header_of (take n d.context.raw_tx)) (omega arith)
                      ∙ ap header_of h.received));
          shown = subst⁻¹ (λ c. Shown sdk c d') shown.context_eq shown;
          readable = subst⁻¹ (λ c. Readable c d') shown.context_eq readable;
          magic_eq = magic_eq;
          amount = t.transfers.amount;
          destination = t.transfers.destination;
          neo = t.transfers.neo;
          makes =
              subst⁻¹
                (λ (x : Transaction).
                  IsTransfer (drop x.script bytes) t.transfers.amount t.transfers.destination
                    t.transfers.neo)
                tx_eq
                (subst
                  (λ code.
                    IsTransfer code t.transfers.amount t.transfers.destination t.transfers.neo)
                  code_eq t.transfers.is);
          address_shown =
              shown.address_eq
              ∙ ap (λ xs. snprintf 35 (c_string xs))
                  (t.transfers.address_eq
                    ∙ ap
                        (λ (x : Transaction).
                          script_hash_to_address sdk x.dst_address address_len
                            t.transfers.destination)
                        h.unparsed);
          text_shown =
              shown.text_eq
              ∙ (ap (λ neo. amount_line neo (u64_of tx.amount)) t.transfers.is_neo_eq
                  ∙ ap (λ z. amount_line t.transfers.neo (u64_of z)) t.transfers.amount_eq);
          network_shown = shown.network_eq ∙ ap network_text h.magic_eq;
          message =
              signed_data_lem sdk d'.context (ap length hash_eq ∙ hash_length)
              ∙ (ap (λ n. magic_bytes n ++ d'.context.hash) magic_eq
                  ∙ (ap (λ xs. xs ++ d'.context.hash) (magic_bytes-number_le magic four ok)
                      ∙ ap (λ xs. magic ++ xs) hash_eq));
        }
      where
        replaced : (xs ys : List ℕ) → length xs ≡ length ys → memmove xs 0 ys ≡ ys
        replaced xs ys e =
            memmove_lem xs 0 ys (omega (arith, e))
            ∙ (ap (λ zs. ys ++ zs) (drop_all (0 + length ys) xs (omega (arith, e))) ∙ append-nil ys)

    pub parse_and_show-Presented :
        (d : Device)
        → Collecting (number_le 4 magic) bytes (inner d)
        → (parse_and_show sdk d).1.flow ≡ Flow.transaction_flow
        → Presented magic bytes (parse_and_show sdk d).1
    unfolding parse_and_show
    parse_and_show-Presented d h approvable =
        let c = d.context in
        let buf = over c.raw_tx c.raw_tx_len in
        let v : IsValid buf = record {
          in_size = omega arith;
          in_memory = omega (arith, h.holds);
          addressable = omega (arith, h.holds);
          bytes = h.all_bytes;
        } in
        let (status, p) = transaction_deserialize sdk buf c.transaction in
        let parsed = with_context (λ c. record c { transaction = p.tx }) d in
        let success = parsing_result sdk status parsed h.menu approvable in
        let e = ap (λ s. after_parsing sdk s parsed) success in
        let shown =
          ui_display_transaction-Shown sdk (ready_to_show sdk p.tx d) h.menu
            (ap (λ (r : ℤ × Device). r.1.flow) (sym e) ∙ approvable) in
        let other = ap (λ (t : Transaction). t.is_neo) h.unparsed in
        let unset = ap (λ (t : Transaction). t.is_system_asset_transfer) h.unparsed in
        let transfers =
          transaction_deserialize-ScriptTransfers sdk compares buf c.transaction v other unset
            success shown.is_transfer in
        let header = transaction_deserialize-header_of sdk buf c.transaction v success in
        let ranges =
          fields-Ranges (remaining buf) p.tx header transfers.transfers.amount_eq
            transfers.transfers.is.pushes in
        let readable =
          ui_display_transaction-Readable sdk (ready_to_show sdk p.tx d) h.menu ranges
            (ap (λ (r : ℤ × Device). r.1.flow) (sym e) ∙ approvable) in
        let accepted = transaction_deserialize-Accepted sdk buf c.transaction success in
        subst⁻¹ (λ (r : ℤ × Device). Presented magic bytes r.1) e
          (presented p.tx d (ui_display_transaction sdk (ready_to_show sdk p.tx d)).1 h accepted.is
            transfers header shown readable)
