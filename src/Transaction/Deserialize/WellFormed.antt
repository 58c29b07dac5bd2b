-- ===== src/Transaction/Deserialize/WellFormed.antt =====
-- What a transaction that transaction/deserialize.c accepts looks like.
use ledger_app_neo.Prelude.{
  ℕ, ◌≤◌, ◌≡◌, refl, sym, ap, ◌∙◌, arith, false, ◌||◌, ltb, ltb→le, ◌==◌, ℤ, is_negative,
}
use ledger_app_neo.Word.{u8, u16}
use ledger_app_neo.Sdk.{Sdk}
use ledger_app_neo.Common.Buffer.{
  Buffer, Reading, le, buffer_read_u8, buffer_read_u32, buffer_read_s64, buffer_read_varint,
}
use ledger_app_neo.Transaction.Types.{
  Transaction, ParserStatus, max_tx_signers, min_tx_signers, max_attributes,
}
use ledger_app_neo.Transaction.Monad.{Parse, go, read_to, skip}
use ledger_app_neo.Transaction.Monad.Inversion.{>>=-go, go_injective, stop_if-then, read_to-go}
use ledger_app_neo.Transaction.Deserialize.{
  parse_header, parse_signers, parse_signers_loop, parse_attributes, parse_attributes_loop,
  parse_script, read_varint,
}
use ledger_app_neo.Transaction.Deserialize.Runs.{skip-Runs}
use ledger_app_neo.Transaction.Deserialize.Runs.Relations.{
  ran, Same-Rules, signers_loop_kept, attributes_loop_kept,
}

-- The values that the header allows.
pub record HeaderOk (tx : Transaction) : Type 0 where
  pub version_eq : tx.version ≡ 0
  pub system_fee_ok : is_negative tx.system_fee ≡ false
  pub network_fee_ok : is_negative tx.network_fee ≡ false

stored :
    {E A : Type 0} (read : Buffer → Reading A) (store : A → Transaction → Transaction) (e : E)
    (p : Parse) {a : A} {p' : Parse}
    → read_to read store e p ≡ go a p'
    → p'.tx ≡ store a p.tx
stored read store e p h =
    let (_, value, _, tx) = read_to-go read store e p h in tx ∙ ap (λ v. store v p.tx) (sym value)

pub parse_header-HeaderOk : (p : Parse) {p' : Parse} → parse_header p ≡ go tt p' → HeaderOk p'.tx
unfolding parse_header
parse_header-HeaderOk p {p'} h =
    let (version, p1, h1, k1) =
      >>=-go
        (read_to buffer_read_u8 (λ v tx. record tx { version = v })
          ParserStatus.version_parsing_error)
        _ p h in
    let (version_ok, k2) = stop_if-then (ltb 0 version) _ _ p1 k1 in
    let (nonce, p2, h3, k3) =
      >>=-go
        (read_to (λ b. buffer_read_u32 b le) (λ v tx. record tx { nonce = v })
          ParserStatus.nonce_parsing_error)
        _ p1 k2 in
    let (system_fee, p3, h4, k4) =
      >>=-go
        (read_to (λ b. buffer_read_s64 b le) (λ v tx. record tx { system_fee = v })
          ParserStatus.system_fee_parsing_error)
        _ p2 k3 in
    let (system_ok, k5) = stop_if-then (is_negative system_fee) _ _ p3 k4 in
    let (network_fee, p4, h6, k6) =
      >>=-go
        (read_to (λ b. buffer_read_s64 b le) (λ v tx. record tx { network_fee = v })
          ParserStatus.network_fee_parsing_error)
        _ p3 k5 in
    let (network_ok, k7) = stop_if-then (is_negative network_fee) _ _ p4 k6 in
    let (until, p5, h8, k8) =
      >>=-go
        (read_to (λ b. buffer_read_u32 b le) (λ v tx. record tx { valid_until_block = v })
          ParserStatus.valid_until_block_parsing_error)
        _ p4 k7 in
    let e1 = stored buffer_read_u8 (λ v tx. record tx { version = v }) _ p h1 in
    let e2 = stored (λ b. buffer_read_u32 b le) (λ v tx. record tx { nonce = v }) _ p1 h3 in
    let e3 = stored (λ b. buffer_read_s64 b le) (λ v tx. record tx { system_fee = v }) _ p2 h4 in
    let e4 = stored (λ b. buffer_read_s64 b le) (λ v tx. record tx { network_fee = v }) _ p3 h6 in
    let e5 =
      stored (λ b. buffer_read_u32 b le) (λ v tx. record tx { valid_until_block = v }) _ p4 h8 in
    let last = ap (λ (q : Parse). q.tx) (sym (go_injective k8).1) in
    record {
      version_eq =
          ap (λ (t : Transaction). t.version) (last ∙ e5)
          ∙ (ap (λ (t : Transaction). t.version) e4
              ∙ (ap (λ (t : Transaction). t.version) e3
                  ∙ (ap (λ (t : Transaction). t.version) e2
                      ∙ (ap (λ (t : Transaction). t.version) e1
                          ∙ omega (arith, ltb→le 0 version version_ok)))));
      system_fee_ok =
          ap (λ (t : Transaction). is_negative t.system_fee) (last ∙ e5)
          ∙ (ap (λ (t : Transaction). is_negative t.system_fee) e4
              ∙ (ap (λ (t : Transaction). is_negative t.system_fee) e3 ∙ system_ok));
      network_fee_ok =
          ap (λ (t : Transaction). is_negative t.network_fee) (last ∙ e5)
          ∙ (ap (λ (t : Transaction). is_negative t.network_fee) e4 ∙ network_ok);
    }

abbrev pub Header : Type 0
Header = ℕ × ℤ × ℤ

abbrev pub header : Transaction → Header
header tx = (tx.version, tx.system_fee, tx.network_fee)

pub moved : {t t' : Transaction} → header t' ≡ header t → HeaderOk t → HeaderOk t'
moved e h = record {
  version_eq = ap (λ (x : Header). x.0) e ∙ h.version_eq;
  system_fee_ok = ap (λ (x : Header). is_negative x.1) e ∙ h.system_fee_ok;
  network_fee_ok = ap (λ (x : Header). is_negative x.2) e ∙ h.network_fee_ok;
}

signers_range : (n : ℕ) → (ltb n 1 || ltb 2 n) ≡ false → (1 ≤ u8 n) × (u8 n ≤ 2)
signers_range n h = (ground arith, ground arith)

attributes_range : (n : ℕ) → (ltb 2 n || ltb 2 n) ≡ false → u8 n ≤ 2
attributes_range n h = ground arith

script_range : (n : ℕ) → (ltb 0xFFFF n || n == 0) ≡ false → 1 ≤ u16 n
script_range n h = ground arith

varint_kept :
    (e : ParserStatus) (p : Parse) {n : ℕ} {p' : Parse} → read_varint e p ≡ go n p' → p'.tx ≡ p.tx
varint_kept e p h = stored (λ b. buffer_read_varint b 0) (λ _ tx. tx) e p h

module _ (sdk : Sdk) where
  pub parse_signers_lem :
      (p : Parse) {p' : Parse}
      → parse_signers sdk p ≡ go tt p'
      → (1 ≤ p'.tx.signers_size) × (p'.tx.signers_size ≤ 2) × (header p'.tx ≡ header p.tx)
  unfolding parse_signers
  parse_signers_lem p {p'} h =
      let (n, q, h1, k1) = >>=-go (read_varint ParserStatus.signer_length_parsing_error) _ p h in
      let (range, k2) = stop_if-then (ltb n min_tx_signers || ltb max_tx_signers n) _ _ q k1 in
      let r : Parse = record q { tx = record (q.tx) { signers_size = u8 n } } in
      let k3 : parse_signers_loop sdk (u8 n) 0 r ≡ go tt p' = k2 in
      let size = signers_loop_kept (λ tx. tx.signers_size) (λ xs tx. refl) sdk (u8 n) 0 r k3 in
      let (low, high) = signers_range n range in
      (
        omega (arith, size, low),
        omega (arith, size, high),
        signers_loop_kept header (λ xs tx. refl) sdk (u8 n) 0 r k3 ∙ ap header (varint_kept _ p h1),
      )

abbrev pub upto_signers : Transaction → Header × ℕ
upto_signers tx = (header tx, tx.signers_size)

pub parse_attributes_lem :
    (p : Parse) {p' : Parse}
    → parse_attributes p ≡ go tt p'
    → (p'.tx.attributes_size ≤ 2) × (upto_signers p'.tx ≡ upto_signers p.tx)
unfolding parse_attributes
parse_attributes_lem p {p'} h =
    let (n, q, h1, k1) = >>=-go (read_varint ParserStatus.attributes_length_parsing_error) _ p h in
    let (range, k2) = stop_if-then (ltb max_attributes n || ltb 2 n) _ _ q k1 in
    let r : Parse = record q { tx = record (q.tx) { attributes_size = u8 n } } in
    let k3 : parse_attributes_loop (u8 n) 0 r ≡ go tt p' = k2 in
    let size = attributes_loop_kept (λ tx. tx.attributes_size) (λ xs tx. refl) (u8 n) 0 r k3 in
    (
      omega (arith, size, attributes_range n range),
      attributes_loop_kept upto_signers (λ xs tx. refl) (u8 n) 0 r k3
          ∙ ap upto_signers (varint_kept _ p h1),
    )

abbrev pub upto_attributes : Transaction → (Header × ℕ) × ℕ
upto_attributes tx = (upto_signers tx, tx.attributes_size)

pub parse_script_lem :
    (p : Parse) {p' : Parse}
    → parse_script p ≡ go tt p'
    → (1 ≤ p'.tx.script_size) × (upto_attributes p'.tx ≡ upto_attributes p.tx)
unfolding parse_script
parse_script_lem p {p'} h =
    let (n, q, h1, k1) = >>=-go (read_varint ParserStatus.script_length_parsing_error) _ p h in
    let r : Parse = record q { tx = record (q.tx) { script = q.buf.offset } } in
    let (range, k2) = stop_if-then (ltb 0xFFFF n || n == 0) _ _ r k1 in
    let (_, s, h3, k3) = >>=-go (skip n ParserStatus.script_length_value_error) _ r k2 in
    let same : s.tx ≡ r.tx =
      ran (skip-Runs (Same-Rules (λ tx. tx)) n ParserStatus.script_length_value_error refl) r h3 in
    let last = ap (λ (z : Parse). z.tx) (sym (go_injective k3).1) in
    (
      omega (arith, ap (λ (t : Transaction). t.script_size) last, script_range n range),
      ap upto_attributes (last ∙ ap (λ (t : Transaction). record t { script_size = u16 n }) same)
          ∙ ap upto_attributes (varint_kept _ p h1),
    )
