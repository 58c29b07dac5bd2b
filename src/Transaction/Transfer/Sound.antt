-- ===== src/Transaction/Transfer/Sound.antt =====
-- The stages of tx_utils.c behind the amount, together: a call of `transfer`.
use ledger_app_neo.Prelude.{
  ℕ, ◌≡◌, sym, ap, ◌∙◌, arith, Bool, true, not, ◌||◌, List, [], ◌∷◌, ◌++◌, take, length, ◌==◌,
  ==_iff,
}
use mathlib.Core.Path.{subst, subst⁻¹}
use ledger_app_neo.Sdk.{Sdk, Compares}
use ledger_app_neo.Word.{byte_at}
use ledger_app_neo.Common.Buffer.{buffer_read_u8}
use ledger_app_neo.Common.Buffer.View.{IsValid, remaining, number_le, take_one}
use ledger_app_neo.Common.Buffer.Reads.{buffer_read_u8-Refines}
use ledger_app_neo.Ui.Utils.{script_hash_to_address}
use ledger_app_neo.Transaction.Types.{Transaction, address_len}
use ledger_app_neo.Transaction.Monad.{
  Parse, Outcome, go, ◌>>=◌, ◌>>◌, stop_if, modify, get, read_value,
}
use ledger_app_neo.Transaction.Monad.Inversion.{
  Consumes, Consumes-trans, >>=-go, go_injective, stop_if-go, read_to-Consumes,
}
use ledger_app_neo.Transaction.Transfer.{
  Step, sequence, sequence2, parse_destination, parse_source, expect_bytes, parse_contract,
}
use ledger_app_neo.Transaction.Transfer.Script.{hash_of}
use ledger_app_neo.Transaction.Transfer.Parts.{
  Reads, not-not, parse_source-Reads, parse_destination-Destination, Destination,
}
use ledger_app_neo.Transaction.Transfer.Parts.Fixed.{
  expect_bytes-Reads, Token, parse_contract-Token,
}

-- One byte into a local variable.
pub read_byte-Reads :
    (p : Parse) {byte : ℕ} {p' : Parse}
    → IsValid p.buf
    → ◌≡◌ {A = Outcome (Unit {0}) ℕ} (read_value buffer_read_u8 tt p) (go byte p')
    → Reads p (byte ∷ []) p'
read_byte-Reads p {byte} {p'} v h =
    let (fits, value, consumed, kept) =
      read_to-Consumes buffer_read_u8 (λ _ tx. tx) tt p 1 0 (number_le 1) (buffer_read_u8-Refines v)
        h in
    let same : byte_at (remaining p.buf) 0 ≡ byte = omega (arith, value) in
    record {
      consumed =
          subst (λ xs. Consumes p xs p') (take_one (remaining p.buf) fits ∙ ap (λ b. b ∷ []) same)
            consumed;
      kept = kept;
    }

module _ (sdk : Sdk) (compares : Compares sdk) where
  abbrev mark : Step (Unit {0})
  mark = modify (λ tx. record tx { is_system_asset_transfer = true })

  abbrev whole : Step (Unit {0})
  whole = get >>= λ end. stop_if (not (end.buf.offset == end.tx.script_size)) tt >> mark

  abbrev from_contract : Step (Unit {0})
  from_contract = parse_contract sdk >> (expect_bytes sdk sequence2 5 >> whole)

  abbrev pub from_destination : Step (Unit {0})
  from_destination =
      parse_destination sdk >> (parse_source sdk >> (expect_bytes sdk sequence 15 >> from_contract))

  -- The script behind the amount, with what it stores.
  pub record Call (p p' : Parse) : Type 0 where
    pub destination : List ℕ
    pub source : List ℕ
    pub neo : Bool
    pub destination_length : length destination ≡ 20
    pub source_length : length source ≡ 20
    pub consumed :
        Consumes p
          ((0x0C ∷ 0x14 ∷ destination)
            ++ ((0x0C ∷ 0x14 ∷ source) ++ (sequence ++ (hash_of neo ++ sequence2))))
          p'
    pub at_end : p'.buf.offset ≡ p'.tx.script_size
    pub stored : p'.tx ≡ record (p.tx) {
      dst_address = script_hash_to_address sdk p.tx.dst_address address_len destination;
      is_neo = neo || p.tx.is_neo;
      is_system_asset_transfer = true;
    }

  abbrev marked : Transaction → Transaction
  marked tx = record tx { is_system_asset_transfer = true }

  -- The end of the script is reached, and the flag is set.
  whole-marked :
      (x : Parse) {p' : Parse}
      → whole x ≡ go tt p'
      → (x.buf.offset ≡ x.tx.script_size) × (p' ≡ record x { tx = marked x.tx })
  whole-marked x {p'} h =
      let (_, y, h1, h2) =
        >>=-go (stop_if (not (x.buf.offset == x.tx.script_size)) tt) (λ _. mark) x h in
      let (is, same) = stop_if-go (not (x.buf.offset == x.tx.script_size)) tt x h1 in
      (
        (==_iff x.buf.offset x.tx.script_size).0 (not-not _ is),
        sym (go_injective h2).1 ∙ ap (λ (z : Parse). record z { tx = marked z.tx }) same,
      )

  assemble :
      {p q r t w x p' : Parse} {source : List ℕ}
      → Destination sdk p q
      → length source ≡ 20
      → Reads q ((0x0C ∷ 0x14 ∷ []) ++ source) r
      → Reads r (take 15 sequence) t
      → Token sdk compares t w
      → Reads w (take 5 sequence2) x
      → whole x ≡ go tt p'
      → Call p p'
  assemble {p} {q} {r} {t} {w} {x} {p'} {source} d n s e c f h =
      let (at_end, same) = whole-marked x h in
      let all = Consumes-trans d.consumed (
        Consumes-trans s.consumed
          (Consumes-trans e.consumed (Consumes-trans c.consumed f.consumed))) in
      let tx_eq : x.tx ≡ record (p.tx) {
        dst_address = script_hash_to_address sdk p.tx.dst_address address_len d.destination;
        is_neo = c.neo || p.tx.is_neo;
      } =
        f.kept
        ∙ (c.stored
            ∙ ap (λ (z : Transaction). record z { is_neo = c.neo || z.is_neo })
                (e.kept ∙ (s.kept ∙ d.stored))) in
      let bytes =
        (0x0C ∷ 0x14 ∷ d.destination)
        ++ ((0x0C ∷ 0x14 ∷ source) ++ (sequence ++ (hash_of c.neo ++ sequence2))) in
      record {
        destination = d.destination;
        source = source;
        neo = c.neo;
        destination_length = d.destination_length;
        source_length = n;
        consumed = record {
          valid = subst⁻¹ (λ (z : Parse). IsValid z.buf) same all.valid;
          split = all.split ∙ ap (λ (z : Parse). bytes ++ remaining z.buf) (sym same);
          same_size = ap (λ (z : Parse). z.buf.size) same ∙ all.same_size;
        };
        at_end =
            ap (λ (z : Parse). z.buf.offset) same
            ∙ (at_end ∙ ap (λ (z : Parse). z.tx.script_size) (sym same));
        stored = ap (λ (z : Parse). z.tx) same ∙ ap marked tx_eq;
      }

  pub from_destination-Call :
      (p : Parse) {p' : Parse} → IsValid p.buf → from_destination p ≡ go tt p' → Call p p'
  from_destination-Call p {p'} v h =
      let (_, q, h1, k1) =
        >>=-go (parse_destination sdk)
          (λ _. parse_source sdk >> (expect_bytes sdk sequence 15 >> from_contract)) p h in
      let d = parse_destination-Destination sdk p v h1 in
      let (_, r, h2, k2) =
        >>=-go (parse_source sdk) (λ _. expect_bytes sdk sequence 15 >> from_contract) q k1 in
      let (source, source_length, s) = parse_source-Reads sdk q d.consumed.valid h2 in
      let (_, t, h3, k3) = >>=-go (expect_bytes sdk sequence 15) (λ _. from_contract) r k2 in
      let e = expect_bytes-Reads sdk compares sequence 15 r s.consumed.valid h3 in
      let (_, w, h4, k4) =
        >>=-go (parse_contract sdk) (λ _. expect_bytes sdk sequence2 5 >> whole) t k3 in
      let c = parse_contract-Token sdk compares t e.consumed.valid h4 in
      let (_, x, h5, k5) = >>=-go (expect_bytes sdk sequence2 5) (λ _. whole) w k4 in
      assemble d source_length s e c
        (expect_bytes-Reads sdk compares sequence2 5 w c.consumed.valid h5) k5
