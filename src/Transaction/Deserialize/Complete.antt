-- ===== src/Transaction/Deserialize/Complete.antt =====
-- Every transaction of the layout is accepted by transaction/deserialize.c, and its transfer is recognised.
pub mod Reads
pub mod Items
pub mod Signer
pub mod Signers
pub mod Tail
use ledger_app_neo.Prelude.{
  ℕ, ◌≤◌, ◌≡◌, refl, ap, ◌∙◌, arith, Bool, true, ◌||◌, List, [], ◌++◌, take, drop, length, le→ltb,
  ==_iff, ℤ,
}
use mathlib.Core.Path.{subst, subst⁻¹}
use ledger_app_neo.Sdk.{Sdk, Compares}
use ledger_app_neo.Common.Buffer.{Buffer}
use ledger_app_neo.Common.Buffer.View.{IsValid, remaining, length-remaining}
use ledger_app_neo.Ui.Utils.{script_hash_to_address}
use ledger_app_neo.Transaction.Types.{Transaction, ParserStatus, address_len}
use ledger_app_neo.Transaction.Monad.{Parse, go, ◌>>◌}
use ledger_app_neo.Transaction.Monad.Forward.{At, Goes, >>=-Goes, stop_if-Goes}
use ledger_app_neo.Transaction.Transfer.Script.{IsTransfer}
use ledger_app_neo.Transaction.Transfer.Complete.{IsTransfer-recognised}
use ledger_app_neo.Transaction.Transfer.Unflagged.{try_parse_transfer_script-kept}
use ledger_app_neo.Transaction.Deserialize.{
  parse_too_long, parse_header, parse_signers, parse_attributes, parse_script, parse_stages, finish,
  transaction_deserialize, script_buffer,
}
use ledger_app_neo.Transaction.Deserialize.Script.{
  parse_stages-ScriptEnds, script_buffer-IsValid, place, place-Untouched,
}
use ledger_app_neo.Transaction.Deserialize.Runs.Stages.{Flags}
use ledger_app_neo.Transaction.Deserialize.Runs.Relations.{parse_stages-flags}
use ledger_app_neo.Transaction.Deserialize.Layout.{TransactionCode}
use ledger_app_neo.Transaction.Deserialize.Complete.Reads.{Fresh, header-Goes}
use ledger_app_neo.Transaction.Deserialize.Complete.Signers.{signers-Goes}
use ledger_app_neo.Transaction.Deserialize.Complete.Tail.{script_of, attributes-Goes, script-Goes}

module _ (sdk : Sdk) (compares : Compares sdk) where
  stages-Goes :
      (p : Parse) (script : List ℕ)
      → p.buf.size ≤ 1024
      → IsValid p.buf
      → Fresh p.tx
      → TransactionCode (remaining p.buf) script
      → Goes p.buf.ptr p.buf.size (parse_stages sdk p) tt [] (λ t. script_of p.buf.ptr t ≡ script)
  unfolding parse_stages
  stages-Goes p script short v fresh is =
      let memory = p.buf.ptr in
      let size = p.buf.size in
      let behind_signers = is.attributes ++ (is.prefix ++ script) in
      let start : At memory size p (remaining p.buf) Fresh = record {
        valid = v;
        bytes_eq = refl;
        holds = fresh;
        memory_eq = refl;
        size_eq = refl;
      } in
      >>=-Goes memory size parse_too_long
        (λ _. parse_header >> (parse_signers sdk >> (parse_attributes >> parse_script))) p
        (stop_if-Goes memory size _ ParserStatus.invalid_length_error (le→ltb 1024 size short)
          (subst (λ xs. At memory size p xs Fresh) is.bytes_eq start))
        λ p1 a1.
          >>=-Goes memory size parse_header
            (λ _. parse_signers sdk >> (parse_attributes >> parse_script)) p1
            (header-Goes memory size is.nonce is.system_fee is.network_fee is.valid_until
              (is.signers ++ behind_signers) is.nonce_length is.system_fee_length is.system_fee_ok
              is.network_fee_length is.network_fee_ok is.valid_until_length a1)
            λ p2 a2.
              >>=-Goes memory size (parse_signers sdk) (λ _. parse_attributes >> parse_script) p2
                (signers-Goes memory size sdk compares behind_signers is.signers_ok a2)
                λ p3 a3.
                  >>=-Goes memory size parse_attributes (λ _. parse_script) p3
                    (attributes-Goes memory size (is.prefix ++ script) is.attributes_ok a3)
                    λ p4 a4. script-Goes memory size script short is.script_length is.some_script a4

  -- What is returned and stored, for a script.
  pub record Accepts (buf : Buffer) (script : List ℕ) (p : Parse) (status : ParserStatus)
      : Type 0 where
    pub status_eq : status ≡ ParserStatus.parsing_ok
    pub script_eq : script_of buf.ptr p.tx ≡ script

  module _ (buf : Buffer) (tx : Transaction) (script : List ℕ) (short : buf.size ≤ 1024)
      (v : IsValid buf) (fresh : Fresh tx) (is : TransactionCode (remaining buf) script) where
    abbrev start : Parse
    start = record { buf = buf; tx = tx }

    run : Goes buf.ptr buf.size (parse_stages sdk start) tt [] (λ t. script_of buf.ptr t ≡ script)
    run = stages-Goes start script short v fresh is

    finished : (finish sdk (go tt run.state)).0 ≡ ParserStatus.parsing_ok
    unfolding finish
    finished =
        rw
          ((==_iff run.state.buf.offset run.state.buf.size).1
            (omega (arith, run.at.valid, length-remaining run.at.valid, ap length run.at.bytes_eq)))
          refl

    deserialized : transaction_deserialize sdk buf tx ≡ finish sdk (go tt run.state)
    unfolding transaction_deserialize
    deserialized = ap (finish sdk) run.goes

  -- With a comparison that behaves as documented, on a valid buffer of at most 1024 bytes, into a transaction
  -- with room for two signers and no attribute: where the bytes that remain have the layout of a
  -- transaction with a script, success is returned, and the place that is stored for the script holds
  -- just this script.
  pub transaction_deserialize-Accepts :
      (buf : Buffer) (tx : Transaction) (script : List ℕ)
      → buf.size ≤ 1024
      → IsValid buf
      → Fresh tx
      → TransactionCode (remaining buf) script
      → Accepts buf script
          (transaction_deserialize sdk buf tx).1
          (transaction_deserialize sdk buf tx).0
  unfolding finish
  transaction_deserialize-Accepts buf tx script short v fresh is =
      let r = run buf tx script short v fresh is in
      subst⁻¹ (λ o. Accepts buf script o.1 o.0) (deserialized buf tx script short v fresh is)
        (record {
          status_eq = finished buf tx script short v fresh is;
          script_eq =
              ap (λ (s : ℕ × ℕ). take s.1 (drop s.0 buf.ptr))
                (try_parse_transfer_script-kept place place-Untouched sdk (λ tx. refl)
                  (script_buffer r.state) r.state.tx)
              ∙ r.at.holds;
        })

  -- The transfer that is recognised in the script.
  pub record AcceptsTransfer (tx : Transaction) (amount : ℤ) (destination : List ℕ) (neo : Bool)
      (p : Parse) (status : ParserStatus) : Type 0 where
    pub status_eq : status ≡ ParserStatus.parsing_ok
    pub flag_eq : p.tx.is_system_asset_transfer ≡ true
    pub amount_eq : p.tx.amount ≡ amount
    pub is_neo_eq : p.tx.is_neo ≡ (neo || tx.is_neo)
    pub address_eq :
        p.tx.dst_address ≡ script_hash_to_address sdk tx.dst_address address_len destination

  -- The same where the script is a transfer: it is marked as one, and its amount, asset and address are stored.
  pub transaction_deserialize-AcceptsTransfer :
      (buf : Buffer) (tx : Transaction) (script : List ℕ) (amount : ℤ) (destination : List ℕ)
      (neo : Bool)
      → buf.size ≤ 1024
      → IsValid buf
      → Fresh tx
      → TransactionCode (remaining buf) script
      → IsTransfer script amount destination neo
      → AcceptsTransfer tx amount destination neo
          (transaction_deserialize sdk buf tx).1
          (transaction_deserialize sdk buf tx).0
  unfolding finish
  transaction_deserialize-AcceptsTransfer buf tx script amount destination neo short v fresh is
        transfer =
      let r = run buf tx script short v fresh is in
      let q = r.state in
      let same = parse_stages-flags sdk (start buf tx script short v fresh is) r.goes in
      let code : take q.tx.script_size (drop q.tx.script q.buf.ptr) ≡ script =
        ap (λ xs. take q.tx.script_size (drop q.tx.script xs)) r.at.memory_eq ∙ r.at.holds in
      let e =
        IsTransfer-recognised sdk compares (script_buffer q) q.tx amount destination neo
          (script_buffer-IsValid
            (parse_stages-ScriptEnds sdk (start buf tx script short v fresh is) v r.goes))
          refl refl (subst⁻¹ (λ xs. IsTransfer xs amount destination neo) code transfer) in
      subst⁻¹ (λ o. AcceptsTransfer tx amount destination neo o.1 o.0)
        (deserialized buf tx script short v fresh is)
        (record {
          status_eq = finished buf tx script short v fresh is;
          flag_eq = ap (λ (t : Transaction). t.is_system_asset_transfer) e;
          amount_eq = ap (λ (t : Transaction). t.amount) e;
          is_neo_eq = ap (λ (t : Transaction). t.is_neo) e ∙ ap (λ (f : Flags). neo || f.2) same;
          address_eq =
              ap (λ (t : Transaction). t.dst_address) e
              ∙ ap (λ (f : Flags). script_hash_to_address sdk f.1 address_len destination) same;
        })
