-- ===== src/Transaction/Transfer/Complete.antt =====
-- Every script of the form of a NEO or GAS transfer is recognised.
pub mod Amount
pub mod Parts
use ledger_app_neo.Prelude.{
  ℕ, ◌-◌, ◌≡◌, refl, ap, ◌∙◌, arith, Bool, true, false, not, ◌||◌, List, [], ◌∷◌, ◌++◌, take, drop,
  length, ◌==◌, ==_iff, if◌then◌else◌, ℤ,
}
use mathlib.Core.Path.{subst}
use ledger_app_neo.Ui.Utils.{script_hash_to_address}
use ledger_app_neo.Sdk.{Sdk, Compares}
use ledger_app_neo.Common.Buffer.{Buffer, left, buffer_read_u8}
use ledger_app_neo.Common.Buffer.View.{IsValid, remaining, length-remaining}
use ledger_app_neo.Transaction.Types.{Transaction, address_len}
use ledger_app_neo.Transaction.Monad.{Parse, ◌>>=◌, ◌>>◌, stop_if, modify, get, read_value}
use ledger_app_neo.Transaction.Monad.Forward.{>>=-Goes, stop_if-Goes}
use ledger_app_neo.Transaction.Transfer.{
  Step, parse_amount, parse_source, parse_destination, expect_bytes, parse_contract, parse_transfer,
  try_parse_transfer_script, filled, sequence, sequence2,
}
use ledger_app_neo.Transaction.Transfer.Script.{hash_of, IsTransfer}
use ledger_app_neo.Transaction.Transfer.Complete.Amount.{
  Here, Ends, store-Goes, read_byte-Goes, Pushes-Pushed,
}
use ledger_app_neo.Transaction.Transfer.Complete.Parts.{
  source-Goes, destination-Goes, bytes-Goes, contract-Goes,
}

module _ (memory : List ℕ) (size : ℕ) (sdk : Sdk) (compares : Compares sdk) where
  abbrev with_transfer : ℤ → List ℕ → Bool → Transaction → Transaction
  with_transfer amount destination neo tx = record tx {
    amount = amount;
    dst_address = script_hash_to_address sdk tx.dst_address address_len destination;
    is_neo = neo || tx.is_neo;
    is_system_asset_transfer = true;
  }

  at_end :
      {q : Parse} {tx : Transaction}
      → tx.script_size ≡ size
      → Here memory size q [] tx
      → not (q.buf.offset == q.tx.script_size) ≡ false
  at_end {q} {tx} whole at = ap not (
      (==_iff q.buf.offset q.tx.script_size).1 (
        omega (
          arith,
          at.valid,
          length-remaining at.valid,
          ap length at.bytes_eq,
          ap (λ (t : Transaction). t.script_size) at.holds,
          at.size_eq,
          whole,
        )))

  -- What is left of `parse_transfer` behind each step.
  abbrev marked : Step (Unit {0})
  marked = modify (λ tx. record tx { is_system_asset_transfer = true })

  abbrev from_end : Step (Unit {0})
  from_end = get >>= λ end. stop_if (not (end.buf.offset == end.tx.script_size)) tt >> marked

  abbrev from_sequence2 : Step (Unit {0})
  from_sequence2 = expect_bytes sdk sequence2 5 >> from_end

  abbrev from_contract : Step (Unit {0})
  from_contract = parse_contract sdk >> from_sequence2

  abbrev from_sequence : Step (Unit {0})
  from_sequence = expect_bytes sdk sequence 15 >> from_contract

  abbrev from_source : Step (Unit {0})
  from_source = parse_source sdk >> from_sequence

  abbrev from_destination : Step (Unit {0})
  from_destination = parse_destination sdk >> from_source

  abbrev from_amount : ℕ → Step (Unit {0})
  from_amount opcode = parse_amount opcode >> from_destination

  abbrev from_opcode : Step (Unit {0})
  from_opcode = read_value buffer_read_u8 tt >>= from_amount

  abbrev from_first : ℕ → Step (Unit {0})
  from_first first = stop_if (not (first == 0xB)) tt >> from_opcode

  transfer-Goes :
      {p : Parse} (code : List ℕ) {amount : ℤ} {destination : List ℕ} {neo : Bool}
      {tx : Transaction}
      → IsTransfer code amount destination neo
      → tx.script_size ≡ size
      → Here memory size p code tx
      → Ends memory size (parse_transfer sdk p) tt [] (with_transfer amount destination neo tx)
  unfolding parse_transfer
  transfer-Goes {p} code {amount} {destination} {neo} {tx} is whole at =
      let pushed = Pushes-Pushed memory size is.pushes in
      let behind_hash = sequence ++ (hash_of neo ++ sequence2) in
      let behind_source = 0x0C ∷ 0x14 ∷ (is.source ++ behind_hash) in
      let behind_amount = 0x0C ∷ 0x14 ∷ (destination ++ behind_source) in
      let start : Here memory size p (0x0B ∷ pushed.opcode ∷ (pushed.operand ++ behind_amount)) tx =
        subst (λ xs. Here memory size p xs tx)
          (is.code_eq ∙ ap (λ xs. 0x0B ∷ (xs ++ behind_amount)) pushed.code_eq) at in
      >>=-Goes memory size (read_value buffer_read_u8 tt) from_first p
        (read_byte-Goes memory size 0x0B _ start)
        λ p1 a1.
          >>=-Goes memory size (stop_if false tt) (λ _. from_opcode) p1
            (stop_if-Goes memory size false tt refl a1)
            λ p2 a2.
              >>=-Goes memory size (read_value buffer_read_u8 tt) from_amount p2
                (read_byte-Goes memory size pushed.opcode _ a2)
                λ p3 a3.
                  >>=-Goes memory size (parse_amount pushed.opcode) (λ _. from_destination) p3
                    (pushed.goes p3 _ tx a3)
                    λ p4 a4.
                      >>=-Goes memory size (parse_destination sdk) (λ _. from_source) p4
                        (destination-Goes memory size sdk destination behind_source
                          is.destination_length a4)
                        λ p5 a5.
                          >>=-Goes memory size (parse_source sdk) (λ _. from_sequence) p5
                            (source-Goes memory size sdk is.source behind_hash is.source_length a5)
                            λ p6 a6.
                              >>=-Goes memory size (expect_bytes sdk sequence 15)
                                (λ _. from_contract) p6
                                (bytes-Goes memory size sdk compares sequence 15
                                  (hash_of neo ++ sequence2) refl refl a6)
                                λ p7 a7.
                                  >>=-Goes memory size (parse_contract sdk) (λ _. from_sequence2) p7
                                    (contract-Goes memory size sdk compares neo sequence2 a7)
                                    λ p8 a8.
                                      >>=-Goes memory size (expect_bytes sdk sequence2 5)
                                        (λ _. from_end) p8
                                        (bytes-Goes memory size sdk compares sequence2 5 [] refl
                                          refl a8)
                                        λ p9 a9.
                                          >>=-Goes memory size
                                            (stop_if (not (p9.buf.offset == p9.tx.script_size)) tt)
                                            (λ _. marked) p9
                                            (stop_if-Goes memory size _ tt (at_end whole a9) a9)
                                            λ p10 a10.
                                              store-Goes memory size
                                                (λ t. record t { is_system_asset_transfer = true })
                                                a10

module _ (sdk : Sdk) (compares : Compares sdk) where
  -- With a comparison that behaves as documented, on a valid buffer over the whole script, of the size that
  -- the transaction has for it: where the script is, from its first to its last byte, a call of
  -- `transfer` on NEO or GAS, its amount and the address of its destination are stored, it is marked
  -- as NEO's if it is, and as a transfer of a system asset, and nothing else changes. The operand of PUSHINT8
  -- counts as unsigned.
  pub IsTransfer-recognised :
      (script : Buffer) (tx : Transaction) (amount : ℤ) (destination : List ℕ) (neo : Bool)
      → IsValid script
      → script.offset ≡ 0
      → tx.script_size ≡ script.size
      → IsTransfer (take script.size script.ptr) amount destination neo
      → try_parse_transfer_script sdk script tx ≡ record tx {
        amount = amount;
        dst_address = script_hash_to_address sdk tx.dst_address address_len destination;
        is_neo = neo || tx.is_neo;
        is_system_asset_transfer = true;
      }
  unfolding try_parse_transfer_script
  IsTransfer-recognised script tx amount destination neo v at_start whole is =
      let p : Parse = record { buf = script; tx = tx } in
      let all : remaining script ≡ take script.size script.ptr =
        ap (λ n. take (script.size - n) (drop n script.ptr)) at_start
        ∙ ap (λ n. take n script.ptr) (omega arith) in
      let g =
        transfer-Goes script.ptr script.size sdk compares {p = p} (take script.size script.ptr) is
          whole
          (record { valid = v; bytes_eq = all; holds = refl; memory_eq = refl; size_eq = refl }) in
      ap (filled sdk) g.goes ∙ g.at.holds
