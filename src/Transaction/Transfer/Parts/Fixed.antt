-- ===== src/Transaction/Transfer/Parts/Fixed.antt =====
-- What the later stages of the recognition have read when they go on: fixed sequences, and the contract.
use ledger_app_neo.Prelude.{
  ℕ, ◌-◌, ◌≤◌, ◌≡◌, refl, sym, ap, ap₂, ◌∙◌, Bool, true, false, not, ◌||◌, List, ◌++◌, take, drop,
  take-append-drop, leb→le, ==_iff, if◌then◌else◌, Bool-cases, inl, inr,
}
use mathlib.Core.Path.{subst⁻¹}
use ledger_app_neo.Sdk.{Sdk, Compares}
use ledger_app_neo.Common.Buffer.{Buffer, left, buffer_can_read, buffer_seek_cur}
use ledger_app_neo.Common.Buffer.View.{
  IsValid, remaining, ahead, left-eq, buffer_seek_cur_within, remaining-ahead, ahead-IsValid,
}
use ledger_app_neo.Transaction.Types.{Transaction, uint160_len}
use ledger_app_neo.Transaction.Monad.{Parse, go, ◌>>◌, stop_if, modify}
use ledger_app_neo.Transaction.Monad.Inversion.{Consumes, >>=-go, go_injective, stop_if-go}
use ledger_app_neo.Transaction.Transfer.{
  Step, expect_bytes, parse_contract, differs, neo_script_hash, gas_script_hash,
}
use ledger_app_neo.Transaction.Transfer.Script.{hash_of}
use ledger_app_neo.Transaction.Transfer.Parts.{Reads, not-not, at_cursor}

module _ (sdk : Sdk) (compares : Compares sdk) where
  agrees :
      (b : Buffer) (bytes : List ℕ) (n : ℕ)
      → n ≤ b.size - b.offset
      → differs sdk b bytes n ≡ false
      → take n (remaining b) ≡ take n bytes
  agrees b bytes n fits h =
      sym (at_cursor sdk b n fits)
      ∙ (compares.memcmp_iff (drop b.offset b.ptr) bytes n).0 ((==_iff _ 0).0 (not-not _ h))

  can_read :
      {b : Buffer} (n : ℕ) → IsValid b → not (buffer_can_read b n) ≡ false → n ≤ b.size - b.offset
  unfolding buffer_can_read
  can_read {b} n v h = rw (left-eq v) at (leb→le n (left b) (not-not _ h))

  -- A seek over what was compared.
  seek-Reads :
      (p : Parse) {p' : Parse} (n : ℕ) (bytes : List ℕ)
      → IsValid p.buf
      → n ≤ p.buf.size - p.buf.offset
      → take n (remaining p.buf) ≡ bytes
      → p' ≡ record p { buf = (buffer_seek_cur p.buf n).1 }
      → Reads p bytes p'
  seek-Reads p {p'} n bytes v fits same e =
      let within = ap (λ (t : Bool × Buffer). t.1) (buffer_seek_cur_within v n fits) in
      let to : p' ≡ record p { buf = ahead p.buf n } = e ∙ ap (λ b. record p { buf = b }) within in
      subst⁻¹ (Reads p bytes) to (record {
        consumed = record {
          valid = ahead-IsValid v n fits;
          split =
              sym (take-append-drop n (remaining p.buf))
              ∙ ap₂ ◌++◌ same (sym (remaining-ahead v n));
          same_size = refl;
        };
        kept = refl;
      })

  abbrev seek_step : ℕ → Step (Unit {0})
  seek_step n q = go tt (record q { buf = (buffer_seek_cur q.buf n).1 })

  -- A fixed sequence, from its first to its last byte.
  pub expect_bytes-Reads :
      (bytes : List ℕ) (n : ℕ) (p : Parse) {p' : Parse}
      → IsValid p.buf
      → expect_bytes sdk bytes n p ≡ go tt p'
      → Reads p (take n bytes) p'
  unfolding expect_bytes
  expect_bytes-Reads bytes n p {p'} v h =
      let (_, q, first, second) =
        >>=-go
          (stop_if (not (buffer_can_read p.buf n)) tt >> stop_if (differs sdk p.buf bytes n) tt)
          (λ _. seek_step n) p h in
      let (_, r, third, fourth) =
        >>=-go (stop_if (not (buffer_can_read p.buf n)) tt)
          (λ _. stop_if (differs sdk p.buf bytes n) tt) p first in
      let (readable, same_r) = stop_if-go (not (buffer_can_read p.buf n)) tt p third in
      let (equal, same_q) = stop_if-go (differs sdk p.buf bytes n) tt r fourth in
      let fits = can_read n v readable in
      seek-Reads p n (take n bytes) v fits (agrees p.buf bytes n fits equal) (
        sym (go_injective second).1
        ∙ ap (λ (s : Parse). record s { buf = (buffer_seek_cur s.buf n).1 }) (same_q ∙ same_r))

  abbrev pub with_token : Bool → Transaction → Transaction
  with_token neo tx = record tx { is_neo = neo || tx.is_neo }

  pub record Token (p p' : Parse) : Type 0 where
    pub neo : Bool
    pub consumed : Consumes p (hash_of neo) p'
    pub stored : p'.tx ≡ with_token neo p.tx

  abbrev token_test : Buffer → Step (Unit {0})
  token_test b =
      if not (differs sdk b neo_script_hash uint160_len)
      then modify (λ tx. record tx { is_neo = true })
      else stop_if (differs sdk b gas_script_hash uint160_len) tt

  abbrev set_neo : Parse → Parse
  set_neo q = record q { tx = record (q.tx) { is_neo = true } }

  -- The contract is NEO's, which is noted, or GAS's.
  pub parse_contract-Token :
      (p : Parse) {p' : Parse} → IsValid p.buf → parse_contract sdk p ≡ go tt p' → Token p p'
  unfolding parse_contract
  parse_contract-Token p {p'} v h =
      let (_, q, first, second) =
        >>=-go (stop_if (not (buffer_can_read p.buf 20)) tt >> token_test p.buf) (λ _. seek_step 20)
          p h in
      let (_, r, third, fourth) =
        >>=-go (stop_if (not (buffer_can_read p.buf 20)) tt) (λ _. token_test p.buf) p first in
      let (readable, same_r) = stop_if-go (not (buffer_can_read p.buf 20)) tt p third in
      let fits = can_read 20 v readable in
      let sought = sym (go_injective second).1 in
      elim (Bool-cases (differs sdk p.buf neo_script_hash uint160_len)) [
        | inr neo ↦
            let same_q : q ≡ set_neo p =
              sym (go_injective (rw neo at fourth)).1 ∙ ap set_neo same_r in
            let read =
              seek-Reads (set_neo p) 20 neo_script_hash v fits
                (agrees p.buf neo_script_hash 20 fits neo)
                (sought
                  ∙ ap (λ (s : Parse). record s { buf = (buffer_seek_cur s.buf 20).1 }) same_q) in
            record {
              neo = true;
              consumed = record {
                valid = read.consumed.valid;
                split = read.consumed.split;
                same_size = read.consumed.same_size;
              };
              stored = read.kept;
            }
        | inl other ↦
            let (gas, same_q) =
              stop_if-go (differs sdk p.buf gas_script_hash uint160_len) tt r
                (rw other at fourth) in
            let read =
              seek-Reads p 20 gas_script_hash v fits (agrees p.buf gas_script_hash 20 fits gas) (
                sought
                ∙ ap (λ (s : Parse). record s { buf = (buffer_seek_cur s.buf 20).1 })
                    (same_q ∙ same_r)) in
            record { neo = false; consumed = read.consumed; stored = read.kept }
      ]
