-- ===== src/Transaction/Transfer/Complete/Parts.antt =====
-- The accounts, the fixed sequences and the contract of a transfer's script are read.
use ledger_app_neo.Prelude.{
  ℕ, ◌≡◌, ◌≢◌, refl, sym, ap, ◌∙◌, arith, Bool, true, false, not, List, ◌∷◌, ◌++◌, take, drop,
  length, le→leb, ==_iff, if◌then◌else◌, Bool-cases, inl, inr,
}
use mathlib.Core.Path.{subst}
use ledger_app_neo.Ui.Utils.{script_hash_to_address}
use ledger_app_neo.Sdk.{Sdk, Compares}
use ledger_app_neo.Common.Buffer.{Buffer, left, buffer_can_read, buffer_seek_cur}
use ledger_app_neo.Common.Buffer.View.{left-eq}
use ledger_app_neo.Transaction.Types.{Transaction, uint160_len, address_len}
use ledger_app_neo.Transaction.Monad.{Parse, go, ◌>>=◌, ◌>>◌, stop_if, modify, get, skip}
use ledger_app_neo.Transaction.Monad.Forward.{
  >>=-Goes, stop_if-Goes, skip-Goes, seek-Goes, room, ahead_bytes,
}
use ledger_app_neo.Transaction.Transfer.{
  Step, expect_hash, parse_source, parse_destination, differs, expect_bytes, parse_contract,
  neo_script_hash, gas_script_hash,
}
use ledger_app_neo.Transaction.Transfer.Script.{hash_of}
use ledger_app_neo.Transaction.Transfer.Parts.{
  not-not, script_hash_to_address-take, with_address, store_address,
}
use ledger_app_neo.Transaction.Transfer.Parts.Fixed.{with_token}
use ledger_app_neo.Transaction.Transfer.Complete.Amount.{Here, Ends, store-Goes, expect_hash-Goes}

module _ (memory : List ℕ) (size : ℕ) where
  module _ (sdk : Sdk) where
    pub source-Goes :
        {p : Parse} (source rest : List ℕ) {tx : Transaction}
        → length source ≡ 20
        → Here memory size p (0x0C ∷ 0x14 ∷ (source ++ rest)) tx
        → Ends memory size (parse_source sdk p) tt rest tx
    unfolding parse_source
    source-Goes {p} source rest long at =
        >>=-Goes memory size expect_hash (λ _. skip uint160_len tt) p
          (expect_hash-Goes memory size (source ++ rest) at)
          (λ q at'. skip-Goes memory size uint160_len source rest long at' tt)

    -- The address is that of the destination, since only 20 bytes of the memory go into it.
    stored_address :
        {q : Parse} (destination rest : List ℕ) {tx : Transaction} (out : List ℕ)
        → length destination ≡ 20
        → Here memory size q (destination ++ rest) tx
        → script_hash_to_address sdk out address_len (drop q.buf.offset q.buf.ptr)
          ≡ script_hash_to_address sdk out address_len destination
    stored_address {q} destination rest out long at =
        let address = script_hash_to_address sdk out address_len in
        sym (script_hash_to_address-take sdk out address_len (drop q.buf.offset q.buf.ptr))
        ∙ ap address (ahead_bytes memory size 20 destination rest long at)

    pub destination-Goes :
        {p : Parse} (destination rest : List ℕ) {tx : Transaction}
        → length destination ≡ 20
        → Here memory size p (0x0C ∷ 0x14 ∷ (destination ++ rest)) tx
        → Ends memory size (parse_destination sdk p) tt rest (with_address sdk destination tx)
    unfolding parse_destination
    destination-Goes {p} destination rest {tx} long at =
        >>=-Goes memory size expect_hash
          (λ _. get >>= λ start. skip uint160_len tt >> store_address sdk start) p
          (expect_hash-Goes memory size (destination ++ rest) at)
          (λ q at'.
            >>=-Goes memory size (skip uint160_len tt) (λ _. store_address sdk q) q
              (skip-Goes memory size uint160_len destination rest long at' tt)
              (λ r at''.
                let stored =
                  store-Goes memory size
                    (λ t. record t {
                      dst_address =
                          script_hash_to_address sdk t.dst_address address_len
                            (drop q.buf.offset q.buf.ptr);
                    })
                    at'' in
                subst
                  (λ a.
                    Ends memory size (store_address sdk q r) tt rest
                      (record tx { dst_address = a }))
                  (stored_address destination rest tx.dst_address long at') stored))

    module _ (compares : Compares sdk) where
      -- The comparison of the bytes ahead.
      agrees_ahead :
          {p : Parse} (bytes : List ℕ) (n : ℕ) (xs rest : List ℕ) {tx : Transaction}
          → length xs ≡ n
          → take n bytes ≡ xs
          → Here memory size p (xs ++ rest) tx
          → differs sdk p.buf bytes n ≡ false
      agrees_ahead {p} bytes n xs rest long is at = ap not (
          (==_iff _ 0).1 (
            (compares.memcmp_iff (drop p.buf.offset p.buf.ptr) bytes n).1
              (ahead_bytes memory size n xs rest long at ∙ sym is)))

      differs_ahead :
          {p : Parse} (bytes : List ℕ) (n : ℕ) (xs rest : List ℕ) {tx : Transaction}
          → length xs ≡ n
          → take n bytes ≢ xs
          → Here memory size p (xs ++ rest) tx
          → differs sdk p.buf bytes n ≡ true
      differs_ahead {p} bytes n xs rest long other at =
          elim (Bool-cases (differs sdk p.buf bytes n)) [
            | inl h ↦ h
            | inr h ↦ absurd (
                other (
                  sym (
                    (compares.memcmp_iff (drop p.buf.offset p.buf.ptr) bytes n).0
                      ((==_iff _ 0).0 (not-not _ h)))
                  ∙ ahead_bytes memory size n xs rest long at))
          ]

      readable :
          {p : Parse} (n : ℕ) (xs rest : List ℕ) {tx : Transaction}
          → length xs ≡ n
          → Here memory size p (xs ++ rest) tx
          → not (buffer_can_read p.buf n) ≡ false
      unfolding buffer_can_read
      readable {p} n xs rest long at = ap not (
          le→leb n (left p.buf)
            (omega (arith, left-eq at.valid, room memory size n xs rest long at)))

      -- A fixed sequence.
      pub bytes-Goes :
          {p : Parse} (bytes : List ℕ) (n : ℕ) (rest : List ℕ) {tx : Transaction}
          → length bytes ≡ n
          → take n bytes ≡ bytes
          → Here memory size p (bytes ++ rest) tx
          → Ends memory size (expect_bytes sdk bytes n p) tt rest tx
      unfolding expect_bytes
      bytes-Goes {p} bytes n rest long whole at =
          >>=-Goes memory size
            (stop_if (not (buffer_can_read p.buf n)) tt >> stop_if (differs sdk p.buf bytes n) tt)
            (λ _ q. go tt (record q { buf = (buffer_seek_cur q.buf n).1 })) p
            (>>=-Goes memory size (stop_if (not (buffer_can_read p.buf n)) tt)
              (λ _. stop_if (differs sdk p.buf bytes n) tt) p
              (stop_if-Goes memory size _ tt (readable n bytes rest long at) at)
              (λ q at'.
                stop_if-Goes memory size _ tt (agrees_ahead bytes n bytes rest long whole at) at'))
            (λ q at'. seek-Goes memory size n bytes rest long at')

      abbrev token_step : Buffer → Step (Unit {0})
      token_step b =
          if not (differs sdk b neo_script_hash uint160_len)
          then modify (λ tx. record tx { is_neo = true })
          else stop_if (differs sdk b gas_script_hash uint160_len) tt

      token-Goes :
          {p q : Parse} (neo : Bool) (rest : List ℕ) {tx : Transaction}
          → Here memory size p (hash_of neo ++ rest) tx
          → Here memory size q (hash_of neo ++ rest) tx
          → Ends memory size
              (token_step p.buf q)
              tt
              (hash_of neo ++ rest)
              (with_token sdk compares neo tx)
      token-Goes true rest at at' =
          rw (agrees_ahead neo_script_hash 20 neo_script_hash rest refl refl at)
            (store-Goes memory size (λ tx. record tx { is_neo = true }) at')
      token-Goes false rest at at' =
          rw (differs_ahead neo_script_hash 20 gas_script_hash rest refl (λ e. cc) at) (
            stop_if-Goes memory size _ tt
              (agrees_ahead gas_script_hash 20 gas_script_hash rest refl refl at) at')

      hash_length : (neo : Bool) → length (hash_of neo) ≡ 20
      hash_length true = refl
      hash_length false = refl

      pub contract-Goes :
          {p : Parse} (neo : Bool) (rest : List ℕ) {tx : Transaction}
          → Here memory size p (hash_of neo ++ rest) tx
          → Ends memory size (parse_contract sdk p) tt rest (with_token sdk compares neo tx)
      unfolding parse_contract
      contract-Goes {p} neo rest at =
          >>=-Goes memory size (stop_if (not (buffer_can_read p.buf 20)) tt >> token_step p.buf)
            (λ _ q. go tt (record q { buf = (buffer_seek_cur q.buf 20).1 })) p
            (>>=-Goes memory size (stop_if (not (buffer_can_read p.buf 20)) tt)
              (λ _. token_step p.buf) p
              (stop_if-Goes memory size _ tt (readable 20 (hash_of neo) rest (hash_length neo) at)
                at)
              (λ q at'. token-Goes neo rest at at'))
            (λ q at'. seek-Goes memory size 20 (hash_of neo) rest (hash_length neo) at')
