-- ===== src/Transaction/Deserialize/Complete/Signers.antt =====
-- The signers of the layout are read, and those of different accounts are no duplicates.
use ledger_app_neo.Prelude.{
  ℕ, ◌≡◌, ◌≢◌, refl, sym, ap, ◌∙◌, arith, false, ◌||◌, List, ◌++◌, append_assoc, take, drop,
  length-set, set, get_or-set_ne, ltb, ◌==◌, ==_iff, Bool-cases, inl, inr,
}
use mathlib.Core.Path.{subst}
use ledger_app_neo.Word.{u8}
use ledger_app_neo.Sdk.{Sdk, Compares}
use ledger_app_neo.Transaction.Types.{
  Transaction, Signer, ParserStatus, signer_at, min_tx_signers, max_tx_signers,
}
use ledger_app_neo.Transaction.Monad.{Parse, ◌>>◌, stop_if, modify}
use ledger_app_neo.Transaction.Monad.Forward.{At, Goes, >>=-Goes, stop_if-Goes, modify-Goes, weaken}
use ledger_app_neo.Transaction.Deserialize.{
  read_varint, account_seen, parse_signer, parse_signers_loop, parse_signers,
}
use ledger_app_neo.Transaction.Deserialize.Layout.{Varint, SignerCode, SignersCode, single, double}
use ledger_app_neo.Transaction.Deserialize.Complete.Reads.{varint-Goes, Fresh}
use ledger_app_neo.Transaction.Deserialize.Complete.Signer.{Account, signer-Goes}

-- The whole list of signers.
module _ (memory : List ℕ) (size : ℕ) (sdk : Sdk) (compares : Compares sdk) where
  first_fresh : (q : Parse) → account_seen sdk 0 0 0 q ≡ false
  unfolding account_seen
  first_fresh q = refl

  second_fresh :
      {account account' : List ℕ} (q : Parse)
      → account ≢ account'
      → q.buf.ptr ≡ memory
      → Account memory 0 account q.tx
      → Account memory 1 account' q.tx
      → account_seen sdk 1 0 1 q ≡ false
  unfolding account_seen
  second_fresh q other same first second =
      let a = drop (signer_at q.tx 0).account q.buf.ptr in
      let b = drop (signer_at q.tx 1).account q.buf.ptr in
      elim (Bool-cases (sdk.os_secure_memcmp a b 20 == 0)) [
        | inr differ ↦ rw differ refl
        | inl equal ↦ absurd (
            other (
              sym first
              ∙ ap (λ xs. take 20 (drop (signer_at q.tx 0).account xs)) (sym same)
              ∙ (compares.memcmp_iff a b 20).0 ((==_iff _ 0).0 equal)
              ∙ ap (λ xs. take 20 (drop (signer_at q.tx 1).account xs)) same
              ∙ second))
      ]

  abbrev First : List ℕ → Transaction → Type 0
  First account t = Fresh t × Account memory 0 account t

  Fresh-set :
      (i : ℕ) (s : Signer) (t : Transaction)
      → Fresh t
      → Fresh (record t { signers = set t.signers i s })
  Fresh-set i s t h = (length-set t.signers i s ∙ h.0, h.1)

  First-set :
      (account : List ℕ) (s : Signer) (t : Transaction)
      → First account t
      → First account (record t { signers = set t.signers 1 s })
  First-set account s t h = (
    Fresh-set 1 s t h.0,
    ap (λ (r : Signer). take 20 (drop r.account memory))
          (get_or-set_ne t.signers 1 0 s _ (λ e. omega arith))
        ∙ h.1,
  )

  First-Goes :
      {p : Parse} (account code rest : List ℕ)
      → SignerCode account code
      → At memory size p (code ++ rest) Fresh
      → Goes memory size (parse_signer sdk 0 p) tt rest (First account)
  First-Goes account code rest is at =
      signer-Goes memory size sdk 0 Fresh (λ t h. omega (arith, h.0)) (Fresh-set 0) account code
        rest is (λ q same h. first_fresh q) at

  -- The number, which is allowed, and then as many signers.
  counted-Goes :
      (n : ℕ) {p : Parse} {prefix : List ℕ} (rest after : List ℕ)
      → (ltb n min_tx_signers || ltb max_tx_signers n) ≡ false
      → Varint prefix n
      → ((q : Parse)
          → At memory size q rest Fresh
          → Goes memory size (parse_signers_loop sdk (u8 n) 0 q) tt after Fresh)
      → At memory size p (prefix ++ rest) Fresh
      → Goes memory size (parse_signers sdk p) tt after Fresh
  unfolding parse_signers
  counted-Goes n {p} rest after allowed counted signers at =
      let status = ParserStatus.signer_length_value_error in
      let sized = λ (tx : Transaction). record tx { signers_size = u8 n } in
      >>=-Goes memory size (read_varint ParserStatus.signer_length_parsing_error)
        (λ n.
          stop_if (ltb n min_tx_signers || ltb max_tx_signers n) status
          >> (modify (λ tx. record tx { signers_size = u8 n }) >> parse_signers_loop sdk (u8 n) 0))
        p (varint-Goes memory size _ rest counted at)
        λ p1 a1.
          >>=-Goes memory size (stop_if (ltb n min_tx_signers || ltb max_tx_signers n) status)
            (λ _. modify sized >> parse_signers_loop sdk (u8 n) 0) p1
            (stop_if-Goes memory size _ status allowed a1)
            λ p2 a2.
              >>=-Goes memory size (modify sized) (λ _. parse_signers_loop sdk (u8 n) 0) p2
                (modify-Goes memory size sized (λ t h. h) a2) signers

  pub signers-Goes :
      {p : Parse} {code : List ℕ} (rest : List ℕ)
      → SignersCode code
      → At memory size p (code ++ rest) Fresh
      → Goes memory size (parse_signers sdk p) tt rest Fresh
  unfolding parse_signers_loop
  signers-Goes {p} rest (single prefix account code counted is) at =
      counted-Goes 1 (code ++ rest) rest refl counted
        (λ q b.
          >>=-Goes memory size (parse_signer sdk 0) (λ _. parse_signers_loop sdk 0 1) q
            (First-Goes account code rest is b)
            λ r c. record { state = r; goes = refl; at = weaken c (λ t h. h.0) })
        (subst (λ xs. At memory size p xs Fresh) (append_assoc prefix code rest) at)
  signers-Goes {p} rest (double prefix account code account' code' counted is is' other) at =
      counted-Goes 2 (code ++ (code' ++ rest)) rest refl counted
        (λ q b.
          >>=-Goes memory size (parse_signer sdk 0) (λ _. parse_signers_loop sdk 1 1) q
            (First-Goes account code (code' ++ rest) is b)
            λ r c.
              >>=-Goes memory size (parse_signer sdk 1) (λ _. parse_signers_loop sdk 0 2) r
                (signer-Goes memory size sdk 1 (First account) (λ t h. omega (arith, h.0.0))
                  (First-set account) account' code' rest is'
                  (λ s same h. second_fresh s other same h.0.1 h.1) c)
                λ s d. record { state = s; goes = refl; at = weaken d (λ t h. h.0.0) })
        (subst (λ xs. At memory size p xs Fresh)
          (append_assoc prefix (code ++ code') rest
            ∙ ap (◌++◌ prefix) (append_assoc code code' rest))
          at)
