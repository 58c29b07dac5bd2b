-- ===== src/Transaction/Deserialize/Header.antt =====
-- The header that transaction/deserialize.c stores is the one in the first 25 bytes.
use ledger_app_neo.Prelude.{
  ℕ, ◌^◌, ◌≡◌, refl, sym, ap, ◌∙◌, arith, List, ◌++◌, take, drop, drop-drop, drop-append, length,
  length-take, ltb, ℤ, pos, signed, is_negative,
}
use mathlib.Core.Path.{subst⁻¹}
use mathlib.Core.Bool.{false≢true}
use ledger_app_neo.Sdk.{Sdk}
use ledger_app_neo.Common.Buffer.{
  Buffer, Reading, le, buffer_read_u8, buffer_read_u32, buffer_read_s64,
}
use ledger_app_neo.Common.Buffer.View.{IsValid, remaining, number_le}
use ledger_app_neo.Common.Buffer.Reads.{
  Refines, list_read, buffer_read_u8-Refines, buffer_read_u32-Refines, buffer_read_s64-Refines,
}
use ledger_app_neo.Transaction.Types.{Transaction, ParserStatus}
use ledger_app_neo.Transaction.Monad.{Parse, Outcome, go, stop, read_to}
use ledger_app_neo.Transaction.Monad.Inversion.{
  >>=-go, go_injective, stop_if-go, stop_if-then, read_to-Consumes,
}
use ledger_app_neo.Transaction.Transfer.Unflagged.{Untouched, try_parse_transfer_script-kept}
use ledger_app_neo.Transaction.Deserialize.{
  parse_too_long, parse_header, parse_signers, parse_attributes, parse_stages, finish,
  transaction_deserialize, script_buffer, max_transaction_len,
}
use ledger_app_neo.Transaction.Deserialize.Runs.{is_never_reported, Ran}
use ledger_app_neo.Transaction.Deserialize.Runs.Stages.{
  Flags, Fields, fields, both, parse_signers-Runs, parse_attributes-Runs, parse_script-Runs,
}
use ledger_app_neo.Transaction.Deserialize.Runs.Relations.{
  ran, Same-Rules, Anything, parse_stages-Anything,
}

-- A read of `n` bytes that goes on.
record Step {A : Type 0} (n : ℕ) (decode : List ℕ → A) (store : A → Transaction → Transaction)
    (a : A) (p p' : Parse) : Type 0 where
  value : a ≡ decode (remaining p.buf)
  rest : remaining p'.buf ≡ drop n (remaining p.buf)
  valid : IsValid p'.buf
  stored : p'.tx ≡ store a p.tx

behind : (n : ℕ) (xs ys : List ℕ) → length xs ≡ n → drop n (xs ++ ys) ≡ ys
behind n xs ys h = ap (λ k. drop k (xs ++ ys)) (sym h) ∙ drop-append xs ys

read_to-Step :
    {A : Type 0} (read : Buffer → Reading A) (store : A → Transaction → Transaction)
    (e : ParserStatus) (p : Parse) (n : ℕ) (zero_value : A) (decode : List ℕ → A) {a : A}
    {p' : Parse}
    → Refines p.buf (list_read n zero_value decode (remaining p.buf)) (read p.buf)
    → read_to read store e p ≡ go a p'
    → Step n decode store a p p'
read_to-Step read store e p n zero_value decode {a} {p'} r h =
    let (fits, value, consumed, stored) = read_to-Consumes read store e p n zero_value decode r h in
    record {
      value = value;
      rest = sym (
          ap (drop n) consumed.split
          ∙ behind n (take n (remaining p.buf)) (remaining p'.buf)
              (omega (arith, length-take n (remaining p.buf), fits)));
      valid = consumed.valid;
      stored = stored;
    }

-- The fields at their places, least significant byte first.
abbrev pub header_of : List ℕ → Fields
header_of bytes = (
  number_le 1 bytes,
  number_le 4 (drop 1 bytes),
  signed (2 ^ 63) (number_le 8 (drop 5 bytes)),
  signed (2 ^ 63) (number_le 8 (drop 13 bytes)),
  number_le 4 (drop 21 bytes),
)

same_fields :
    {v w n m u t : ℕ} {a b c d : ℤ}
    → v ≡ w
    → n ≡ m
    → a ≡ b
    → c ≡ d
    → u ≡ t
    → ◌≡◌ {A = Fields} (v, n, a, c, u) (w, m, b, d, t)
same_fields e1 e2 e3 e4 e5 = rw (e1, e2, e3, e4, e5) refl

abbrev s64_at : List ℕ → ℤ
s64_at xs = signed (2 ^ 63) (number_le 8 xs)

parse_header_lem :
    (p : Parse) {q : Parse}
    → IsValid p.buf
    → parse_header p ≡ go tt q
    → fields q.tx ≡ header_of (remaining p.buf)
unfolding parse_header
parse_header_lem p {q} v h =
    let bytes = remaining p.buf in
    let (version, p1, h1, k1) =
      >>=-go
        (read_to buffer_read_u8 (λ v tx. record tx { version = v })
          ParserStatus.version_parsing_error)
        _ p h in
    let s1 =
      read_to-Step buffer_read_u8 (λ v tx. record tx { version = v })
        ParserStatus.version_parsing_error p 1 0 (number_le 1) (buffer_read_u8-Refines v) h1 in
    let (_, k2) = stop_if-then (ltb 0 version) _ _ p1 k1 in
    let (nonce, p2, h3, k3) =
      >>=-go
        (read_to (λ b. buffer_read_u32 b le) (λ v tx. record tx { nonce = v })
          ParserStatus.nonce_parsing_error)
        _ p1 k2 in
    let s2 =
      read_to-Step (λ b. buffer_read_u32 b le) (λ v tx. record tx { nonce = v })
        ParserStatus.nonce_parsing_error p1 4 0 (number_le 4) (buffer_read_u32-Refines s1.valid le)
        h3 in
    let (system_fee, p3, h4, k4) =
      >>=-go
        (read_to (λ b. buffer_read_s64 b le) (λ v tx. record tx { system_fee = v })
          ParserStatus.system_fee_parsing_error)
        _ p2 k3 in
    let s3 =
      read_to-Step (λ b. buffer_read_s64 b le) (λ v tx. record tx { system_fee = v })
        ParserStatus.system_fee_parsing_error p2 8 (pos 0) s64_at (buffer_read_s64-Refines s2.valid)
        h4 in
    let (_, k5) = stop_if-then (is_negative system_fee) _ _ p3 k4 in
    let (network_fee, p4, h6, k6) =
      >>=-go
        (read_to (λ b. buffer_read_s64 b le) (λ v tx. record tx { network_fee = v })
          ParserStatus.network_fee_parsing_error)
        _ p3 k5 in
    let s4 =
      read_to-Step (λ b. buffer_read_s64 b le) (λ v tx. record tx { network_fee = v })
        ParserStatus.network_fee_parsing_error p3 8 (pos 0) s64_at
        (buffer_read_s64-Refines s3.valid) h6 in
    let (_, k7) = stop_if-then (is_negative network_fee) _ _ p4 k6 in
    let (until, p5, h8, k8) =
      >>=-go
        (read_to (λ b. buffer_read_u32 b le) (λ v tx. record tx { valid_until_block = v })
          ParserStatus.valid_until_block_parsing_error)
        _ p4 k7 in
    let s5 =
      read_to-Step (λ b. buffer_read_u32 b le) (λ v tx. record tx { valid_until_block = v })
        ParserStatus.valid_until_block_parsing_error p4 4 0 (number_le 4)
        (buffer_read_u32-Refines s4.valid le) h8 in
    let r2 : remaining p2.buf ≡ drop 5 bytes =
      s2.rest ∙ (ap (drop 4) s1.rest ∙ drop-drop 1 4 bytes) in
    let r3 : remaining p3.buf ≡ drop 13 bytes = s3.rest ∙ (ap (drop 8) r2 ∙ drop-drop 5 8 bytes) in
    let r4 : remaining p4.buf ≡ drop 21 bytes = s4.rest ∙ (ap (drop 8) r3 ∙ drop-drop 13 8 bytes) in
    let last = ap (λ (z : Parse). fields z.tx) (sym (go_injective k8).1) in
    last
    ∙ (ap fields s5.stored
        ∙ (ap (λ (t : Transaction). fields (record t { valid_until_block = until })) s4.stored
            ∙ (ap
                  (λ (t : Transaction).
                    fields (record t { network_fee = network_fee; valid_until_block = until }))
                  s3.stored
                ∙ (ap
                      (λ (t : Transaction). fields (record t {
                        system_fee = system_fee;
                        network_fee = network_fee;
                        valid_until_block = until;
                      }))
                      s2.stored
                    ∙ (ap
                          (λ (t : Transaction). fields (record t {
                            nonce = nonce;
                            system_fee = system_fee;
                            network_fee = network_fee;
                            valid_until_block = until;
                          }))
                          s1.stored
                        ∙ same_fields s1.value (s2.value ∙ ap (number_le 4) s1.rest)
                            (s3.value ∙ ap s64_at r2) (s4.value ∙ ap s64_at r3)
                            (s5.value ∙ ap (number_le 4) r4))))))

module _ (sdk : Sdk) where
  parse_stages-fields :
      (p : Parse) {q : Parse}
      → IsValid p.buf
      → parse_stages sdk p ≡ go tt q
      → fields q.tx ≡ header_of (remaining p.buf)
  unfolding parse_stages
  parse_stages-fields p {q} v h =
      let (_, a, h1, k1) = >>=-go parse_too_long _ p h in
      let same = (stop_if-go (ltb max_transaction_len p.buf.size) _ p h1).1 in
      let (_, b, h2, k2) = >>=-go parse_header _ a k1 in
      let (_, c, h3, k3) = >>=-go (parse_signers sdk) _ b k2 in
      let (_, d, h4, k4) = >>=-go parse_attributes _ c k3 in
      let rules = Same-Rules both in
      let e3 = ran (parse_signers-Runs rules (λ f k r. k r.tx) sdk) b h3 in
      let e4 = ran (parse_attributes-Runs rules (λ f k r. k r.tx)) c h4 in
      let e5 = ran (parse_script-Runs rules (λ f k r. k r.tx)) d k4 in
      ap (λ (x : Flags × Fields). x.1) (e5 ∙ (e4 ∙ e3))
      ∙ (parse_header_lem a (subst⁻¹ (λ (r : Parse). IsValid r.buf) same v) h2
          ∙ ap (λ (r : Parse). header_of (remaining r.buf)) same)

  fields-Untouched : Untouched fields
  fields-Untouched = record {
    amount_kept = λ z tx. refl;
    address_kept = λ xs tx. refl;
    neo_kept = λ neo tx. refl;
  }

  fields-finish :
      (p : Parse) (o : Outcome ParserStatus (Unit {0}))
      → IsValid p.buf
      → parse_stages sdk p ≡ o
      → Ran Anything p o
      → (finish sdk o).0 ≡ ParserStatus.parsing_ok
      → fields (finish sdk o).1.tx ≡ header_of (remaining p.buf)
  unfolding finish
  fields-finish p (stop e q) v same failed h =
      absurd (false≢true (sym failed ∙ ap is_never_reported h))
  fields-finish p (go tt q) v same failed h =
      try_parse_transfer_script-kept fields fields-Untouched sdk (λ tx. refl) (script_buffer q) q.tx
      ∙ parse_stages-fields p v same

  -- Where a transaction in a valid buffer is accepted, the version, the nonce, the fees and the last block
  -- that are stored are the numbers at the places 0, 1, 5, 13 and 21 of its bytes, the least
  -- significant byte first, the fees in two's complement.
  pub transaction_deserialize-header_of :
      (buf : Buffer) (tx : Transaction)
      → IsValid buf
      → (transaction_deserialize sdk buf tx).0 ≡ ParserStatus.parsing_ok
      → fields (transaction_deserialize sdk buf tx).1.tx ≡ header_of (remaining buf)
  unfolding transaction_deserialize
  transaction_deserialize-header_of buf tx v h =
      let p : Parse = record { buf = buf; tx = tx } in
      fields-finish p (parse_stages sdk p) v refl ((parse_stages-Anything sdk).runs p) h
