-- ===== src/Transaction/Transfer/Parts.antt =====
-- What the later stages of the recognition have read when they go on: the hashes of the accounts.
pub mod Fixed
use ledger_app_neo.Prelude.{
  ℕ, ◌+◌, ◌-◌, ◌*◌, ◌≤◌, ◌<◌, ◌≡◌, refl, sym, ap, ◌∙◌, arith, Bool, true, false, not, List, [], ◌∷◌,
  ◌++◌, take, drop, length, length-take, take-take, ◌==◌, ==_iff,
}
use mathlib.Core.Path.{subst, subst⁻¹}
use ledger_app_neo.Word.{byte_at}
use ledger_app_neo.Sdk.{Sdk}
use ledger_app_neo.Common.Read.Value.{byte_at-IsByte}
use ledger_app_neo.Common.Buffer.{Buffer, be, left, buffer_read_u16}
use ledger_app_neo.Common.Buffer.View.{
  IsValid, remaining, remaining-IsByte, number_be, take_two, length-remaining,
}
use ledger_app_neo.Common.Buffer.Reads.{buffer_read_u16-Refines}
use ledger_app_neo.Ui.Utils.{
  script_hash_to_address, address_bytes, address_version, script_hash_checksum_len,
}
use ledger_app_neo.Common.Base58.{base58_encode}
use ledger_app_neo.Transaction.Types.{Transaction, uint160_len, address_len}
use ledger_app_neo.Transaction.Monad.{
  Parse, go, ◌>>=◌, ◌>>◌, stop_if, modify, get, read_value, skip,
}
use ledger_app_neo.Transaction.Monad.Inversion.{
  Consumes, Consumes-trans, >>=-go, go_injective, stop_if-go, read_to-Consumes, skip-Consumes,
}
use ledger_app_neo.Transaction.Transfer.{Step, expect_hash, parse_source, parse_destination}

abbrev hash_prefix : List ℕ
hash_prefix = 0x0C ∷ 0x14 ∷ []

two_bytes : (a b : ℕ) → a < 256 → b < 256 → a * 256 + b ≡ 0x0C14 → a ∷ b ∷ [] ≡ hash_prefix
two_bytes a b ha hb h =
    let first : a ≡ 0x0C = omega arith in let second : b ≡ 0x14 = omega arith in rw (first, second)

pub not-not : (b : Bool) → not b ≡ false → b ≡ true
not-not true h = refl
not-not false h = cc

-- A step consumed `bytes` and left the transaction alone.
pub record Reads (p : Parse) (bytes : List ℕ) (p' : Parse) : Type 0 where
  pub consumed : Consumes p bytes p'
  pub kept : p'.tx ≡ p.tx

pub expect_hash-Reads :
    (p : Parse) {p' : Parse} → IsValid p.buf → expect_hash p ≡ go tt p' → Reads p hash_prefix p'
unfolding expect_hash
expect_hash-Reads p {p'} v h =
    let (word, q, first, second) =
      >>=-go (read_value (λ b. buffer_read_u16 b be) tt) (λ w. stop_if (not (w == 0x0C14)) tt) p
        h in
    let (fits, value, consumed, kept) =
      read_to-Consumes (λ b. buffer_read_u16 b be) (λ _ tx. tx) tt p 2 0 (number_be 2)
        (buffer_read_u16-Refines v be) first in
    let (is, same) = stop_if-go (not (word == 0x0C14)) tt q second in
    let word_eq : word ≡ 0x0C14 = (==_iff word 0x0C14).0 (not-not _ is) in
    let rest = remaining p.buf in
    let b0 = byte_at-IsByte rest 0 (remaining-IsByte v) in
    let b1 = byte_at-IsByte rest 1 (remaining-IsByte v) in
    let bytes : take 2 rest ≡ hash_prefix =
      take_two rest fits
      ∙ two_bytes (byte_at rest 0) (byte_at rest 1) b0 b1 (omega (arith, value, word_eq)) in
    record {
      consumed =
          subst⁻¹ (Consumes p hash_prefix) same (subst (λ xs. Consumes p xs q) bytes consumed);
      kept = ap (λ (r : Parse). r.tx) same ∙ kept;
    }

module _ (sdk : Sdk) where
  -- PUSHDATA1, and the 20 bytes of a script hash.
  pub parse_source-Reads :
      (p : Parse) {p' : Parse}
      → IsValid p.buf
      → parse_source sdk p ≡ go tt p'
      → (source : List ℕ) × (length source ≡ 20) × Reads p (hash_prefix ++ source) p'
  unfolding parse_source
  parse_source-Reads p {p'} v h =
      let (_, q, first, second) = >>=-go expect_hash (λ _. skip uint160_len tt) p h in
      let prefix = expect_hash-Reads p v first in
      let (fits, consumed, kept, _) =
        skip-Consumes uint160_len tt q prefix.consumed.valid (omega arith) second in
      (
        take 20 (remaining q.buf),
        omega (arith, length-take 20 (remaining q.buf), fits),
        record { consumed = Consumes-trans prefix.consumed consumed; kept = kept ∙ prefix.kept },
      )

  address_bytes-take : (hash : List ℕ) → address_bytes sdk (take 20 hash) ≡ address_bytes sdk hash
  unfolding address_bytes
  address_bytes-take hash =
      ap
        (λ xs.
          let head = address_version ∷ xs in
          head ++ take script_hash_checksum_len (sdk.sha256 (sdk.sha256 head)))
        (take-take 20 20 hash (omega arith))

  -- Only the first 20 bytes of a script hash go into its address.
  pub script_hash_to_address-take :
      (out : List ℕ) (n : ℕ) (hash : List ℕ)
      → script_hash_to_address sdk out n (take 20 hash) ≡ script_hash_to_address sdk out n hash
  unfolding script_hash_to_address
  script_hash_to_address-take out n hash =
      ap (λ bytes. (base58_encode bytes 25 out n).1) (address_bytes-take hash)

  -- The bytes at the cursor are those that remain.
  pub at_cursor :
      (b : Buffer) (n : ℕ)
      → n ≤ b.size - b.offset
      → take n (drop b.offset b.ptr) ≡ take n (remaining b)
  at_cursor b n h = sym (take-take n (b.size - b.offset) (drop b.offset b.ptr) h)

  abbrev pub with_address : List ℕ → Transaction → Transaction
  with_address destination tx = record tx {
    dst_address = script_hash_to_address sdk tx.dst_address address_len destination;
  }

  pub record Destination (p p' : Parse) : Type 0 where
    pub destination : List ℕ
    pub destination_length : length destination ≡ 20
    pub consumed : Consumes p (hash_prefix ++ destination) p'
    pub stored : p'.tx ≡ with_address destination p.tx

  abbrev pub store_address : Parse → Step (Unit {0})
  store_address start = modify (λ tx. record tx {
    dst_address =
        script_hash_to_address sdk tx.dst_address address_len (drop start.buf.offset start.buf.ptr);
  })

  -- The hash, and its address in the structure.
  pub parse_destination-Destination :
      (p : Parse) {p' : Parse}
      → IsValid p.buf
      → parse_destination sdk p ≡ go tt p'
      → Destination p p'
  unfolding parse_destination
  parse_destination-Destination p {p'} v h =
      let (_, q, first, second) =
        >>=-go expect_hash (λ _. get >>= λ start. skip uint160_len tt >> store_address start) p h in
      let prefix = expect_hash-Reads p v first in
      let (_, r, third, fourth) = >>=-go (skip uint160_len tt) (λ _. store_address q) q second in
      let (fits, consumed, kept, _) =
        skip-Consumes uint160_len tt q prefix.consumed.valid (omega arith) third in
      let same = sym (go_injective fourth).1 in
      let destination = take 20 (remaining q.buf) in
      let room : 20 ≤ q.buf.size - q.buf.offset =
        omega (arith, fits, length-remaining prefix.consumed.valid) in
      let read : script_hash_to_address sdk r.tx.dst_address address_len
            (drop q.buf.offset q.buf.ptr)
          ≡ script_hash_to_address sdk r.tx.dst_address address_len destination =
        sym (script_hash_to_address-take r.tx.dst_address address_len (drop q.buf.offset q.buf.ptr))
        ∙ ap (script_hash_to_address sdk r.tx.dst_address address_len) (at_cursor q.buf 20 room) in
      record {
        destination = destination;
        destination_length = omega (arith, length-take 20 (remaining q.buf), fits);
        consumed = subst⁻¹ (Consumes p (hash_prefix ++ destination)) same (
            let c = Consumes-trans prefix.consumed consumed in
            record { valid = c.valid; split = c.split; same_size = c.same_size });
        stored =
            ap (λ (s : Parse). s.tx) same
            ∙ (ap (λ a. record (r.tx) { dst_address = a }) read
                ∙ ap (with_address destination) (kept ∙ prefix.kept));
      }
