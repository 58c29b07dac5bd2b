-- ===== src/Ui/Utils.antt =====
-- ui/utils.c: the verification script of a public key, script hashes and addresses.
use ledger_app_neo.Prelude.{
  ℕ, ◌+◌, Bool, true, false, List, [], ◌∷◌, ◌++◌, take, replicate, ◌==◌, not, if◌then◌else◌,
  bit_and,
}
use ledger_app_neo.Word.{byte_at}
use ledger_app_neo.Sdk.{Sdk}
use ledger_app_neo.Common.Base58.{base58_encode}
use ledger_app_neo.Common.Write.{write_u32_le}
use ledger_app_neo.Common.Buffer.{memmove}
use ledger_app_neo.Transaction.Types.{uint160_len}

abbrev pub address_version : ℕ
address_version = 0x35

abbrev pub script_hash_checksum_len : ℕ
script_hash_checksum_len = 4

abbrev pub verification_script_length : ℕ
verification_script_length = 40

-- The 33 bytes of the compressed key: the parity of y, then x.
unfoldable pub compressed_key : List ℕ → List ℕ
compressed_key public_key =
    (if bit_and (byte_at public_key 63) 1 == 0 then 0x02 else 0x03) ∷ take 32 public_key

-- PUSHDATA1 33 key SYSCALL System.Crypto.CheckSig, in the processor's byte order. `out` is a pointer
-- to `out_len` bytes.
unfoldable pub create_signature_redeem_script : List ℕ → List ℕ → ℕ → Bool × List ℕ
unfolding compressed_key
create_signature_redeem_script public_key out out_len =
    if not (out_len == verification_script_length)
    then (false, out)
    else (let key_in = memmove (memmove out 0 (0xc ∷ 0x21 ∷ [])) 2 (compressed_key public_key) in
        (true, write_u32_le (memmove key_in 35 (0x41 ∷ [])) 36 0x27B3E756))

module _ (sdk : Sdk) where
  unfoldable pub public_key_hash160 : List ℕ → List ℕ
  public_key_hash160 input = sdk.ripemd160 (sdk.sha256 input)

  -- The version, the script hash, and the first four bytes of its double hash.
  unfoldable pub address_bytes : List ℕ → List ℕ
  address_bytes script_hash =
      let head = address_version ∷ take uint160_len script_hash in
      head ++ take script_hash_checksum_len (sdk.sha256 (sdk.sha256 head))

  unfoldable pub script_hash_to_address : List ℕ → ℕ → List ℕ → List ℕ
  unfolding address_bytes
  script_hash_to_address out out_len script_hash =
      (base58_encode (address_bytes script_hash) (1 + uint160_len + script_hash_checksum_len) out
        out_len).1

  unfoldable pub address_from_pubkey : List ℕ → List ℕ → ℕ → Bool × List ℕ
  address_from_pubkey public_key out out_len =
      let (created, verification_script) =
        create_signature_redeem_script public_key (replicate verification_script_length 0)
          verification_script_length in
      if created
      then (true, script_hash_to_address out out_len (public_key_hash160 verification_script))
      else (false, out)
