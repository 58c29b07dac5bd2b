-- ===== src/Device/Crypto.antt =====
-- crypto.c: key derivation and the signature over the network magic and the transaction's hash.
pub mod Message
use ledger_app_neo.Prelude.{
  ℕ, ◌%◌, ◌^◌, List, [], ◌∷◌, ◌++◌, take, drop, replicate, ℤ, pos, negsuc, if◌then◌else◌,
}
use ledger_app_neo.Word.{u8}
use ledger_app_neo.Sdk.{Sdk, Call, returns, throws}
use ledger_app_neo.Common.Buffer.{memmove}
use ledger_app_neo.Common.Write.{write_u32_le}
use ledger_app_neo.Device.Context.{Context}

infixl 5 ◌>>=◌
abbrev pub ◌>>=◌ {ℓ κ} : {A : Type ℓ} {B : Type κ} → Call A → (A → Call B) → Call B
returns a >>= f = f a
throws e >>= f = throws e

module _ (sdk : Sdk) where
  -- An exception of the SDK is thrown on.
  unfoldable pub crypto_derive_private_key : List ℕ → Call (List ℕ)
  crypto_derive_private_key path = sdk.derive_node path

  -- The 64 bytes behind the leading one of `W`.
  unfoldable pub crypto_init_public_key : List ℕ → Call (List ℕ)
  crypto_init_public_key private_key = do
    w ← sdk.generate_pair private_key
    returns (take 64 (drop 1 w))

  -- The hashed message: the network magic in the processor's byte order, then the hash.
  unfoldable pub signed_data : Context → List ℕ
  signed_data c = memmove (write_u32_le (replicate 36 0) 0 c.network_magic) 4 (take 32 c.hash)

  -- What `crypto_sign_tx` does with the result of `cx_ecdsa_sign`: the returned value, and the context.
  unfoldable pub store_signature : Context → ℤ × List ℕ → ℤ × Context
  store_signature c (negsuc n, bytes) =
      (negsuc 0, record c { signature = memmove c.signature 0 bytes })
  store_signature c (pos n, bytes) =
      (pos 0, record c { signature = memmove c.signature 0 bytes; signature_len = u8 n })

  unfoldable pub crypto_sign_tx : Context → Call (ℤ × Context)
  unfolding crypto_derive_private_key signed_data store_signature
  crypto_sign_tx c = do
    private_key ← crypto_derive_private_key c.bip44_path
    signed ← sdk.ecdsa_sign private_key (sdk.sha256 (signed_data c))
    returns (store_signature c signed)
