-- ===== src/Sdk.antt =====
-- What the application calls of the operating system's SDK, which is not part of the repository:
-- constant-time comparison, hashing, key derivation and signing. They are a parameter of the model.
use ledger_app_neo.Prelude.{ℕ, List, ℤ, ◌↔◌, ◌≡◌, take}

-- A call that may throw an exception, which is a number.
pub data Call {ℓ} (A : Type ℓ) : Type ℓ where
  returns : A → Call A
  throws : ℕ → Call A

pub record Sdk : Type 0 where
  -- `os_secure_memcmp (a, b, n)`: 0 where the first `n` bytes agree.
  pub os_secure_memcmp : List ℕ → List ℕ → ℕ → ℕ
  -- `cx_hash` over SHA-256 and RIPEMD-160, of one message.
  pub sha256 : List ℕ → List ℕ
  pub ripemd160 : List ℕ → List ℕ
  -- `os_perso_derive_node_bip32` and `cx_ecfp_init_private_key`, of a derivation path.
  pub derive_node : List ℕ → Call (List ℕ)
  -- `cx_ecfp_generate_pair`: the 65 bytes `W` of the public key of a private key.
  pub generate_pair : List ℕ → Call (List ℕ)
  -- `cx_ecdsa_sign`: the returned length and the signature's bytes, of a private key and a hash.
  pub ecdsa_sign : List ℕ → List ℕ → Call (ℤ × List ℕ)
  -- `IO_APDU_BUFFER_SIZE`, and what `io_exchange` returns once it has sent a reply at once.
  pub io_apdu_buffer_size : ℕ
  pub io_exchange_reply : List ℕ → ℤ

-- The documented behaviour of the comparison.
pub record Compares (sdk : Sdk) : Type 0 where
  pub memcmp_iff : (a b : List ℕ) (n : ℕ) → (sdk.os_secure_memcmp a b n ≡ 0) ↔ (take n a ≡ take n b)
