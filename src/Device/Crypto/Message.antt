-- ===== src/Device/Crypto/Message.antt =====
-- What `crypto_sign_tx` of crypto.c signs.
use ledger_app_neo.Prelude.{
  ℕ, ◌≡◌, ap, ◌∙◌, arith, List, [], ◌∷◌, ◌++◌, append-nil, take, take_all, length, replicate,
}
use ledger_app_neo.Word.{u8, ◌>>>◌}
use ledger_app_neo.Sdk.{Sdk}
use ledger_app_neo.Common.Buffer.Moves.{memmove_lem}
use ledger_app_neo.Common.Write.{write_u32_le}
use ledger_app_neo.Device.Context.{Context}
use ledger_app_neo.Device.Crypto.{signed_data}

abbrev pub magic_bytes : ℕ → List ℕ
magic_bytes n = u8 (n >>> 0) ∷ u8 (n >>> 8) ∷ u8 (n >>> 16) ∷ u8 (n >>> 24) ∷ []

module _ (sdk : Sdk) where
  -- With a hash of 32 bytes in the context, the message that is hashed for the signature is the four bytes
  -- of the network magic, least significant first, followed by the hash.
  pub signed_data_lem :
      (c : Context) → length c.hash ≡ 32 → signed_data sdk c ≡ magic_bytes c.network_magic ++ c.hash
  unfolding signed_data write_u32_le
  signed_data_lem c h =
      let start = magic_bytes c.network_magic ++ replicate 32 0 in
      let whole : take 32 c.hash ≡ c.hash = take_all 32 c.hash (omega arith) in
      rw whole (
        memmove_lem start 4 c.hash (omega arith)
        ∙ rw h (ap (λ xs. magic_bytes c.network_magic ++ xs) (append-nil c.hash)))
