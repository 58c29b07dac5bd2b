-- ===== src/Transaction/Transfer/Script.antt =====
-- The scripts of NEO and GAS transfers, as the virtual machine's code in bytes.
use ledger_app_neo.Prelude.{
  ℕ, ◌+◌, ◌^◌, ◌≤◌, ◌<◌, ◌≡◌, Bool, List, [], ◌∷◌, ◌++◌, length, ℤ, pos, signed, if◌then◌else◌,
}
use ledger_app_neo.Common.Buffer.View.{number_le}
use ledger_app_neo.Transaction.Transfer.{sequence, sequence2, neo_script_hash, gas_script_hash}

-- The code that pushes an amount, and the amount that is shown for it. PUSHINT8 is read as unsigned.
pub data Pushes : List ℕ → ℤ → Type 0 where
  push : (n : ℕ) → n ≤ 16 → Pushes ((0x10 + n) ∷ []) (pos n)
  pushint8 : (b : ℕ) → b < 256 → Pushes (0x00 ∷ b ∷ []) (pos b)
  pushint16 : (xs : List ℕ) → length xs ≡ 2 → Pushes (0x01 ∷ xs) (signed (2 ^ 15) (number_le 2 xs))
  pushint32 : (xs : List ℕ) → length xs ≡ 4 → Pushes (0x02 ∷ xs) (signed (2 ^ 31) (number_le 4 xs))
  pushint64 : (xs : List ℕ) → length xs ≡ 8 → Pushes (0x03 ∷ xs) (signed (2 ^ 63) (number_le 8 xs))

abbrev pub hash_of : Bool → List ℕ
hash_of neo = if neo then neo_script_hash else gas_script_hash

-- PUSHNULL, the amount, the destination, the source, and the call of `transfer` on the asset.
abbrev pub transfer_code : List ℕ → List ℕ → List ℕ → Bool → List ℕ
transfer_code amount destination source neo =
    (0x0B ∷ [])
    ++ (amount
        ++ ((0x0C ∷ 0x14 ∷ [])
            ++ (destination
                ++ ((0x0C ∷ 0x14 ∷ []) ++ (source ++ (sequence ++ (hash_of neo ++ sequence2)))))))

-- `code` transfers `amount` of the asset to `destination`.
pub record IsTransfer (code : List ℕ) (amount : ℤ) (destination : List ℕ) (neo : Bool)
    : Type 0 where
  pub pushed : List ℕ
  pub source : List ℕ
  pub pushes : Pushes pushed amount
  pub destination_length : length destination ≡ 20
  pub source_length : length source ≡ 20
  pub code_eq : code ≡ transfer_code pushed destination source neo
