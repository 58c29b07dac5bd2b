-- ===== src/Transaction/Deserialize/Layout.antt =====
-- The bytes of the transactions that transaction/deserialize.c is to accept.
use ledger_app_neo.Prelude.{
  ℕ, ◌*◌, ◌^◌, ◌≤◌, ◌<◌, ◌≡◌, ◌≢◌, Bool, true, false, not, ◌&&◌, List, [], ◌∷◌, ◌++◌, length, ◌==◌,
  bit_and,
}
use ledger_app_neo.Common.Buffer.View.{number_le}
use ledger_app_neo.Transaction.Types.{custom_contracts, custom_groups, global, high_priority}

-- A number of variable length.
pub data Varint : List ℕ → ℕ → Type 0 where
  one : (n : ℕ) → n < 0xFD → Varint (n ∷ []) n
  two : (xs : List ℕ) → length xs ≡ 2 → Varint (0xFD ∷ xs) (number_le 2 xs)
  four : (xs : List ℕ) → length xs ≡ 4 → Varint (0xFE ∷ xs) (number_le 4 xs)
  eight : (xs : List ℕ) → length xs ≡ 8 → Varint (0xFF ∷ xs) (number_le 8 xs)

-- At most two items of a length, behind their number.
pub record Items (len : ℕ) (code : List ℕ) : Type 0 where
  pub count : ℕ
  pub prefix : List ℕ
  pub items : List ℕ
  pub counted : Varint prefix count
  pub few : count ≤ 2
  pub items_length : length items ≡ count * len
  pub code_eq : code ≡ prefix ++ items

-- They are there only if the scope says so.
abbrev pub Optional : Bool → ℕ → List ℕ → Type 0
Optional true len code = Items len code
Optional false len code = code ≡ []

abbrev pub has_flag : ℕ → ℕ → Bool
has_flag scope flag = bit_and scope flag == flag

-- The account, the scope, and the contracts and groups that it allows. The global scope stands alone.
pub record SignerCode (account code : List ℕ) : Type 0 where
  pub scope : ℕ
  pub contracts : List ℕ
  pub groups : List ℕ
  pub account_length : length account ≡ 20
  pub alone : (has_flag scope global && not (scope == global)) ≡ false
  pub contracts_ok : Optional (has_flag scope custom_contracts) 20 contracts
  pub groups_ok : Optional (has_flag scope custom_groups) 33 groups
  pub code_eq : code ≡ account ++ (scope ∷ (contracts ++ groups))

-- One signer, or two of different accounts.
pub data SignersCode : List ℕ → Type 0 where
  single :
      (prefix account code : List ℕ)
      → Varint prefix 1
      → SignerCode account code
      → SignersCode (prefix ++ code)
  double :
      (prefix account code account' code' : List ℕ)
      → Varint prefix 2
      → SignerCode account code
      → SignerCode account' code'
      → account ≢ account'
      → SignersCode (prefix ++ (code ++ code'))

-- No attribute, or that of a high priority.
pub data AttributesCode : List ℕ → Type 0 where
  none : (prefix : List ℕ) → Varint prefix 0 → AttributesCode prefix
  priority : (prefix : List ℕ) → Varint prefix 1 → AttributesCode (prefix ++ (high_priority ∷ []))

-- Version 0, the nonce, two fees that are not negative, the last block, the signers, the attributes, and
-- the script behind its length.
pub record TransactionCode (bytes script : List ℕ) : Type 0 where
  pub nonce : List ℕ
  pub system_fee : List ℕ
  pub network_fee : List ℕ
  pub valid_until : List ℕ
  pub signers : List ℕ
  pub attributes : List ℕ
  pub prefix : List ℕ
  pub nonce_length : length nonce ≡ 4
  pub system_fee_length : length system_fee ≡ 8
  pub system_fee_ok : number_le 8 system_fee < 2 ^ 63
  pub network_fee_length : length network_fee ≡ 8
  pub network_fee_ok : number_le 8 network_fee < 2 ^ 63
  pub valid_until_length : length valid_until ≡ 4
  pub signers_ok : SignersCode signers
  pub attributes_ok : AttributesCode attributes
  pub script_length : Varint prefix (length script)
  pub some_script : 1 ≤ length script
  pub bytes_eq :
      bytes
      ≡ 0
        ∷ (nonce
            ++ (system_fee
                ++ (network_fee
                    ++ (valid_until ++ (signers ++ (attributes ++ (prefix ++ script)))))))
