-- ===== src/Tests/Inputs.antt =====
-- A stand-in for the SDK, and raw transactions.
use ledger_app_neo.Prelude.{
  ℕ, zero, suc, ◌≡◌, refl, List, [], ◌∷◌, ◌++◌, length, take, replicate, ◌==◌, if◌then◌else◌, ◌&&◌,
  Bool, true, pos, All, ltb, ltb→lt, Bool-cases, inl, inr, ==_iff, arith,
}
use mathlib.Core.Bool.{false≢true}
use ledger_app_neo.Sdk.{Sdk, Compares, returns}
use ledger_app_neo.Word.{IsByte}
use ledger_app_neo.Common.Buffer.{Buffer}
use ledger_app_neo.Common.Buffer.View.{IsValid}
use ledger_app_neo.Transaction.Types.{ParserStatus, empty_transaction}
use ledger_app_neo.Transaction.Transfer.{sequence, sequence2, neo_script_hash}
use ledger_app_neo.Transaction.Deserialize.{transaction_deserialize}

abbrev pub compare_bytes : List ℕ → List ℕ → ℕ → ℕ
compare_bytes a b zero = 0
compare_bytes [] [] (suc n) = 0
compare_bytes [] (y ∷ ys) (suc n) = 1
compare_bytes (x ∷ xs) [] (suc n) = 1
compare_bytes (x ∷ xs) (y ∷ ys) (suc n) = if x == y then compare_bytes xs ys n else 1

abbrev pub test_sdk : Sdk
test_sdk = record {
  os_secure_memcmp = compare_bytes;
  sha256 = λ m. replicate 32 (length m);
  ripemd160 = λ m. replicate 20 (length m);
  derive_node = λ path. returns (replicate 32 7);
  generate_pair = λ key. returns (4 ∷ replicate 64 9);
  ecdsa_sign = λ key hash. returns (pos 70, replicate 70 5);
  io_apdu_buffer_size = 260;
  io_exchange_reply = λ sent. pos 0;
}

-- Five NEO to an account, from another.
abbrev pub transfer_script : List ℕ
transfer_script =
    (0x0B ∷ 0x15 ∷ 0x0C ∷ 0x14 ∷ replicate 20 0xAA)
    ++ (0x0C ∷ 0x14 ∷ replicate 20 0xBB)
    ++ sequence
    ++ neo_script_hash
    ++ sequence2

abbrev pub raw_transaction : List ℕ
raw_transaction =
    (0
      ∷ 1
      ∷ 0
      ∷ 0
      ∷ 0
      ∷ 2
      ∷ 0
      ∷ 0
      ∷ 0
      ∷ 0
      ∷ 0
      ∷ 0
      ∷ 0
      ∷ 3
      ∷ 0
      ∷ 0
      ∷ 0
      ∷ 0
      ∷ 0
      ∷ 0
      ∷ 0
      ∷ 4
      ∷ 0
      ∷ 0
      ∷ 0
      ∷ 1
      ∷ replicate 20 0xCC)
    ++ (1 ∷ 0 ∷ length transfer_script ∷ transfer_script)

abbrev pub raw_buffer : Buffer
raw_buffer = record { ptr = raw_transaction; size = length raw_transaction; offset = 0 }

pub accepted :
    (transaction_deserialize test_sdk raw_buffer empty_transaction).0 ≡ ParserStatus.parsing_ok
unfolding transaction_deserialize ledger_app_neo.Common.Buffer.buffer_read_u8
    ledger_app_neo.Common.Buffer.buffer_read_u32 ledger_app_neo.Common.Buffer.buffer_seek_cur
    ledger_app_neo.Common.Buffer.buffer_read_s64 ledger_app_neo.Common.Read.read_s64_le
    ledger_app_neo.Common.Buffer.buffer_read_varint ledger_app_neo.Common.Varint.varint_read
    ledger_app_neo.Transaction.Transfer.try_parse_transfer_script
    ledger_app_neo.Common.Buffer.buffer_read_u16 ledger_app_neo.Common.Read.read_u16_be
accepted = refl

pub recognised :
    (transaction_deserialize test_sdk raw_buffer empty_transaction).1.tx.is_system_asset_transfer
    ≡ true
unfolding transaction_deserialize ledger_app_neo.Common.Buffer.buffer_read_u8
    ledger_app_neo.Common.Buffer.buffer_read_u32 ledger_app_neo.Common.Buffer.buffer_seek_cur
    ledger_app_neo.Common.Buffer.buffer_read_s64 ledger_app_neo.Common.Read.read_s64_le
    ledger_app_neo.Common.Buffer.buffer_read_varint ledger_app_neo.Common.Varint.varint_read
    ledger_app_neo.Transaction.Transfer.try_parse_transfer_script
    ledger_app_neo.Common.Buffer.buffer_read_u16 ledger_app_neo.Common.Read.read_u16_be
recognised = refl

-- The bytes of a list, checked.
abbrev pub all_bytes : List ℕ → Bool
all_bytes [] = true
all_bytes (x ∷ xs) = ltb x 256 && all_bytes xs

pub all_bytes_lem : (xs : List ℕ) → all_bytes xs ≡ true → All IsByte xs
all_bytes_lem [] h = tt
all_bytes_lem (x ∷ xs) h = elim (Bool-cases (ltb x 256)) [
  | inl small ↦ (ltb→lt x 256 small, all_bytes_lem xs (rw small at h))
  | inr large ↦ absurd (false≢true (rw large at h))
]

same_head : {x y : ℕ} {xs ys : List ℕ} → ◌≡◌ {A = List ℕ} (x ∷ xs) (y ∷ ys) → (x ≡ y) × (xs ≡ ys)
same_head h = (cc, cc)

equal-agree : (a b : List ℕ) (n : ℕ) → compare_bytes a b n ≡ 0 → take n a ≡ take n b
equal-agree a b zero h = refl
equal-agree [] [] (suc n) h = refl
equal-agree [] (y ∷ ys) (suc n) h = absurd (omega arith)
equal-agree (x ∷ xs) [] (suc n) h = absurd (omega arith)
equal-agree (x ∷ xs) (y ∷ ys) (suc n) h = elim (Bool-cases (x == y)) [
  | inl same ↦ rw ((==_iff x y).0 same, equal-agree xs ys n (rw same at h))
  | inr other ↦ absurd (omega (arith, (rw other at h)))
]

agree-equal : (a b : List ℕ) (n : ℕ) → take n a ≡ take n b → compare_bytes a b n ≡ 0
agree-equal a b zero h = refl
agree-equal [] [] (suc n) h = refl
agree-equal [] (y ∷ ys) (suc n) h = cc
agree-equal (x ∷ xs) [] (suc n) h = cc
agree-equal (x ∷ xs) (y ∷ ys) (suc n) h =
    let (first, rest) = same_head h in
    let same : (x == y) ≡ true = (==_iff x y).1 first in rw same (agree-equal xs ys n rest)

pub test_compares : Compares test_sdk
test_compares = record { memcmp_iff = λ a b n. (equal-agree a b n, agree-equal a b n) }

pub raw-IsValid : IsValid raw_buffer
raw-IsValid = record {
  in_size = omega arith;
  in_memory = omega arith;
  addressable = omega arith;
  bytes = all_bytes_lem raw_transaction refl;
}
