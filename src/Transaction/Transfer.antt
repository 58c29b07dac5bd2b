-- ===== src/Transaction/Transfer.antt =====
-- transaction/tx_utils.c: recognises the script of a NEO or GAS transfer.
pub mod Script
pub mod Stages
pub mod Parts
pub mod Sound
pub mod Unflagged
pub mod Recognition
pub mod Complete
use ledger_app_neo.Prelude.{
  ℕ, ◌+◌, ◌-◌, ◌%◌, ◌^◌, Bool, true, false, not, ◌&&◌, ◌||◌, List, [], ◌∷◌, drop, ltb, leb, ◌==◌,
  if◌then◌else◌, ℤ, pos, negsuc,
}
use ledger_app_neo.Sdk.{Sdk}
use ledger_app_neo.Common.Buffer.{
  Buffer, be, le, buffer_can_read, buffer_read_u8, buffer_read_s8, buffer_read_u16, buffer_read_s16,
  buffer_read_s32, buffer_read_s64, buffer_seek_cur,
}
use ledger_app_neo.Ui.Utils.{script_hash_to_address}
use ledger_app_neo.Transaction.Types.{Transaction, address_len, uint160_len}
use ledger_app_neo.Transaction.Monad.{
  Parse, Outcome, go, stop, Parser, ◌>>=◌, ◌>>◌, pure, stop_if, modify, get, read_value, skip,
}

-- PUSH4 PACK PUSH15 PUSHDATA1 8 "transfer" PUSHDATA1 20.
abbrev pub sequence : List ℕ
sequence =
    0x14 ∷ 0xC0 ∷ 0x1F ∷ 0x0C ∷ 0x08 ∷ 0x74 ∷ 0x72 ∷ 0x61 ∷ 0x6e ∷ 0x73 ∷ 0x66 ∷ 0x65 ∷ 0x72 ∷ 0x0C
    ∷ 0x14 ∷ []

abbrev pub neo_script_hash : List ℕ
neo_script_hash =
    0xf5 ∷ 0x63 ∷ 0xea ∷ 0x40 ∷ 0xbc ∷ 0x28 ∷ 0x3d ∷ 0x4d ∷ 0x0e ∷ 0x05 ∷ 0xc4 ∷ 0x8e ∷ 0xa3 ∷ 0x05
    ∷ 0xb3 ∷ 0xf2 ∷ 0xa0 ∷ 0x73 ∷ 0x40 ∷ 0xef ∷ []

abbrev pub gas_script_hash : List ℕ
gas_script_hash =
    0xcf ∷ 0x76 ∷ 0xe2 ∷ 0x8b ∷ 0xd0 ∷ 0x06 ∷ 0x2c ∷ 0x4a ∷ 0x47 ∷ 0x8e ∷ 0xe3 ∷ 0x55 ∷ 0x61 ∷ 0x01
    ∷ 0x13 ∷ 0x19 ∷ 0xf3 ∷ 0xcf ∷ 0xa4 ∷ 0xd2 ∷ []

-- SYSCALL System.Contract.Call.
abbrev pub sequence2 : List ℕ
sequence2 = 0x41 ∷ 0x62 ∷ 0x7d ∷ 0x5b ∷ 0x52 ∷ []

abbrev pub Step : Type 0 → Type 0
Step A = Parser (Unit {0}) A

-- The byte that `s.u8` reads after `s.s8` was stored: both are members of one union.
abbrev pub u8_of_s8 : ℤ → ℕ
u8_of_s8 (pos n) = n
u8_of_s8 (negsuc n) = 255 - n

abbrev pub set_amount : ℤ → Step (Unit {0})
set_amount z = modify (λ tx. record tx { amount = z })

-- PUSH0 to PUSH16, PUSHINT8, PUSHINT16, PUSHINT32, PUSHINT64, or give up.
unfoldable pub parse_amount : ℕ → Step (Unit {0})
parse_amount opcode =
    if leb 0x10 opcode && leb opcode 0x20
    then set_amount (pos (opcode - 0x10))
    else if opcode == 0x00
    then (read_value buffer_read_s8 tt >>= λ v. set_amount (pos (u8_of_s8 v)))
    else if opcode == 0x01
    then (read_value (λ b. buffer_read_s16 b le) tt >>= set_amount)
    else if opcode == 0x02
    then (read_value (λ b. buffer_read_s32 b le) tt >>= set_amount)
    else if opcode == 0x03
    then (read_value (λ b. buffer_read_s64 b le) tt >>= set_amount)
    else stop tt

-- `0x0C14`: PUSHDATA1 of 20 bytes.
unfoldable pub expect_hash : Step (Unit {0})
expect_hash = do word ← read_value (λ b. buffer_read_u16 b be) tt; stop_if (not (word == 0x0C14)) tt

module _ (sdk : Sdk) where
  -- `os_secure_memcmp(script->ptr + script->offset, bytes, n)` says that they differ.
  abbrev pub differs : Buffer → List ℕ → ℕ → Bool
  differs b bytes n = not (sdk.os_secure_memcmp (drop b.offset b.ptr) bytes n == 0)

  -- Can read, compare, and seek past a fixed sequence.
  unfoldable pub expect_bytes : List ℕ → ℕ → Step (Unit {0})
  expect_bytes bytes n p =
      (stop_if (not (buffer_can_read p.buf n)) tt
          >> stop_if (differs p.buf bytes n) tt
          >> (λ q. go tt (record q { buf = (buffer_seek_cur q.buf n).1 })))
        p

  -- The destination: its address is stored as soon as its script hash is read.
  unfoldable pub parse_destination : Step (Unit {0})
  unfolding expect_hash
  parse_destination = do
    expect_hash
    start ← get
    skip uint160_len tt
    modify (λ tx. record tx {
      dst_address =
          script_hash_to_address sdk tx.dst_address address_len
            (drop start.buf.offset start.buf.ptr);
    })

  unfoldable pub parse_source : Step (Unit {0})
  unfolding expect_hash
  parse_source = do expect_hash; skip uint160_len tt

  unfoldable pub parse_contract : Step (Unit {0})
  parse_contract p =
      (stop_if (not (buffer_can_read p.buf uint160_len)) tt
          >> (if not (differs p.buf neo_script_hash uint160_len)
              then modify (λ tx. record tx { is_neo = true })
              else stop_if (differs p.buf gas_script_hash uint160_len) tt)
          >> (λ q. go tt (record q { buf = (buffer_seek_cur q.buf uint160_len).1 })))
        p

  unfoldable pub parse_transfer : Step (Unit {0})
  unfolding parse_amount parse_destination parse_source expect_bytes parse_contract
  parse_transfer = do
    first ← read_value buffer_read_u8 tt
    stop_if (not (first == 0xB)) tt
    opcode ← read_value buffer_read_u8 tt
    parse_amount opcode
    parse_destination
    parse_source
    expect_bytes sequence 15
    parse_contract
    expect_bytes sequence2 5
    end ← get
    stop_if (not (end.buf.offset == end.tx.script_size)) tt
    modify (λ tx. record tx { is_system_asset_transfer = true })

  abbrev pub filled : Outcome (Unit {0}) (Unit {0}) → Transaction
  filled (go _ p) = p.tx
  filled (stop _ p) = p.tx

  -- Only the transaction is kept: the script's buffer is a local of the caller.
  unfoldable pub try_parse_transfer_script : Buffer → Transaction → Transaction
  unfolding parse_transfer
  try_parse_transfer_script script tx = filled (parse_transfer (record { buf = script; tx = tx }))
