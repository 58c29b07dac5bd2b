-- ===== src/Common/Bip44.antt =====
-- common/bip44.c: reads a derivation path and checks each of its five levels.
pub mod Accepts
use ledger_app_neo.Prelude.{
  ℕ, ◌+◌, Bool, true, false, not, ◌&&◌, ◌||◌, List, set, ltb, leb, ◌==◌, if◌then◌else◌,
}
use ledger_app_neo.Common.Buffer.{Buffer, Reading, be, buffer_read_u32}

abbrev pub bip44_byte_length : ℕ
bip44_byte_length = 20

abbrev pub bip44_purpose : ℕ
bip44_purpose = 0x8000_002C

abbrev pub bip44_coin_type_neo : ℕ
bip44_coin_type_neo = 0x8000_0378

abbrev pub sw_wrong_data_length : ℕ
sw_wrong_data_length = 0x6A87

abbrev pub sw_bip44_bad_purpose : ℕ
sw_bip44_bad_purpose = 0xB100

abbrev pub sw_bip44_bad_coin_type : ℕ
sw_bip44_bad_coin_type = 0xB101

abbrev pub sw_bip44_account_not_hardened : ℕ
sw_bip44_account_not_hardened = 0xB102

abbrev pub sw_bip44_bad_account : ℕ
sw_bip44_bad_account = 0xB103

abbrev pub sw_bip44_bad_change : ℕ
sw_bip44_bad_change = 0xB104

abbrev pub sw_bip44_bad_address : ℕ
sw_bip44_bad_address = 0xB105

-- What the function leaves: the returned flag, `*status_out`, the buffer, and the path.
pub record PathRead : Type 0 where
  pub success : Bool
  pub status : ℕ
  pub buffer : Buffer
  pub path : List ℕ

abbrev pub refuse : ℕ → Buffer → List ℕ → PathRead
refuse status buffer path = record {
  success = false;
  status = status;
  buffer = buffer;
  path = path;
}

-- Each level is read, checked and stored before the next one is looked at. `status` is what
-- `*status_out` held before.
unfoldable pub buffer_read_and_validate_bip44 : Buffer → List ℕ → ℕ → PathRead
buffer_read_and_validate_bip44 input path status =
    if ltb input.size bip44_byte_length
    then refuse sw_wrong_data_length input path
    else (let purpose = buffer_read_u32 input be in
        if not (purpose.value == bip44_purpose)
        then refuse sw_bip44_bad_purpose purpose.buffer path
        else (let path0 = set path 0 purpose.value in
            let coin_type = buffer_read_u32 purpose.buffer be in
            if not (coin_type.value == bip44_coin_type_neo)
            then refuse sw_bip44_bad_coin_type coin_type.buffer path0
            else (let path1 = set path0 1 coin_type.value in
                let account = buffer_read_u32 coin_type.buffer be in
                if ltb account.value 0x8000_0000
                then refuse sw_bip44_account_not_hardened account.buffer path1
                else if ltb 0x8000_0010 account.value
                then refuse sw_bip44_bad_account account.buffer path1
                else (let path2 = set path1 2 account.value in
                    let change = buffer_read_u32 account.buffer be in
                    if not (change.value == 0) && not (change.value == 1)
                    then refuse sw_bip44_bad_change change.buffer path2
                    else (let path3 = set path2 3 change.value in
                        let address = buffer_read_u32 change.buffer be in
                        if leb 5000 address.value
                        then refuse sw_bip44_bad_address address.buffer path3
                        else record {
                          success = true;
                          status = status;
                          buffer = address.buffer;
                          path = set path3 4 address.value;
                        })))))
