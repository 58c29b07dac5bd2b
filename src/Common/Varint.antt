-- ===== src/Common/Varint.antt =====
-- common/varint.c: integers in 1, 3, 5 or 9 bytes, as Bitcoin writes them.
pub mod RoundTrip
use ledger_app_neo.Prelude.{ℕ, ◌+◌, List, set, ℤ, pos, negsuc, ltb, leb, ◌==◌, if◌then◌else◌}
use ledger_app_neo.Word.{u8, u16, u32, u64, byte_at}
use ledger_app_neo.Common.Read.{read_u16_le, read_u32_le, read_u64_le}
use ledger_app_neo.Common.Write.{write_u16_le, write_u32_le, write_u64_le}

unfoldable pub varint_size : ℕ → ℕ
varint_size value =
    if leb value 0xFC
    then 1
    else if leb value 0xFFFF
    then 3
    else if leb value 0xFFFF_FFFF
    then 5
    else 9

-- The returned length or -1, and what `*value` holds afterwards (`old` where it is not written).
unfoldable pub varint_read : List ℕ → ℕ → ℕ → ℤ × ℕ
varint_read input in_len old =
    if ltb in_len 1
    then (negsuc 0, old)
    else (let prefix = byte_at input 0 in
        if prefix == 0xFD
        then (if ltb in_len 3 then (negsuc 0, old) else (pos 3, read_u16_le input 1))
        else if prefix == 0xFE
        then (if ltb in_len 5 then (negsuc 0, old) else (pos 5, read_u32_le input 1))
        else if prefix == 0xFF
        then (if ltb in_len 9 then (negsuc 0, old) else (pos 9, read_u64_le input 1))
        else (pos 1, prefix))

-- The returned length or -1, and the memory after the stores.
unfoldable pub varint_write : List ℕ → ℕ → ℕ → ℤ × List ℕ
varint_write out offset value =
    let varint_len = varint_size value in
    if varint_len == 1
    then (pos varint_len, set out offset (u8 value))
    else if varint_len == 3
    then (pos varint_len, write_u16_le (set out offset 0xFD) (offset + 1) (u16 value))
    else if varint_len == 5
    then (pos varint_len, write_u32_le (set out offset 0xFE) (offset + 1) (u32 value))
    else if varint_len == 9
    then (pos varint_len, write_u64_le (set out offset 0xFF) (offset + 1) (u64 value))
    else (negsuc 0, out)
