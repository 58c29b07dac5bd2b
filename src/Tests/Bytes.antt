-- ===== src/Tests/Bytes.antt =====
-- The buffers, at concrete bytes.
use ledger_app_neo.Prelude.{
  ◌-◌, false, if◌then◌else◌, leb, ◌++◌, take, drop, ℕ, ◌≡◌, ◌+◌, ◌^◌, refl, true, List, [], ◌∷◌,
  replicate, arith, pos, signed,
}
use ledger_app_neo.Common.Buffer.{
  Buffer, be, le, buffer_read_u32, buffer_read_s64, buffer_read_varint, buffer_move,
  buffer_seek_cur,
}
use ledger_app_neo.Common.Buffer.View.{IsValid, ahead, number_le, number_be, buffer_seek_cur_exact}
use ledger_app_neo.Common.Buffer.Reads.{
  Refines, list_read, buffer_read_u32-Refines, buffer_read_s64-Refines,
}
use ledger_app_neo.Common.Buffer.Varints.{list_varint, buffer_read_varint-Refines}
use ledger_app_neo.Common.Buffer.Moves.{buffer_move_places}
use ledger_app_neo.Common.Read.{read_u32_be, read_u64_le}
use ledger_app_neo.Common.Write.{write_u32_be, write_u64_le}
use ledger_app_neo.Common.Write.Reads.{read-write_u32_be, read-write_u64_le}
use ledger_app_neo.Tests.Inputs.{all_bytes_lem}

abbrev nine : List ℕ
nine = 0xFD ∷ 2 ∷ 3 ∷ 4 ∷ 5 ∷ 6 ∷ 7 ∷ 8 ∷ 9 ∷ []

abbrev from_first : Buffer
from_first = record { ptr = nine; size = 9; offset = 0 }

from_first-IsValid : IsValid from_first
from_first-IsValid = record {
  in_size = omega arith;
  in_memory = omega arith;
  addressable = omega arith;
  bytes = all_bytes_lem nine refl;
}

buffer_read_u32-Refines_example :
    Refines from_first (list_read 4 0 (number_be 4) nine) (buffer_read_u32 from_first be)
buffer_read_u32-Refines_example = buffer_read_u32-Refines from_first-IsValid be

buffer_read_s64-Refines_example :
    Refines from_first
      (list_read 8 (pos 0) (λ xs. signed (2 ^ 63) (number_le 8 xs)) nine)
      (buffer_read_s64 from_first le)
buffer_read_s64-Refines_example = buffer_read_s64-Refines from_first-IsValid

buffer_read_varint-Refines_example :
    Refines from_first (list_varint nine) (buffer_read_varint from_first 0)
buffer_read_varint-Refines_example = buffer_read_varint-Refines from_first-IsValid 0

buffer_seek_cur_exact_example :
    buffer_seek_cur from_first (2 ^ 32 - 1)
    ≡ (if leb (2 ^ 32 - 1) 9 then (true, ahead from_first (2 ^ 32 - 1)) else (false, from_first))
buffer_seek_cur_exact_example = buffer_seek_cur_exact from_first-IsValid (2 ^ 32 - 1) (omega arith)

buffer_move_places_example : buffer_move from_first (replicate 12 0) 2 9 ≡ (
  true,
  take 2 (replicate 12 0) ++ (nine ++ drop 11 (replicate 12 0)),
  record from_first { offset = 9 },
)
buffer_move_places_example =
    buffer_move_places from_first-IsValid (replicate 12 0) 2 9 refl (omega arith)

read-write_u32_be_example : read_u32_be (write_u32_be (replicate 8 0) 3 0x0102_0304) 3 ≡ 0x0102_0304
read-write_u32_be_example = read-write_u32_be (replicate 8 0) 3 0x0102_0304 (omega arith)

read-write_u64_le_example : read_u64_le (write_u64_le (replicate 9 0) 1 (2 ^ 64 + 5)) 1 ≡ 5
read-write_u64_le_example = read-write_u64_le (replicate 9 0) 1 (2 ^ 64 + 5) (omega arith)
