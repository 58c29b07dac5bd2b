-- ===== src/Apdu/Parser.antt =====
-- apdu/parser.c: the fields of a command.
pub mod RoundTrip
use ledger_app_neo.Prelude.{
  ℕ, ◌-◌, ◌||◌, not, Bool, true, false, Option, none, some, List, drop, ltb, ◌==◌, if◌then◌else◌,
}
use ledger_app_neo.Word.{byte_at}

abbrev pub offset_cla : ℕ
offset_cla = 0

abbrev pub offset_ins : ℕ
offset_ins = 1

abbrev pub offset_p1 : ℕ
offset_p1 = 2

abbrev pub offset_p2 : ℕ
offset_p2 = 3

abbrev pub offset_lc : ℕ
offset_lc = 4

abbrev pub offset_cdata : ℕ
offset_cdata = 5

-- `data` is a null pointer, or the memory behind the header.
pub record Command : Type 0 where
  pub cla : ℕ
  pub ins : ℕ
  pub p1 : ℕ
  pub p2 : ℕ
  pub lc : ℕ
  pub cdata : Option (List ℕ)

-- The command, where the function returns true.
unfoldable pub apdu_parser : List ℕ → ℕ → Option Command
apdu_parser buf buf_len =
    if ltb buf_len offset_cdata || not (buf_len - offset_cdata == byte_at buf offset_lc)
    then none
    else some (record {
      cla = byte_at buf offset_cla;
      ins = byte_at buf offset_ins;
      p1 = byte_at buf offset_p1;
      p2 = byte_at buf offset_p2;
      lc = byte_at buf offset_lc;
      cdata = if ltb 0 (byte_at buf offset_lc) then some (drop offset_cdata buf) else none;
    })
