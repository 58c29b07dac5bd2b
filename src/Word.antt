-- ===== src/Word.antt =====
-- Casts to the fixed widths of C, and its shifts, as arithmetic on native numbers.
pub mod Bits
pub mod Digits
use ledger_app_neo.Prelude.{ℕ, ◌*◌, ◌/◌, ◌%◌, ◌^◌, ◌<◌, List, get_or}

abbrev pub u8 : ℕ → ℕ
u8 n = n % 2 ^ 8

abbrev pub u16 : ℕ → ℕ
u16 n = n % 2 ^ 16

abbrev pub u32 : ℕ → ℕ
u32 n = n % 2 ^ 32

abbrev pub u64 : ℕ → ℕ
u64 n = n % 2 ^ 64

infixl 75 ◌<<<◌ ◌>>>◌
abbrev pub ◌<<<◌ : ℕ → ℕ → ℕ
x <<< k = x * 2 ^ k

abbrev pub ◌>>>◌ : ℕ → ℕ → ℕ
x >>> k = x / 2 ^ k

abbrev pub IsByte : ℕ → Type 0
IsByte b = b < 256

-- `ptr[i]`. Beyond the memory that the list stands for it is 0; the theorems that need it state
-- that the index is inside.
abbrev pub byte_at : List ℕ → ℕ → ℕ
byte_at ptr i = get_or ptr i 0
