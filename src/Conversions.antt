-- ===== src/Conversions.antt =====
-- The conversions of the C library that the command lines of tools/ use; they are parameters.
pub mod Marks
use Prim.Native.String.{String}
use iron_ledger.Common.{ℕ, ◌^◌, ◌<◌, ◌≡◌}
use iron_ledger.Common.Int.{ℤ, pos}

-- strtoull, strtoul and strtol in base 10, and snprintf with "%llu", "%u" and "%d".
pub record Conversions : Type 0 where
  pub strtoull : String → ℕ
  pub strtoul : String → ℕ
  pub strtol : String → ℤ
  pub print_u64 : ℕ → String
  pub print_u32 : ℕ → String
  pub print_int : ℕ → String

-- What is printed is read back.
pub record ReadsBack (c : Conversions) : Type 0 where
  pub u64 : (n : ℕ) → n < 2 ^ 64 → c.strtoull (c.print_u64 n) ≡ n
  pub u32 : (n : ℕ) → n < 2 ^ 32 → c.strtoul (c.print_u32 n) ≡ n
  pub int : (n : ℕ) → n < 2 ^ 15 → c.strtol (c.print_int n) ≡ pos n
