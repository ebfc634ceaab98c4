-- ===== src/Conversions/Marks.antt =====
-- Conversions with which the tests run: a number is written as so many marks.
use Prim.Native.String.{String, len, ◌++◌ as str_append}
use text.Mathlib.TextPositions.{len-append}
use iron_ledger.Common.{ℕ, zero, suc, ◌≡◌, refl, ap, arith}
use iron_ledger.Common.Int.{pos}
use iron_ledger.Conversions.{Conversions, ReadsBack}

-- Conversions of a library that writes a number as so many marks.
abbrev marks : ℕ → String
marks zero = ""
marks (suc n) = str_append "|" (marks n)

len-marks : (n : ℕ) → len (marks n) ≡ n
len-marks zero = refl
len-marks (suc n) = omega (arith, len-append "|" (marks n), len-marks n)

abbrev pub tally_marks : Conversions
tally_marks = record {
  strtoull = len;
  strtoul = len;
  strtol = λ s. pos (len s);
  print_u64 = marks;
  print_u32 = marks;
  print_int = marks;
}

pub tally_marks-ReadsBack : ReadsBack tally_marks
tally_marks-ReadsBack = record {
  u64 = λ n h. len-marks n;
  u32 = λ n h. len-marks n;
  int = λ n h. ap pos (len-marks n);
}
