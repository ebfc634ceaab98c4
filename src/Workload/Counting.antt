-- ===== src/Workload/Counting.antt =====
-- An engine that counts, with which the tests run the generator of tools/workload.h.
use iron_ledger.Common.{ℕ, ◌+◌, ◌%◌, ◌<◌, ◌≡◌, true, if◌then◌else◌, List, [], ◌∷◌, length, arith}
use iron_ledger.Device.{contains}
use iron_ledger.Workload.Accounts.{IsVaried}

abbrev pub counting : ℕ → ℕ × ℕ
counting s = (s, s + 1)

abbrev repeats_of : List ℕ → ℕ → ℕ
repeats_of out s = if contains (1 + s % 2) out then 1 else 0

repeats_of-lt :
    (out : List ℕ) (s : ℕ)
    → length out < 2
    → contains (1 + s % 2) out ≡ true
    → repeats_of out (s + 1) < repeats_of out s
repeats_of-lt [] s h e = ground arith
repeats_of-lt (a ∷ []) s h e = ground arith
repeats_of-lt (a ∷ b ∷ out) s h e = omega arith

-- It does not repeat an account for ever.
pub counting-IsVaried : IsVaried counting 2
counting-IsVaried = record { repeats = repeats_of; falls = repeats_of-lt }
