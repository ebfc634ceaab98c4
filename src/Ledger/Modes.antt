-- ===== src/Ledger/Modes.antt =====
-- The durability modes, the options and the status of a submit, with their names.
use Prim.Native.String.{String}
use text.Mathlib.Text.{◌==◌ as str_eq}
use text.Mathlib.TextEquality.{eq_iff}
use iron_ledger.Common.{ℕ, ◌≡◌, refl, Bool, Option, none, some, if◌then◌else◌, arith}

pub data DurabilityMode : Type 0 where
  no_sync lazy_sync sync_every group_commit : DurabilityMode

pub record LedgerOptions : Type 0 where
  pub mode : DurabilityMode
  pub verify_crc : Bool
  pub group_size : ℕ

pub data SubmitStatus : Type 0 where
  ok duplicate bad_posting_count unbalanced insufficient_funds : SubmitStatus

-- DurabilityModeName
pub durability_mode_name : DurabilityMode → String
durability_mode_name no_sync = "no_sync"
durability_mode_name lazy_sync = "lazy_sync"
durability_mode_name sync_every = "sync_every"
durability_mode_name group_commit = "group_commit"

-- ParseDurabilityMode; `none` is the result false. A null pointer is read as the empty text.
pub parse_durability_mode : String → Option DurabilityMode
parse_durability_mode v =
    if str_eq v "no_sync"
    then some no_sync
    else if str_eq v "lazy_sync"
    then some lazy_sync
    else if str_eq v "sync_every"
    then some sync_every
    else if str_eq v "group_commit"
    then some group_commit
    else none

-- SubmitStatusName
pub submit_status_name : SubmitStatus → String
submit_status_name ok = "ok"
submit_status_name duplicate = "duplicate"
submit_status_name bad_posting_count = "bad_posting_count"
submit_status_name unbalanced = "unbalanced"
submit_status_name insufficient_funds = "insufficient_funds"

-- Every mode is read back from its own name, and only from that: a text that is accepted for a
-- mode is the mode's name.
pub parse_durability_mode-name :
    (m : DurabilityMode) (v : String)
    → (parse_durability_mode (durability_mode_name m) ≡ some m)
      × (parse_durability_mode v ≡ some m → v ≡ durability_mode_name m)
unfolding parse_durability_mode durability_mode_name
parse_durability_mode-name no_sync v = (
  refl,
  λ h. ground (
    arith,
    eq_iff v "no_sync",
    eq_iff v "lazy_sync",
    eq_iff v "sync_every",
    eq_iff v "group_commit",
  ),
)
parse_durability_mode-name lazy_sync v = (
  refl,
  λ h. ground (
    arith,
    eq_iff v "no_sync",
    eq_iff v "lazy_sync",
    eq_iff v "sync_every",
    eq_iff v "group_commit",
  ),
)
parse_durability_mode-name sync_every v = (
  refl,
  λ h. ground (
    arith,
    eq_iff v "no_sync",
    eq_iff v "lazy_sync",
    eq_iff v "sync_every",
    eq_iff v "group_commit",
  ),
)
parse_durability_mode-name group_commit v = (
  refl,
  λ h. ground (
    arith,
    eq_iff v "no_sync",
    eq_iff v "lazy_sync",
    eq_iff v "sync_every",
    eq_iff v "group_commit",
  ),
)
