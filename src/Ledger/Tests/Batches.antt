-- ===== src/Ledger/Tests/Batches.antt =====
-- The theorems on completeness of validation and on the budget of syncs, on a funding and a payment.
use mathlib.Core.Logic.{◌↔◌}
use iron_ledger.Common.{◌≡◌, true, false, [], ◌∷◌, arith}
use iron_ledger.Ledger.Modes.{group_commit, LedgerOptions, ok}
use iron_ledger.Ledger.Book.{empty_book, validate}
use iron_ledger.Ledger.Book.Deltas.{IsAcceptable}
use iron_ledger.Ledger.Book.Complete.{validate_complete}
use iron_ledger.Ledger.Book.Sound.{empty_book-IsSound}
use iron_ledger.Ledger.Submit.{set_ack_sink, perform_all}
use iron_ledger.Ledger.Submit.Life.{reopened}
use iron_ledger.Ledger.Submit.Batches.{IsBatched}
use iron_ledger.Ledger.Submit.Budget.{submits, submits-syncs}
use iron_ledger.Device.{from_image}
use iron_ledger.Ledger.Recovery.{recover, empty_report}
use iron_ledger.Ledger.Submit.Reopen.{committed}
use iron_ledger.Ledger.Bank.{new_bank, BankRun, bank_of}
use iron_ledger.Ledger.Bank.Refines.{recover-BankRun}
use iron_ledger.Ledger.Tests.{fund, pay, fund-IsTyped, pay-IsTyped}

validate_complete_example : (validate fund empty_book ≡ ok) ↔ IsAcceptable fund empty_book
validate_complete_example =
    validate_complete fund empty_book empty_book-IsSound (omega arith, omega arith)

-- Batches of two.
abbrev pairs : LedgerOptions
pairs = record { mode = group_commit; verify_crc = true; group_size = 2 }

submits-syncs_example :
    IsBatched group_commit
      (perform_all (submits (fund ∷ pay ∷ fund ∷ [])) (set_ack_sink (reopened [] pairs [])))
submits-syncs_example = submits-syncs pairs (fund ∷ pay ∷ fund ∷ []) (omega arith) (omega arith)

recover-BankRun_example : BankRun (fund ∷ pay ∷ fund ∷ []) new_bank (
    bank_of
      (recover
        (from_image (committed pairs (submits (fund ∷ pay ∷ fund ∷ []))).world.dev.volatile)
        false
        empty_report).0.0)
recover-BankRun_example =
    recover-BankRun pairs (fund ∷ pay ∷ fund ∷ []) false
      (
        fund-IsTyped,
        (omega arith, omega arith),
        (pay-IsTyped, (omega arith, omega arith), (fund-IsTyped, (omega arith, omega arith), tt)),
      )
      (omega arith)
