-- ===== src/Kill/DriverExit.antt =====
-- The exit code of tools/kill_driver.cpp on any command line.
use Prim.Native.String.{String}
use iron_ledger.Common.{ℕ, ◌≡◌, ◌⊎◌, true, false, List}
use iron_ledger.Conversions.{Conversions}
use iron_ledger.Kill.Driver.{
  DriverParams, Millis, driver_params, driver_exits, default_params, read_params, Host,
  driver_modes, worker_path, csv_refused,
}
use iron_ledger.Kill.DriverLoops.{RanAll, FailedOne}

module _ {F : Type 0} (c : Conversions) (d : Millis F) (h : Host) where
  -- The worker cannot be executed, or the CSV file cannot be opened.
  abbrev pub IsHindered : DriverParams F → Type 0
  IsHindered p =
      (h.executable (worker_path p.worker h.self) ≡ false) ⊎ (csv_refused h.appends p.csv ≡ true)

  -- How `main` ends on arguments that it reads, with an exit code.
  abbrev pub DriveEnd : DriverParams F → ℕ → Type 0
  DriveEnd p exit =
      ((exit ≡ 0) × RanAll c h p driver_modes) ⊎ ((exit ≡ 2) × (IsHindered p ⊎ FailedOne c h p))

  -- How it ends on any arguments: with an exit code of the loop over them, or behind it.
  abbrev pub MainEnd : List String → ℕ → Type 0
  MainEnd args exit =
      ((read_params c d args (default_params c d) ≡ driver_exits exit) × ((exit ≡ 0) ⊎ (exit ≡ 2)))
      ⊎ ((p : DriverParams F) × (read_params c d args (default_params c d) ≡ driver_params p)
          × DriveEnd p exit)
