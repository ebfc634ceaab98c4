-- ===== src/Ledger/Recovery.antt =====
-- `RecoveryReport` and the replay of the log: the visitor in the constructor of `Ledger`.
pub mod Replay
use iron_ledger.Common.{
  ℕ, ◌+◌, Bool, true, false, not, ◌||◌, Option, none, some, List, [], ◌∷◌, ◌==◌, if◌then◌else◌,
}
use iron_ledger.Device.{SimDevice}
use iron_ledger.Wal.Scan.{ScanStop, ScanResult, clean_end, Visitor, scan_log}
use iron_ledger.Ledger.Modes.{
  SubmitStatus, ok, duplicate, bad_posting_count, unbalanced, insufficient_funds,
}
use iron_ledger.Ledger.Transfer.{Transfer, decode_transfer}
use iron_ledger.Ledger.Book.{Book, empty_book, validate, apply}

-- kRecTransfer
abbrev pub rec_transfer : ℕ
rec_transfer = 1

pub record RecoveryReport : Type 0 where
  pub records_applied : ℕ
  pub valid_bytes : ℕ
  pub stop : ScanStop
  pub payload_parse_error : ℕ
  pub duplicate_key_in_log : ℕ
  pub unbalanced_in_log : ℕ
  pub negative_balance_in_log : ℕ

-- RecoveryReport{}
abbrev pub empty_report : RecoveryReport
empty_report = record {
  records_applied = 0;
  valid_bytes = 0;
  stop = clean_end;
  payload_parse_error = 0;
  duplicate_key_in_log = 0;
  unbalanced_in_log = 0;
  negative_balance_in_log = 0;
}

-- corruption_admitted
unfoldable pub corruption_admitted : RecoveryReport → Bool
corruption_admitted r =
    not (r.payload_parse_error == 0)
    || not (r.duplicate_key_in_log == 0)
    || not (r.unbalanced_in_log == 0)
    || not (r.negative_balance_in_log == 0)

abbrev pub Replay : Type 0
Replay = Book × RecoveryReport

-- The switch on the verdict of `Validate`, with what follows it.
unfoldable pub replay_status : SubmitStatus → Transfer → Book → RecoveryReport → Replay × Bool
replay_status ok t b r = ((apply t b, record r { records_applied = r.records_applied + 1 }), true)
replay_status duplicate t b r =
    ((b, record r { duplicate_key_in_log = r.duplicate_key_in_log + 1 }), false)
replay_status bad_posting_count t b r =
    ((b, record r { unbalanced_in_log = r.unbalanced_in_log + 1 }), false)
replay_status unbalanced t b r =
    ((b, record r { unbalanced_in_log = r.unbalanced_in_log + 1 }), false)
replay_status insufficient_funds t b r =
    ((b, record r { negative_balance_in_log = r.negative_balance_in_log + 1 }), false)

-- The visitor from the decoded payload on; `none` is a payload that is no transfer.
unfoldable pub replay_decoded : Option Transfer → Book → RecoveryReport → Replay × Bool
replay_decoded none b r = ((b, record r { payload_parse_error = r.payload_parse_error + 1 }), false)
replay_decoded (some t) b r = replay_status (validate t b) t b r

-- The visitor.
unfoldable pub replay_record : Visitor Replay
replay_record (b, r) lsn type payload =
    if not (type == rec_transfer)
    then ((b, record r { payload_parse_error = r.payload_parse_error + 1 }), false)
    else replay_decoded (decode_transfer payload) b r

-- The scan of the constructor: the state that the log determines, the report, and the offset at
-- which the writer goes on.
unfoldable pub recover : SimDevice → Bool → RecoveryReport → Replay × ℕ
recover d verify_crc report =
    let (sr, (b, r)) = scan_log d verify_crc replay_record (empty_book, report) in
    ((b, record r { stop = sr.stop; valid_bytes = sr.valid_bytes }), sr.valid_bytes)
