-- ===== src/Wal/Scan/Local.antt =====
-- A round of `ScanLog` depends on no byte behind the record that it accepts.
use iron_ledger.Common.{ℕ, ◌+◌, ◌≤◌, ◌<◌, ◌≡◌, Bool, List, byte_at, drop, arith}
use iron_ledger.Device.{SimDevice, read_at, size}
use iron_ledger.Device.Write.{read_at_agree}
use iron_ledger.Wal.Codec.{get_u32}
use iron_ledger.Wal.Record.{header_size}
use iron_ledger.Wal.Scan.{Visitor, accept, scan_payload, scan_header, scan_round}
use iron_ledger.Wal.Scan.Run.{round_accept, Runs, here, step, Runs-le}

-- Both devices hold `n` bytes, and the same.
pub record Agree (d e : SimDevice) (n : ℕ) : Type 0 where
  pub left : n ≤ size d
  pub right : n ≤ size e
  pub bytes : (i : ℕ) → i < n → byte_at d.volatile i ≡ byte_at e.volatile i

pub Agree-below : {d e : SimDevice} {n : ℕ} (m : ℕ) → m ≤ n → Agree d e n → Agree d e m
Agree-below m h a = record {
  left = omega (arith, a.left);
  right = omega (arith, a.right);
  bytes = λ i k. a.bytes i (omega arith);
}

pub read_Agree :
    (d e : SimDevice) (off n : ℕ) → Agree d e (off + n) → read_at off n d ≡ read_at off n e
read_Agree d e off n a = read_at_agree off n d e a.left a.right a.bytes

module _ {S : Type 0} (verify_crc : Bool) (visitor : Visitor S) (d e : SimDevice) where
  payload_local :
      (off len : ℕ) (hdr : List ℕ) (s : S)
      → Agree d e (off + 24 + len)
      → scan_payload e verify_crc visitor off hdr len s
        ≡ scan_payload d verify_crc visitor off hdr len s
  unfolding scan_payload
  payload_local off len hdr s a = rw (read_Agree d e (off + 24) len a)

  round_local :
      (off next : ℕ) (s t : S)
      → Agree d e next
      → scan_round d verify_crc visitor off s ≡ accept next t
      → scan_round e verify_crc visitor off s ≡ accept next t
  unfolding scan_round scan_header
  round_local off next s t a h =
      let inside = round_accept d verify_crc visitor off next s t h in
      let hdr : List ℕ = read_at off header_size d in
      let head : read_at off header_size d ≡ read_at off header_size e =
        read_Agree d e off 24 (Agree-below (off + 24) inside.0 a) in
      rw
        (
          ← head,
          payload_local off (get_u32 (drop 20 hdr)) hdr s
              (Agree-below (off + 24 + get_u32 (drop 20 hdr)) (omega (arith, inside.2)) a),
        )
        h

  -- Where two devices have the same bytes up to the end of a run of accepted rounds, the same
  -- rounds are accepted on both, with the same states.
  pub Runs-local :
      {off' n' : ℕ} {s' : S} {off n : ℕ} {s : S}
      → Agree d e off'
      → Runs d verify_crc visitor off' n' s' off n s
      → Runs e verify_crc visitor off' n' s' off n s
  Runs-local a here = here
  Runs-local a (step {off} {next} {s} {t} h r) =
      step (round_local off next s t (Agree-below next (Runs-le d verify_crc visitor r).0 a) h)
        (Runs-local a r)
