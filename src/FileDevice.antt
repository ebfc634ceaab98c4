-- ===== src/FileDevice.antt =====
-- src/device.cpp, `FileDevice`: opening, the loops over pwrite and pread, and fsync. The kernel is a
-- parameter; its state `F` is that of the open file and of all that may interrupt a call.
pub mod WriteLoop
pub mod ReadLoop
mod Tests
use iron_ledger.Common.{
  ℕ, zero, suc, ◌+◌, ◌-◌, max, Bool, true, false, Option, none, some, List, [], ◌∷◌, ◌++◌, ◌==◌,
  if◌then◌else◌, length, drop,
}

-- What pwrite answers: a count of bytes, EINTR, or another error.
pub data Answer : Type 0 where
  count : ℕ → Answer
  interrupted failed : Answer

-- What pread answers: the bytes that it has put into the buffer, EINTR, or another error.
pub data PreadAnswer : Type 0 where
  got : List ℕ → PreadAnswer
  read_interrupted read_failed : PreadAnswer

pub record Kernel (F : Type 0) : Type 0 where
  -- whether open, with O_TRUNC or without, returns a descriptor
  pub open_path : Bool → F → Bool × F
  -- st_size if fstat returns 0
  pub fstat : F → Option ℕ × F
  pub close : F → F
  pub pread : F → ℕ → ℕ → PreadAnswer × F
  pub pwrite : F → ℕ → List ℕ → Answer × F
  -- whether fsync returns 0
  pub fsync : F → Bool × F

-- The fields of `FileDevice` but for the path.
pub record File (F : Type 0) : Type 0 where
  pub fd : F
  pub size : ℕ
  pub fsync_count : ℕ

-- How a loop ends.
pub data End (A : Type 0) : Type 0 where
  returned : A → End A
  threw : A → End A
  out_of_fuel : End A

-- A round of the loop in `WriteAt` goes on or ends.
pub data Round (F : Type 0) : Type 0 where
  next : F → ℕ → List ℕ → Round F
  stop : F → Round F

-- A round of the loop in `ReadAt` goes on behind the bytes that it has read, or ends.
pub data ReadRound (F : Type 0) : Type 0 where
  more : List ℕ → F → ℕ → ℕ → ReadRound F
  at_end broken : F → ReadRound F

-- How the constructor ends: it throws where there is no device yet.
pub data Opening (F : Type 0) : Type 0 where
  opened : File F → Opening F
  not_opened : F → Opening F

module _ {F : Type 0} (k : Kernel F) where
  abbrev pub sized : Option ℕ × F → Opening F
  sized (some n, f) = opened (record { fd = f; size = n; fsync_count = 0 })
  sized (none, f) = not_opened (k.close f)

  abbrev pub descriptor : Bool × F → Opening F
  descriptor (true, f) = sized (k.fstat f)
  descriptor (false, f) = not_opened f

  -- The constructor.
  unfoldable pub file_open : Bool → F → Opening F
  file_open truncate f = descriptor (k.open_path truncate f)

  -- The destructor: the descriptor of a device that was constructed is open.
  abbrev pub file_close : File F → F
  file_close d = k.close d.fd

  -- From the answer on: `pos` is off + done, and `rest` what is still to be written.
  -- A count of zero is no progress, and throws.
  abbrev pub answered : Answer × F → ℕ → List ℕ → Round F
  answered (count zero, f) pos rest = stop f
  answered (count (suc n), f) pos rest = next f (pos + suc n) (drop (suc n) rest)
  answered (interrupted, f) pos rest = next f pos rest
  answered (failed, f) pos rest = stop f

  unfoldable pub write_loop : ℕ → F → ℕ → List ℕ → End F
  write_loop fuel f pos [] = returned f
  write_loop zero f pos (b ∷ bs) = out_of_fuel
  write_loop (suc fuel) f pos (b ∷ bs) = elim (answered (k.pwrite f pos (b ∷ bs)) pos (b ∷ bs)) [
    | next f' pos' rest ↦ write_loop fuel f' pos' rest
    | stop f' ↦ threw f'
  ]

  abbrev pub resized : File F → ℕ → End F → End (File F)
  resized d need (returned f) = returned (record d { fd = f; size = max d.size need })
  resized d need (threw f) = threw (record d { fd = f })
  resized d need out_of_fuel = out_of_fuel

  -- WriteAt
  unfoldable pub file_write_at : ℕ → ℕ → List ℕ → File F → End (File F)
  file_write_at fuel off buf d = resized d (off + length buf) (write_loop fuel d.fd off buf)

  abbrev pub synced : File F → Bool × F → End (File F)
  synced d (true, f) = returned (record d { fd = f; fsync_count = d.fsync_count + 1 })
  synced d (false, f) = threw (record d { fd = f })

  -- Sync: a failed fsync is never tried again.
  unfoldable pub file_sync : File F → End (File F)
  file_sync d = synced d (k.fsync d.fd)

  -- What a round of the loop in `ReadAt` puts in front of what the rounds behind it read.
  abbrev pub prepend : List ℕ → End (List ℕ × F) → End (List ℕ × F)
  prepend bs (returned (rest, f)) = returned (bs ++ rest, f)
  prepend bs (threw (rest, f)) = threw (bs ++ rest, f)
  prepend bs out_of_fuel = out_of_fuel

  -- From the answer on: `pos` is off + done, and `want` is n - done. A count of zero is the end of
  -- the file.
  abbrev pub read_answered : PreadAnswer × F → ℕ → ℕ → ReadRound F
  read_answered (got [], f) pos want = at_end f
  read_answered (got (b ∷ bs), f) pos want =
      more (b ∷ bs) f (pos + length (b ∷ bs)) (want - length (b ∷ bs))
  read_answered (read_interrupted, f) pos want = more [] f pos want
  read_answered (read_failed, f) pos want = broken f

  -- The loop in `ReadAt`.
  unfoldable pub pread_loop : ℕ → F → ℕ → ℕ → End (List ℕ × F)
  pread_loop fuel f pos zero = returned ([], f)
  pread_loop zero f pos (suc want) = out_of_fuel
  pread_loop (suc fuel) f pos (suc want) =
      elim (read_answered (k.pread f pos (suc want)) pos (suc want)) [
        | more bs f' pos' want' ↦ prepend bs (pread_loop fuel f' pos' want')
        | at_end f' ↦ returned ([], f')
        | broken f' ↦ threw ([], f')
      ]

  abbrev pub at_file : File F → End (List ℕ × F) → End (List ℕ × File F)
  at_file d (returned (bs, f)) = returned (bs, record d { fd = f })
  at_file d (threw (bs, f)) = threw (bs, record d { fd = f })
  at_file d out_of_fuel = out_of_fuel

  -- ReadAt, with the bytes that it leaves in the buffer.
  unfoldable pub file_read_at : ℕ → ℕ → ℕ → File F → End (List ℕ × File F)
  file_read_at fuel off n d = at_file d (pread_loop fuel d.fd off n)
