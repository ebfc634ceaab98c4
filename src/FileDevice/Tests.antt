-- ===== src/FileDevice/Tests.antt =====
-- A kernel that is interrupted a number of times and then writes byte by byte.
use iron_ledger.Common.{
  ℕ, zero, suc, ◌≤◌, ◌<◌, ◌≡◌, refl, subst, true, List, [], ◌∷◌, length, take, drop, min, some,
  if◌then◌else◌, false, length-take, length-drop, ap, arith,
}
use iron_ledger.Device.{write_at}
use iron_ledger.FileDevice.{
  Answer, count, interrupted, failed, PreadAnswer, got, read_interrupted, read_failed, Kernel, File,
  file_write_at, file_read_at, opened, file_open,
}
use iron_ledger.FileDevice.ReadLoop.{chunk, ReadsBytes, IsFileRead, file_read_at-IsFileRead}
use iron_ledger.FileDevice.WriteLoop.{
  put_bytes, WritesBytes, IsFileWritten, file_write_at-IsFileWritten,
}

abbrev Disk : Type 0
Disk = List ℕ × ℕ

abbrev slow_pwrite : Disk → ℕ → List ℕ → Answer × Disk
slow_pwrite (c, suc m) off bs = (interrupted, (c, m))
slow_pwrite (c, zero) off [] = (count 0, (c, 0))
slow_pwrite (c, zero) off (b ∷ bs) = (count 1, (put_bytes off (b ∷ []) c, 0))

abbrev slow_pread : Disk → ℕ → ℕ → PreadAnswer × Disk
slow_pread (c, suc m) off n = (read_interrupted, (c, m))
slow_pread (c, zero) off n = (got (take (min 1 n) (drop off c)), (c, 0))

abbrev slow_kernel : Kernel Disk
slow_kernel = record {
  open_path = λ truncate f. (true, if truncate then ([], f.1) else f);
  fstat = λ f. (some (length f.0), f);
  close = λ f. f;
  pread = slow_pread;
  pwrite = slow_pwrite;
  fsync = λ f. (true, f);
}

abbrev IsCounted : Disk → ℕ → List ℕ → Answer × Disk → Type 0
IsCounted f off bs (count n, f') =
    (n ≤ length bs) × (f'.0 ≡ put_bytes off (take n bs) f.0) × (f'.1 ≤ f.1)
IsCounted f off bs (interrupted, f') = (f'.0 ≡ f.0) × (f'.1 < f.1)
IsCounted f off bs (failed, f') = f'.0 ≡ f.0

slow_pwrite-IsCounted :
    (f : Disk) (off : ℕ) (bs : List ℕ) → IsCounted f off bs (slow_pwrite f off bs)
unfolding write_at
slow_pwrite-IsCounted (c, suc m) off bs = (refl, omega arith)
slow_pwrite-IsCounted (c, zero) off [] = (omega arith, refl, omega arith)
slow_pwrite-IsCounted (c, zero) off (b ∷ bs) = (omega arith, refl, omega arith)

slow_writes : WritesBytes slow_kernel
slow_writes = record {
  contents = λ f. f.0;
  patience = λ f. f.1;
  counted = λ f f' n off bs e. subst (IsCounted f off bs) e (slow_pwrite-IsCounted f off bs);
  was_interrupted = λ f f' off bs e. subst (IsCounted f off bs) e (slow_pwrite-IsCounted f off bs);
  has_failed = λ f f' off bs e. subst (IsCounted f off bs) e (slow_pwrite-IsCounted f off bs);
}

abbrev disk_file : File Disk
disk_file = record { fd = (1 ∷ 2 ∷ [], 3); size = 2; fsync_count = 0 }

file_write_at-IsFileWritten_example :
    IsFileWritten slow_kernel slow_writes disk_file 1
      (7 ∷ 8 ∷ [])
      (file_write_at slow_kernel 5 1 (7 ∷ 8 ∷ []) disk_file)
unfolding slow_writes
file_write_at-IsFileWritten_example =
    file_write_at-IsFileWritten slow_kernel slow_writes 5 1 (7 ∷ 8 ∷ []) disk_file (omega arith)
      (omega arith) refl

abbrev IsSlowRead : Disk → ℕ → ℕ → PreadAnswer × Disk → Type 0
IsSlowRead f off n (got bs, f') =
    (f'.0 ≡ f.0)
    × (length bs ≤ n)
    × (bs ≡ chunk off (length bs) f.0)
    × (f'.1 ≤ f.1)
    × (1 ≤ n → bs ≡ [] → length f.0 ≤ off)
IsSlowRead f off n (read_interrupted, f') = (f'.0 ≡ f.0) × (f'.1 < f.1)
IsSlowRead f off n (read_failed, f') = f'.0 ≡ f.0

take-length : (n : ℕ) (xs : List ℕ) → take n xs ≡ take (length (take n xs)) xs
take-length zero xs = refl
take-length (suc n) [] = refl
take-length (suc n) (x ∷ xs) = ap (◌∷◌ x) (take-length n xs)

slow_pread-IsSlowRead : (f : Disk) (off n : ℕ) → IsSlowRead f off n (slow_pread f off n)
slow_pread-IsSlowRead (c, suc m) off n = (refl, omega arith)
slow_pread-IsSlowRead (c, zero) off n = (
  refl,
  omega (arith, length-take (min 1 n) (drop off c)),
  take-length (min 1 n) (drop off c),
  omega arith,
  λ some e. omega (arith, ap length e, length-take (min 1 n) (drop off c), length-drop off c),
)

file_opened : file_open slow_kernel false (1 ∷ 2 ∷ [], 3) ≡ opened disk_file
unfolding file_open
file_opened = refl

slow_read_keeps :
    (f f' : Disk) (off n : ℕ) (a : PreadAnswer) → IsSlowRead f off n (a, f') → f'.0 ≡ f.0
slow_read_keeps f f' off n (got bs) h = h.0
slow_read_keeps f f' off n read_interrupted h = h.0
slow_read_keeps f f' off n read_failed h = h

slow_reads : ReadsBytes slow_kernel
slow_reads = record {
  contents = λ f. f.0;
  patience = λ f. f.1;
  keeps = λ f f' off n a e.
      slow_read_keeps f f' off n a (subst (IsSlowRead f off n) e (slow_pread-IsSlowRead f off n));
  counted = λ f f' off n bs e.
      let h = subst (IsSlowRead f off n) e (slow_pread-IsSlowRead f off n) in (h.1, h.2, h.3);
  ends = λ f f' off n e.
      (subst (IsSlowRead f off (suc n)) e (slow_pread-IsSlowRead f off (suc n))).4 (omega arith)
        refl;
  was_interrupted =
      λ f f' off n e. (subst (IsSlowRead f off n) e (slow_pread-IsSlowRead f off n)).1;
}

file_read_at-IsFileRead_example :
    IsFileRead slow_kernel slow_reads disk_file 1 2 (file_read_at slow_kernel 5 1 2 disk_file)
unfolding slow_reads
file_read_at-IsFileRead_example =
    file_read_at-IsFileRead slow_kernel slow_reads 5 1 2 disk_file (omega arith)
