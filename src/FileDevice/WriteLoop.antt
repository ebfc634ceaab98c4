-- ===== src/FileDevice/WriteLoop.antt =====
-- However the kernel cuts and interrupts the writes, `WriteAt` of a file leaves the bytes that
-- `WriteAt` of the simulated device leaves.
use iron_ledger.Common.{
  ℕ, zero, suc, ◌+◌, ◌-◌, ◌≤◌, ◌<◌, ◌≡◌, refl, sym, ◌∙◌, ap, subst, List, [], ◌∷◌, length, take,
  drop, byte_at, arith, byte_at_ext, length-take, length-drop, byte_at-take, byte_at-drop,
}
use iron_ledger.Device.{from_image, write_at}
use iron_ledger.Device.Write.{length-write_at, byte_at-write_at}
use iron_ledger.FileDevice.{
  Answer, count, interrupted, failed, Kernel, File, End, returned, threw, out_of_fuel, Round, next,
  stop, answered, write_loop, file_write_at, resized,
}

-- The bytes of a file after `bs` are put at `off`, as the simulated device puts them.
abbrev pub put_bytes : ℕ → List ℕ → List ℕ → List ℕ
put_bytes off bs c = (write_at off bs (from_image c)).volatile

put_drop :
    (pos w i : ℕ) (bs : List ℕ)
    → pos + w ≤ i
    → byte_at bs (w + (i - (pos + w))) ≡ byte_at bs (i - pos)
put_drop pos w i bs h = ap (byte_at bs) (omega arith)

-- What is put in two pieces is put.
put_twice :
    (pos w : ℕ) (bs c : List ℕ)
    → w ≤ length bs
    → put_bytes (pos + w) (drop w bs) (put_bytes pos (take w bs) c) ≡ put_bytes pos bs c
put_twice pos w bs c h =
    let first = put_bytes pos (take w bs) c in
    byte_at_ext (put_bytes (pos + w) (drop w bs) first) (put_bytes pos bs c)
      (ground (
        arith,
        length-write_at (pos + w) (drop w bs) (from_image first),
        length-write_at pos (take w bs) (from_image c),
        length-write_at pos bs (from_image c),
        length-take w bs,
        length-drop w bs,
      ))
      (λ i _. ground (
        arith,
        byte_at-write_at (pos + w) (drop w bs) (from_image first) i,
        byte_at-write_at pos (take w bs) (from_image c) i,
        byte_at-write_at pos bs (from_image c) i,
        length-take w bs,
        length-drop w bs,
        byte_at-take w bs (i - pos),
        byte_at-drop w bs (i - (pos + w)),
        put_drop pos w i bs,
      ))

-- pwrite(2): a call that returns a count has put so many of the first bytes; one that fails has put
-- none; and a call is interrupted finitely often only, by `patience`.
pub record WritesBytes {F : Type 0} (k : Kernel F) : Type 0 where
  pub contents : F → List ℕ
  pub patience : F → ℕ
  pub counted :
      (f f' : F) (n off : ℕ) (bs : List ℕ)
      → k.pwrite f off bs ≡ (count n, f')
      → (n ≤ length bs)
        × (contents f' ≡ put_bytes off (take n bs) (contents f))
        × (patience f' ≤ patience f)
  pub was_interrupted :
      (f f' : F) (off : ℕ) (bs : List ℕ)
      → k.pwrite f off bs ≡ (interrupted, f')
      → (contents f' ≡ contents f) × (patience f' < patience f)
  pub has_failed :
      (f f' : F) (off : ℕ) (bs : List ℕ)
      → k.pwrite f off bs ≡ (failed, f')
      → contents f' ≡ contents f

-- What is put in two pieces and then broken off is a beginning of it.
put_pieces :
    (pos w m : ℕ) (bs c : List ℕ)
    → w ≤ length bs
    → put_bytes (pos + w) (take m (drop w bs)) (put_bytes pos (take w bs) c)
      ≡ put_bytes pos (take (w + m) bs) c
put_pieces pos w m bs c h =
    let first = put_bytes pos (take w bs) c in
    byte_at_ext (put_bytes (pos + w) (take m (drop w bs)) first) (put_bytes pos (take (w + m) bs) c)
      (ground (
        arith,
        length-write_at (pos + w) (take m (drop w bs)) (from_image first),
        length-write_at pos (take w bs) (from_image c),
        length-write_at pos (take (w + m) bs) (from_image c),
        length-take w bs,
        length-take m (drop w bs),
        length-take (w + m) bs,
        length-drop w bs,
      ))
      (λ i _. ground (
        arith,
        byte_at-write_at (pos + w) (take m (drop w bs)) (from_image first) i,
        byte_at-write_at pos (take w bs) (from_image c) i,
        byte_at-write_at pos (take (w + m) bs) (from_image c) i,
        length-take w bs,
        length-take m (drop w bs),
        length-take (w + m) bs,
        length-drop w bs,
        byte_at-take w bs (i - pos),
        byte_at-take (w + m) bs (i - pos),
        byte_at-take m (drop w bs) (i - (pos + w)),
        byte_at-drop w bs (i - (pos + w)),
        put_drop pos w i bs,
      ))

put_nothing : (pos : ℕ) (c : List ℕ) → put_bytes pos [] c ≡ c
unfolding write_at
put_nothing pos c = refl

module _ {F : Type 0} (k : Kernel F) (law : WritesBytes k) where
  -- The bytes are all there if the loop returns; if it throws, a beginning of them is.
  abbrev pub IsWritten : F → ℕ → List ℕ → End F → Type 0
  IsWritten f pos bs (returned f') = law.contents f' ≡ put_bytes pos bs (law.contents f)
  IsWritten f pos bs (threw f') =
      (n : ℕ) × (n ≤ length bs) × (law.contents f' ≡ put_bytes pos (take n bs) (law.contents f))
  IsWritten f pos bs out_of_fuel = ⊥

  continue-IsWritten :
      (f f' : F) (pos n : ℕ) (bs : List ℕ) (e : End F)
      → n ≤ length bs
      → law.contents f' ≡ put_bytes pos (take n bs) (law.contents f)
      → IsWritten f' (pos + n) (drop n bs) e
      → IsWritten f pos bs e
  continue-IsWritten f f' pos n bs (returned g) h c w =
      w ∙ ap (put_bytes (pos + n) (drop n bs)) c ∙ put_twice pos n bs (law.contents f) h
  continue-IsWritten f f' pos n bs (threw g) h c (m, le, w) = (
    n + m,
    omega (arith, length-drop n bs),
    w ∙ ap (put_bytes (pos + n) (take m (drop n bs))) c ∙ put_pieces pos n m bs (law.contents f) h,
  )
  continue-IsWritten f f' pos n bs out_of_fuel h c w = elim w [ ]

  retried :
      (f f' : F) (pos : ℕ) (bs : List ℕ) (e : End F)
      → law.contents f' ≡ law.contents f
      → IsWritten f' pos bs e
      → IsWritten f pos bs e
  retried f f' pos bs (returned g) c w = w ∙ ap (put_bytes pos bs) c
  retried f f' pos bs (threw g) c (m, le, w) = (m, le, w ∙ ap (put_bytes pos (take m bs)) c)
  retried f f' pos bs out_of_fuel c w = elim w [ ]

  nothing_more :
      (f f' : F) (pos : ℕ) (bs : List ℕ)
      → law.contents f' ≡ law.contents f
      → IsWritten f pos bs (threw f')
  nothing_more f f' pos bs c = (0, omega arith, c ∙ sym (put_nothing pos (law.contents f)))

  -- The rest of the loop after a round.
  abbrev goes_on : ℕ → Round F → End F
  goes_on fuel r = elim r [
    | next f' pos' rest ↦ write_loop k fuel f' pos' rest
    | stop f' ↦ threw f'
  ]

  loop_round :
      (fuel : ℕ) (f : F) (pos b : ℕ) (bs : List ℕ) (r : Answer × F)
      → k.pwrite f pos (b ∷ bs) ≡ r
      → write_loop k (suc fuel) f pos (b ∷ bs) ≡ goes_on fuel (answered k r pos (b ∷ bs))
  unfolding write_loop
  loop_round fuel f pos b bs r e =
      ap (λ (a : Answer × F). goes_on fuel (answered k a pos (b ∷ bs))) e

  round-IsWritten :
      (fuel : ℕ)
      → ((g : F) (pos : ℕ) (bs : List ℕ)
          → length bs + law.patience g ≤ fuel
          → IsWritten g pos bs (write_loop k fuel g pos bs))
      → (f : F) (pos b : ℕ) (bs : List ℕ) (r : Answer × F) → k.pwrite f pos (b ∷ bs) ≡ r
      → length (b ∷ bs) + law.patience f ≤ suc fuel
      → IsWritten f pos (b ∷ bs) (goes_on fuel (answered k r pos (b ∷ bs)))
  round-IsWritten fuel more f pos b bs (count zero, g) e h =
      nothing_more f g pos (b ∷ bs)
        ((law.counted f g zero pos (b ∷ bs) e).1 ∙ put_nothing pos (law.contents f))
  round-IsWritten fuel more f pos b bs (count (suc n), g) e h =
      let c = law.counted f g (suc n) pos (b ∷ bs) e in
      continue-IsWritten f g pos (suc n) (b ∷ bs) (write_loop k fuel g (pos + suc n) (drop n bs))
        c.0 c.1 (more g (pos + suc n) (drop n bs) (omega (arith, length-drop n bs)))
  round-IsWritten fuel more f pos b bs (interrupted, g) e h =
      let c = law.was_interrupted f g pos (b ∷ bs) e in
      retried f g pos (b ∷ bs) (write_loop k fuel g pos (b ∷ bs)) c.0
        (more g pos (b ∷ bs) (omega arith))
  round-IsWritten fuel more f pos b bs (failed, g) e h =
      nothing_more f g pos (b ∷ bs) (law.has_failed f g pos (b ∷ bs) e)

  -- With a round for each byte and each interrupt the loop does not run out of them.
  pub write_loop-IsWritten :
      (fuel : ℕ) (f : F) (pos : ℕ) (bs : List ℕ)
      → length bs + law.patience f ≤ fuel
      → IsWritten f pos bs (write_loop k fuel f pos bs)
  write_loop-IsWritten fuel f pos [] h = unfold write_loop in sym (put_nothing pos (law.contents f))
  write_loop-IsWritten zero f pos (b ∷ bs) h = absurd (omega arith)
  write_loop-IsWritten (suc fuel) f pos (b ∷ bs) h =
      subst (IsWritten f pos (b ∷ bs))
        (sym (loop_round fuel f pos b bs (k.pwrite f pos (b ∷ bs)) refl))
        (round-IsWritten fuel (write_loop-IsWritten fuel) f pos b bs (k.pwrite f pos (b ∷ bs)) refl
          h)

  -- What `WriteAt` leaves when it returns, and when it throws.
  abbrev pub IsFileWritten : File F → ℕ → List ℕ → End (File F) → Type 0
  IsFileWritten d off buf (returned d') =
      (law.contents d'.fd ≡ put_bytes off buf (law.contents d.fd))
      × (d'.size ≡ length (law.contents d'.fd))
  IsFileWritten d off buf (threw d') =
      (n : ℕ) × (n ≤ length buf)
      × (law.contents d'.fd ≡ put_bytes off (take n buf) (law.contents d.fd))
  IsFileWritten d off buf out_of_fuel = ⊥

  resized-IsFileWritten :
      (d : File F) (off : ℕ) (buf : List ℕ) (e : End F)
      → 0 < length buf
      → d.size ≡ length (law.contents d.fd)
      → IsWritten d.fd off buf e
      → IsFileWritten d off buf (resized k d (off + length buf) e)
  resized-IsFileWritten d off buf (returned f) some s w =
      (w, ground (arith, ap length w, length-write_at off buf (from_image (law.contents d.fd))))
  resized-IsFileWritten d off buf (threw f) some s w = w
  resized-IsFileWritten d off buf out_of_fuel some s w = elim w [ ]

  -- For a kernel whose pwrite puts as many of the first bytes as it answers, and none when it
  -- fails or is interrupted, which it is finitely often, and with a round for each byte and each
  -- interrupt: FileDevice::WriteAt of at least one byte, on a file whose size_ is its length,
  -- either returns, the file then holding what SimDevice::WriteAt leaves and size_ being its
  -- length, or throws, a beginning of the buffer then being written.
  pub file_write_at-IsFileWritten :
      (fuel off : ℕ) (buf : List ℕ) (d : File F)
      → length buf + law.patience d.fd ≤ fuel
      → 0 < length buf
      → d.size ≡ length (law.contents d.fd)
      → IsFileWritten d off buf (file_write_at k fuel off buf d)
  unfolding file_write_at
  file_write_at-IsFileWritten fuel off buf d h some s =
      resized-IsFileWritten d off buf (write_loop k fuel d.fd off buf) some s
        (write_loop-IsWritten fuel d.fd off buf h)
