-- ===== src/FileDevice/ReadLoop.antt =====
-- However the kernel cuts and interrupts the reads, `ReadAt` of a file returns the bytes that
-- `ReadAt` of the simulated device returns.
use iron_ledger.Common.{
  ℕ, zero, suc, ◌+◌, ◌-◌, ◌≤◌, ◌<◌, ◌≡◌, refl, sym, ◌∙◌, ap, ap₂, subst, List, [], ◌∷◌, ◌++◌,
  length, take, drop, min, byte_at, arith, byte_at_ext, length-append, length-take, length-drop,
  byte_at-append, byte_at-take, byte_at-drop,
}
use iron_ledger.Device.{from_image, read_at}
use iron_ledger.FileDevice.{
  PreadAnswer, got, read_interrupted, read_failed, Kernel, File, End, returned, threw, out_of_fuel,
  ReadRound, more, at_end, broken, prepend, read_answered, pread_loop, file_read_at, at_file,
}

-- What stands in a file from an offset on.
abbrev pub chunk : ℕ → ℕ → List ℕ → List ℕ
chunk off n c = take n (drop off c)

read_at-chunk : (off n : ℕ) (c : List ℕ) → read_at off n (from_image c) ≡ chunk off n c
unfolding read_at
read_at-chunk off n c =
    byte_at_ext (read_at off n (from_image c)) (chunk off n c)
      (ground (
        arith,
        length-take (min n (length c - off)) (drop off c),
        length-take n (drop off c),
        length-drop off c,
      ))
      (λ i h. ground (
        arith,
        byte_at-take (min n (length c - off)) (drop off c) i,
        byte_at-take n (drop off c) i,
        length-take (min n (length c - off)) (drop off c),
        length-drop off c,
      ))

shifted : (off m i : ℕ) (c : List ℕ) → m ≤ i → byte_at c (off + m + (i - m)) ≡ byte_at c (off + i)
shifted off m i c h = ap (byte_at c) (omega arith)

chunk-append :
    (off m n : ℕ) (c : List ℕ)
    → m ≤ length c - off
    → chunk off m c ++ chunk (off + m) n c ≡ chunk off (m + n) c
chunk-append off m n c h =
    byte_at_ext (chunk off m c ++ chunk (off + m) n c) (chunk off (m + n) c)
      (ground (
        arith,
        length-append (chunk off m c) (chunk (off + m) n c),
        length-take m (drop off c),
        length-take n (drop (off + m) c),
        length-take (m + n) (drop off c),
        length-drop off c,
        length-drop (off + m) c,
      ))
      (λ i _. ground (
        arith,
        byte_at-append (chunk off m c) (chunk (off + m) n c) i,
        length-take m (drop off c),
        length-drop off c,
        byte_at-take m (drop off c) i,
        byte_at-take n (drop (off + m) c) (i - m),
        byte_at-take (m + n) (drop off c) i,
        byte_at-drop off c i,
        byte_at-drop (off + m) c (i - m),
        shifted off m i c,
      ))

-- Two adjacent chunks.
chunk_joined :
    (off n m : ℕ) (bs cs c : List ℕ)
    → bs ≡ chunk off (length bs) c
    → cs ≡ chunk (off + length bs) m c
    → length bs + m ≡ n
    → bs ++ cs ≡ chunk off n c
chunk_joined off n m bs cs c e f s =
    ap₂ (λ (x y : List ℕ). x ++ y) e f
    ∙ chunk-append off (length bs) m c
        (omega (arith, ap length e, length-take (length bs) (drop off c), length-drop off c))
    ∙ ap (λ (j : ℕ). chunk off j c) s

-- pread(2): the bytes are the next ones of the file, one at least unless it ends there, and no more
-- than asked for; no call changes the file; and a call is interrupted finitely often only, by
-- `patience`.
pub record ReadsBytes {F : Type 0} (k : Kernel F) : Type 0 where
  pub contents : F → List ℕ
  pub patience : F → ℕ
  pub keeps :
      (f f' : F) (off n : ℕ) (a : PreadAnswer)
      → k.pread f off n ≡ (a, f')
      → contents f' ≡ contents f
  pub counted :
      (f f' : F) (off n : ℕ) (bs : List ℕ)
      → k.pread f off n ≡ (got bs, f')
      → (length bs ≤ n) × (bs ≡ chunk off (length bs) (contents f)) × (patience f' ≤ patience f)
  pub ends :
      (f f' : F) (off n : ℕ) → k.pread f off (suc n) ≡ (got [], f') → length (contents f) ≤ off
  pub was_interrupted :
      (f f' : F) (off n : ℕ) → k.pread f off n ≡ (read_interrupted, f') → patience f' < patience f

module _ {F : Type 0} (k : Kernel F) (law : ReadsBytes k) where
  -- All bytes are there if the loop returns, a beginning of them if it throws.
  abbrev pub IsRead : F → ℕ → ℕ → End (List ℕ × F) → Type 0
  IsRead f pos want (returned (bs, f')) =
      (bs ≡ chunk pos want (law.contents f)) × (law.contents f' ≡ law.contents f)
  IsRead f pos want (threw (bs, f')) =
      (length bs ≤ want)
      × (bs ≡ chunk pos (length bs) (law.contents f))
      × (law.contents f' ≡ law.contents f)
  IsRead f pos want out_of_fuel = ⊥

  prepend-IsRead :
      (f g : F) (pos want : ℕ) (bs : List ℕ) (e : End (List ℕ × F))
      → length bs ≤ want
      → bs ≡ chunk pos (length bs) (law.contents f)
      → law.contents g ≡ law.contents f
      → IsRead g (pos + length bs) (want - length bs) e
      → IsRead f pos want (prepend k bs e)
  prepend-IsRead f g pos want bs (returned (cs, h)) le eq same r = (
    chunk_joined pos want (want - length bs) bs cs (law.contents f) eq
        (r.0 ∙ ap (chunk (pos + length bs) (want - length bs)) same) (omega arith),
    r.1 ∙ same,
  )
  prepend-IsRead f g pos want bs (threw (cs, h)) le eq same r =
      let size = length-append bs cs in
      (
        omega (arith, r.0),
        chunk_joined pos (length (bs ++ cs)) (length cs) bs cs (law.contents f) eq
            (r.1 ∙ ap (chunk (pos + length bs) (length cs)) same) (omega arith),
        r.2 ∙ same,
      )
  prepend-IsRead f g pos want bs out_of_fuel le eq same r = elim r [ ]

  again-IsRead :
      (f g : F) (pos want : ℕ) (e : End (List ℕ × F))
      → law.contents g ≡ law.contents f
      → IsRead g pos want e
      → IsRead f pos want (prepend k [] e)
  again-IsRead f g pos want (returned (cs, h)) same r = (r.0 ∙ ap (chunk pos want) same, r.1 ∙ same)
  again-IsRead f g pos want (threw (cs, h)) same r =
      (r.0, r.1 ∙ ap (chunk pos (length cs)) same, r.2 ∙ same)
  again-IsRead f g pos want out_of_fuel same r = elim r [ ]

  chunk_at_end : (pos n : ℕ) (c : List ℕ) → length c ≤ pos → [] ≡ chunk pos n c
  chunk_at_end pos n c h =
      byte_at_ext [] (chunk pos n c) (omega (arith, length-take n (drop pos c), length-drop pos c))
        (λ i j. absurd (omega arith))

  -- The rest of the loop after a round.
  abbrev reads_on : ℕ → ReadRound F → End (List ℕ × F)
  reads_on fuel r = elim r [
    | more bs f' pos' want' ↦ prepend k bs (pread_loop k fuel f' pos' want')
    | at_end f' ↦ returned ([], f')
    | broken f' ↦ threw ([], f')
  ]

  pread_loop_round :
      (fuel : ℕ) (f : F) (pos want : ℕ) (r : PreadAnswer × F)
      → k.pread f pos (suc want) ≡ r
      → pread_loop k (suc fuel) f pos (suc want) ≡ reads_on fuel (read_answered k r pos (suc want))
  unfolding pread_loop
  pread_loop_round fuel f pos want r e =
      ap (λ (a : PreadAnswer × F). reads_on fuel (read_answered k a pos (suc want))) e

  round-IsRead :
      (fuel : ℕ)
      → ((g : F) (pos want : ℕ)
          → want + law.patience g ≤ fuel
          → IsRead g pos want (pread_loop k fuel g pos want))
      → (f : F) (pos want : ℕ) (r : PreadAnswer × F) → k.pread f pos (suc want) ≡ r
      → suc want + law.patience f ≤ suc fuel
      → IsRead f pos (suc want) (reads_on fuel (read_answered k r pos (suc want)))
  round-IsRead fuel go f pos want (got [], g) e h = (
    chunk_at_end pos (suc want) (law.contents f) (law.ends f g pos want e),
    law.keeps f g pos (suc want) (got []) e,
  )
  round-IsRead fuel go f pos want (got (b ∷ bs), g) e h =
      let c = law.counted f g pos (suc want) (b ∷ bs) e in
      prepend-IsRead f g pos (suc want) (b ∷ bs)
        (pread_loop k fuel g (pos + length (b ∷ bs)) (suc want - length (b ∷ bs))) c.0 c.1
        (law.keeps f g pos (suc want) (got (b ∷ bs)) e)
        (go g (pos + length (b ∷ bs)) (suc want - length (b ∷ bs)) (omega (arith, c.0, c.2)))
  round-IsRead fuel go f pos want (read_interrupted, g) e h =
      again-IsRead f g pos (suc want) (pread_loop k fuel g pos (suc want))
        (law.keeps f g pos (suc want) read_interrupted e)
        (go g pos (suc want) (omega (arith, law.was_interrupted f g pos (suc want) e)))
  round-IsRead fuel go f pos want (read_failed, g) e h =
      (omega arith, refl, law.keeps f g pos (suc want) read_failed e)

  ppread_loop-IsRead :
      (fuel : ℕ) (f : F) (pos want : ℕ)
      → want + law.patience f ≤ fuel
      → IsRead f pos want (pread_loop k fuel f pos want)
  ppread_loop-IsRead fuel f pos zero h = unfold pread_loop in (refl, refl)
  ppread_loop-IsRead zero f pos (suc want) h = absurd (omega arith)
  ppread_loop-IsRead (suc fuel) f pos (suc want) h =
      subst (IsRead f pos (suc want))
        (sym (pread_loop_round fuel f pos want (k.pread f pos (suc want)) refl))
        (round-IsRead fuel (ppread_loop-IsRead fuel) f pos want (k.pread f pos (suc want)) refl h)

  -- What `ReadAt` leaves when it returns, and when it throws.
  abbrev pub IsFileRead : File F → ℕ → ℕ → End (List ℕ × File F) → Type 0
  IsFileRead d off n (returned (bs, d')) =
      (bs ≡ read_at off n (from_image (law.contents d.fd)))
      × (law.contents d'.fd ≡ law.contents d.fd)
      × (d'.size ≡ d.size)
  IsFileRead d off n (threw (bs, d')) =
      (length bs ≤ n)
      × (bs ≡ read_at off (length bs) (from_image (law.contents d.fd)))
      × (law.contents d'.fd ≡ law.contents d.fd)
      × (d'.size ≡ d.size)
  IsFileRead d off n out_of_fuel = ⊥

  at_file-IsFileRead :
      (d : File F) (off n : ℕ) (e : End (List ℕ × F))
      → IsRead d.fd off n e
      → IsFileRead d off n (at_file k d e)
  at_file-IsFileRead d off n (returned (bs, f)) r =
      (r.0 ∙ sym (read_at-chunk off n (law.contents d.fd)), r.1, refl)
  at_file-IsFileRead d off n (threw (bs, f)) r =
      (r.0, r.1 ∙ sym (read_at-chunk off (length bs) (law.contents d.fd)), r.2, refl)
  at_file-IsFileRead d off n out_of_fuel r = elim r [ ]

  -- For a kernel whose pread answers with the next bytes of the file, at least one unless it ends
  -- there and no more than asked for, changes nothing, and is interrupted finitely often, and
  -- with a round for each byte and each interrupt: FileDevice::ReadAt either returns exactly the
  -- bytes that SimDevice::ReadAt returns on the same contents, short at the end of the file, or
  -- throws, a beginning of them then being in the buffer; the file and size_ stay as they were.
  pub file_read_at-IsFileRead :
      (fuel off n : ℕ) (d : File F)
      → n + law.patience d.fd ≤ fuel
      → IsFileRead d off n (file_read_at k fuel off n d)
  unfolding file_read_at
  file_read_at-IsFileRead fuel off n d h =
      at_file-IsFileRead d off n (pread_loop k fuel d.fd off n)
        (ppread_loop-IsRead fuel d.fd off n h)
