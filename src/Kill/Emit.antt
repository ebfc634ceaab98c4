-- ===== src/Kill/Emit.antt =====
-- `EmitAck` puts the whole key into the pipe, however the kernel cuts its writes.
use mathlib.Core.List.{append_assoc, append-nil}
use iron_ledger.Common.{
  ℕ, ◌+◌, ◌≤◌, ◌≡◌, sym, ◌∙◌, ap, List, [], ◌∷◌, ◌++◌, length, take, drop, arith, length-drop,
  take-append-drop,
}
use iron_ledger.Wal.Codec.{put_u64}
use iron_ledger.Wal.Codec.RoundTrip.{length-put_u64}
use iron_ledger.Kill.{
  WriteAnswer, wrote, write_interrupted, write_failed, returned, emit_loop, emit_ack,
}

-- No call fails but by an interrupt.
abbrev pub NeverFails : List WriteAnswer → Type 0
NeverFails [] = Unit
NeverFails (write_failed ∷ ws) = ⊥
NeverFails (_ ∷ ws) = NeverFails ws

abbrev pub total_written : List WriteAnswer → ℕ
total_written [] = 0
total_written (wrote n ∷ ws) = n + total_written ws
total_written (_ ∷ ws) = total_written ws

emit_loop-returned :
    (ws : List WriteAnswer) (rest pipe : List ℕ)
    → NeverFails ws
    → length rest ≤ total_written ws
    → emit_loop ws rest pipe ≡ (returned, pipe ++ rest)
unfolding emit_loop
emit_loop-returned ws [] pipe h n = ap (λ (p : List ℕ). (returned, p)) (sym (append-nil pipe))
emit_loop-returned [] (b ∷ bs) pipe h n = absurd (omega arith)
emit_loop-returned (wrote m ∷ ws) (b ∷ bs) pipe h n =
    emit_loop-returned ws (drop m (b ∷ bs)) (pipe ++ take m (b ∷ bs)) h
      (omega (arith, length-drop m (b ∷ bs)))
    ∙ ap (λ (p : List ℕ). (returned, p))
        (append_assoc pipe (take m (b ∷ bs)) (drop m (b ∷ bs))
          ∙ ap (λ (p : List ℕ). pipe ++ p) (take-append-drop m (b ∷ bs)))
emit_loop-returned (write_interrupted ∷ ws) (b ∷ bs) pipe h n =
    emit_loop-returned ws (b ∷ bs) pipe h n
emit_loop-returned (write_failed ∷ ws) (b ∷ bs) pipe h n = elim h [ ]

-- If no call of write fails but by an interrupt, and the answers add up to eight bytes or more,
-- EmitAck returns, and it has put exactly the eight bytes of the key behind what the pipe held,
-- however the kernel cuts the writes.
pub emit_ack-returned :
    (ws : List WriteAnswer) (key : ℕ) (pipe : List ℕ)
    → NeverFails ws
    → 8 ≤ total_written ws
    → emit_ack ws key pipe ≡ (returned, pipe ++ put_u64 key)
unfolding emit_ack
emit_ack-returned ws key pipe h n =
    emit_loop-returned ws (put_u64 key) pipe h (omega (arith, length-put_u64 key))
