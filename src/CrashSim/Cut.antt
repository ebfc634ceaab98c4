-- ===== src/CrashSim/Cut.antt =====
-- A trial of a durable mode loses no acknowledged key, and no trial breaks conservation.
use iron_ledger.Common.{
  ℕ, ◌+◌, ◌*◌, ◌%◌, ◌^◌, ◌<◌, ◌≡◌, inl, inr, refl, sym, ap, subst, true, false, not, Bool-cases,
  Option, none, some, List, [], ◌∷◌, ◌++◌, ◌==◌, length, arith,
}
use iron_ledger.Device.{SimDevice, CutPolicy, Draw, contains, from_image, power_cut}
use iron_ledger.Device.PowerCut.{InRange}
use iron_ledger.Device.World.{Event, wrote, acked, acks}
use iron_ledger.Wal.Writer.{next_lsn}
use iron_ledger.Ledger.Modes.{LedgerOptions}
use iron_ledger.Ledger.Transfer.{Transfer, IsTyped}
use iron_ledger.Ledger.Book.{Book, is_zero}
use iron_ledger.Ledger.Recovery.{recover, empty_report}
use iron_ledger.Ledger.Recovery.Replay.{recover-IsSound}
use iron_ledger.Ledger.Submit.{Ledger, open_ledger, set_ack_sink, submit, op_submit, perform}
use iron_ledger.Ledger.Submit.Perform.{IsDurableMode, submit-next_lsn}
use iron_ledger.Ledger.Submit.Life.{
  Life, born, listens, does, Life-opts, recover-le, acknowledged_is_recovered,
  acknowledged_is_recovered_at_call,
}
use iron_ledger.CrashSim.{
  Config, Params, make_options, submit_all, open_fresh, writes, capture, cut_point, count_lost,
  judge, recover_and_judge, run_trial,
}

abbrev pub AllTyped : List Transfer → Type 0
AllTyped [] = Unit
AllTyped (t ∷ ts) = IsTyped t × AllTyped ts

-- Where the hook captures, the trace goes on behind a write.
capture-some :
    (n : ℕ) (es rest : List Event) (d : SimDevice)
    → capture n es ≡ some (d, rest)
    → (later : List Event) × (es ≡ later ++ wrote d ∷ rest)
unfolding capture
capture-some n [] rest d h = cc
capture-some n (wrote e ∷ es) rest d h = elim (Bool-cases (writes es + 1 == n)) [
  | inl hit ↦ ([], ground arith)
  | inr miss ↦
      let found : capture n es ≡ some (d, rest) = ground arith in
      let (later, e') = capture-some n es rest d found in (wrote e ∷ later, ap (◌∷◌ (wrote e)) e')
]
capture-some n (acked k e ∷ es) rest d h =
    let (later, same) = capture-some n es rest d h in (acked k e ∷ later, ap (◌∷◌ (acked k e)) same)

pub count_lost-zero :
    (ks : List ℕ) (b : Book)
    → ((k : ℕ) → contains k ks ≡ true → contains k b.seen_keys ≡ true)
    → count_lost ks b ≡ 0
unfolding count_lost
count_lost-zero [] b h = refl
count_lost-zero (k ∷ ks) b h = ground (arith, h k, count_lost-zero ks b (λ j e. h j (ground arith)))

module _ (opts : LedgerOptions) (durable : IsDurableMode opts.mode) where
  -- A life goes on with a run of the workload.
  submit_all-Life :
      (ts : List Transfer) (l : Ledger)
      → Life opts l
      → AllTyped ts
      → next_lsn l.writer + 164 * length ts < 2 ^ 64
      → Life opts (submit_all ts l)
  unfolding submit_all
  submit_all-Life [] l h typed fits = h
  submit_all-Life (t ∷ ts) l h typed fits =
      let mode : IsDurableMode l.opts.mode =
        subst (λ o. IsDurableMode o.mode) (sym (Life-opts durable h)) durable in
      submit_all-Life ts (submit t l).0
        (unfold perform in does (op_submit t) h typed.0 (omega arith)) typed.1
        (omega (arith, submit-next_lsn t l mode))

  fresh_next_lsn : next_lsn (set_ack_sink (open_fresh opts)).writer ≡ 0
  unfolding set_ack_sink open_ledger
  fresh_next_lsn = omega (arith, recover-le [] opts.verify_crc)

  run-Life :
      (ts : List Transfer)
      → AllTyped ts
      → length ts < 2 ^ 32
      → Life opts (submit_all ts (set_ack_sink (open_fresh opts)))
  run-Life ts typed few =
      submit_all-Life ts (set_ack_sink (open_fresh opts)) (listens born) typed
        (omega (arith, fresh_next_lsn))

  -- Every key that is acknowledged at the cut is recovered.
  cut_is_recovered :
      (policy : CutPolicy) (draws : ℕ → Draw) (n : ℕ) (l : Ledger) (k : ℕ)
      (c : Option (SimDevice × List Event))
      → Life opts l
      → InRange draws
      → capture n l.world.trace ≡ c
      → contains k (cut_point c l.world).1 ≡ true
      → contains k
          (recover
            (from_image (power_cut policy draws (cut_point c l.world).0))
            opts.verify_crc
            empty_report).0.0.seen_keys
        ≡ true
  unfolding cut_point acks
  cut_is_recovered policy draws n l k none h fair found e =
      acknowledged_is_recovered durable policy draws k h fair e
  cut_is_recovered policy draws n l k (some (d, rest)) h fair found e =
      let (later, split) = capture-some n l.world.trace rest d found in
      acknowledged_is_recovered_at_call durable policy draws later rest (wrote d) k h split fair e

-- In a durable mode a trial loses no acknowledged key, wherever the power is cut.
pub run_trial-lost :
    (c : Config) (p : Params) (pick : ℕ) (draws : ℕ → Draw) (ts : List Transfer)
    → IsDurableMode c.mode
    → AllTyped ts
    → length ts < 2 ^ 32
    → InRange draws
    → (run_trial c p pick draws ts).lost ≡ 0
unfolding run_trial recover_and_judge judge open_ledger
run_trial-lost c p pick draws ts durable typed few fair =
    let opts = make_options c p in
    let last = submit_all ts (set_ack_sink (open_fresh opts)) in
    let n = 1 + pick % ((submit_all ts (open_fresh opts)).world.dev.write_count + 1) in
    let policy : CutPolicy = record { p_persist = p.p_persist; p_tear = p.p_tear } in
    count_lost-zero (cut_point (capture n last.world.trace) last.world).1
      (recover
        (from_image (power_cut policy draws (cut_point (capture n last.world.trace) last.world).0))
        opts.verify_crc empty_report).0.0
      (λ k e.
        cut_is_recovered opts durable policy draws n last k (capture n last.world.trace)
          (run-Life opts durable ts typed few) fair refl e)

-- No trial finds the conservation of money broken.
pub run_trial-conserves :
    (c : Config) (p : Params) (pick : ℕ) (draws : ℕ → Draw) (ts : List Transfer)
    → (run_trial c p pick draws ts).conservation_bad ≡ false
unfolding run_trial recover_and_judge judge open_ledger
run_trial-conserves c p pick draws ts =
    let opts = make_options c p in
    let last = submit_all ts (set_ack_sink (open_fresh opts)) in
    let n = 1 + pick % ((submit_all ts (open_fresh opts)).world.dev.write_count + 1) in
    let policy : CutPolicy = record { p_persist = p.p_persist; p_tear = p.p_tear } in
    let sound =
      recover-IsSound
        (from_image (power_cut policy draws (cut_point (capture n last.world.trace) last.world).0))
        opts.verify_crc empty_report in
    ap (λ z. not (is_zero z)) sound.conserved
