-- ===== src/Ledger/Submit/Batches.antt =====
-- How many calls of `Sync` a stream of submits costs in each mode.
use native.Mathlib.Nat.{mul-suc}
use iron_ledger.Common.{
  ℕ, ◌+◌, ◌*◌, ◌%◌, ◌^◌, ◌≤◌, ◌<◌, ◌≡◌, refl, sym, ◌∙◌, ap, true, false, [], ◌∷◌, leb, length,
  length-append, arith, Bool-cases, inl, inr,
}
use iron_ledger.Device.World.{world_sync}
use iron_ledger.Device.{sync}
use iron_ledger.Wal.Writer.{sync_log, flush}
use iron_ledger.Ledger.Modes.{DurabilityMode, no_sync, lazy_sync, sync_every, group_commit}
use iron_ledger.Ledger.Transfer.{Transfer}
use iron_ledger.Ledger.Book.{apply}
use iron_ledger.Ledger.Submit.{
  Ledger, flush_writer, sync_now, ack_pending, log_transfer, count_sync, settle,
}
use iron_ledger.Ledger.Submit.Counts.{syncs, flush_writer-syncs, flush_buffer-sync_count}

-- The transfers that were accepted so far.
abbrev pub applied : Ledger → ℕ
applied l = length l.book.applied_keys

-- In the mode, the calls of `Sync` are as many as its batches are full, and the open batch is
-- smaller than a full one.
abbrev pub IsBatched : DurabilityMode → Ledger → Type 0
IsBatched no_sync l = syncs l ≡ 0
IsBatched lazy_sync l =
    (l.opts.group_size * syncs l + l.since_sync ≡ applied l) × (l.since_sync < l.opts.group_size)
IsBatched sync_every l = syncs l ≡ applied l
IsBatched group_commit l =
    (l.opts.group_size * syncs l + length l.pending_acks ≡ applied l)
    × (length l.pending_acks < l.opts.group_size)

sync_now-syncs : (l : Ledger) → syncs (sync_now l) ≡ syncs l + 1
unfolding sync_now sync_log flush world_sync sync
sync_now-syncs l = ap (λ n. n + 1) (flush_buffer-sync_count l.writer.buffer l.writer l.world)

-- A transfer is in the book and in the buffer, and not settled yet.
pub record IsPending (l l' : Ledger) : Type 0 where
  same_opts : l'.opts ≡ l.opts
  one_more : applied l' ≡ applied l + 1
  one_waits : length l'.pending_acks ≡ length l.pending_acks + 1
  same_since : l'.since_sync ≡ l.since_sync
  same_syncs : syncs l' ≡ syncs l

pub log_transfer-IsPending : (t : Transfer) (l : Ledger) → IsPending l (log_transfer t l)
unfolding log_transfer apply
log_transfer-IsPending t l = record {
  same_opts = refl;
  one_more = omega (arith, length-append l.book.applied_keys (t.idem_key ∷ []));
  one_waits = omega (arith, length-append l.pending_acks (t.idem_key ∷ []));
  same_since = refl;
  same_syncs = refl;
}

-- What `AckPending` and `Flush` leave of what is counted.
settle_no_sync : (l : Ledger) → syncs (settle no_sync l) ≡ syncs l
unfolding settle ack_pending
settle_no_sync l = flush_writer-syncs l

settle_sync_every :
    (l : Ledger)
    → (syncs (settle sync_every l) ≡ syncs l + 1) × (applied (settle sync_every l) ≡ applied l)
unfolding settle ack_pending
settle_sync_every l = (
  sync_now-syncs (flush_writer l) ∙ ap (λ n. n + 1) (flush_writer-syncs l),
  (unfold sync_now flush_writer in refl),
)

count_sync_full :
    (l : Ledger)
    → leb l.opts.group_size ((l.since_sync + 1) % 2 ^ 32) ≡ true
    → (syncs (count_sync l) ≡ syncs l + 1) × ((count_sync l).since_sync ≡ 0)
unfolding count_sync
count_sync_full l e =
    let m : Ledger = record l { since_sync = (l.since_sync + 1) % 2 ^ 32 } in
    rw e (sync_now-syncs m, (unfold sync_now in refl))

count_sync_open :
    (l : Ledger)
    → leb l.opts.group_size ((l.since_sync + 1) % 2 ^ 32) ≡ false
    → count_sync l ≡ record l { since_sync = (l.since_sync + 1) % 2 ^ 32 }
unfolding count_sync
count_sync_open l e = rw e refl

count_sync_keeps :
    (l : Ledger) → (applied (count_sync l) ≡ applied l) × ((count_sync l).opts ≡ l.opts)
unfolding count_sync sync_now
count_sync_keeps l = ground arith

-- One more in a batch fills it, or leaves it open.
filled : (g s r n : ℕ) → g * s + r ≡ n → r < g → g ≤ r + 1 → g * (s + 1) + 0 ≡ n + 1
filled g s r n e small full = omega (arith, mul-suc g s)

reached : (g r : ℕ) → r < g → g < 2 ^ 32 → leb g ((r + 1) % 2 ^ 32) ≡ true → g ≤ r + 1
reached g r small fits full = ground arith

unreached :
    (g r : ℕ)
    → r < g
    → g < 2 ^ 32
    → leb g ((r + 1) % 2 ^ 32) ≡ false
    → ((r + 1) % 2 ^ 32 ≡ r + 1) × (r + 1 < g)
unreached g r small fits full = ground arith

-- The case `kLazySync`, on the ledger whose buffer was flushed and whose caller was answered.
lazy_counted :
    (n : ℕ) (l : Ledger)
    → l.opts.group_size * syncs l + l.since_sync ≡ n
    → l.since_sync < l.opts.group_size
    → l.opts.group_size < 2 ^ 32
    → applied l ≡ n + 1
    → IsBatched lazy_sync (count_sync l)
lazy_counted n l e small fits one =
    let kept = count_sync_keeps l in
    let g = l.opts.group_size in
    elim (Bool-cases (leb g ((l.since_sync + 1) % 2 ^ 32))) [
      | inl full ↦
          let (more, since) = count_sync_full l full in
          rw (more, since, kept.0, kept.1)
            (
              filled g (syncs l) l.since_sync n e small (reached g l.since_sync small fits full)
                  ∙ sym one,
              omega arith,
            )
      | inr still ↦
          let (next, room) = unreached g l.since_sync small fits still in
          rw (count_sync_open l still, next) (omega arith, room)
    ]

lazy_settled :
    (l l' : Ledger)
    → IsBatched lazy_sync l
    → l.opts.group_size < 2 ^ 32
    → IsPending l l'
    → IsBatched lazy_sync (settle lazy_sync l')
unfolding settle
lazy_settled l l' h fits p =
    let m = ack_pending (flush_writer l') in
    let flushed : syncs m ≡ syncs l' = (unfold ack_pending in flush_writer-syncs l') in
    let same = flushed ∙ p.same_syncs in
    let keeps : (m.opts ≡ l'.opts) × (m.since_sync ≡ l'.since_sync) × (applied m ≡ applied l') =
      (unfold ack_pending flush_writer in (refl, refl, refl)) in
    let group : m.opts.group_size ≡ l.opts.group_size =
      ap (λ o. o.group_size) (keeps.0 ∙ p.same_opts) in
    lazy_counted (applied l) m (rw (group, same, keeps.1, p.same_since) h.0)
      (rw (group, keeps.1, p.same_since) h.1) (rw group fits) (keeps.2 ∙ p.one_more)

-- The case `kGroupCommit`.
group_full :
    (l : Ledger)
    → leb l.opts.group_size (length l.pending_acks) ≡ true
    → (syncs (settle group_commit l) ≡ syncs l + 1)
      × (length (settle group_commit l).pending_acks ≡ 0)
      × (applied (settle group_commit l) ≡ applied l)
      × ((settle group_commit l).opts ≡ l.opts)
unfolding settle ack_pending
group_full l e = rw e (
  sync_now-syncs (flush_writer l) ∙ ap (λ n. n + 1) (flush_writer-syncs l),
  refl,
  (unfold sync_now flush_writer in refl),
  (unfold sync_now flush_writer in refl),
)

group_open :
    (l : Ledger) → leb l.opts.group_size (length l.pending_acks) ≡ false → settle group_commit l ≡ l
unfolding settle
group_open l e = rw e refl

at_most : (a b : ℕ) → leb a b ≡ true → a ≤ b
at_most a b e = ground arith

beyond : (a b : ℕ) → leb a b ≡ false → b < a
beyond a b e = ground arith

group_settled :
    (l l' : Ledger)
    → IsBatched group_commit l
    → IsPending l l'
    → IsBatched group_commit (settle group_commit l')
group_settled l l' h p =
    let g = l.opts.group_size in
    let group : l'.opts.group_size ≡ g = ap (λ o. o.group_size) p.same_opts in
    elim (Bool-cases (leb l'.opts.group_size (length l'.pending_acks))) [
      | inl full ↦
          let (more, empty, kept, opts) = group_full l' full in
          rw (more, empty, kept, opts, group, p.same_syncs)
            (
              filled g (syncs l) (length l.pending_acks) (applied l) h.0 h.1
                    (omega (arith, at_most _ _ full, group, p.one_waits))
                  ∙ sym p.one_more,
              omega (arith, h.1),
            )
      | inr still ↦
          rw (group_open l' still, group, p.same_syncs)
            (omega (arith, h.0, p.one_more, p.one_waits), omega (arith, beyond _ _ still, group))
    ]

pub settled :
    (m : DurabilityMode) (l l' : Ledger)
    → l.opts.group_size < 2 ^ 32
    → IsBatched m l
    → IsPending l l'
    → IsBatched m (settle m l')
settled no_sync l l' fits h p = settle_no_sync l' ∙ p.same_syncs ∙ h
settled lazy_sync l l' fits h p = lazy_settled l l' h fits p
settled sync_every l l' fits h p =
    let (more, kept) = settle_sync_every l' in omega (arith, more, kept, p.same_syncs, p.one_more)
settled group_commit l l' fits h p = group_settled l l' h p
