-- ===== src/Kill/Heard.antt =====
-- The way of a key from the sink of the worker through the pipe to the verdict of the driver.
use iron_ledger.Common.{
  ℕ, zero, suc, ◌/◌, ◌^◌, ◌<◌, ◌≡◌, inl, inr, refl, sym, ◌∙◌, subst, Bool, true, ◌||◌, Bool-cases,
  List, [], ◌∷◌, ◌++◌, ◌==◌, ==_iff, length, take, arith,
}
use iron_ledger.Device.{contains}
use iron_ledger.Device.World.{Event, wrote, acked, acks}
use iron_ledger.Ledger.Modes.{LedgerOptions}
use iron_ledger.Ledger.Transfer.{Transfer}
use iron_ledger.Ledger.Book.{Book, empty_book, apply}
use iron_ledger.Ledger.Submit.{set_ack_sink}
use iron_ledger.Ledger.Submit.Log.{AllValid}
use iron_ledger.Ledger.Submit.Logging.{set_ack_sink-IsLogged}
use iron_ledger.Ledger.Submit.Pieces.{AllValid-append}
use iron_ledger.Ledger.Submit.Booked.{replay_has_key}
use iron_ledger.Ledger.Submit.Reopen.{fresh-IsLogged, keys_of}
use iron_ledger.CrashSim.{open_fresh}
use iron_ledger.CrashSim.Cut.{AllTyped}
use iron_ledger.Kill.Drained.{ack_stream, AreKeys}
use iron_ledger.Kill.Worker.{kill_worker, contents, between}
use iron_ledger.Kill.Left.{Killed-IsLeft}
use iron_ledger.Kill.Survives.{work-HasWorked, IsRecovered, kill_worker-IsRecovered}
use iron_ledger.Kill.Watch.{TrialAnswers, keys_told}
use iron_ledger.Kill.Watched.{received_all, keys_told_lem}

-- The keys of the calls of `EmitAck` in a trace, in the order of the calls.
abbrev pub emitted : List Event → List ℕ
emitted [] = []
emitted (wrote d ∷ es) = emitted es
emitted (acked k d ∷ es) = emitted es ++ k ∷ []

contains-snoc : (k j : ℕ) (ks : List ℕ) → contains k (ks ++ j ∷ []) ≡ (k == j || contains k ks)
contains-snoc k j [] = refl
contains-snoc k j (i ∷ ks) = ground (arith, contains-snoc k j ks)

contains-emitted : (k : ℕ) (es : List Event) → contains k (emitted es) ≡ contains k (acks es)
unfolding acks
contains-emitted k [] = refl
contains-emitted k (wrote d ∷ es) = contains-emitted k es
contains-emitted k (acked j d ∷ es) =
    ground (arith, contains-snoc k j (emitted es), contains-emitted k es)

contains-take : (k m : ℕ) (ks : List ℕ) → contains k (take m ks) ≡ true → contains k ks ≡ true
contains-take k zero ks h = absurd (ground (arith, h))
contains-take k (suc m) [] h = h
contains-take k (suc m) (j ∷ ks) h = ground (arith, contains-take k m ks)

AreKeys-all : (ks : List ℕ) → ((k : ℕ) → contains k ks ≡ true → k < 2 ^ 64) → AreKeys ks
AreKeys-all [] h = tt
AreKeys-all (k ∷ ks) h = (h k (ground arith), AreKeys-all ks (λ j e. h j (ground (arith, e))))

-- The keys of transfers that were accepted are those of a uint64_t.
valid_key-lt :
    (k : ℕ) (ts : List Transfer) (b : Book)
    → AllValid ts b
    → contains k (keys_of ts) ≡ true
    → k < 2 ^ 64
valid_key-lt k [] b h e = cc
valid_key-lt k (t ∷ ts) b h e = elim (Bool-cases (k == t.idem_key)) [
  | inl same ↦ subst (λ n. n < 2 ^ 64) (sym ((==_iff k t.idem_key).0 same)) h.0.0
  | inr other ↦ valid_key-lt k ts (apply t b) h.2 (ground arith)
]

-- What a moment of the worker's run has acknowledged.
module _ (opts : LedgerOptions) (ts : List Transfer) (typed : AllTyped ts) (later es : List Event)
    (e : (kill_worker opts ts).world.trace ≡ later ++ es) where
  acked_small : (k : ℕ) → contains k (acks es) ≡ true → k < 2 ^ 64
  unfolding kill_worker
  acked_small k h =
      let w =
        work-HasWorked ts [] (set_ack_sink (open_fresh opts)) typed
          (set_ack_sink-IsLogged (open_fresh opts) (fresh-IsLogged opts)) in
      let left = Killed-IsLeft w.logged (between later es (acks es) e (λ j q. q)) in
      let valid =
        AllValid-append (left.logged ++ left.more) left.unlogged empty_book
          (subst (λ us. AllValid us empty_book) left.together w.logged.valid) in
      let first = AllValid-append left.logged left.more empty_book valid.0 in
      valid_key-lt k left.logged empty_book first.0
        (ground (arith, replay_has_key k left.logged empty_book, left.known k h))

  emitted-AreKeys : AreKeys (emitted es)
  emitted-AreKeys =
      AreKeys-all (emitted es) (λ k h. acked_small k (sym (contains-emitted k es) ∙ h))

  -- In any mode, for a worker with a stream of less than 2 ^ 32 transfers with integers in the
  -- range of their C++ types, killed between two of its calls, and a driver that reads the first
  -- n bytes of what the calls of EmitAck up to then have written, in whatever pieces its Drain
  -- calls get them and wherever these are interrupted: the keys that the driver has in the end
  -- are exactly the first n / 8 that were emitted, and recovery of the file, with checksums on or
  -- off, gives exactly the replay of the first transfers of the stream, all of them valid, with a
  -- report of nothing amiss and all these keys among theirs.
  pub told-IsRecovered :
      (v : Bool) (a : TrialAnswers) (n : ℕ)
      → length ts < 2 ^ 32
      → received_all a ≡ take n (ack_stream (emitted es))
      → (keys_told a ≡ take (n / 8) (emitted es)) × IsRecovered v ts (contents es) (keys_told a)
  told-IsRecovered v a n few read =
      let keys = keys_told_lem a (emitted es) n emitted-AreKeys read in
      (
        keys,
        kill_worker-IsRecovered opts v ts (contents es) (keys_told a) typed few (
            between later es (keys_told a) e (λ k h.
              sym (contains-emitted k es)
              ∙ contains-take k (n / 8) (emitted es) (subst (λ ks. contains k ks ≡ true) keys h))),
      )
