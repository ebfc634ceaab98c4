-- ===== src/Kill/Watched.antt =====
-- The bytes that the driver reads from the pipe over a whole trial, and the keys that it makes of them.
use mathlib.Core.List.{append_assoc, append-nil}
use iron_ledger.Common.{
  ℕ, zero, suc, ◌+◌, ◌*◌, ◌/◌, ◌%◌, ◌<◌, ◌≡◌, refl, sym, ◌∙◌, ap, subst, List, [], ◌∷◌, ◌++◌,
  length, length-take, take, AllLt, arith,
}
use iron_ledger.Wal.Codec.{put_u64}
use iron_ledger.Wal.Codec.RoundTrip.{length-put_u64}
use iron_ledger.Ledger.Submit.Pieces.{take-append_right}
use iron_ledger.Kill.{ReadAnswer, drain}
use iron_ledger.Kill.Drained.{
  ack_stream, received, AreKeys, IsSplit, drain-IsSplit, stream_unique, AllLt-cut, rejoin,
  ack_stream_bytes,
}
use iron_ledger.Kill.Watch.{TrialAnswers, drain_rounds, keys_told}

-- All bytes that are read before the deadline.
abbrev pub received_in : List (List ReadAnswer) → List ℕ
received_in [] = []
received_in (rs ∷ more) = received rs ++ received_in more

-- All bytes that a trial reads.
abbrev pub received_all : TrialAnswers → List ℕ
received_all a = received_in a.rounds ++ received a.last

drain_rounds-IsSplit :
    (rounds : List (List ReadAnswer)) (carry acked : List ℕ)
    → length carry < 8
    → AllLt 256 carry
    → AllLt 256 (received_in rounds)
    → AreKeys acked
    → IsSplit (ack_stream acked ++ (carry ++ received_in rounds)) (drain_rounds rounds carry acked)
unfolding drain_rounds
drain_rounds-IsSplit [] carry acked n bytes more keys =
    (ap (λ (p : List ℕ). ack_stream acked ++ p) (sym (append-nil carry)), n, bytes, keys)
drain_rounds-IsSplit (rs ∷ rounds) carry acked n bytes more keys =
    let cut = AllLt-cut (received rs) (received_in rounds) more in
    let (whole, short, small, typed) = drain-IsSplit rs carry acked n bytes cut.0 keys in
    subst (λ (p : List ℕ). IsSplit p (drain_rounds (rs ∷ rounds) carry acked))
      (rejoin carry acked (received rs) (received_in rounds) (drain rs carry acked) whole)
      (drain_rounds-IsSplit rounds (drain rs carry acked).0 (drain rs carry acked).1 short small
        cut.1 typed)

take_none : (n : ℕ) → take {A = ℕ} n [] ≡ []
take_none zero = refl
take_none (suc n) = refl

AllLt-take : (n : ℕ) (xs : List ℕ) → AllLt 256 xs → AllLt 256 (take n xs)
AllLt-take zero xs h = tt
AllLt-take (suc n) [] h = tt
AllLt-take (suc n) (x ∷ xs) h = (h.0, AllLt-take n xs h.1)

-- The bytes of `ms` whole keys and less than a key behind them.
cut_stream :
    (m r : ℕ) (ks : List ℕ)
    → r < 8
    → (rest : List ℕ) × (take (8 * m + r) (ack_stream ks) ≡ ack_stream (take m ks) ++ rest)
      × (length rest < 8)
      × AllLt 256 rest
cut_stream zero r ks h = (
  take r (ack_stream ks),
  ap (λ n. take n (ack_stream ks)) (omega arith),
  omega (arith, length-take r (ack_stream ks)),
  AllLt-take r (ack_stream ks)
      (subst (AllLt 256) (append-nil (ack_stream ks)) (ack_stream_bytes ks [] tt)),
)
cut_stream (suc m) r [] h = ([], take_none (8 * suc m + r), omega arith, tt)
cut_stream (suc m) r (k ∷ ks) h =
    let (rest, e, short, small) = cut_stream m r ks h in
    (
      rest,
      ap (λ n. take n (put_u64 k ++ ack_stream ks)) (omega (arith, length-put_u64 k))
          ∙ take-append_right (8 * m + r) (put_u64 k) (ack_stream ks)
          ∙ ap (λ (p : List ℕ). put_u64 k ++ p) e
          ∙ sym (append_assoc (put_u64 k) (ack_stream (take m ks)) rest),
      short,
      small,
    )

AreKeys-take : (m : ℕ) (ks : List ℕ) → AreKeys ks → AreKeys (take m ks)
AreKeys-take zero ks h = tt
AreKeys-take (suc m) [] h = tt
AreKeys-take (suc m) (k ∷ ks) h = (h.0, AreKeys-take m ks h.1)

keys_told-IsSplit :
    (a : TrialAnswers)
    → AllLt 256 (received_all a)
    → (carry : List ℕ) × IsSplit (received_all a) (carry, keys_told a)
unfolding keys_told
keys_told-IsSplit a bytes =
    let cut = AllLt-cut (received_in a.rounds) (received a.last) bytes in
    let first = drain_rounds a.rounds [] [] in
    let (whole, short, small, typed) =
      drain_rounds-IsSplit a.rounds [] [] (omega arith) tt cut.0 tt in
    let (whole', short', small', typed') =
      drain-IsSplit a.last first.0 first.1 short small cut.1 typed in
    (
      (drain a.last first.0 first.1).0,
      (
        whole'
            ∙ sym (append_assoc (ack_stream first.1) first.0 (received a.last))
            ∙ ap (λ (p : List ℕ). p ++ received a.last) whole,
        short',
        small',
        typed',
      ),
    )

-- If what is read is the beginning of `n` bytes of a stream of keys, the keys are the first `n / 8`.
pub keys_told_lem :
    (a : TrialAnswers) (ks : List ℕ) (n : ℕ)
    → AreKeys ks
    → received_all a ≡ take n (ack_stream ks)
    → keys_told a ≡ take (n / 8) ks
keys_told_lem a ks n keys e =
    let (rest, cut, short, small) = cut_stream (n / 8) (n % 8) ks (omega arith) in
    let whole : received_all a ≡ ack_stream (take (n / 8) ks) ++ rest =
      e ∙ ap (λ m. take m (ack_stream ks)) (omega arith) ∙ cut in
    let bytes : AllLt 256 (received_all a) =
      subst (AllLt 256) (sym whole) (ack_stream_bytes (take (n / 8) ks) rest small) in
    let (carry, (split, left, narrow, typed)) = keys_told-IsSplit a bytes in
    (stream_unique (keys_told a) (take (n / 8) ks) carry rest (AreKeys-take (n / 8) ks keys) typed
      left short narrow small (split ∙ whole)).0
