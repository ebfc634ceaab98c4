-- ===== src/Kill/Drained.antt =====
-- `Drain` loses no byte and reads back the keys, however the pipe cuts the stream.
use mathlib.Core.List.{append_assoc, append-nil}
use iron_ledger.Common.{
  ℕ, zero, suc, ◌+◌, ◌^◌, ◌≤◌, ◌<◌, ◌≡◌, inl, inr, refl, sym, ◌∙◌, ap, ap₂, subst, true, false,
  Bool-cases, List, [], ◌∷◌, ◌++◌, leb, length, take, drop, AllLt, arith, length-drop,
  length-append, take-append-drop, drop-append, AllLt-append, AllLt-drop,
}
use iron_ledger.Wal.Codec.{put_u64, get_u64}
use iron_ledger.Wal.Codec.RoundTrip.{
  length-put_u64, put_u64_bytes, get_u64-put_u64, put_u64-get_u64-take, get_u64-lt,
}
use iron_ledger.Ledger.Transfer.{read_u64}
use iron_ledger.Ledger.Transfer.Codec.{read_u64_lem}
use iron_ledger.Kill.{ReadAnswer, got, closed, read_interrupted, read_failed, split_keys, drain}

-- The bytes that `EmitAck` puts into the pipe for keys, one after the other.
abbrev pub ack_stream : List ℕ → List ℕ
ack_stream [] = []
ack_stream (k ∷ ks) = put_u64 k ++ ack_stream ks

-- The bytes that a drain reads.
abbrev pub received : List ReadAnswer → List ℕ
received [] = []
received (got b bs ∷ rs) = (b ∷ bs) ++ received rs
received (read_interrupted ∷ rs) = received rs
received (_ ∷ rs) = []

ack_stream-snoc : (ks : List ℕ) (k : ℕ) → ack_stream (ks ++ k ∷ []) ≡ ack_stream ks ++ put_u64 k
ack_stream-snoc [] k = append-nil (put_u64 k)
ack_stream-snoc (j ∷ ks) k =
    ap (λ (p : List ℕ). put_u64 j ++ p) (ack_stream-snoc ks k)
    ∙ sym (append_assoc (put_u64 j) (ack_stream ks) (put_u64 k))

read_eight : (p : List ℕ) → AllLt 256 p → 8 ≤ length p → put_u64 (read_u64 p) ≡ take 8 p
read_eight p bytes n = rw (read_u64_lem p bytes) (put_u64-get_u64-take p bytes n)

-- One round moves eight bytes across.
moved :
    (carry acked : List ℕ)
    → AllLt 256 carry
    → 8 ≤ length carry
    → ack_stream (acked ++ read_u64 carry ∷ []) ++ drop 8 carry ≡ ack_stream acked ++ carry
moved carry acked bytes n =
    ap (λ (p : List ℕ). p ++ drop 8 carry) (ack_stream-snoc acked (read_u64 carry))
    ∙ append_assoc (ack_stream acked) (put_u64 (read_u64 carry)) (drop 8 carry)
    ∙ ap (λ (p : List ℕ). ack_stream acked ++ (p ++ drop 8 carry)) (read_eight carry bytes n)
    ∙ ap (λ (p : List ℕ). ack_stream acked ++ p) (take-append-drop 8 carry)

-- The values of a uint64_t.
abbrev pub AreKeys : List ℕ → Type 0
AreKeys [] = Unit
AreKeys (k ∷ ks) = (k < 2 ^ 64) × AreKeys ks

AreKeys-snoc : (ks : List ℕ) (k : ℕ) → AreKeys ks → k < 2 ^ 64 → AreKeys (ks ++ k ∷ [])
AreKeys-snoc [] k h n = (n, tt)
AreKeys-snoc (j ∷ ks) k h n = (h.0, AreKeys-snoc ks k h.1 n)

read_u64-lt : (p : List ℕ) → AllLt 256 p → read_u64 p < 2 ^ 64
read_u64-lt p bytes = rw (read_u64_lem p bytes) (get_u64-lt p bytes)

-- What is kept when keys are split off: all bytes, in order, and less than a key in the carry.
abbrev pub IsSplit : List ℕ → List ℕ × List ℕ → Type 0
IsSplit bytes (carry, acked) =
    (ack_stream acked ++ carry ≡ bytes) × (length carry < 8) × AllLt 256 carry × AreKeys acked

split_more :
    (fuel : ℕ) (carry acked : List ℕ)
    → leb 8 (length carry) ≡ true
    → split_keys (suc fuel) carry acked
      ≡ split_keys fuel (drop 8 carry) (acked ++ read_u64 carry ∷ [])
unfolding split_keys
split_more fuel carry acked e = ground arith

split_done :
    (fuel : ℕ) (carry acked : List ℕ)
    → leb 8 (length carry) ≡ false
    → split_keys (suc fuel) carry acked ≡ (carry, acked)
unfolding split_keys
split_done fuel carry acked e = ground arith

split_keys-IsSplit :
    (fuel : ℕ) (carry acked : List ℕ)
    → AllLt 256 carry
    → AreKeys acked
    → length carry < fuel + 8
    → IsSplit (ack_stream acked ++ carry) (split_keys fuel carry acked)
split_keys-IsSplit zero carry acked bytes keys n = unfold split_keys in (refl, n, bytes, keys)
split_keys-IsSplit (suc fuel) carry acked bytes keys n = elim (Bool-cases (leb 8 (length carry))) [
  | inl e ↦ subst (IsSplit (ack_stream acked ++ carry)) (sym (split_more fuel carry acked e)) (
      subst
        (λ (p : List ℕ). IsSplit p (split_keys fuel (drop 8 carry) (acked ++ read_u64 carry ∷ [])))
        (moved carry acked bytes (ground arith))
        (split_keys-IsSplit fuel (drop 8 carry) (acked ++ read_u64 carry ∷ [])
          (AllLt-drop 256 8 carry bytes)
          (AreKeys-snoc acked (read_u64 carry) keys (read_u64-lt carry bytes))
          (omega (arith, length-drop 8 carry))))
  | inr e ↦
      subst (IsSplit (ack_stream acked ++ carry)) (sym (split_done fuel carry acked e))
        (refl, ground arith, bytes, keys)
]

pub AllLt-cut : (xs ys : List ℕ) → AllLt 256 (xs ++ ys) → AllLt 256 xs × AllLt 256 ys
AllLt-cut [] ys h = (tt, h)
AllLt-cut (x ∷ xs) ys h = ((h.0, (AllLt-cut xs ys h.1).0), (AllLt-cut xs ys h.1).1)

pub rejoin :
    (carry acked bytes more : List ℕ) (r : List ℕ × List ℕ)
    → ack_stream r.1 ++ r.0 ≡ ack_stream acked ++ (carry ++ bytes)
    → ack_stream r.1 ++ (r.0 ++ more) ≡ ack_stream acked ++ (carry ++ (bytes ++ more))
rejoin carry acked bytes more r e =
    sym (append_assoc (ack_stream r.1) r.0 more)
    ∙ ap (λ (p : List ℕ). p ++ more) e
    ∙ append_assoc (ack_stream acked) (carry ++ bytes) more
    ∙ ap (λ (p : List ℕ). ack_stream acked ++ p) (append_assoc carry bytes more)

-- Whatever the answers to its calls are, if it starts with less than eight bytes carried and keys
-- below 2 ^ 64, Drain loses and reorders no byte: the bytes of its keys followed by its carry are
-- those it started with followed by the bytes received, less than eight bytes are carried, and
-- the keys stay below 2 ^ 64.
pub drain-IsSplit :
    (rs : List ReadAnswer) (carry acked : List ℕ)
    → length carry < 8
    → AllLt 256 carry
    → AllLt 256 (received rs)
    → AreKeys acked
    → IsSplit (ack_stream acked ++ (carry ++ received rs)) (drain rs carry acked)
unfolding drain
drain-IsSplit [] carry acked n bytes more keys =
    (ap (λ (p : List ℕ). ack_stream acked ++ p) (sym (append-nil carry)), n, bytes, keys)
drain-IsSplit (got b bs ∷ rs) carry acked n bytes more keys =
    let all : List ℕ = carry ++ b ∷ bs in
    let cut = AllLt-cut (b ∷ bs) (received rs) more in
    let (whole, short, small, typed) =
      split_keys-IsSplit (length all) all acked (AllLt-append 256 carry (b ∷ bs) bytes cut.0) keys
        (omega arith) in
    subst (λ (p : List ℕ). IsSplit p (drain (got b bs ∷ rs) carry acked))
      (rejoin carry acked (b ∷ bs) (received rs) (split_keys (length all) all acked) whole)
      (drain-IsSplit rs (split_keys (length all) all acked).0 (split_keys (length all) all acked).1
        short small cut.1 typed)
drain-IsSplit (closed ∷ rs) carry acked n bytes more keys =
    (ap (λ (p : List ℕ). ack_stream acked ++ p) (sym (append-nil carry)), n, bytes, keys)
drain-IsSplit (read_interrupted ∷ rs) carry acked n bytes more keys =
    drain-IsSplit rs carry acked n bytes more keys
drain-IsSplit (read_failed ∷ rs) carry acked n bytes more keys =
    (ap (λ (p : List ℕ). ack_stream acked ++ p) (sym (append-nil carry)), n, bytes, keys)

pub ack_stream_bytes : (ks rest : List ℕ) → AllLt 256 rest → AllLt 256 (ack_stream ks ++ rest)
ack_stream_bytes [] rest h = h
ack_stream_bytes (k ∷ ks) rest h =
    subst (AllLt 256) (sym (append_assoc (put_u64 k) (ack_stream ks) rest)) (
      AllLt-append 256 (put_u64 k) (ack_stream ks ++ rest) (put_u64_bytes k)
        (ack_stream_bytes ks rest h))

length-ack_stream : (k : ℕ) (ks rest : List ℕ) → 8 ≤ length (ack_stream (k ∷ ks) ++ rest)
length-ack_stream k ks rest = omega (
  arith,
  length-append (put_u64 k ++ ack_stream ks) rest,
  length-append (put_u64 k) (ack_stream ks),
  length-put_u64 k,
)

first_key :
    (k : ℕ) (ks rest : List ℕ)
    → k < 2 ^ 64
    → AllLt 256 rest
    → get_u64 (ack_stream (k ∷ ks) ++ rest) ≡ k
first_key k ks rest h bytes =
    ap get_u64 (append_assoc (put_u64 k) (ack_stream ks) rest)
    ∙ get_u64-put_u64 k (ack_stream ks ++ rest) h (ack_stream_bytes ks rest bytes)

drop_key : (k : ℕ) (ks rest : List ℕ) → drop 8 (ack_stream (k ∷ ks) ++ rest) ≡ ack_stream ks ++ rest
drop_key k ks rest =
    ap (drop 8) (append_assoc (put_u64 k) (ack_stream ks) rest)
    ∙ ap (λ n. drop n (put_u64 k ++ (ack_stream ks ++ rest))) (sym (length-put_u64 k))
    ∙ drop-append (put_u64 k) (ack_stream ks ++ rest)

-- A stream of keys with less than a key at its end is read in one way only.
pub stream_unique :
    (js ks c rest : List ℕ)
    → AreKeys ks
    → AreKeys js
    → length c < 8
    → length rest < 8
    → AllLt 256 c
    → AllLt 256 rest
    → ack_stream js ++ c ≡ ack_stream ks ++ rest
    → (js ≡ ks) × (c ≡ rest)
stream_unique [] [] c rest hk hj n m p q e = (refl, e)
stream_unique [] (k ∷ ks) c rest hk hj n m p q e =
    absurd (omega (arith, ap length e, length-ack_stream k ks rest))
stream_unique (j ∷ js) [] c rest hk hj n m p q e =
    absurd (omega (arith, ap length e, length-ack_stream j js c))
stream_unique (j ∷ js) (k ∷ ks) c rest hk hj n m p q e =
    let heads : j ≡ k = sym (first_key j js c hj.0 p) ∙ ap get_u64 e ∙ first_key k ks rest hk.0 q in
    let tails : ack_stream js ++ c ≡ ack_stream ks ++ rest =
      sym (drop_key j js c) ∙ ap (drop 8) e ∙ drop_key k ks rest in
    let (same, left) = stream_unique js ks c rest hk.1 hj.1 n m p q tails in
    (ap₂ ◌∷◌ heads same, left)

-- If the bytes that read returns until the pipe ends or has nothing more are the bytes of keys
-- below 2 ^ 64, followed by less than eight bytes more, then Drain, started with nothing carried,
-- leaves exactly these keys and carries exactly the bytes behind them, however the answers cut
-- the stream and wherever calls are interrupted.
pub drain-ack_stream :
    (rs : List ReadAnswer) (ks rest : List ℕ)
    → AreKeys ks
    → length rest < 8
    → AllLt 256 rest
    → received rs ≡ ack_stream ks ++ rest
    → drain rs [] [] ≡ (rest, ks)
drain-ack_stream rs ks rest hk n small e =
    let bytes : AllLt 256 (received rs) =
      subst (AllLt 256) (sym e) (ack_stream_bytes ks rest small) in
    let (whole, short, left, keys) = drain-IsSplit rs [] [] (omega arith) tt bytes tt in
    let (same, carry) =
      stream_unique (drain rs [] []).1 ks (drain rs [] []).0 rest hk keys short n left small
        (whole ∙ e) in
    ap₂ (λ (c a : List ℕ). (c, a)) carry same
