-- ===== src/Ledger/Transfer/RoundTrip.antt =====
-- Encoding and decoding of transfers undo one another.
use mathlib.Core.List.{append_assoc, append-nil}
use iron_ledger.Common.{
  ℕ, zero, suc, ◌+◌, ◌-◌, ◌*◌, ◌%◌, ◌^◌, ◌≤◌, ◌<◌, ◌≡◌, refl, ◌∙◌, sym, ap, some, List, [], ◌∷◌,
  ◌++◌, length, take, drop, AllLt, AllLt-append, AllLt-drop, take-append-drop, drop-drop,
  length-drop, arith,
}
use iron_ledger.Common.Int.{to_u64, to_u64-lt, to_i64-to_u64, to_u64-to_i64, to_i64-IsI64}
use iron_ledger.Wal.Codec.{put_u32, put_loop, put_u64, get_u32, get_u64}
use iron_ledger.Wal.Codec.RoundTrip.{
  put_u32_bytes, put_u64_bytes, get_u32-put_u32, get_u64-put_u64, get_u64-lt, put_u64-get_u64-take,
  put_u32-get_u32-take,
}
use iron_ledger.Ledger.Transfer.{
  Posting, Transfer, AreTyped, IsTyped, push_u32, push_u64, read_u64, encode_postings,
  encode_transfer, decode_postings, decode_transfer,
}
use iron_ledger.Ledger.Transfer.Codec.{push_u64_lem, push_u32_lem, read_u64_lem}

-- The wire format as one list.
pub postings_bytes : List Posting → List ℕ
postings_bytes [] = []
postings_bytes (p ∷ ps) = put_u64 p.account ++ (put_u64 (to_u64 p.amount) ++ postings_bytes ps)

pub transfer_bytes : Transfer → List ℕ
transfer_bytes t = put_u64 t.idem_key ++ (put_u32 (length t.postings) ++ postings_bytes t.postings)

encode_postings_lem :
    (out : List ℕ) (ps : List Posting) → encode_postings out ps ≡ out ++ postings_bytes ps
unfolding encode_postings postings_bytes
encode_postings_lem out [] = sym (append-nil out)
encode_postings_lem out (p ∷ ps) =
    encode_postings_lem (push_u64 (push_u64 out p.account) (to_u64 p.amount)) ps
    ∙ simp (push_u64_lem, append_assoc)

pub encode_transfer_lem :
    (out : List ℕ) (t : Transfer) → encode_transfer out t ≡ out ++ transfer_bytes t
unfolding encode_transfer transfer_bytes
encode_transfer_lem out t =
    encode_postings_lem (push_u32 (push_u64 out t.idem_key) (length t.postings)) t.postings
    ∙ simp (push_u64_lem, push_u32_lem, append_assoc)

pub length-postings_bytes : (ps : List Posting) → length (postings_bytes ps) ≡ 16 * length ps
unfolding postings_bytes put_u64 put_loop
length-postings_bytes [] = refl
length-postings_bytes (p ∷ ps) = omega (arith, length-postings_bytes ps)

pub length-transfer_bytes : (t : Transfer) → length (transfer_bytes t) ≡ 12 + 16 * length t.postings
unfolding transfer_bytes put_u64 put_loop put_u32
length-transfer_bytes t = omega (arith, length-postings_bytes t.postings)

postings_bytes_lt : (ps : List Posting) → AllLt 256 (postings_bytes ps)
unfolding postings_bytes
postings_bytes_lt [] = tt
postings_bytes_lt (p ∷ ps) =
    AllLt-append 256 (put_u64 p.account) (put_u64 (to_u64 p.amount) ++ postings_bytes ps)
      (put_u64_bytes p.account)
      (AllLt-append 256 (put_u64 (to_u64 p.amount)) (postings_bytes ps)
        (put_u64_bytes (to_u64 p.amount)) (postings_bytes_lt ps))

pub transfer_bytes_lt : (t : Transfer) → AllLt 256 (transfer_bytes t)
unfolding transfer_bytes
transfer_bytes_lt t =
    AllLt-append 256 (put_u64 t.idem_key) (put_u32 (length t.postings) ++ postings_bytes t.postings)
      (put_u64_bytes t.idem_key)
      (AllLt-append 256 (put_u32 (length t.postings)) (postings_bytes t.postings)
        (put_u32_bytes (length t.postings)) (postings_bytes_lt t.postings))

read_u64-put_u64 :
    (v : ℕ) (rest : List ℕ) → v < 2 ^ 64 → AllLt 256 rest → read_u64 (put_u64 v ++ rest) ≡ v
read_u64-put_u64 v rest h k =
    read_u64_lem (put_u64 v ++ rest) (AllLt-append 256 (put_u64 v) rest (put_u64_bytes v) k)
    ∙ get_u64-put_u64 v rest h k

drop_u64 : (v : ℕ) (rest : List ℕ) → drop 8 (put_u64 v ++ rest) ≡ rest
unfolding put_u64 put_loop
drop_u64 v rest = refl

drop_two : (v w : ℕ) (rest : List ℕ) → drop 16 (put_u64 v ++ (put_u64 w ++ rest)) ≡ rest
unfolding put_u64 put_loop
drop_two v w rest = refl

decode_postings-postings_bytes :
    (ps : List Posting) → AreTyped ps → decode_postings (length ps) (postings_bytes ps) ≡ ps
unfolding decode_postings postings_bytes
decode_postings-postings_bytes [] h = refl
decode_postings-postings_bytes (p ∷ ps) h = rw (
  drop_two p.account (to_u64 p.amount) (postings_bytes ps),
  drop_u64 p.account (put_u64 (to_u64 p.amount) ++ postings_bytes ps),
  read_u64-put_u64 p.account (put_u64 (to_u64 p.amount) ++ postings_bytes ps) h.0 (
      AllLt-append 256 (put_u64 (to_u64 p.amount)) (postings_bytes ps)
        (put_u64_bytes (to_u64 p.amount)) (postings_bytes_lt ps)),
  read_u64-put_u64 (to_u64 p.amount) (postings_bytes ps) (to_u64-lt p.amount)
      (postings_bytes_lt ps),
  to_i64-to_u64 p.amount h.1,
  decode_postings-postings_bytes ps h.2,
)

drop_key_count :
    (v n : ℕ) (rest : List ℕ)
    → (drop 8 (put_u64 v ++ (put_u32 n ++ rest)) ≡ put_u32 n ++ rest)
      × (drop 12 (put_u64 v ++ (put_u32 n ++ rest)) ≡ rest)
unfolding put_u64 put_loop put_u32
drop_key_count v n rest = (refl, refl)

-- Decoding gives back every transfer of 2 to 8 postings, with integers in the range of their C++
-- types, from the bytes that were encoded for it.
pub decode_transfer-encode_transfer :
    (t : Transfer)
    → IsTyped t
    → 2 ≤ length t.postings
    → length t.postings ≤ 8
    → decode_transfer (encode_transfer [] t) ≡ some t
unfolding decode_transfer
decode_transfer-encode_transfer t h lo hi = rw (encode_transfer_lem [] t) (
    let rest : List ℕ = postings_bytes t.postings in
    let parts = drop_key_count t.idem_key (length t.postings) rest in
    let count : get_u32 (put_u32 (length t.postings) ++ rest) ≡ length t.postings =
      get_u32-put_u32 (length t.postings) rest (omega arith) (postings_bytes_lt t.postings) in
    let key : read_u64 (put_u64 t.idem_key ++ (put_u32 (length t.postings) ++ rest)) ≡ t.idem_key =
      read_u64-put_u64 t.idem_key (put_u32 (length t.postings) ++ rest) h.0 (
        AllLt-append 256 (put_u32 (length t.postings)) rest (put_u32_bytes (length t.postings))
          (postings_bytes_lt t.postings)) in
    rw (length-transfer_bytes t) (
      unfold transfer_bytes in
      rw (parts.0, parts.1, count, key, decode_postings-postings_bytes t.postings h.1)
        (ground arith)))

mod_u64 : (v : ℕ) → v < 2 ^ 64 → v % 2 ^ 64 ≡ v
mod_u64 v h = omega arith

-- A list of bytes that holds what is left to decode decodes to postings that encode to it.
postings_bytes-decode_postings :
    (n : ℕ) (p : List ℕ)
    → AllLt 256 p
    → length p ≡ 16 * n
    → (postings_bytes (decode_postings n p) ≡ p)
      × AreTyped (decode_postings n p)
      × (length (decode_postings n p) ≡ n)
unfolding decode_postings postings_bytes
postings_bytes-decode_postings zero [] h e = (refl, tt, refl)
postings_bytes-decode_postings zero (b ∷ p) h e = absurd (omega arith)
postings_bytes-decode_postings (suc n) p h e =
    let rest : List ℕ = drop 16 p in
    let bytes8 : AllLt 256 (drop 8 p) = AllLt-drop 256 8 p h in
    let long : length (drop 8 p) ≡ length p - 8 = length-drop 8 p in
    let ih =
      postings_bytes-decode_postings n rest (AllLt-drop 256 16 p h)
        (omega (arith, length-drop 16 p)) in
    (
      rw
          (
            ih.0,
            to_u64-to_i64 (read_u64 (drop 8 p)),
            read_u64_lem p h,
            read_u64_lem (drop 8 p) bytes8,
            mod_u64 (get_u64 (drop 8 p)) (get_u64-lt (drop 8 p) bytes8),
            put_u64-get_u64-take p h (omega arith),
            put_u64-get_u64-take (drop 8 p) bytes8 (omega arith),
            ← drop-drop 8 8 p,
          )
          (ap (λ (x : List ℕ). take 8 p ++ x) (take-append-drop 8 (drop 8 p))
            ∙ take-append-drop 8 p),
      (rw (read_u64_lem p h) (get_u64-lt p h), to_i64-IsI64 (read_u64 (drop 8 p)), ih.1),
      ap suc ih.2,
    )

abbrev decoded : List ℕ → Transfer
decoded bytes = record {
  idem_key = read_u64 bytes;
  postings = decode_postings (get_u32 (drop 8 bytes)) (drop 12 bytes);
}

decode_transfer_inv :
    (bytes : List ℕ) (t : Transfer)
    → decode_transfer bytes ≡ some t
    → (12 ≤ length bytes)
      × (2 ≤ get_u32 (drop 8 bytes))
      × (get_u32 (drop 8 bytes) ≤ 8)
      × (length bytes ≡ 12 + 16 * get_u32 (drop 8 bytes))
      × (t ≡ decoded bytes)
unfolding decode_transfer
decode_transfer_inv bytes t e =
    (ground arith, ground arith, ground arith, ground arith, ground arith)

parse_back :
    (bytes : List ℕ)
    → AllLt 256 bytes
    → 12 ≤ length bytes
    → (postings_bytes (decoded bytes).postings ≡ drop 12 bytes)
      × AreTyped (decoded bytes).postings
      × (length (decoded bytes).postings ≡ get_u32 (drop 8 bytes))
    → transfer_bytes (decoded bytes) ≡ bytes
unfolding transfer_bytes
parse_back bytes h long (same, _, count) =
    let bytes8 : AllLt 256 (drop 8 bytes) = AllLt-drop 256 8 bytes h in
    rw
      (
        same,
        count,
        read_u64_lem bytes h,
        put_u64-get_u64-take bytes h (omega arith),
        put_u32-get_u32-take (drop 8 bytes) bytes8 (omega (arith, length-drop 8 bytes)),
        ← drop-drop 4 8 bytes,
      )
      (ap (λ (x : List ℕ). take 8 bytes ++ x) (take-append-drop 4 (drop 8 bytes))
        ∙ take-append-drop 8 bytes)

-- Bytes that decode are exactly the encoding of what they decode to, with nothing left over, and
-- it is a transfer of 2 to 8 postings with integers in the range of their C++ types.
pub encode_transfer-decode_transfer :
    (bytes : List ℕ) (t : Transfer)
    → AllLt 256 bytes
    → decode_transfer bytes ≡ some t
    → (encode_transfer [] t ≡ bytes) × IsTyped t × (2 ≤ length t.postings) × (length t.postings ≤ 8)
encode_transfer-decode_transfer bytes t h e =
    let n : ℕ = get_u32 (drop 8 bytes) in
    let tests = decode_transfer_inv bytes t e in
    let rest =
      postings_bytes-decode_postings n (drop 12 bytes) (AllLt-drop 256 12 bytes h)
        (omega (arith, length-drop 12 bytes)) in
    rw (tests.4, encode_transfer_lem [] (decoded bytes))
      (
        parse_back bytes h tests.0 rest,
        ((rw (read_u64_lem bytes h) (get_u64-lt bytes h)), rest.1),
        omega arith,
        omega arith,
      )
