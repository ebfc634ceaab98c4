-- ===== src/Ledger/Transfer/Frames.antt =====
-- The type of the transfers that can be sent, beside the type of the payloads that decode.
use mathlib.Core.Equiv.{◌≃◌, iso_to_equiv}
use mathlib.Core.HLevel.{Σ_prop_path}
use native.Mathlib.Bridge.{le_prop}
use iron_ledger.Common.{
  ℕ, ◌≤◌, ◌≡◌, refl, sym, ◌∙◌, ap, subst, Bool, true, false, Option, none, some, List, [], ◌∷◌,
  length, AllLt,
}
use iron_ledger.Ledger.Transfer.{
  Posting, Transfer, AreTyped, IsTyped, encode_transfer, decode_transfer,
}
use iron_ledger.Ledger.Transfer.RoundTrip.{
  transfer_bytes_lt, encode_transfer_lem, decode_transfer-encode_transfer,
  encode_transfer-decode_transfer,
}

-- The transfers whose integers are in the range of their C++ types, with 2 to 8 postings.
abbrev pub IsSendable : Transfer → Type 0
IsSendable t = IsTyped t × (2 ≤ length t.postings) × (length t.postings ≤ 8)

abbrev pub Sendable : Type 0
Sendable = (t : Transfer) × IsSendable t

-- The payloads that decode.
abbrev pub decodes : Option Transfer → Bool
decodes none = false
decodes (some t) = true

abbrev pub IsPayload : List ℕ → Type 0
IsPayload bytes = AllLt 256 bytes × (decodes (decode_transfer bytes) ≡ true)

abbrev pub Payload : Type 0
Payload = (bytes : List ℕ) × IsPayload bytes

AreTyped-prop : (ps : List Posting) → IsProp (AreTyped ps)
AreTyped-prop [] = hlevel
AreTyped-prop (p ∷ ps) = hlevel (le_prop, AreTyped-prop ps)

IsSendable-prop : (t : Transfer) → IsProp (IsSendable t)
IsSendable-prop t = hlevel (le_prop, AreTyped-prop)

AllLt-prop : (n : ℕ) (bytes : List ℕ) → IsProp (AllLt n bytes)
AllLt-prop n [] = hlevel
AllLt-prop n (b ∷ bytes) = hlevel (le_prop, AllLt-prop n bytes)

IsPayload-prop : (bytes : List ℕ) → IsProp (IsPayload bytes)
IsPayload-prop bytes = hlevel (AllLt-prop)

encode_transfer_bytes : (t : Transfer) → AllLt 256 (encode_transfer [] t)
encode_transfer_bytes t = subst (AllLt 256) (sym (encode_transfer_lem [] t)) (transfer_bytes_lt t)

to_payload : Sendable → Payload
to_payload (t, (typed, lo, hi)) = (
  encode_transfer [] t,
  (encode_transfer_bytes t, ap decodes (decode_transfer-encode_transfer t typed lo hi)),
)

-- The transfer of a payload.
parsed : (o : Option Transfer) → decodes o ≡ true → (t : Transfer) × (o ≡ some t)
parsed none h = cc
parsed (some t) h = (t, refl)

from_payload : Payload → Sendable
from_payload (bytes, (range, h)) =
    let (t, e) = parsed (decode_transfer bytes) h in
    let back = encode_transfer-decode_transfer bytes t range e in (t, (back.1, back.2, back.3))

some_injective : (t u : Transfer) → some t ≡ some u → t ≡ u
some_injective t u e = cc

from_payload-to_payload : (s : Sendable) → from_payload (to_payload s) ≡ s
unfolding from_payload to_payload
from_payload-to_payload (t, (typed, lo, hi)) =
    let (u, e) =
      parsed (decode_transfer (encode_transfer [] t)) (to_payload (t, (typed, lo, hi))).1.1 in
    Σ_prop_path IsSendable-prop
      (some_injective u t (sym e ∙ decode_transfer-encode_transfer t typed lo hi))

to_payload-from_payload : (p : Payload) → to_payload (from_payload p) ≡ p
unfolding from_payload to_payload
to_payload-from_payload (bytes, (range, h)) =
    let (t, e) = parsed (decode_transfer bytes) h in
    Σ_prop_path IsPayload-prop (encode_transfer-decode_transfer bytes t range e).0

-- The type of the transfers of 2 to 8 postings with integers in the range of their C++ types is
-- equivalent to the type of the byte strings that DecodeTransfer accepts, by EncodeTransfer: no
-- two transfers have the same bytes, and no accepted bytes are not the encoding of a transfer.
pub Sendable-equiv :
    (e : Sendable ≃ Payload) × ((s : Sendable) → (e.0 s).0 ≡ encode_transfer [] s.0)
unfolding to_payload
Sendable-equiv = (
  iso_to_equiv (record {
    fun = to_payload;
    inv = from_payload;
    rinv = to_payload-from_payload;
    linv = from_payload-to_payload;
  }),
  λ s. refl,
)
