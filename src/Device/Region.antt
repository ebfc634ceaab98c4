-- ===== src/Device/Region.antt =====
-- What `persist` does to each byte, and the set of dirty sectors.
use iron_ledger.Common.{
  ℕ, zero, suc, ◌+◌, ◌-◌, ◌≤◌, max, ◌≡◌, refl, ap, ◌||◌, ◌&&◌, List, [], ◌∷◌, ltb, leb, ◌==◌,
  if◌then◌else◌, length, byte_at, slice, grow, arith, length-grow, byte_at-grow, length-copy_into,
  byte_at-copy_into, length-slice, byte_at-slice,
}
use iron_ledger.Device.{contains, insert, insert_range, persist}

module _ (from : List ℕ) (begin end : ℕ) (v : List ℕ) where
  pub length-persist :
      end ≤ length from → begin ≤ end → length (persist from begin end v) ≡ max (length v) end
  unfolding persist
  length-persist fits order = ground (
    arith,
    length-copy_into begin (slice begin end from) (grow end v),
    length-grow end v,
    length-slice begin end from fits,
  )

  back : (i : ℕ) → begin ≤ i → byte_at from (begin + (i - begin)) ≡ byte_at from i
  back i h = ap (byte_at from) (omega arith)

  -- From `begin` up to `end` the bytes of `from`, elsewhere those that were there.
  pub byte_at-persist :
      (i : ℕ)
      → end ≤ length from
      → begin ≤ end
      → byte_at (persist from begin end v) i
        ≡ (if leb begin i && ltb i end then byte_at from i else byte_at v i)
  unfolding persist
  byte_at-persist i fits order =
      rw
        (byte_at-copy_into begin (slice begin end from) (grow end v) i
          (omega (arith, length-grow end v)))
        (ground (
          arith,
          length-slice begin end from fits,
          byte_at-slice begin end from (i - begin),
          byte_at-grow end v i,
          back i,
        ))

pub contains-insert : (t s : ℕ) (ts : List ℕ) → contains t (insert s ts) ≡ (t == s || contains t ts)
unfolding insert
contains-insert t s [] = refl
contains-insert t s (x ∷ ts) = ground (arith, contains-insert t s ts)

pub contains-insert_range :
    (t s n : ℕ) (ts : List ℕ)
    → contains t (insert_range s n ts) ≡ ((leb s t && ltb t (s + n)) || contains t ts)
unfolding insert_range
contains-insert_range t s zero ts = ground arith
contains-insert_range t s (suc n) ts =
    ground (arith, contains-insert_range t (s + 1) n (insert s ts), contains-insert t s ts)
