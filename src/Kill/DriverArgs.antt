-- ===== src/Kill/DriverArgs.antt =====
-- What kill_driver.cpp reads from its command line.
use Prim.Native.String.{String}
use text.Mathlib.Text.{◌==◌ as str_eq}
use iron_ledger.Common.{
  ℕ, ◌%◌, ◌^◌, ◌<◌, ◌≡◌, ◌⊎◌, inl, inr, refl, sym, subst, Bool, true, false, ◌||◌, List, [], ◌∷◌,
  if◌then◌else◌, arith,
}
use iron_ledger.Conversions.{Conversions}
use iron_ledger.Kill.Driver.{
  DriverParams, Millis, DriverEnd, driver_params, driver_exits, set_param, read_params,
}

module _ {F : Type 0} (c : Conversions) (d : Millis F) where
  -- The fields of a uint32_t hold one, and an exit code is one of two.
  abbrev pub IsParams : DriverEnd F → Type 0
  IsParams (driver_params p) = (p.group < 2 ^ 32) × (p.accounts < 2 ^ 32)
  IsParams (driver_exits exit) = (exit ≡ 0) ⊎ (exit ≡ 2)

  if-IsParams :
      (b : Bool) (x y : DriverEnd F) → IsParams x → IsParams y → IsParams (if b then x else y)
  if-IsParams true x y h k = h
  if-IsParams false x y h k = k

  set_param-IsParams :
      (a next : String) (p : DriverParams F)
      → IsParams (driver_params p)
      → IsParams (set_param c d a next p)
  unfolding set_param
  set_param-IsParams a next p h =
      let wrap : (n : ℕ) → n % 2 ^ 32 < 2 ^ 32 = λ n. omega arith in
      if-IsParams (str_eq a "--trials") _ _ h (
        if-IsParams (str_eq a "--seed") _ _ h (
          if-IsParams (str_eq a "--group") _ _ (wrap (c.strtoul next), h.1)
            (if-IsParams (str_eq a "--accounts") _ _ (h.0, wrap (c.strtoul next))
              (if-IsParams (str_eq a "--min-ms") _ _ h (
                if-IsParams (str_eq a "--max-ms") _ _ h (
                  if-IsParams (str_eq a "--worker") _ _ h (
                    if-IsParams (str_eq a "--dir") _ _ h
                      (if-IsParams (str_eq a "--csv") _ _ h (inr refl)))))))))

  -- The loop behind an option with a value.
  after_param : List String → DriverEnd F → DriverEnd F
  after_param rest (driver_params p) = read_params c d rest p
  after_param rest (driver_exits exit) = driver_exits exit

  -- The body of the loop, where there is a further argument.
  one_argument : String → String → List String → DriverParams F → DriverEnd F
  one_argument a next rest p = elim (str_eq a "--quiet") [
    | true ↦ read_params c d (next ∷ rest) (record p { quiet = true })
    | false ↦ elim (str_eq a "--help" || str_eq a "-h") [
      | true ↦ driver_exits 0
      | false ↦ after_param rest (set_param c d a next p)
    ]
  ]

  choose-IsParams :
      (b : Bool) (x y : DriverEnd F)
      → IsParams x
      → IsParams y
      → IsParams (elim b [ true ↦ x | false ↦ y ])
  choose-IsParams true x y h k = h
  choose-IsParams false x y h k = k

  one_argument-IsParams :
      (a next : String) (rest : List String) (p : DriverParams F)
      → IsParams (read_params c d (next ∷ rest) (record p { quiet = true }))
      → IsParams (after_param rest (set_param c d a next p))
      → IsParams (one_argument a next rest p)
  unfolding one_argument
  one_argument-IsParams a next rest p more behind =
      choose-IsParams (str_eq a "--quiet") _ _ more
        (choose-IsParams (str_eq a "--help" || str_eq a "-h") _ _ (inl refl) behind)

  argument_read :
      (a next : String) (rest : List String) (p : DriverParams F)
      → read_params c d (a ∷ next ∷ rest) p ≡ one_argument a next rest p
  unfolding read_params after_param one_argument
  argument_read a next rest p = refl

  after_param-IsParams :
      (rest : List String) (x : DriverEnd F)
      → IsParams x
      → ((p : DriverParams F) → IsParams (driver_params p) → IsParams (read_params c d rest p))
      → IsParams (after_param rest x)
  unfolding after_param
  after_param-IsParams rest (driver_params p) h k = k p h
  after_param-IsParams rest (driver_exits exit) h k = h

  pub read_params-IsParams :
      (args : List String) (p : DriverParams F)
      → IsParams (driver_params p)
      → IsParams (read_params c d args p)
  read_params-IsParams [] p h = unfold read_params in h
  read_params-IsParams (a ∷ []) p h =
      unfold read_params in
      if-IsParams (str_eq a "--quiet") _ _ h
        (if-IsParams (str_eq a "--help" || str_eq a "-h") _ _ (inl refl) (inr refl))
  read_params-IsParams (a ∷ next ∷ rest) p h =
      let more = read_params-IsParams (next ∷ rest) (record p { quiet = true }) h in
      let behind =
        after_param-IsParams rest (set_param c d a next p) (set_param-IsParams a next p h)
          (λ q k. read_params-IsParams rest q k) in
      subst IsParams (sym (argument_read a next rest p))
        (one_argument-IsParams a next rest p more behind)
