-- ===== src/Dex/Units.antt =====
-- The units of a code item in android_assessor/static_apk_analysis.py, and the bytes of the file that
-- they are read from.
use android_appsec_assessor.Prelude.{
  ℕ, zero, suc, ◌+◌, ◌*◌, ◌-◌, ◌≤◌, ◌<◌, ◌≡◌, refl, ◌∙◌, List, [], ◌∷◌, length, get_elem?, take,
  arith,
}
use android_appsec_assessor.Dex.Instructions.{unit}
use android_appsec_assessor.Dex.CodeItem.{uint16_at, units_of, bytes_from}

length-bytes_from : (n : ℕ) (bytes : List ℕ) → length (bytes_from n bytes) ≡ length bytes - n
unfolding bytes_from
length-bytes_from zero bytes = omega arith
length-bytes_from (suc n) [] = omega arith
length-bytes_from (suc n) (b ∷ bytes) = omega (arith, length-bytes_from n bytes)

length-take : (n : ℕ) (bytes : List ℕ) → n ≤ length bytes → length (take n bytes) ≡ n
length-take zero bytes h = omega arith
length-take (suc n) [] h = omega (arith, h)
length-take (suc n) (b ∷ bytes) h = omega (arith, length-take n bytes (omega (arith, h)))

length-units_of : (n : ℕ) (bytes : List ℕ) → length bytes ≡ n * 2 → length (units_of bytes) ≡ n
unfolding units_of
length-units_of n [] h = omega (arith, h)
length-units_of n (low ∷ []) h = absurd (omega (arith, h))
length-units_of zero (low ∷ high ∷ bytes) h = absurd (omega (arith, h))
length-units_of (suc n) (low ∷ high ∷ bytes) h =
    omega (arith, length-units_of n bytes (omega (arith, h)))

get_elem?-bytes_from :
    (n : ℕ) (bytes : List ℕ) (i : ℕ) → get_elem? (bytes_from n bytes) i ≡ get_elem? bytes (n + i)
unfolding bytes_from
get_elem?-bytes_from zero bytes i = ground arith
get_elem?-bytes_from (suc n) [] i = ground arith
get_elem?-bytes_from (suc n) (b ∷ bytes) i = ground (arith, get_elem?-bytes_from n bytes i)

get_elem?-take :
    (n : ℕ) (bytes : List ℕ) (i : ℕ) → i < n → get_elem? (take n bytes) i ≡ get_elem? bytes i
get_elem?-take zero bytes i h = absurd (omega (arith, h))
get_elem?-take (suc n) [] i h = refl
get_elem?-take (suc n) (b ∷ bytes) zero h = refl
get_elem?-take (suc n) (b ∷ bytes) (suc i) h = get_elem?-take n bytes i (omega (arith, h))

same_unit : (xs ys : List ℕ) (i j : ℕ) → get_elem? xs i ≡ get_elem? ys j → unit xs i ≡ unit ys j
unfolding unit
same_unit xs ys i j h = rw (h, unit) refl

same_number :
    (xs ys : List ℕ) (i j : ℕ)
    → get_elem? xs i ≡ get_elem? ys j
    → get_elem? xs (i + 1) ≡ get_elem? ys (j + 1)
    → uint16_at xs i ≡ uint16_at ys j
unfolding uint16_at
same_number xs ys i j h k = rw (same_unit xs ys i j h) (rw (same_unit xs ys (i + 1) (j + 1) k) refl)

two_further :
    (low high : ℕ) (bytes : List ℕ) (i : ℕ)
    → uint16_at bytes (i * 2) ≡ uint16_at (low ∷ high ∷ bytes) (suc i * 2)
two_further low high bytes i =
    let twice : suc i * 2 ≡ suc (suc (i * 2)) = omega arith in
    let next : suc (suc (i * 2)) + 1 ≡ suc (suc (i * 2 + 1)) = omega arith in
    rw twice
      (same_number bytes (low ∷ high ∷ bytes) (i * 2) (suc (suc (i * 2))) refl (rw next refl))

unit-units_of :
    (n : ℕ) (bytes : List ℕ) (i : ℕ)
    → length bytes ≡ n * 2
    → i < n
    → unit (units_of bytes) i ≡ uint16_at bytes (i * 2)
unfolding units_of unit uint16_at
unit-units_of n [] i h k = absurd (omega (arith, h, k))
unit-units_of n (low ∷ []) i h k = absurd (omega (arith, h))
unit-units_of zero (low ∷ high ∷ bytes) i h k = absurd (omega (arith, k))
unit-units_of (suc n) (low ∷ high ∷ bytes) zero h k = refl
unit-units_of (suc n) (low ∷ high ∷ bytes) (suc i) h k =
    same_unit (units_of (low ∷ high ∷ bytes)) (units_of bytes) (suc i) i refl
    ∙ unit-units_of n bytes i (omega (arith, h)) (omega (arith, k))
    ∙ two_further low high bytes i

module _ (file : List ℕ) (start size : ℕ) (fits : start + size * 2 ≤ length file) where
  abbrev cast : List ℕ
  cast = take (size * 2) (bytes_from start file)

  length-cast : length cast ≡ size * 2
  length-cast =
      length-take (size * 2) (bytes_from start file)
        (omega (arith, fits, length-bytes_from start file))

  -- The units that are cast from a file are as many as the code item says.
  pub length-cast_units : length (units_of cast) ≡ size
  length-cast_units = length-units_of size cast length-cast

  get_elem?-cast : (i : ℕ) → i < size * 2 → get_elem? cast i ≡ get_elem? file (start + i)
  get_elem?-cast i h =
      get_elem?-take (size * 2) (bytes_from start file) i h ∙ get_elem?-bytes_from start file i

  -- A unit is the number of two bytes that stands in the file at its place.
  pub unit-cast_units : (i : ℕ) → i < size → unit (units_of cast) i ≡ uint16_at file (start + i * 2)
  unit-cast_units i h =
      unit-units_of size cast i length-cast h
      ∙ same_number cast file (i * 2) (start + i * 2) (get_elem?-cast (i * 2) (omega (arith, h)))
          (get_elem?-cast (i * 2 + 1) (omega (arith, h)) ∙ later i)
    where
      later : (i : ℕ) → get_elem? file (start + (i * 2 + 1)) ≡ get_elem? file (start + i * 2 + 1)
      later i = let same : start + (i * 2 + 1) ≡ start + i * 2 + 1 = omega arith in rw same refl
