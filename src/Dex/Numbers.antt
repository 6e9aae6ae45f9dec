-- ===== src/Dex/Numbers.antt =====
-- The bounds of the numbers that are read from a DEX file, and their round trip.
use android_appsec_assessor.Prelude.{
  ℕ, zero, suc, ◌+◌, ◌*◌, ◌/◌, ◌%◌, ◌^◌, ◌≤◌, ◌<◌, ◌≡◌, ap, ◌∙◌, some, List, [], ◌∷◌, ◌++◌, length,
  get_elem?, arith, ltb, Option-cases, inl, inr, if◌then◌else◌,
}
use native.Mathlib.Nat.{zero-add, suc-add}
use android_appsec_assessor.Errors.{ok}
use android_appsec_assessor.Dex.{Decoded, uleb_from, read_uleb128}

length-get_elem? : (xs : List ℕ) (i : ℕ) {x : ℕ} → get_elem? xs i ≡ some x → i < length xs
length-get_elem? [] i h = cc
length-get_elem? (x ∷ xs) zero h = ground arith
length-get_elem? (x ∷ xs) (suc i) h = ground (arith, length-get_elem? xs i h)

inside_from :
    (rounds : ℕ) (bytes : List ℕ) (offset index decoded : ℕ) {d : Decoded}
    → uleb_from rounds bytes offset index decoded ≡ ok d
    → d.offset ≤ length bytes
unfolding uleb_from
inside_from zero bytes offset index decoded h = cc
inside_from (suc rounds) bytes offset index decoded {d} h =
    elim (Option-cases (get_elem? bytes (offset + index))) [
      | inl e ↦ ground (arith, e)
      | inr (v, e) ↦
          let in_range : offset + index < length bytes =
            length-get_elem? bytes (offset + index) e in
          let more = decoded + v % 128 * 2 ^ (index * 7) in
          ground (
            arith,
            e,
            in_range,
            λ (q : uleb_from rounds bytes offset (suc index) more ≡ ok d).
                inside_from rounds bytes offset (suc index) more q,
          )
    ]

-- What a number that was read is known to be.
pub record IsRead (bytes : List ℕ) (offset : ℕ) (d : Decoded) : Type 0 where
  pub small : d.value < 4294967296
  pub forward : offset < d.offset
  pub short : d.offset ≤ offset + 5
  pub inside : d.offset ≤ length bytes

-- A ULEB128 number that is read from a file, whatever its bytes are, fits in 32 bits, and was read
-- from at least one and at most five bytes of the file from the offset on.
pub read_uleb128-IsRead :
    (bytes : List ℕ) (offset : ℕ) {d : Decoded}
    → read_uleb128 bytes offset ≡ ok d
    → IsRead bytes offset d
unfolding read_uleb128 uleb_from
read_uleb128-IsRead bytes offset {d} h = record {
  small = ground arith;
  forward = ground arith;
  short = ground arith;
  inside = inside_from 5 bytes offset 0 0 h;
}

-- The ULEB128 form of a number, from the DEX format's definition.
unfoldable pub uleb128_digits : ℕ → ℕ → List ℕ
uleb128_digits zero v = v ∷ []
uleb128_digits (suc n) v =
    let more = uleb128_digits n (v / 128) in if ltb v 128 then v ∷ [] else (v % 128 + 128) ∷ more

abbrev pub uleb128 : ℕ → List ℕ
uleb128 v = uleb128_digits 4 v

get_elem?-append :
    (front back : List ℕ) (i : ℕ) → get_elem? (front ++ back) (length front + i) ≡ get_elem? back i
get_elem?-append [] back i = ap (λ j. get_elem? back j) (zero-add i)
get_elem?-append (x ∷ front) back i =
    ap (λ j. get_elem? (x ∷ (front ++ back)) j) (suc-add (length front) i)
    ∙ get_elem?-append front back i

-- A number of 32 bits that is written in its ULEB128 form anywhere in a file is read back, and the
-- reading ends behind its last byte.
pub read_uleb128-uleb128 :
    (front back : List ℕ) (v : ℕ)
    → v < 4294967296
    → read_uleb128 (front ++ (uleb128 v ++ back)) (length front)
      ≡ ok (record { value = v; offset = length front + length (uleb128 v) })
unfolding read_uleb128 uleb_from uleb128_digits
read_uleb128-uleb128 front back v h =
    let at : (i : ℕ)
        → get_elem? (front ++ (uleb128 v ++ back)) (length front + i)
          ≡ get_elem? (uleb128 v ++ back) i =
      λ i. get_elem?-append front (uleb128 v ++ back) i in
    ground (arith, h, at 0, at 1, at 2, at 3, at 4)
