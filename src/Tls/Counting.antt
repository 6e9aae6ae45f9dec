-- ===== src/Tls/Counting.antt =====
-- Sets of flows and their sizes: the evidence that `from_events` counts passes its own checks.
use android_appsec_assessor.Prelude.{
  suc, ◌≤◌, String, true, false, ◌≡◌, ◌∙◌, sym, refl, List, [], ◌∷◌, any, length, arith, eq_iff,
  ◌=ₛ◌, if◌then◌else◌, Bool-cases, inl, inr,
}
use android_appsec_assessor.Scope.{is_in}
use android_appsec_assessor.Findings.{unique_from}
use android_appsec_assessor.Findings.Validated.{is_in-unique_from}

-- No text twice.
abbrev Distinct : List String → Type 0
Distinct [] = Unit
Distinct (x ∷ xs) = (is_in x xs ≡ false) × Distinct xs

unique_from-Distinct :
    (seen xs : List String)
    → Distinct (unique_from seen xs)
      × ((s : String) → is_in s seen ≡ true → is_in s (unique_from seen xs) ≡ false)
unfolding unique_from
unique_from-Distinct seen [] = (tt, λ s h. refl)
unique_from-Distinct seen (x ∷ xs) = elim (Bool-cases (any (λ y. y =ₛ x) seen)) [
  | inl old ↦ rw old (unique_from-Distinct seen xs)
  | inr new ↦
      let (distinct, apart) = unique_from-Distinct (x ∷ seen) xs in
      rw new (
        (apart x (ground (arith, eq_iff x x)), distinct),
        λ s h. ground (arith, eq_iff x s, apart s (ground arith)),
      )
]

without_first : String → List String → List String
without_first s [] = []
without_first s (y ∷ ys) = let rest = y ∷ without_first s ys in if y =ₛ s then ys else rest

length-without_first :
    (s : String) (ys : List String)
    → is_in s ys ≡ true
    → suc (length (without_first s ys)) ≡ length ys
unfolding without_first
length-without_first s [] h = cc
length-without_first s (y ∷ ys) h = ground (arith, length-without_first s ys)

is_in-without_first :
    (s t : String) (ys : List String)
    → (s =ₛ t) ≡ false
    → is_in t ys ≡ true
    → is_in t (without_first s ys) ≡ true
unfolding without_first
is_in-without_first s t [] h m = cc
is_in-without_first s t (y ∷ ys) h m =
    ground (arith, eq_iff y s, eq_iff y t, eq_iff s t, is_in-without_first s t ys h)

-- A list without repetitions is no longer than one that has its members.
length_le :
    (xs ys : List String)
    → Distinct xs
    → ((s : String) → is_in s xs ≡ true → is_in s ys ≡ true)
    → length xs ≤ length ys
length_le [] ys d inside = omega arith
length_le (x ∷ xs) ys d inside =
    let here = inside x (ground (arith, eq_iff x x)) in
    let rest = length_le xs (without_first x ys) d.1 (λ s h.
      is_in-without_first x s ys (ground (arith, eq_iff x s, d.0, h)) (inside s (ground arith))) in
    omega (arith, rest, length-without_first x ys here)

pub length-unique_le :
    (xs ys : List String)
    → ((s : String) → is_in s xs ≡ true → is_in s ys ≡ true)
    → length (unique_from [] xs) ≤ length (unique_from [] ys)
length-unique_le xs ys inside =
    length_le (unique_from [] xs) (unique_from [] ys) (unique_from-Distinct [] xs).0
      (λ s h. is_in-unique_from s [] ys ∙ inside s (sym (is_in-unique_from s [] xs) ∙ h))
