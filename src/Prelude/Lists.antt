-- ===== src/Prelude/Lists.antt =====
-- Lists measured and indexed by the native numbers, and the Boolean quantifiers of Python's `all`
-- and `any`.
use Prim.Native.Nat.{ℕ, zero, suc, ◌+◌}
use mathlib.Core.Path.{◌≡◌, refl}
use mathlib.Core.Bool.{Bool, true, false, ◌&&◌, ◌||◌}
use mathlib.Core.Option.{Option, none, some}
use mathlib.Core.Logic.{◌⊎◌, inl, inr}
use mathlib.Core.List.{List, [], ◌∷◌, ◌++◌, reverse, reverse-append}
use native.Mathlib.Omega.{arith}

module _ {ℓ} {A : Type ℓ} where
  abbrev pub length : List A → ℕ
  length [] = 0
  length (x ∷ xs) = suc (length xs)

  abbrev pub get_elem? : List A → ℕ → Option A
  get_elem? [] i = none
  get_elem? (x ∷ xs) zero = some x
  get_elem? (x ∷ xs) (suc i) = get_elem? xs i

  abbrev pub take : ℕ → List A → List A
  take zero xs = []
  take (suc n) [] = []
  take (suc n) (x ∷ xs) = x ∷ take n xs

  -- `all(p(x) for x in xs)`
  abbrev pub all : (A → Bool) → List A → Bool
  all p [] = true
  all p (x ∷ xs) = p x && all p xs

  -- `any(p(x) for x in xs)`
  abbrev pub any : (A → Bool) → List A → Bool
  any p [] = false
  any p (x ∷ xs) = p x || any p xs

  -- `[x for x in xs if p(x)]`
  abbrev pub filter : (A → Bool) → List A → List A
  filter p [] = []
  filter p (x ∷ xs) = let rest = filter p xs in elim (p x) [ true ↦ x ∷ rest | false ↦ rest ]

  -- `next((x for x in xs if p(x)), None)`
  abbrev pub find_first : (A → Bool) → List A → Option A
  find_first p [] = none
  find_first p (x ∷ xs) = let rest = find_first p xs in elim (p x) [ true ↦ some x | false ↦ rest ]

  -- A statement about each item.
  abbrev pub All {κ} : (A → Type κ) → List A → Type κ
  All P [] = Unit
  All P (x ∷ xs) = P x × All P xs

  pub length-append : (xs ys : List A) → length (xs ++ ys) ≡ length xs + length ys
  length-append [] ys = omega arith
  length-append (x ∷ xs) ys = omega (arith, length-append xs ys)

  pub All-append {κ} :
      (P : A → Type κ) (front back : List A) → All P front → All P back → All P (front ++ back)
  All-append P [] back none_left h = h
  All-append P (x ∷ front) back (first, rest) h = (first, All-append P front back rest h)

module _ {A : Type 0} where
  -- An item of a list.
  abbrev pub Listed : A → List A → Type 0
  Listed x [] = ⊥
  Listed x (y ∷ ys) = (x ≡ y) ⊎ Listed x ys

  pub All-Listed : (P : A → Type 0) (xs : List A) → ((x : A) → Listed x xs → P x) → All P xs
  All-Listed P [] h = tt
  All-Listed P (x ∷ xs) h = (h x (inl refl), All-Listed P xs (λ y among. h y (inr among)))

module _ {ℓ} {A : Type ℓ} where
  pub All-map {κ ι} :
      (P : A → Type κ) (Q : A → Type ι) (xs : List A) → ((x : A) → P x → Q x) → All P xs → All Q xs
  All-map P Q [] f h = tt
  All-map P Q (x ∷ xs) f h = (f x h.0, All-map P Q xs f h.1)

  pub All-filter {κ} :
      (P : A → Type κ) (p : A → Bool) (xs : List A) → All P xs → All P (filter p xs)
  All-filter P p [] h = tt
  All-filter P p (x ∷ xs) h =
      elim (p x)
        as (λ b. All P (elim b as (λ _. List A) [ true ↦ x ∷ filter p xs | false ↦ filter p xs ])) [
          | true ↦ (h.0, All-filter P p xs h.1)
          | false ↦ All-filter P p xs h.1
        ]

  pub All-reverse {κ} : (P : A → Type κ) (xs : List A) → All P xs → All P (reverse xs)
  All-reverse P [] h = tt
  All-reverse P (x ∷ xs) h =
      rw (reverse-append (x ∷ []) xs)
        (All-append P (reverse xs) (x ∷ []) (All-reverse P xs h.1) (h.0, tt))

  -- A list none of whose items passes, read backwards too.
  pub filter-eq-nil : (p : A → Bool) (xs : List A) → All (λ x. p x ≡ false) xs → filter p xs ≡ []
  filter-eq-nil p [] h = refl
  filter-eq-nil p (x ∷ xs) h = ground (arith, h.0, filter-eq-nil p xs h.1)

  pub All-of-any : (p : A → Bool) (xs : List A) → any p xs ≡ false → All (λ x. p x ≡ false) xs
  All-of-any p [] h = tt
  All-of-any p (x ∷ xs) h = (ground arith, All-of-any p xs (ground arith))

  pub append-eq-nil : (xs ys : List A) → (xs ++ ys) ≡ [] → (xs ≡ []) × (ys ≡ [])
  append-eq-nil [] ys h = (refl, h)
  append-eq-nil (x ∷ xs) ys h = cc

  pub All-of_filter : (p : A → Bool) (xs : List A) → filter p xs ≡ [] → All (λ x. p x ≡ false) xs
  All-of_filter p [] h = tt
  All-of_filter p (x ∷ xs) h = (ground arith, All-of_filter p xs (ground arith))

  pub All-and {κ ι} :
      (P : A → Type κ) (Q : A → Type ι) (xs : List A)
      → All P xs
      → All Q xs
      → All (λ x. P x × Q x) xs
  All-and P Q [] p q = tt
  All-and P Q (x ∷ xs) p q = ((p.0, q.0), All-and P Q xs p.1 q.1)

  pub any-of_filter :
      (p : A → Bool) (xs : List A) {y : A} {ys : List A} → filter p xs ≡ y ∷ ys → any p xs ≡ true
  any-of_filter p [] h = cc
  any-of_filter p (x ∷ xs) {y} {ys} h = ground (arith, any-of_filter p xs {y = y} {ys = ys})
