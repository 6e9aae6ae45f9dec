-- ===== src/Exec.antt =====
-- Methods that mutate an object and may raise: an action of `Exec S A` returns the state beside the
-- result, and beside the error too, since what was written before a raise stays written.
use android_appsec_assessor.Prelude.{String, Bool, true, false, Option, none, some, ◌≡◌, refl}
use android_appsec_assessor.Errors.{Error, ErrorKind, Result, ok, err, fault}

abbrev pub Exec {ℓ} : Type ℓ → Type ℓ → Type ℓ
Exec S A = S → Result A × S

module _ {ℓ} {S A : Type ℓ} where
  abbrev pub pure : A → Exec S A
  pure a s = (ok a, s)

  abbrev pub raise : ErrorKind → String → Exec S A
  raise k m s = (err (fault k m), s)

  -- A call of a pure function that may raise.
  abbrev pub lift : Result A → Exec S A
  lift r s = (r, s)

  abbrev pub gets : (S → A) → Exec S A
  gets f s = (ok (f s), s)

  -- `try: m except …`: the handler gives `none` for an error that it does not catch.
  abbrev pub caught : Result A → (Error → Option (Exec S A)) → Exec S A
  caught (ok a) h s = (ok a, s)
  caught (err e) h s = elim (h e) [ none ↦ (err e, s) | some m ↦ m s ]

  abbrev pub try_catch : Exec S A → (Error → Option (Exec S A)) → Exec S A
  try_catch m h s = let (r, s') = m s in caught r h s'

module _ {ℓ} {S A B : Type ℓ} where
  abbrev pub continue : Result A → (A → Exec S B) → Exec S B
  continue (ok a) f s = f a s
  continue (err e) f s = (err e, s)

  infixl 10 ◌>>=◌ ◌>>◌
  abbrev pub ◌>>=◌ : Exec S A → (A → Exec S B) → Exec S B
  ◌>>=◌ m next s = let (result, after) = m s in continue result next after

  abbrev pub ◌>>◌ : Exec S A → Exec S B → Exec S B
  first >> second = first >>= λ done. second

module _ {S : Type 0} where
  abbrev pub modify : (S → S) → Exec S (Unit {0})
  modify f s = (ok tt, f s)

  -- `if not test: raise`
  abbrev pub ensure : Bool → ErrorKind → String → Exec S (Unit {0})
  ensure true k m s = (ok tt, s)
  ensure false k m s = (err (fault k m), s)

-- What holds of the state whether an action returns or raises, one rule for each way to go on.
module _ {S A B : Type 0} (P : S → Type 0) where
  pub continue_keeps :
      (r : Result A) (f : A → Exec S B) (s : S)
      → P s
      → ((a : A) → r ≡ ok a → P (f a s).1)
      → P (continue r f s).1
  continue_keeps (ok a) f s h k = k a refl
  continue_keeps (err e) f s h k = h

-- A statement about the handler that an error finds, if it finds one.
abbrev pub OnSome {ℓ κ} : {A : Type ℓ} → (A → Type κ) → Option A → Type κ
OnSome Q none = Unit
OnSome Q (some a) = Q a

module _ {S A : Type 0} (P : S → Type 0) where
  handled_keeps :
      (e : Error) (o : Option (Exec S A)) (s : S)
      → P s
      → OnSome (λ m. P (m s).1) o
      → P (elim o as (λ _. Result A × S) [ none ↦ (err e, s) | some m ↦ m s ]).1
  handled_keeps e none s p k = p
  handled_keeps e (some m) s p k = k

  pub caught_keeps :
      (r : Result A) (h : Error → Option (Exec S A)) (s : S)
      → P s
      → ((e : Error) → r ≡ err e → OnSome (λ m. P (m s).1) (h e))
      → P (caught r h s).1
  caught_keeps (ok a) h s p k = p
  caught_keeps (err e) h s p k = handled_keeps e (h e) s p (k e refl)

-- Total correctness of a result: it is one, and `Q` holds of it.
abbrev pub Returns {ℓ} : {A : Type ℓ} → (A → Type 0) → Result A → Type 0
Returns Q (ok a) = Q a
Returns Q (err e) = ⊥

-- `Q` holds of the result, or `E` of the error.
abbrev pub Outcome {ℓ κ} : {A : Type ℓ} → (A → Type κ) → (Error → Type κ) → Result A → Type κ
Outcome Q E (ok a) = Q a
Outcome Q E (err e) = E e

module _ {S A B : Type 0} where
  pub continue-Outcome :
      (Q : B → Type 0) (E : Error → Type 0) (r : Result A) (f : A → Exec S B) (s : S)
      → Outcome (λ _. Unit {0}) E r
      → ((a : A) → r ≡ ok a → Outcome Q E (f a s).0)
      → Outcome Q E (continue r f s).0
  continue-Outcome Q E (ok a) f s h k = k a refl
  continue-Outcome Q E (err e) f s h k = h

  pub continue-Returns :
      (P : A → Type 0) (Q : B → Type 0) (r : Result A) (f : A → Exec S B) (s : S)
      → Returns P r
      → ((a : A) → r ≡ ok a → P a → Returns Q (f a s).0)
      → Returns Q (continue r f s).0
  continue-Returns P Q (ok a) f s h k = k a refl h
  continue-Returns P Q (err e) f s h k = absurd h

-- The handler that an error finds is what runs.
pub caught_handled :
    {S A : Type 0} (e : Error) (h : Error → Option (Exec S A)) {m : Exec S A} (s : S)
    → h e ≡ some m
    → caught (err e) h s ≡ m s
caught_handled e h s q i = elim (q i) [ none ↦ (err e, s) | some m ↦ m s ]

-- Inversion of a chain that returned.
module _ {S A B : Type 0} where
  pub continue-eq-ok :
      (r : Result A) (f : A → Exec S B) (s : S) {b : B} {s' : S}
      → continue r f s ≡ (ok b, s')
      → (a : A) × (r ≡ ok a) × (f a s ≡ (ok b, s'))
  continue-eq-ok (ok a) f s h = (a, refl, h)
  continue-eq-ok (err e) f s h = cc
