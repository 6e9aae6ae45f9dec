-- ===== src/Dex/Ends.antt =====
-- The ends of a result: it has a property, or its error is of a class of errors to which
-- `DexFormatError` belongs.
use android_appsec_assessor.Prelude.{
  ℕ, ◌<◌, ◌≡◌, refl, Bool, true, false, String, List, length, some, get_elem?, if◌then◌else◌,
}
use android_appsec_assessor.Errors.{
  ErrorKind, Error, Result, ok, err, fault, dex_format_error, require, ◌>>=◌, ◌>>◌,
}
use android_appsec_assessor.Dex.Tables.{item}
use android_appsec_assessor.Dex.Raises.{Owes}
use android_appsec_assessor.Dex.Reads.{Some, get_elem?-item}

pub data Ends {A : Type 0} (Raised : ErrorKind → Type 0) (P : A → Type 0) : Result A → Type 0 where
  returned : (a : A) → P a → Ends Raised P (ok a)
  raised : (e : Error) → Raised e.kind → Ends Raised P (err e)

module _ {Raised : ErrorKind → Type 0} {A : Type 0} where
  pub Ends-bind :
      {B : Type 0} (P : A → Type 0) (Q : B → Type 0) (r : Result A) (next : A → Result B)
      → Ends Raised P r
      → ((a : A) → P a → Ends Raised Q (next a))
      → Ends Raised Q (r >>= next)
  Ends-bind P Q _ next (returned a h) k = k a h
  Ends-bind P Q _ next (raised e h) k = raised e h

  pub Ends-then :
      {B : Type 0} (Q : B → Type 0) (r : Result A) (next : A → Result B)
      → Ends Raised (Some A) r
      → ((a : A) → Ends Raised Q (next a))
      → Ends Raised Q (r >>= next)
  Ends-then Q r next h k = Ends-bind (Some A) Q r next h (λ a t. k a)

  pub Ends-ok : (P : A → Type 0) (a : A) → P a → Ends Raised P (ok a)
  Ends-ok P a h = returned a h

  pub Ends-if :
      (P : A → Type 0) (b : Bool) (x y : Result A)
      → (b ≡ true → Ends Raised P x)
      → (b ≡ false → Ends Raised P y)
      → Ends Raised P (if b then x else y)
  Ends-if P true x y h k = h refl
  Ends-if P false x y h k = k refl

  -- An index within a list.
  pub Ends-item :
      {B : Type 0} (Q : B → Type 0) (xs : List A) (i : ℕ) (next : A → Result B)
      → i < length xs
      → ((x : A) → get_elem? xs i ≡ some x → Ends Raised Q (next x))
      → Ends Raised Q (item xs i >>= next)
  unfolding item
  Ends-item Q xs i next h k = let (x, e) = get_elem?-item xs i h in rw (e, ◌>>=◌, item) (k x e)

-- What raises nothing but `DexFormatError`, and its errors.
module _ {Raised : ErrorKind → Type 0} (refused : Raised dex_format_error) {A : Type 0} where
  Ends-Owes : (P : A → Type 0) (r : Result A) → Owes P r → Ends Raised P r
  unfolding Owes
  Ends-Owes P (ok a) h = returned a h
  Ends-Owes P (err e) h = raised e (rw h refused)

  pub Ends-after :
      {B : Type 0} (P : A → Type 0) (Q : B → Type 0) (r : Result A) (next : A → Result B)
      → Owes P r
      → ((a : A) → P a → Ends Raised Q (next a))
      → Ends Raised Q (r >>= next)
  Ends-after P Q r next h k = Ends-bind P Q r next (Ends-Owes P r h) k

  pub Ends-read :
      {B : Type 0} (Q : B → Type 0) (r : Result A) (next : A → Result B)
      → Owes (Some A) r
      → ((a : A) → Ends Raised Q (next a))
      → Ends Raised Q (r >>= next)
  Ends-read Q r next h k = Ends-after (Some A) Q r next h (λ a t. k a)

  pub Ends-require :
      (P : A → Type 0) (b : Bool) (message : String) (rest : Result A)
      → (b ≡ true → Ends Raised P rest)
      → Ends Raised P (require b dex_format_error message >> rest)
  Ends-require P true message rest h = h refl
  Ends-require P false message rest h = raised _ refused

  pub Ends-err :
      (P : A → Type 0) (message : String) → Ends Raised P (err (fault dex_format_error message))
  Ends-err P message = raised _ refused
