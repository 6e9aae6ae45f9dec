-- ===== src/Dex/Raises.antt =====
-- The handlers of registers raise nothing but `DexFormatError`, and no branch reads more units than
-- the width of its instruction.
use android_appsec_assessor.Prelude.{
  ℕ, zero, suc, ◌+◌, ◌≤◌, ◌<◌, ◌≡◌, refl, Bool, true, false, inl, inr, String, none, some, List, [],
  ◌∷◌, length, get_elem?, ltb, leb, ◌==◌, arith, Bool-cases, if◌then◌else◌,
}
use android_appsec_assessor.Errors.{Result, ok, err, fault, dex_format_error, require, ◌>>=◌, ◌>>◌}
use android_appsec_assessor.Dex.{is_between}
use android_appsec_assessor.Dex.Instructions.{unit, is_one_of, opcode_width}
use android_appsec_assessor.Dex.Registers.{
  DexConstant, Code, ScanState, define_each, clear_flow_state, Effect, defines, clears, nothing,
  validate_register, define_register, copy_register, load_literal, move_wide, load_string,
  apply_effect, is_invoke, is_load, is_move,
}

-- A result has a property, or it is a `DexFormatError`.
unfoldable pub Owes : {A : Type 0} → (A → Type 0) → Result A → Type 0
Owes P (ok a) = P a
Owes P (err e) = e.kind ≡ dex_format_error

module _ {A : Type 0} where
  pub Owes-bind :
      {B : Type 0} (P : A → Type 0) (Q : B → Type 0) (r : Result A) (next : A → Result B)
      → Owes P r
      → ((a : A) → P a → Owes Q (next a))
      → Owes Q (r >>= next)
  unfolding Owes
  Owes-bind P Q (ok a) next h k = k a h
  Owes-bind P Q (err e) next h k = h

  pub Owes-map : (P Q : A → Type 0) (r : Result A) → Owes P r → ((a : A) → P a → Q a) → Owes Q r
  unfolding Owes
  Owes-map P Q (ok a) h k = k a h
  Owes-map P Q (err e) h k = h

  -- What a result is, where it returns.
  pub Owes-eq : (P : A → Type 0) (r : Result A) → Owes P r → Owes (λ a. r ≡ ok a) r
  unfolding Owes
  Owes-eq P (ok a) h = refl
  Owes-eq P (err e) h = h

  -- A property of what a result returns, which may use the equation of the result.
  pub Owes-both :
      (P Q : A → Type 0) (r : Result A) → Owes P r → ((a : A) → r ≡ ok a → P a → Q a) → Owes Q r
  unfolding Owes
  Owes-both P Q (ok a) h k = k a refl h
  Owes-both P Q (err e) h k = h

  pub Owes-if :
      (P : A → Type 0) (b : Bool) (x y : Result A)
      → (b ≡ true → Owes P x)
      → (b ≡ false → Owes P y)
      → Owes P (if b then x else y)
  Owes-if P true x y h k = h refl
  Owes-if P false x y h k = k refl

  pub Owes-require :
      (P : A → Type 0) (b : Bool) (message : String) (rest : Result A)
      → (b ≡ true → Owes P rest)
      → Owes P (require b dex_format_error message >> rest)
  unfolding Owes
  Owes-require P true message rest h = h refl
  Owes-require P false message rest h = refl

  pub Owes-ok : (P : A → Type 0) (a : A) → P a → Owes P (ok a)
  unfolding Owes
  Owes-ok P a h = h

  pub Owes-err : (P : A → Type 0) (message : String) → Owes P (err (fault dex_format_error message))
  unfolding Owes
  Owes-err P message = refl

get_elem?-inside : (xs : List ℕ) (i : ℕ) → i < length xs → (x : ℕ) × (get_elem? xs i ≡ some x)
get_elem?-inside [] i h = absurd (ground (arith, h))
get_elem?-inside (x ∷ xs) zero h = (x, refl)
get_elem?-inside (x ∷ xs) (suc i) h = get_elem?-inside xs i (ground arith)

abbrev Anything : ℕ → Type 0
Anything n = Unit {0}

-- Reading a unit of the code.
pub Owes-unit :
    {B : Type 0} (Q : B → Type 0) (insns : List ℕ) (i : ℕ) (next : ℕ → Result B)
    → i < length insns
    → ((u : ℕ) → Owes Q (next u))
    → Owes Q (unit insns i >>= next)
unfolding unit
Owes-unit Q insns i next h k = let (u, e) = get_elem?-inside insns i h in rw (e, ◌>>=◌, unit) (k u)

-- How many units the branch of an opcode reads, itself included.
unfoldable pub load_reads : ℕ → ℕ
load_reads opcode =
    if opcode == 0x12
    then 1
    else if opcode == 0x13
    then 2
    else if opcode == 0x14
    then 3
    else if opcode == 0x15
    then 2
    else if is_between 0x16 0x19 opcode
    then 1
    else if opcode == 0x1A
    then 2
    else 3

unfoldable pub move_reads : ℕ → ℕ
unfolding is_one_of
move_reads opcode =
    if is_one_of (0x01 ∷ 0x07 ∷ []) opcode
    then 1
    else if opcode == 0x04
    then 1
    else if is_one_of (0x02 ∷ 0x08 ∷ []) opcode
    then 2
    else if opcode == 0x05
    then 2
    else 3

unfoldable pub reads : ℕ → ℕ
unfolding load_reads move_reads
reads opcode =
    if is_load opcode
    then load_reads opcode
    else if is_move opcode
    then move_reads opcode
    else if is_invoke opcode
    then 3
    else 1

-- The test of every number below a bound.
below : ℕ → (ℕ → Bool) → Bool
below zero p = true
below (suc n) p = let rest = below n p in if p n then rest else false

below-holds : (n : ℕ) (p : ℕ → Bool) (i : ℕ) → below n p ≡ true → i < n → p i ≡ true
unfolding below
below-holds zero p i h k = absurd (ground (arith, k))
below-holds (suc n) p i h k = elim (Bool-cases (i == n)) [
  | inl last ↦ let same : i ≡ n = ground (arith, last) in rw same (ground (arith, h))
  | inr earlier ↦ below-holds n p i (ground arith) (ground (arith, earlier))
]

abbrev fits_width : ℕ → Bool
fits_width opcode = elim (opcode_width opcode) [ none ↦ true | some w ↦ leb (reads opcode) w ]

every_width : below 256 fits_width ≡ true
unfolding below opcode_width is_one_of reads load_reads move_reads
every_width = refl

pub reads-bound : (opcode w : ℕ) → opcode < 256 → opcode_width opcode ≡ some w → reads opcode ≤ w
reads-bound opcode w small e =
    let fits = below-holds 256 fits_width opcode every_width small in ground (arith, e, fits)

module _ (code : Code) where
  -- The calls found stay within the budget.
  abbrev pub IsBounded : ScanState → Type 0
  IsBounded s = length s.invocations ≤ code.invocation_budget

  IsBounded-define_each :
      (register width : ℕ) (s : ScanState) → IsBounded s → IsBounded (define_each register width s)
  unfolding define_each
  IsBounded-define_each register zero s h = h
  IsBounded-define_each register (suc width) s h = IsBounded-define_each (register + 1) width _ h

  pub define_register-Owes :
      (register width : ℕ) (s : ScanState)
      → IsBounded s
      → Owes IsBounded (define_register code register width s)
  unfolding define_register validate_register
  define_register-Owes register width s h =
      Owes-require IsBounded (leb (register + width) code.registers_size) _ _
        (λ valid. Owes-ok IsBounded _ (IsBounded-define_each register width s h))

  pub copy_register-Owes :
      (destination source : ℕ) (s : ScanState)
      → IsBounded s
      → Owes IsBounded (copy_register code destination source s)
  unfolding copy_register validate_register
  copy_register-Owes destination source s h =
      Owes-require IsBounded (leb (destination + 1) code.registers_size) _ _ (λ v.
        Owes-require IsBounded (leb (source + 1) code.registers_size) _ _
          (λ w. Owes-ok IsBounded _ h))

  pub load_literal-Owes :
      (register : ℕ) (c : DexConstant) (s : ScanState)
      → IsBounded s
      → Owes IsBounded (load_literal code register c s)
  unfolding load_literal
  load_literal-Owes register c s h =
      Owes-bind IsBounded IsBounded (define_register code register 1 s) _
        (define_register-Owes register 1 s h) (λ s' h'. Owes-ok IsBounded _ h')

  pub move_wide-Owes :
      (destination source : ℕ) (s : ScanState)
      → IsBounded s
      → Owes IsBounded (move_wide code destination source s)
  unfolding move_wide validate_register
  move_wide-Owes destination source s h =
      Owes-require IsBounded (leb (source + 2) code.registers_size) _ _
        (λ valid. define_register-Owes destination 2 s h)

  pub load_string-Owes :
      (register index : ℕ) (s : ScanState)
      → IsBounded s
      → Owes IsBounded (load_string code register index s)
  unfolding load_string
  load_string-Owes register index s h =
      Owes-require IsBounded (ltb index code.string_count) _ _
        (λ valid. load_literal-Owes register _ s h)

  pub apply_effect-Owes :
      (effect : Effect) (s : ScanState) → IsBounded s → Owes IsBounded (apply_effect code effect s)
  unfolding apply_effect clear_flow_state
  apply_effect-Owes (defines register width) s h = define_register-Owes register width s h
  apply_effect-Owes clears s h = Owes-ok IsBounded _ h
  apply_effect-Owes nothing s h = Owes-ok IsBounded _ h
