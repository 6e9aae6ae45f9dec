-- ===== src/Dex/Reads.antt =====
-- A chain of results that raises nothing but `DexFormatError`, an index within a list, and the reading
-- of a ULEB128 value and of a text of a DEX file.
use android_appsec_assessor.Prelude.{
  ℕ, zero, suc, ◌+◌, ◌<◌, ◌≡◌, refl, inl, inr, true, not, ◌&&◌, ◌||◌, Option, none, some, List, [],
  ◌∷◌, length, take, min, ◌-◌, get_elem?, ltb, leb, ◌==◌, arith, Option-cases,
}
use android_appsec_assessor.Errors.{Result, ok, err, ◌>>=◌}
use android_appsec_assessor.Dex.{
  Decoded, read_uleb128, uleb_from, code_units, and_then, two_bytes, three_bytes, is_continuation,
  unit_of_two, unit_of_three, is_between,
}
use android_appsec_assessor.Dex.CodeItem.{bytes_from}
use android_appsec_assessor.Dex.Texts.{DexString, before_zero, decoded_string, read_dex_string}
use android_appsec_assessor.Dex.Tables.{item}
use android_appsec_assessor.Dex.Raises.{Owes, Owes-bind, Owes-if, Owes-require, Owes-ok, Owes-err}

-- Every result that returns, returns; what it is, is not said.
abbrev pub Some : (A : Type 0) → A → Type 0
Some A a = Unit {0}

-- A result of a chain with nothing to say of what stands before.
pub Owes-then :
    {A B : Type 0} (Q : B → Type 0) (r : Result A) (next : A → Result B)
    → Owes (Some A) r
    → ((a : A) → Owes Q (next a))
    → Owes Q (r >>= next)
Owes-then {A} Q r next h k = Owes-bind (Some A) Q r next h (λ a t. k a)

pub get_elem?-item :
    {A : Type 0} (xs : List A) (i : ℕ) → i < length xs → (x : A) × (get_elem? xs i ≡ some x)
get_elem?-item [] i h = absurd (ground (arith, h))
get_elem?-item (x ∷ xs) zero h = (x, refl)
get_elem?-item (x ∷ xs) (suc i) h = get_elem?-item xs i (ground arith)

-- An index within a list.
pub Owes-item :
    {A B : Type 0} (Q : B → Type 0) (xs : List A) (i : ℕ) (next : A → Result B)
    → i < length xs
    → ((x : A) → Owes Q (next x))
    → Owes Q (item xs i >>= next)
unfolding item
Owes-item Q xs i next h k = let (x, e) = get_elem?-item xs i h in rw (e, ◌>>=◌, item) (k x)

uleb_from-Owes :
    (rounds : ℕ) (bytes : List ℕ) (offset index decoded : ℕ)
    → Owes (Some Decoded) (uleb_from rounds bytes offset index decoded)
unfolding uleb_from
uleb_from-Owes zero bytes offset index decoded = Owes-err (Some Decoded) _
uleb_from-Owes (suc rounds) bytes offset index decoded =
    elim (Option-cases (get_elem? bytes (offset + index))) [
      | inl e ↦ rw (e, uleb_from) (Owes-err (Some Decoded) _)
      | inr (v, e) ↦
          rw (e, uleb_from)
            (Owes-if (Some Decoded) (ltb v 128) _ _
              (λ a.
                Owes-if (Some Decoded) (index == 4 && ltb 15 v) _ _ (λ b. Owes-err (Some Decoded) _)
                  (λ b. Owes-ok (Some Decoded) _ tt))
              (λ a. uleb_from-Owes rounds bytes offset (suc index) _))
    ]

pub read_uleb128-Owes :
    (bytes : List ℕ) (offset : ℕ) → Owes (Some Decoded) (read_uleb128 bytes offset)
unfolding read_uleb128
read_uleb128-Owes bytes offset = uleb_from-Owes 5 bytes offset 0 0

abbrev Units : List ℕ → Type 0
Units units = Unit {0}

and_then-Owes : (u : ℕ) (r : Result (List ℕ)) → Owes Units r → Owes Units (and_then u r)
unfolding Owes
and_then-Owes u (ok units) h = tt
and_then-Owes u (err e) h = h

two_bytes-Owes : (a b : ℕ) (r : Result (List ℕ)) → Owes Units r → Owes Units (two_bytes a b r)
unfolding two_bytes
two_bytes-Owes a b r h =
    Owes-if Units (not (is_continuation b)) _ _ (λ e. Owes-err Units _)
      (λ e.
        Owes-if Units (ltb (unit_of_two a b) 128 && not (unit_of_two a b == 0)) _ _
          (λ f. Owes-err Units _) (λ f. and_then-Owes _ r h))

three_bytes-Owes :
    (a b c : ℕ) (r : Result (List ℕ)) → Owes Units r → Owes Units (three_bytes a b c r)
unfolding three_bytes
three_bytes-Owes a b c r h =
    Owes-if Units (not (is_continuation b) || not (is_continuation c)) _ _ (λ e. Owes-err Units _)
      (λ e.
        Owes-if Units (ltb (unit_of_three a b c) 2048) _ _ (λ f. Owes-err Units _)
          (λ f. and_then-Owes _ r h))

code_units-Owes : (bytes : List ℕ) → Owes Units (code_units bytes)
unfolding code_units
code_units-Owes [] = Owes-ok Units _ tt
code_units-Owes (a ∷ []) =
    Owes-if Units (is_between 1 127 a) _ _ (λ e. Owes-ok Units _ tt) (λ e. Owes-err Units _)
code_units-Owes (a ∷ b ∷ []) =
    Owes-if Units (is_between 1 127 a) _ _ (λ e. and_then-Owes a _ (code_units-Owes (b ∷ [])))
      (λ e.
        Owes-if Units (is_between 192 223 a) _ _ (λ f. two_bytes-Owes a b _ (Owes-ok Units _ tt))
          (λ f. Owes-err Units _))
code_units-Owes (a ∷ b ∷ c ∷ more) =
    Owes-if Units (is_between 1 127 a) _ _ (λ e. and_then-Owes a _ (code_units-Owes (b ∷ c ∷ more)))
      (λ e.
        Owes-if Units (is_between 192 223 a) _ _
          (λ f. two_bytes-Owes a b _ (code_units-Owes (c ∷ more)))
          (λ f.
            Owes-if Units (is_between 224 239 a) _ _
              (λ g. three_bytes-Owes a b c _ (code_units-Owes more)) (λ g. Owes-err Units _)))

decoded_string-Owes :
    (raw : List ℕ) (declared start : ℕ) → Owes (Some DexString) (decoded_string raw declared start)
unfolding decoded_string
decoded_string-Owes raw declared start =
    Owes-then (Some DexString) (code_units raw) _ (code_units-Owes raw) (λ units.
      Owes-require (Some DexString) (length units == declared) _ _
        (λ e. Owes-ok (Some DexString) _ tt))

-- A text with its terminator, or none.
terminated-Owes :
    (found : Option (List ℕ)) (declared start work : ℕ)
    → Owes (Some DexString) (elim found as (λ x. Result DexString) [
      | none ↦
          ok (record { value = none; is_oversized = true; work_bytes = work; data_start = start })
      | some raw ↦ decoded_string raw declared start
    ])
terminated-Owes none declared start work = Owes-ok (Some DexString) _ tt
terminated-Owes (some raw) declared start work = decoded_string-Owes raw declared start

pub read_dex_string-Owes :
    (file : List ℕ) (offset maximum : ℕ)
    → Owes (Some DexString) (read_dex_string file offset maximum)
unfolding read_dex_string
read_dex_string-Owes file offset maximum =
    Owes-if (Some DexString) (ltb offset 112 || leb (length file) offset) _ _
      (λ e. Owes-err (Some DexString) _)
      (λ e.
        Owes-then (Some DexString) (read_uleb128 file offset) _ (read_uleb128-Owes file offset)
          (λ declared.
            let work = min (length file) (declared.offset + maximum + 1) - declared.offset in
            terminated-Owes (before_zero (take work (bytes_from declared.offset file)))
              declared.value declared.offset work))
