-- ===== src/Prelude/Sorted.antt =====
-- The laws of sorted sets of texts: the order of texts is total, and the sorted set of a list is
-- strictly ascending with the members of the list.
use Prim.Native.Nat.{ℕ}
use Prim.Native.String.{String}
use mathlib.Core.Path.{◌≡◌, refl, ap, ◌∙◌, sym}
use mathlib.Core.Logic.{inl, inr}
use mathlib.Core.Bool.{Bool, true, false, not, ◌||◌}
use mathlib.Core.List.{List, [], ◌∷◌}
use native.Mathlib.Omega.{arith}
use text.Mathlib.Text.{◌==◌ as ◌=ₛ◌}
use text.Mathlib.TextEquality.{eq_iff, Char-path}
use android_appsec_assessor.Prelude.Tests.{Bool-cases, leb}
use android_appsec_assessor.Prelude.Lists.{any, length}
use android_appsec_assessor.Prelude.Text.{codes}
use android_appsec_assessor.Prelude.Case.{codes_before, before, insert_sorted, sorted_set}

codes_before_total :
    (cs ds : List ℕ) → codes_before cs ds ≡ false → codes_before ds cs ≡ false → cs ≡ ds
unfolding codes_before
codes_before_total [] [] h k = refl
codes_before_total [] (d ∷ ds) h k = cc
codes_before_total (c ∷ cs) [] h k = cc
codes_before_total (c ∷ cs) (d ∷ ds) h k = ground (arith, codes_before_total cs ds)

String-path : (s t : String) → codes s ≡ codes t → s ≡ t
String-path String.[] String.[] h = refl
String-path String.[] (String.◌∷◌ d t) h = cc
String-path (String.◌∷◌ c s) String.[] h = cc
String-path (String.◌∷◌ c s) (String.◌∷◌ d t) h =
    let same : s ≡ t = String-path s t (cc h) in let first : c ≡ d = Char-path c d (cc h) in cc

pub before_total : (s t : String) → before s t ≡ false → before t s ≡ false → s ≡ t
unfolding before
before_total s t h k = String-path s t (codes_before_total (codes s) (codes t) h k)

any-insert_sorted :
    (q : String → Bool) (x : String) (ys : List String)
    → any q (insert_sorted before x ys) ≡ (q x || any q ys)
unfolding insert_sorted
any-insert_sorted q x [] = refl
any-insert_sorted q x (y ∷ ys) = ground (arith, any-insert_sorted q x ys, before_total x y)

-- The sorted set has the members of the list.
pub any-sorted_set :
    (q : String → Bool) (xs : List String) → any q (sorted_set before xs) ≡ any q xs
unfolding sorted_set
any-sorted_set q [] = refl
any-sorted_set q (x ∷ xs) =
    any-insert_sorted q x (sorted_set before xs) ∙ ap (λ b. q x || b) (any-sorted_set q xs)

-- Each text stands before the next.
abbrev pub IsAscending : List String → Type 0
IsAscending [] = Unit
IsAscending (x ∷ []) = Unit
IsAscending (x ∷ y ∷ ys) = (before x y ≡ true) × IsAscending (y ∷ ys)

insert_sorted-IsAscending :
    (x : String) (ys : List String) → IsAscending ys → IsAscending (insert_sorted before x ys)
unfolding insert_sorted
insert_sorted-IsAscending x [] h = tt
insert_sorted-IsAscending x (y ∷ []) h = ground arith
insert_sorted-IsAscending x (y ∷ z ∷ zs) h =
    ground (arith, insert_sorted-IsAscending x (z ∷ zs) h.1)

pub sorted_set-IsAscending : (xs : List String) → IsAscending (sorted_set before xs)
unfolding sorted_set
sorted_set-IsAscending [] = tt
sorted_set-IsAscending (x ∷ xs) = insert_sorted-IsAscending x _ (sorted_set-IsAscending xs)

codes_before_irrefl : (cs : List ℕ) → codes_before cs cs ≡ false
unfolding codes_before
codes_before_irrefl [] = refl
codes_before_irrefl (c ∷ cs) = ground (arith, codes_before_irrefl cs)

pub before_irrefl : (s : String) → before s s ≡ false
unfolding before
before_irrefl s = codes_before_irrefl (codes s)

-- An ascending list with a given member is longer than one exactly when it has another member.
pub leb-length_ascending :
    (xs : List String) (s : String)
    → IsAscending xs
    → any (λ y. y =ₛ s) xs ≡ true
    → leb 2 (length xs) ≡ any (λ y. not (y =ₛ s)) xs
leb-length_ascending [] s h m = cc
leb-length_ascending (x ∷ []) s h m = ground arith
leb-length_ascending (x ∷ y ∷ ys) s h m =
    let apart : (x ≡ y → ⊥) = λ e. cc (before_irrefl y, h.0) in
    ground (arith, eq_iff x s, eq_iff y s, apart)

codes_before_trans :
    (cs ds es : List ℕ)
    → codes_before cs ds ≡ true
    → codes_before ds es ≡ true
    → codes_before cs es ≡ true
unfolding codes_before
codes_before_trans [] [] es h k = cc
codes_before_trans [] (d ∷ ds) [] h k = cc
codes_before_trans [] (d ∷ ds) (e ∷ es) h k = refl
codes_before_trans (c ∷ cs) [] es h k = cc
codes_before_trans (c ∷ cs) (d ∷ ds) [] h k = cc
codes_before_trans (c ∷ cs) (d ∷ ds) (e ∷ es) h k = ground (arith, codes_before_trans cs ds es)

before_trans : (s t u : String) → before s t ≡ true → before t u ≡ true → before s u ≡ true
unfolding before
before_trans s t u h k = codes_before_trans (codes s) (codes t) (codes u) h k

-- The first text of an ascending list stands before the others.
before_first :
    (x s : String) (xs : List String)
    → IsAscending (x ∷ xs)
    → any (λ y. y =ₛ s) xs ≡ true
    → before x s ≡ true
before_first x s [] h m = cc
before_first x s (y ∷ ys) h m = elim (Bool-cases (y =ₛ s)) [
  | inl same ↦ rw (← ((eq_iff y s).0 same)) h.0
  | inr other ↦ before_trans x y s h.0 (before_first y s ys h.1 (ground arith))
]

abbrev is_in : String → List String → Bool
is_in s xs = any (λ y. y =ₛ s) xs

same_first :
    (x y : String) (xs ys : List String)
    → IsAscending (x ∷ xs)
    → IsAscending (y ∷ ys)
    → ((s : String) → is_in s (x ∷ xs) ≡ is_in s (y ∷ ys))
    → x ≡ y
same_first x y xs ys h k same = elim (Bool-cases (x =ₛ y)) [
  | inl e ↦ (eq_iff x y).0 e
  | inr other ↦
      let there : is_in x ys ≡ true = ground (arith, same x, eq_iff x x, eq_iff y x, eq_iff x y) in
      let here : is_in y xs ≡ true = ground (arith, same y, eq_iff y y, eq_iff x y) in
      let loop = before_trans x y x (before_first x y xs h here) (before_first y x ys k there) in
      cc (loop, before_irrefl x)
]

IsAscending-rest : (x : String) (xs : List String) → IsAscending (x ∷ xs) → IsAscending xs
IsAscending-rest x [] h = tt
IsAscending-rest x (y ∷ ys) h = h.1

not_first : (x : String) (xs : List String) → IsAscending (x ∷ xs) → is_in x xs ≡ false
not_first x xs h = elim (Bool-cases (is_in x xs)) [
  | inl m ↦ cc (before_first x x xs h m, before_irrefl x)
  | inr e ↦ e
]

-- Ascending lists with the same members are equal.
IsAscending-ext :
    (xs ys : List String)
    → IsAscending xs
    → IsAscending ys
    → ((s : String) → is_in s xs ≡ is_in s ys)
    → xs ≡ ys
IsAscending-ext [] [] h k same = refl
IsAscending-ext [] (y ∷ ys) h k same = absurd (ground (arith, same y, eq_iff y y))
IsAscending-ext (x ∷ xs) [] h k same = absurd (ground (arith, same x, eq_iff x x))
IsAscending-ext (x ∷ xs) (y ∷ ys) h k same =
    let e : x ≡ y = same_first x y xs ys h k same in
    let rest = IsAscending-ext xs ys (IsAscending-rest x xs h) (IsAscending-rest y ys k) (λ s.
      ground (arith, e, same s, eq_iff x s, eq_iff y s, not_first x xs h, not_first y ys k)) in
    cc (e, rest)

-- The sorted set depends on the members of a list only.
pub sorted_set-ext :
    (xs ys : List String)
    → ((q : String → Bool) → any q xs ≡ any q ys)
    → sorted_set before xs ≡ sorted_set before ys
sorted_set-ext xs ys same =
    IsAscending-ext (sorted_set before xs) (sorted_set before ys) (sorted_set-IsAscending xs)
      (sorted_set-IsAscending ys)
      (λ s.
        any-sorted_set (λ y. y =ₛ s) xs
        ∙ (same (λ y. y =ₛ s) ∙ sym (any-sorted_set (λ y. y =ₛ s) ys)))
