-- ===== src/Validation/ManagedPath.antt =====
-- Where the paths that the cleanup may remove lie.
use Prim.Native.Char.{Char, code}
use mathlib.Core.Path.{subst}
use text.Mathlib.TextLemmas.{nil-append, cons-append}
use android_appsec_assessor.Prelude.{
  ℕ, Bool, String, ◌<>◌, true, false, not, ◌&&◌, ◌≡◌, ◌∙◌, refl, ap, sym, List, [], ◌∷◌, ◌++◌, any,
  filter, All, All-filter, All-map, All-and, All-of-any, arith, ◌=ₛ◌, ◌==◌, eq_iff, Bool-cases, inl,
  inr,
}
use android_appsec_assessor.Prelude.Text.{codes, is_empty, split_from, split_slash, join_slash}
use android_appsec_assessor.Errors.{ok}
use android_appsec_assessor.Validation.{
  Root, relative, slash, double_slash, posix_path, as_posix, root_text, is_slash, remote_temp_parts,
  strictly_below, validate_managed_remote_path,
}

-- Whether a text has a slash, by its characters.
abbrev pub has_slash : List ℕ → Bool
has_slash cs = any (λ c. c == b'/') cs

same_text : (a b : String) → (a =ₛ b) ≡ true → a ≡ b
same_text a b h = ground (arith, eq_iff a b)

-- A path strictly below another has its parts and at least one more.
below :
    (qs ps : List String)
    → strictly_below qs ps ≡ true
    → (name : String) × (more : List String) × (ps ≡ qs ++ (name ∷ more))
unfolding strictly_below
below [] [] h = cc
below [] (p ∷ ps) h = (p, ps, refl)
below (q ∷ qs) [] h = cc
below (q ∷ qs) (p ∷ ps) h =
    let (name, more, e) = below qs ps (ground arith) in
    let same : q ≡ p = same_text q p (ground arith) in (name, more, cc (e, same))

-- One part of a path: a text without a slash that is neither empty nor `.` nor `..`.
pub record IsPart (part : String) : Type 0 where
  pub has_text : is_empty part ≡ false
  pub not_here : (part =ₛ ".") ≡ false
  pub not_parent : (part =ₛ "..") ≡ false
  pub no_slash : has_slash (codes part) ≡ false

-- The path below the prefix that a validated path names.
pub record IsManaged (value : String) : Type 0 where
  pub name : String
  pub more : List String
  pub located : value ≡ "/" <> join_slash (remote_temp_parts ++ (name ∷ more))
  pub parts : All IsPart (remote_temp_parts ++ (name ∷ more))

codes-snoc : (s : String) (c : Char) → codes (s <> String.◌∷◌ c "") ≡ codes s ++ (code c ∷ [])
codes-snoc String.[] c = ap codes (nil-append (String.◌∷◌ c ""))
codes-snoc (String.◌∷◌ d s) c =
    ap codes (cons-append d s (String.◌∷◌ c "")) ∙ ap (λ cs. code d ∷ cs) (codes-snoc s c)

has_slash-snoc :
    (cs : List ℕ) (c : ℕ)
    → has_slash cs ≡ false
    → (c == b'/') ≡ false
    → has_slash (cs ++ (c ∷ [])) ≡ false
has_slash-snoc [] c h k = ground (arith, k)
has_slash-snoc (d ∷ cs) c h k = ground (arith, has_slash-snoc cs c (ground (arith, h)) k, h)

abbrev NoSlash : String → Type 0
NoSlash part = has_slash (codes part) ≡ false

-- The pieces between slashes have none.
split_from-NoSlash : (part s : String) → NoSlash part → All NoSlash (split_from part s)
split_from-NoSlash part String.[] h = (h, tt)
split_from-NoSlash part (String.◌∷◌ c s) h = elim (Bool-cases (code c == b'/')) [
  | inl here ↦ rw here (h, split_from-NoSlash "" s refl)
  | inr other ↦
      let longer : NoSlash (part <> String.◌∷◌ c "") =
        subst (λ cs. has_slash cs ≡ false) (sym (codes-snoc part c))
          (has_slash-snoc (codes part) (code c) h other) in
      rw other (split_from-NoSlash (part <> String.◌∷◌ c "") s longer)
]

abbrev is_kept : String → Bool
is_kept p = not (is_empty p) && not (p =ₛ ".")

All-kept : (ps : List String) → All (λ p. is_kept p ≡ true) (filter is_kept ps)
All-kept [] = tt
All-kept (p ∷ ps) = ground (arith, All-kept ps)

posix_path-IsPart :
    (path : String)
    → any (λ p. p =ₛ "..") (posix_path path).parts ≡ false
    → All IsPart (posix_path path).parts
unfolding posix_path
posix_path-IsPart path h =
    let ps = filter is_kept (split_slash path) in
    let no_slash =
      All-filter NoSlash is_kept (split_slash path) (split_from-NoSlash "" path refl) in
    let no_parent = All-of-any (λ p. p =ₛ "..") ps h in
    All-map (λ p. NoSlash p × ((is_kept p ≡ true) × ((p =ₛ "..") ≡ false))) IsPart ps
      (λ p q. record {
        has_text = ground (arith, q.1.0);
        not_here = ground (arith, q.1.0);
        not_parent = q.1.1;
        no_slash = q.0;
      })
      (All-and NoSlash (λ p. (is_kept p ≡ true) × ((p =ₛ "..") ≡ false)) ps no_slash
        (All-and (λ p. is_kept p ≡ true) (λ p. (p =ₛ "..") ≡ false) ps (All-kept (split_slash path))
          no_parent))

slash_text : (r : Root) → is_slash r ≡ true → root_text r ≡ "/"
slash_text relative h = cc
slash_text slash h = refl
slash_text double_slash h = cc

-- What was checked of a path that is returned.
accepted :
    (path : String) {value : String}
    → validate_managed_remote_path path ≡ ok value
    → (is_slash (posix_path path).root ≡ true)
      × (strictly_below remote_temp_parts (posix_path path).parts ≡ true)
      × (any (λ p. p =ₛ "..") (posix_path path).parts ≡ false)
      × (value ≡ root_text (posix_path path).root <> join_slash (posix_path path).parts)
unfolding validate_managed_remote_path as_posix
accepted path h = (ground arith, ground arith, ground arith, ground arith)

-- A managed remote path that is accepted lies strictly below `/data/local/tmp/android-security-lab`:
-- what is returned is that prefix and at least one more part, joined by single slashes. Its parts
-- are parts of a path: each has a text without a slash, which is neither `.` nor `..`.
pub validate_managed_remote_path-IsManaged :
    (path : String) {value : String}
    → validate_managed_remote_path path ≡ ok value
    → IsManaged value
validate_managed_remote_path-IsManaged path {value} h =
    let (rooted, under, parents, text) = accepted path h in
    let (name, more, e) = below remote_temp_parts (posix_path path).parts under in
    record {
      name = name;
      more = more;
      located =
          subst (λ ps. value ≡ "/" <> join_slash ps) e
            (subst (λ r. value ≡ r <> join_slash (posix_path path).parts)
              (slash_text (posix_path path).root rooted) text);
      parts = subst (All IsPart) e (posix_path-IsPart path parents);
    }
