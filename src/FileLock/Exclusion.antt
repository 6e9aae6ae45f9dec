-- ===== src/FileLock/Exclusion.antt =====
-- Mutual exclusion, and the balance of entries and exits.
use mathlib.Core.Path.{subst}
use android_appsec_assessor.Prelude.{
  ℕ, suc, ◌<◌, String, true, false, some, List, [], ◌∷◌, ltb, ◌=ₛ◌, ◌==◌, ==_iff, eq_iff, ◌≡◌, refl,
  arith, if◌then◌else◌, Bool-cases, inl, inr, sym, ap, ◌∙◌, ◌↔◌, ◌≢◌,
}
use android_appsec_assessor.Errors.{ok}
use android_appsec_assessor.FileLock.{
  FileLock, LockState, put_depth, put_grant, try_lock, enter, exit, System, state_of, put_thread,
  after_call, Step, entered, left, Reachable, start, next,
}

-- How many of the blocks hold the lock of a file.
abbrev pub count : String → List FileLock → ℕ
count k [] = 0
count k (l ∷ ls) = let rest = count k ls in if k =ₛ l.key then suc rest else rest

-- A block is re-entrant exactly if one around it holds the same lock.
abbrev pub IsNested : List FileLock → Type 0
IsNested [] = Unit
IsNested (l ∷ ls) =
    (l.reentrant ≡ ltb 0 (count l.key ls))
    × (l.acquired ≡ true)
    × (l.handle ≡ (if l.reentrant then false else true))
    × IsNested ls

pub record IsConsistent (s : System) : Type 0 where
  pub nested : (t : ℕ) → IsNested (s.threads t).blocks
  pub counted : (t : ℕ) (k : String) → (s.threads t).depths k ≡ count k (s.threads t).blocks
  pub owned : (t : ℕ) (k : String) → 0 < (s.threads t).depths k → s.grants k ≡ some t
  pub owner : (t : ℕ) (k : String) → s.grants k ≡ some t → 0 < (s.threads t).depths k

some_inj : {a b : ℕ} → some a ≡ some b → a ≡ b
some_inj h = cc

-- What a thread that entered a block did.
enter_inv :
    (t : ℕ) (key : String) (s : LockState) {l : FileLock}
    → (enter t key s).0 ≡ ok l
    → (l.key ≡ key)
      × (l.acquired ≡ true)
      × (l.reentrant ≡ ltb 0 (s.held key))
      × (l.handle ≡ (if ltb 0 (s.held key) then false else true))
unfolding enter try_lock
enter_inv t key s h = (ground arith, ground arith, ground arith, ground arith)

module _ (t : ℕ) (key : String) (s : System) (before : IsConsistent s) (l : FileLock)
    (h : (enter t key (state_of t s)).0 ≡ ok l) where
  abbrev after_enter : System
  after_enter = after_call t (l ∷ (s.threads t).blocks) (enter t key (state_of t s)).1 s

  own_key : l.key ≡ key
  own_key = (enter_inv t key (state_of t s) h).0

  enter_counted :
      (u : ℕ) (k : String)
      → (after_enter.threads u).depths k ≡ count k (after_enter.threads u).blocks
  unfolding enter try_lock put_depth put_thread
  enter_counted u k = ground (
    arith,
    ==_iff u t,
    eq_iff k key,
    eq_iff k l.key,
    before.counted u k,
    before.counted t k,
    own_key,
  )

  enter_owned :
      (u : ℕ) (k : String) → 0 < (after_enter.threads u).depths k → after_enter.grants k ≡ some u
  unfolding enter try_lock put_depth put_grant put_thread
  enter_owned u k d = ground (
    arith,
    ==_iff u t,
    eq_iff k key,
    before.owned u k,
    before.owned t k,
    before.owner u k,
    before.counted t key,
  )

  enter_owner :
      (u : ℕ) (k : String) → after_enter.grants k ≡ some u → 0 < (after_enter.threads u).depths k
  unfolding enter try_lock put_depth put_grant put_thread
  enter_owner u k d = ground (arith, ==_iff u t, eq_iff k key, before.owner u k, before.owner t k)

  own_reentrant : l.reentrant ≡ ltb 0 (count l.key (s.threads t).blocks)
  own_reentrant =
      (enter_inv t key (state_of t s) h).2
      ∙ ap (λ n. ltb 0 n)
          (before.counted t key ∙ ap (λ k. count k (s.threads t).blocks) (sym own_key))

  enter-IsNested : (u : ℕ) → IsNested (after_enter.threads u).blocks
  unfolding put_thread
  enter-IsNested u =
      let (same, got, re, open?) = enter_inv t key (state_of t s) h in
      elim (Bool-cases (u == t)) [
        | inl e ↦ rw e (own_reentrant, got, ground (arith, open?, re), before.nested t)
        | inr e ↦ rw e (before.nested u)
      ]

module _ (t : ℕ) (s : System) (before : IsConsistent s) (l : FileLock) (rest : List FileLock)
    (inside : (s.threads t).blocks ≡ l ∷ rest) where
  abbrev after_exit : System
  after_exit = after_call t rest (exit l (state_of t s)) s

  IsNested-here : IsNested (l ∷ rest)
  IsNested-here = subst IsNested inside (before.nested t)

  counted_here : (k : String) → (s.threads t).depths k ≡ count k (l ∷ rest)
  counted_here k = subst (λ bs. (s.threads t).depths k ≡ count k bs) inside (before.counted t k)

  exit_counted :
      (u : ℕ) (k : String) → (after_exit.threads u).depths k ≡ count k (after_exit.threads u).blocks
  unfolding exit put_depth put_thread
  exit_counted u k = ground (
    arith,
    ==_iff u t,
    eq_iff k l.key,
    before.counted u k,
    counted_here k,
    counted_here l.key,
    IsNested-here.0,
  )

  exit_owned :
      (u : ℕ) (k : String) → 0 < (after_exit.threads u).depths k → after_exit.grants k ≡ some u
  unfolding exit put_depth put_grant put_thread
  exit_owned u k d = ground (
    arith,
    ==_iff u t,
    eq_iff k l.key,
    before.owned u k,
    before.owned t k,
    before.owned t l.key,
    counted_here k,
    counted_here l.key,
    IsNested-here.0,
  )

  exit_owner :
      (u : ℕ) (k : String) → after_exit.grants k ≡ some u → 0 < (after_exit.threads u).depths k
  unfolding exit put_depth put_grant put_thread
  exit_owner u k d = ground (
    arith,
    ==_iff u t,
    eq_iff k l.key,
    before.owner u k,
    before.owner t k,
    counted_here k,
    counted_here l.key,
    IsNested-here.0,
    IsNested-here.1,
    IsNested-here.2,
  )

  exit-IsNested : (u : ℕ) → IsNested (after_exit.threads u).blocks
  unfolding put_thread
  exit-IsNested u = elim (Bool-cases (u == t)) [
    | inl e ↦ rw e IsNested-here.3
    | inr e ↦ rw e (before.nested u)
  ]

Step-IsConsistent : {s s' : System} → IsConsistent s → Step s s' → IsConsistent s'
Step-IsConsistent {s} before (entered t key l h) = record {
  nested = enter-IsNested t key s before l h;
  counted = enter_counted t key s before l h;
  owned = enter_owned t key s before l h;
  owner = enter_owner t key s before l h;
}
Step-IsConsistent {s} before (left t l rest inside) = record {
  nested = exit-IsNested t s before l rest inside;
  counted = exit_counted t s before l rest inside;
  owned = exit_owned t s before l rest inside;
  owner = exit_owner t s before l rest inside;
}

Reachable-IsConsistent : {s : System} → Reachable s → IsConsistent s
Reachable-IsConsistent start = record {
  nested = λ t. tt;
  counted = λ t k. refl;
  owned = λ t k h. ground arith;
  owner = λ t k h. cc;
}
Reachable-IsConsistent (next r step) = Step-IsConsistent (Reachable-IsConsistent r) step

-- The thread is in a block that holds the lock of the file.
abbrev pub Holds : ℕ → String → System → Type 0
Holds t k s = 0 < count k (s.threads t).blocks

Reachable-owner :
    {s : System} (k : String) (t u : ℕ) → Reachable s → Holds t k s → Holds u k s → t ≡ u
Reachable-owner {s} k t u r here there =
    let c : IsConsistent s = Reachable-IsConsistent r in
    some_inj (
      sym (c.owned t k (subst (λ n. 0 < n) (sym (c.counted t k)) here))
      ∙ c.owned u k (subst (λ n. 0 < n) (sym (c.counted u k)) there))

eq_zero : (n : ℕ) → ¬ (0 < n) → n ≡ 0
eq_zero n h = ground arith

-- However the threads enter and leave their blocks, while one is in a block that holds the lock of
-- a file, no other thread is in such a block.
pub Reachable-excludes :
    {s : System} (k : String) (t u : ℕ)
    → Reachable s
    → Holds t k s
    → t ≢ u
    → count k (s.threads u).blocks ≡ 0
Reachable-excludes {s} k t u r here distinct =
    eq_zero (count k (s.threads u).blocks) λ there. distinct (Reachable-owner k t u r here there)

-- However the threads came and went, a file is locked exactly while some thread is in a block that
-- holds its lock: a thread that has left its blocks leaves no lock behind, though a lock was
-- entered again within itself, and it releases none too early.
pub Reachable-releases :
    {s : System} (k : String) (t : ℕ) → Reachable s → (s.grants k ≡ some t) ↔ Holds t k s
Reachable-releases {s} k t r =
    let c : IsConsistent s = Reachable-IsConsistent r in
    (
      (λ g. subst (λ n. 0 < n) (c.counted t k) (c.owner t k g)),
      λ here. c.owned t k (subst (λ n. 0 < n) (sym (c.counted t k)) here),
    )
