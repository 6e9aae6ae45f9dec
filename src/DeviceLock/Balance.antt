-- ===== src/DeviceLock/Balance.antt =====
-- An exit takes back what its entry did, and a failed entry leaves no lock.
use android_appsec_assessor.Prelude.{
  ◌<◌, String, Bool, true, false, Option, none, some, eq_iff, ◌≡◌, refl, arith, Bool-cases,
  Option-cases, inl, inr, ap, ◌∙◌,
}
use android_appsec_assessor.Errors.{Error, Result, ok, err}
use android_appsec_assessor.DeviceLock.{
  DeviceLock, HeldDevice, DeviceLockState, put_at, is_reentry, exit, finish_enter, enter,
}

-- Who holds a lock holds it at least once, and the operating system has granted it.
pub record IsSound (s : DeviceLockState) : Type 0 where
  pub deep : (k : String) {h : HeldDevice} → s.held k ≡ some h → 0 < h.depth
  pub locked : (k : String) {h : HeldDevice} → s.held k ≡ some h → s.granted k ≡ true

-- The thread and the operating system hold the same locks.
pub record SameLocks (s s' : DeviceLockState) : Type 0 where
  pub same_held : (k : String) → s'.held k ≡ s.held k
  pub same_granted : (k : String) → s'.granted k ≡ s.granted k

clash : {b : Bool} → b ≡ true → b ≡ false → ⊥
clash p q = cc

module _ (written : Result (Unit {0})) (l : DeviceLock) (s : DeviceLockState) (sound : IsSound s)
    (fresh : l.reentrant ≡ false) where
  free : s.granted l.key ≡ false → s.held l.key ≡ none
  free g = elim (Option-cases (s.held l.key)) [
    | inl e ↦ e
    | inr (h, e) ↦ absurd (clash (sound.locked l.key e) g)
  ]

  no_reentry : (session : Option String) → is_reentry session none ≡ false
  unfolding is_reentry
  no_reentry session = refl

  -- Where who holds a lock holds it at least once and it is granted, and the object of the lock was
  -- not entered before: after an entry that returned, the exit of the same lock restores what the
  -- thread and the operating system hold.
  pub exit-enter-SameLocks :
      {l' : DeviceLock} {s' : DeviceLockState}
      → enter written l s ≡ (ok l', s')
      → SameLocks s (exit l' s')
  unfolding enter finish_enter exit put_at
  exit-enter-SameLocks {l'} {s'} h = elim (Bool-cases (is_reentry l.session_id (s.held l.key))) [
    | inl again ↦ elim (Option-cases (s.held l.key)) [
      | inl e ↦ absurd (clash again (ap (is_reentry l.session_id) e ∙ no_reentry l.session_id))
      | inr (hd, e) ↦
          let deep : 0 < hd.depth = sound.deep l.key e in
          record {
            same_held = λ k. ground (arith, eq_iff k l.key, again, e, deep);
            same_granted = λ k. ground (arith, again);
          }
    ]
    | inr first ↦ record {
      same_held = λ k. ground (arith, eq_iff k l.key, first, free, fresh);
      same_granted = λ k. ground (arith, eq_iff k l.key, first, fresh);
    }
  ]

  -- Under the same conditions, an entry that raises, because the lock is taken or the metadata
  -- cannot be written, leaves what the thread and the operating system hold as it was: who holds a
  -- lock holds it at least once and it is granted, and the object of the lock was not entered
  -- before.
  pub enter_failed-SameLocks :
      {e : Error} {s' : DeviceLockState} → enter written l s ≡ (err e, s') → SameLocks s s'
  unfolding enter finish_enter exit put_at
  enter_failed-SameLocks h = record {
    same_held = λ k. ground (arith, eq_iff k l.key, free, fresh);
    same_granted = λ k. ground (arith, eq_iff k l.key, fresh);
  }

  reentry_granted : is_reentry l.session_id (s.held l.key) ≡ true → s.granted l.key ≡ true
  reentry_granted again = elim (Option-cases (s.held l.key)) [
    | inl e ↦ absurd (clash again (ap (is_reentry l.session_id) e ∙ no_reentry l.session_id))
    | inr (h, e) ↦ sound.locked l.key e
  ]

  -- Where who holds a lock holds it at least once and it is granted, and the object of the lock
  -- was not entered before, the same holds of the locks after an entry, returned or raised.
  pub enter-IsSound : IsSound (enter written l s).1
  unfolding enter finish_enter exit put_at
  enter-IsSound = record {
    deep = λ k {h} e.
        ground (arith, eq_iff k l.key, fresh, (λ (q : s.held k ≡ some h). sound.deep k q));
    locked = λ k {h} e. ground (
      arith,
      eq_iff k l.key,
      fresh,
      (λ (q : s.held k ≡ some h). sound.locked k q),
      free,
      reentry_granted,
    );
  }
