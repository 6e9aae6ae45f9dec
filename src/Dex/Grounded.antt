-- ===== src/Dex/Grounded.antt =====
-- Each signal of a DEX file names one of its methods, and no signal is repeated.
use android_appsec_assessor.Prelude.{
  ℕ, zero, suc, ◌≡◌, refl, Bool, false, Option, none, some, List, [], ◌∷◌, ◌++◌, any, map, All,
  get_elem?, arith,
}
use android_appsec_assessor.Dex.Registers.{DexMethodReference}
use android_appsec_assessor.Dex.MethodTable.{Methods}
use android_appsec_assessor.Dex.Signals.{DexBehaviorSignal, Detected}
use android_appsec_assessor.Dex.Behavior.{same_signal, signal_of}
use android_appsec_assessor.Dex.Inventory.{known}

-- No signal has the key of an earlier one.
abbrev pub HasNoRepeat : List DexBehaviorSignal → Type 0
HasNoRepeat [] = Unit
HasNoRepeat (s ∷ signals) = (any (λ t. same_signal t s) signals ≡ false) × HasNoRepeat signals

pub record IsSignalOf (caller : DexMethodReference) (s : DexBehaviorSignal) : Type 0 where
  pub class_descriptor : s.caller_class_descriptor ≡ caller.class_descriptor
  pub method_name : s.caller_method_name ≡ caller.method_name
  pub prototype : s.caller_prototype ≡ caller.prototype

-- A signal of a method that stands in a list.
pub record IsSignalAmong (references : List DexMethodReference) (s : DexBehaviorSignal)
    : Type 0 where
  pub index : ℕ
  pub caller : DexMethodReference
  pub listed : get_elem? references index ≡ some caller
  pub shown : IsSignalOf caller s

pub All-signal_of :
    (caller : DexMethodReference) (detected : List Detected)
    → All (IsSignalOf caller) (map (signal_of caller) detected)
unfolding signal_of
All-signal_of caller [] = tt
All-signal_of caller (d ∷ detected) = (
  record { class_descriptor = refl; method_name = refl; prototype = refl },
  All-signal_of caller detected,
)

any-append :
    (p : DexBehaviorSignal → Bool) (signals : List DexBehaviorSignal) (s : DexBehaviorSignal)
    → any p signals ≡ false
    → p s ≡ false
    → any p (signals ++ (s ∷ [])) ≡ false
any-append p [] s h k = ground (arith, k)
any-append p (t ∷ signals) s h k =
    let rest : any p signals ≡ false = ground (arith, h) in
    let first : p t ≡ false = ground (arith, h) in
    let ih = any-append p signals s rest k in ground (arith, first, ih)

pub HasNoRepeat-append :
    (signals : List DexBehaviorSignal) (s : DexBehaviorSignal)
    → HasNoRepeat signals
    → any (same_signal s) signals ≡ false
    → HasNoRepeat (signals ++ (s ∷ []))
HasNoRepeat-append [] s h k = (refl, tt)
HasNoRepeat-append (t ∷ signals) s (fresh, rest) k = (
  any-append (λ u. same_signal u t) signals s fresh (ground (arith, k)),
  HasNoRepeat-append signals s rest (ground (arith, k)),
)

-- A row of the method table that has a reference is one of the references of the inventory.
get_elem?-known :
    (methods : Methods) (i : ℕ) (caller : DexMethodReference)
    → get_elem? methods i ≡ some (some caller)
    → (j : ℕ) × (get_elem? (known methods) j ≡ some caller)
unfolding known
get_elem?-known [] i caller e = absurd (ground (arith, e))
get_elem?-known (none ∷ methods) zero caller e = absurd (ground (arith, e))
get_elem?-known (none ∷ methods) (suc i) caller e = get_elem?-known methods i caller e
get_elem?-known (some r ∷ methods) zero caller e = (0, ground (arith, e))
get_elem?-known (some r ∷ methods) (suc i) caller e =
    let (j, found) = get_elem?-known methods i caller e in (suc j, found)

-- A row of a method table.
pub record IsRow (methods : Methods) (caller : Option DexMethodReference) : Type 0 where
  pub index : ℕ
  pub listed : get_elem? methods index ≡ some caller

pub IsRow-IsSignalAmong :
    (methods : Methods) (caller : DexMethodReference) (s : DexBehaviorSignal)
    → IsRow methods (some caller)
    → IsSignalOf caller s
    → IsSignalAmong (known methods) s
IsRow-IsSignalAmong methods caller s row of =
    let (j, found) = get_elem?-known methods row.index caller row.listed in
    record { index = j; caller = caller; listed = found; shown = of }
