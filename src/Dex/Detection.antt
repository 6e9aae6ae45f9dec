-- ===== src/Dex/Detection.antt =====
-- The rule of a script bridge is detected where scripts, a bridge and a page were seen.
use android_appsec_assessor.Prelude.{
  ◌≡◌, refl, ap, suc, ◌<◌, ◌⊎◌, inl, inr, String, ◌<>◌, Bool, true, false, ◌&&◌, List, [], ◌∷◌, any,
  map, length, ltb, ◌=ₛ◌, arith, Bool-cases,
}
use android_appsec_assessor.Prelude.Case.{before, insert_sorted, sorted_set}
use android_appsec_assessor.Dex.Registers.{DexMethodReference}
use android_appsec_assessor.Dex.Signals.{DexBehaviorSignal, Detected, Observed}
use android_appsec_assessor.Dex.Behavior.{correlate_calls, sort_rules, insert_rule, signal_of}
use android_appsec_assessor.Dex.Bridges.{has_bridge_rule, bridge_rule}
use android_appsec_assessor.Dex.Signals.{record_rule}
use android_appsec_assessor.Dex.Lasting.{IsEnabled, IsBridged, IsLoaded}
use android_appsec_assessor.Dex.Exposure.{IsFounded, any-record_rule}

any-insert_rule :
    (d : Detected) (ds : List Detected)
    → any has_bridge_rule (insert_rule d ds) ≡ any has_bridge_rule (d ∷ ds)
unfolding insert_rule
any-insert_rule d [] = refl
any-insert_rule d (e ∷ es) = elim (Bool-cases (before e.rule_id d.rule_id)) [
  | inl later ↦ let ih = any-insert_rule d es in ground (arith, later, ih)
  | inr first ↦ ground (arith, first)
]

pub any-sort_rules :
    (ds : List Detected) → any has_bridge_rule (sort_rules ds) ≡ any has_bridge_rule ds
unfolding sort_rules
any-sort_rules [] = refl
any-sort_rules (d ∷ ds) =
    let ih = any-sort_rules ds in
    let first = any-insert_rule d (sort_rules ds) in ground (arith, ih, first)

-- A signal of the rule.
abbrev pub is_bridge_signal : DexBehaviorSignal → Bool
is_bridge_signal s = s.rule_id =ₛ bridge_rule

pub any-signal_of :
    (caller : DexMethodReference) (ds : List Detected)
    → any is_bridge_signal (map (signal_of caller) ds) ≡ any has_bridge_rule ds
unfolding signal_of
any-signal_of caller [] = refl
any-signal_of caller (d ∷ ds) = let ih = any-signal_of caller ds in ground (arith, ih)

List-cases :
    (xs : List String) → (xs ≡ []) ⊎ ((x : String) × (rest : List String) × (xs ≡ x ∷ rest))
List-cases [] = inl refl
List-cases (x ∷ xs) = inr (x, xs, refl)

-- The test of the last rule, and what is detected without it.
abbrev remote_schemes_seen : Observed → List String
remote_schemes_seen s = map (λ m. "remote_scheme:" <> m) (sorted_set before s.remote_web_content)

pub correlate_calls-Founded :
    (Enabled Bridged Loaded : Type 0) (s : Observed)
    → IsFounded Enabled Bridged Loaded s
    → any has_bridge_rule (correlate_calls s) ≡ true
    → Enabled × Bridged × Loaded
unfolding correlate_calls sorted_set
correlate_calls-Founded Enabled Bridged Loaded s h e =
    elim (Bool-cases
      (s.javascript_enabled && s.javascript_bridge && ltb 0 (length (remote_schemes_seen s)))) [
        | inl all ↦ elim (List-cases s.remote_web_content) [
          | inl empty ↦
              let none_seen : ltb 0 (length (remote_schemes_seen s)) ≡ false = rw empty refl in
              absurd (ground (arith, all, none_seen))
          | inr (scheme, rest, f) ↦ (
            h.enabled (ground (arith, all)),
            h.bridged (ground (arith, all)),
            h.loaded scheme rest f,
          )
        ]
        | inr not_all ↦
            let material =
              map (λ m. "crypto_material:" <> m) (sorted_set before s.correlated_crypto_material) in
            let random =
              any-record_rule "CRYPTO-PREDICTABLE-RANDOM" "medium"
                ("random_api:java_util_random_next_bytes" ∷ "correlation:same_register" ∷ material)
                s.detected refl h.undetected in
            absurd (ground (arith, e, not_all, random, h.undetected))
      ]

any-record_rule-bridge :
    (confidence : String) (indicators : List String) (detected : List Detected)
    → any has_bridge_rule (record_rule bridge_rule confidence indicators detected) ≡ true
unfolding record_rule
any-record_rule-bridge confidence indicators [] = refl
any-record_rule-bridge confidence indicators (d ∷ detected) =
    elim (Bool-cases (d.rule_id =ₛ bridge_rule)) [
      | inl same ↦ ground (arith, same)
      | inr new ↦
          let ih = any-record_rule-bridge confidence indicators detected in ground (arith, new, ih)
    ]

insert_sorted-some : (x : String) (xs : List String) → 0 < length (insert_sorted before x xs)
unfolding insert_sorted
insert_sorted-some x [] = omega arith
insert_sorted-some x (y ∷ ys) = elim (Bool-cases (before x y)) [
  | inl first ↦ rw (first, insert_sorted) (omega arith)
  | inr later ↦ elim (Bool-cases (before y x)) [
    | inl e ↦ rw (later, e, insert_sorted) (omega arith)
    | inr e ↦ rw (later, e, insert_sorted) (omega arith)
  ]
]

sorted_set-some : (xs : List String) → 0 < length xs → 0 < length (sorted_set before xs)
unfolding sorted_set
sorted_set-some [] h = h
sorted_set-some (x ∷ xs) h = insert_sorted-some x (sorted_set before xs)

length-map : (f : String → String) (xs : List String) → length (map f xs) ≡ length xs
length-map f [] = refl
length-map f (x ∷ xs) = ap (λ n. suc n) (length-map f xs)

-- Where scripts, a bridge and a page were seen, the last rule detects them.
pub correlate_calls_complete :
    (s : Observed)
    → IsEnabled s
    → IsBridged s
    → IsLoaded s
    → any has_bridge_rule (correlate_calls s) ≡ true
unfolding correlate_calls
correlate_calls_complete s on bridged loaded =
    let some_schemes = sorted_set-some s.remote_web_content loaded in
    let same = length-map (λ m. "remote_scheme:" <> m) (sorted_set before s.remote_web_content) in
    let seen : ltb 0 (length (remote_schemes_seen s)) ≡ true = ground (arith, some_schemes, same) in
    rw (on, bridged, seen) (search (any-record_rule-bridge))
