-- ===== src/Dex/Budgets.antt =====
-- The analysis of the methods of a DEX file stays within the limits of its policy, and raises nothing
-- but `DexFormatError`.
use android_appsec_assessor.Prelude.{
  ℕ, ◌+◌, ◌≤◌, ◌<◌, inl, inr, String, Bool, true, false, ◌&&◌, Option, none, some, List, [], ◌∷◌,
  ◌++◌, any, length, length-append, leb, ◌=ₛ◌, arith, Bool-cases, get_elem?, Option-cases,
}
use android_appsec_assessor.Errors.{ErrorKind, dex_format_error, Result}
use android_appsec_assessor.Scope.{is_in}
use android_appsec_assessor.Dex.Registers.{
  Text, DexConstant, text, number, string_index, DexMethodReference, DexInvocation, Scanned,
}
use android_appsec_assessor.Dex.Policy.{StaticApkPolicy}
use android_appsec_assessor.Dex.Tables.{Texts}
use android_appsec_assessor.Dex.Algorithms.{Argument, Arguments, constant_value, strip_text}
use android_appsec_assessor.Dex.Signals.{DexBehaviorSignal, Observed, is_text, is_any_text, text_at}
use android_appsec_assessor.Dex.Behavior.{
  constant_values, observe_content, observe_before, observe_calls, behavior_signals, Behavior,
  limit, limit_if, same_signal, add_signal, add_signals, add_scan,
}
use android_appsec_assessor.Prelude.{All, All-append}
use android_appsec_assessor.Dex.Behavior.{sort_rules, correlate_calls}
use android_appsec_assessor.Dex.Grounded.{
  HasNoRepeat, HasNoRepeat-append, IsSignalAmong, IsSignalOf, All-signal_of,
}
use android_appsec_assessor.Dex.Ends.{Ends, Ends-then, Ends-ok, Ends-if, Ends-read}
use android_appsec_assessor.Dex.Raises.{Owes, Owes-ok, Owes-err}
use android_appsec_assessor.Dex.Reads.{Some, Owes-then}

-- The limits that the analysis keeps, and that its signals are of methods in a list, each with a key of
-- its own.
pub record IsWithin (limits : StaticApkPolicy) (references : List DexMethodReference) (b : Behavior)
    : Type 0 where
  pub units : b.code_units_scanned ≤ limits.max_dex_code_units
  pub calls : b.invocations_scanned ≤ limits.max_dex_invocations
  pub scanned : b.methods_scanned ≤ b.encoded_methods_seen
  pub methods : b.encoded_methods_seen ≤ limits.max_dex_encoded_methods
  pub signals : length b.signals ≤ limits.max_static_behavior_candidates
  pub distinct : HasNoRepeat b.signals
  pub callers : All (IsSignalAmong references) b.signals

one_signal :
    {A : Type 0} (xs : List A) (x : A) (n : ℕ) → length xs < n → length (xs ++ (x ∷ [])) ≤ n
one_signal xs x n h = omega (arith, length-append xs (x ∷ []), h)

module _ (limits : StaticApkPolicy) (references : List DexMethodReference) where
  pub IsWithin-limit :
      (name : String) (b : Behavior)
      → IsWithin limits references b
      → IsWithin limits references (limit name b)
  unfolding limit
  IsWithin-limit name b h = elim (Bool-cases (is_in name b.limitations)) [
    | inl old ↦ rw (old, limit) h
    | inr new ↦
        rw (new, limit)
          (record {
            units = h.units;
            calls = h.calls;
            scanned = h.scanned;
            methods = h.methods;
            signals = h.signals;
            distinct = h.distinct;
            callers = h.callers;
          })
  ]

  pub IsWithin-limit_if :
      (test : Bool) (name : String) (b : Behavior)
      → IsWithin limits references b
      → IsWithin limits references (limit_if test name b)
  IsWithin-limit_if true name b h = IsWithin-limit name b h
  IsWithin-limit_if false name b h = h

  IsWithin-add_signal :
      (signal : DexBehaviorSignal) (b : Behavior)
      → IsSignalAmong references signal
      → IsWithin limits references b
      → IsWithin limits references (add_signal limits signal b)
  unfolding add_signal
  IsWithin-add_signal signal b among h = elim (Bool-cases (any (same_signal signal) b.signals)) [
    | inl old ↦ rw (old, add_signal) h
    | inr new ↦ elim (Bool-cases (leb limits.max_static_behavior_candidates (length b.signals))) [
      | inl full ↦ rw (new, full, add_signal) (IsWithin-limit "static_behavior_candidates" b h)
      | inr room ↦
          rw (new, room, add_signal)
            (record {
              units = h.units;
              calls = h.calls;
              scanned = h.scanned;
              methods = h.methods;
              signals =
                  one_signal b.signals signal limits.max_static_behavior_candidates
                    (ground (arith, room));
              distinct = HasNoRepeat-append b.signals signal h.distinct new;
              callers =
                  All-append (IsSignalAmong references) b.signals (signal ∷ []) h.callers
                    (among, tt);
            })
    ]
  ]

  pub IsWithin-add_signals :
      (signals : List DexBehaviorSignal) (b : Behavior)
      → All (IsSignalAmong references) signals
      → IsWithin limits references b
      → IsWithin limits references (add_signals limits signals b)
  unfolding add_signals
  IsWithin-add_signals [] b among h = h
  IsWithin-add_signals (signal ∷ signals) b among h =
      IsWithin-add_signals signals (add_signal limits signal b) among.1
        (IsWithin-add_signal signal b among.0 h)

  pub IsWithin-add_scan :
      (r : Scanned) (b : Behavior)
      → IsWithin limits references b
      → b.code_units_scanned + r.offset ≤ limits.max_dex_code_units
      → b.invocations_scanned + length r.invocations ≤ limits.max_dex_invocations
      → b.methods_scanned < b.encoded_methods_seen
      → IsWithin limits references (add_scan limits r b)
  unfolding add_scan
  IsWithin-add_scan r b h units calls scanned =
      let spent : Behavior = record b {
        methods_scanned = b.methods_scanned + 1;
        code_units_scanned = b.code_units_scanned + r.offset;
        invocations_scanned = b.invocations_scanned + length r.invocations;
      } in
      let within : IsWithin limits references spent = record {
        units = units;
        calls = calls;
        scanned = omega (arith, scanned);
        methods = h.methods;
        signals = h.signals;
        distinct = h.distinct;
        callers = h.callers;
      } in
      IsWithin-limit_if r.limited "dex_invocations" _
        (IsWithin-limit_if r.unsupported "dex_behavior_unsupported_opcode" spent within)

constant_value-Owes :
    (strings : Texts) (c : Option DexConstant)
    → Owes (Some (Option Argument)) (constant_value strings c)
unfolding constant_value
constant_value-Owes strings none = Owes-ok (Some (Option Argument)) _ tt
constant_value-Owes strings (some (text t)) = Owes-ok (Some (Option Argument)) _ tt
constant_value-Owes strings (some (number n)) = Owes-ok (Some (Option Argument)) _ tt
constant_value-Owes strings (some (string_index i)) = elim (Option-cases (get_elem? strings i)) [
  | inl e ↦ rw (e, constant_value) (Owes-err (Some (Option Argument)) _)
  | inr (t, e) ↦ rw (e, constant_value) (Owes-ok (Some (Option Argument)) _ tt)
]

constant_values-Owes :
    (strings : Texts) (cs : List (Option DexConstant))
    → Owes (Some Arguments) (constant_values strings cs)
unfolding constant_values
constant_values-Owes strings [] = Owes-ok (Some Arguments) _ tt
constant_values-Owes strings (c ∷ cs) =
    Owes-then (Some Arguments) (constant_value strings c) _ (constant_value-Owes strings c)
      (λ value.
        Owes-then (Some Arguments) (constant_values strings cs) _ (constant_values-Owes strings cs)
          (λ values. Owes-ok (Some Arguments) _ tt))

-- `urlsplit` answers, or raises an error of a class.
abbrev pub Answers : (ErrorKind → Type 0) → (Text → Result String) → Type 0
Answers Raised url_scheme = (t : Text) → Ends Raised (Some String) (url_scheme t)

module _ (Raised : ErrorKind → Type 0) (refused : Raised dex_format_error) (upper_beyond : ℕ → Text)
    (url_scheme : Text → Result String) (minimum : ℕ) (answers : Answers Raised url_scheme) where
  observe_content-Ends :
      (i : DexInvocation) (arguments : Arguments) (s : Observed)
      → Ends Raised (Some Observed) (observe_content upper_beyond url_scheme minimum i arguments s)
  unfolding observe_content
  observe_content-Ends i arguments s = elim (Option-cases (text_at 1 arguments)) [
    | inl e ↦ rw (e, observe_content) (Ends-ok (Some Observed) s tt)
    | inr (url, e) ↦
        rw (e, observe_content)
          (Ends-if (Some Observed)
            (is_text "Landroid/webkit/WebView;" i.reference.class_descriptor
              && is_any_text ("loadUrl" ∷ "loadDataWithBaseURL" ∷ []) i.reference.method_name
              && (i.invoke_kind =ₛ "virtual"))
            _ _
            (λ f.
              Ends-then (Some Observed) (url_scheme (strip_text url)) _ (answers (strip_text url))
                (λ scheme. Ends-ok (Some Observed) _ tt))
            (λ f. Ends-ok (Some Observed) _ tt))
  ]

  observe_calls-Ends :
      (strings : Texts) (calls : List DexInvocation) (s : Observed)
      → Ends Raised (Some Observed) (observe_calls upper_beyond url_scheme minimum strings calls s)
  unfolding observe_calls
  observe_calls-Ends strings [] s = Ends-ok (Some Observed) s tt
  observe_calls-Ends strings (i ∷ calls) s =
      Ends-read refused (Some Observed) (constant_values strings i.arguments) _
        (constant_values-Owes strings i.arguments)
        (λ arguments.
          Ends-then (Some Observed)
            (observe_content upper_beyond url_scheme minimum i arguments
              (observe_before upper_beyond url_scheme minimum i arguments s))
            _ (observe_content-Ends i arguments _) (λ s'. observe_calls-Ends strings calls _))

  pub behavior_signals-Ends :
      (caller : DexMethodReference) (calls : List DexInvocation) (strings : Texts)
      → Ends Raised
          (All (IsSignalOf caller))
          (behavior_signals upper_beyond url_scheme minimum caller calls strings)
  unfolding behavior_signals
  behavior_signals-Ends caller calls strings =
      Ends-then (All (IsSignalOf caller))
        (observe_calls upper_beyond url_scheme minimum strings calls _) _
        (observe_calls-Ends strings calls _)
        (λ s.
          Ends-ok (All (IsSignalOf caller)) _
            (All-signal_of caller (sort_rules (correlate_calls s))))
