-- ===== src/Snapshot/Restorable.antt =====
-- From the capture of a device's proxy to the reading of the stored snapshot.
use mathlib.Core.Path.{subst}
use android_appsec_assessor.Prelude.{
  String, Option, none, some, ◌≡◌, refl, false, arith, [], ◌∷◌, sym, ap, Bool-cases, inl, inr,
}
use android_appsec_assessor.Prelude.Text.{is_empty}
use android_appsec_assessor.Errors.{Error, Result, ok, err}
use android_appsec_assessor.Exec.{Exec, continue-eq-ok}
use android_appsec_assessor.Validation.{validate_package_name}
use android_appsec_assessor.Json.{Conversions, to_str, get_or, truthy, optional_str}
use android_appsec_assessor.Adb.{Executable, get_http_proxy, list_reverse, shell}
use android_appsec_assessor.Snapshot.{
  captured_with_value, captured_empty, capture_failed, DeviceSnapshot, proxy_state_value,
  proxy_state_of, ProxyState, proxy_state, parse_with_value, parse_empty, parse_in_state,
  parse_proxy_snapshot, snapshot_to_dict, capture_device_snapshot, captured_state, captured_proxy,
  capture_problem, try_adb, probe_frida, or_default,
}

-- What a reading of the proxy is to be restored from.
abbrev pub reading_of : (Error → String) → Result (Option String) → ProxyState
reading_of note (ok (some v)) = proxy_state captured_with_value (some v) none
reading_of note (ok none) = proxy_state captured_empty none none
reading_of note (err e) =
    proxy_state capture_failed none
      (some (or_default "Reading the original proxy setting failed." (some (note e))))

-- The text of a proxy that was read is not empty.
abbrev pub HasText : Result (Option String) → Type 0
HasText (ok (some v)) = is_empty v ≡ false
HasText _ = Unit

HasText-get_http_proxy :
    {D : Type 0} (adb : Executable D) (serial : String) (d : D)
    → HasText (get_http_proxy adb serial d).0
unfolding get_http_proxy
HasText-get_http_proxy adb serial d = ground arith

returned :
    {D : Type 0} {a b : DeviceSnapshot} {d d' : D}
    → ◌≡◌ {A = Result DeviceSnapshot × D} (ok a, d) (ok b, d')
    → b ≡ a
returned h = cc

-- What is kept of a reading is its result.
try_adb_reading :
    {A D : Type 0} (m : Exec D A) (d : D) {reading : Result A}
    → (try_adb m d).0 ≡ ok reading
    → reading ≡ (m d).0
try_adb_reading m d h = ground arith

module _ {D : Type 0} (adb : Executable D) (note : Error → String) (conv : Conversions) where
  stored_value :
      (s : DeviceSnapshot) (v : String)
      → s.http_proxy ≡ some v
      → s.http_proxy_state ≡ captured_with_value
      → is_empty v ≡ false
      → parse_proxy_snapshot conv (snapshot_to_dict s)
        ≡ proxy_state captured_with_value (some v) none
  unfolding parse_proxy_snapshot snapshot_to_dict proxy_state_of proxy_state_value parse_in_state
      parse_with_value get_or to_str
  stored_value s v p q h = rw q (rw p (rw h refl))

  stored_empty :
      (s : DeviceSnapshot)
      → s.http_proxy ≡ none
      → s.http_proxy_state ≡ captured_empty
      → parse_proxy_snapshot conv (snapshot_to_dict s) ≡ proxy_state captured_empty none none
  unfolding parse_proxy_snapshot snapshot_to_dict proxy_state_of proxy_state_value parse_in_state
      parse_empty get_or to_str
  stored_empty s p q = rw q (rw p refl)

  stored_failure :
      (s : DeviceSnapshot) (m : String)
      → s.http_proxy_state ≡ capture_failed
      → s.http_proxy_error ≡ some m
      → parse_proxy_snapshot conv (snapshot_to_dict s)
        ≡ proxy_state capture_failed none
            (some (or_default "Reading the original proxy setting failed." (some m)))
  unfolding parse_proxy_snapshot snapshot_to_dict proxy_state_of proxy_state_value parse_in_state
      get_or to_str optional_str truthy
  stored_failure s m q e =
      rw (q, e) (elim (Bool-cases (is_empty m)) [ inl b ↦ rw b refl | inr b ↦ rw b (rw b refl) ])

  parse_captured :
      (s : DeviceSnapshot) (reading : Result (Option String))
      → s.http_proxy ≡ captured_proxy adb note reading
      → s.http_proxy_state ≡ captured_state adb note reading
      → s.http_proxy_error ≡ capture_problem adb note reading
      → HasText reading
      → parse_proxy_snapshot conv (snapshot_to_dict s) ≡ reading_of note reading
  parse_captured s (ok (some v)) p q e h = stored_value s v p q h
  parse_captured s (ok none) p q e h = stored_empty s p q
  parse_captured s (err x) p q e h = stored_failure s (note x) q e

  -- A snapshot that was taken, stored and read again says of the proxy what reading it gave: its
  -- value, that there was none, or that it is not known, which the cleanup refuses to restore.
  pub parse-capture_device_snapshot :
      (now serial name : String) (d : D) {s : DeviceSnapshot} {d' : D}
      → capture_device_snapshot adb note now serial name d ≡ (ok s, d')
      → parse_proxy_snapshot conv (snapshot_to_dict s)
        ≡ reading_of note (get_http_proxy adb serial d).0
  unfolding capture_device_snapshot
  parse-capture_device_snapshot now serial name d {s} h =
      let (target, valid, h₁) = continue-eq-ok (validate_package_name name) _ d h in
      let (proxy, read, h₂) = continue-eq-ok (try_adb (get_http_proxy adb serial) d).0 _ _ h₁ in
      let (mappings, mapped, h₃) =
        continue-eq-ok
          (try_adb (list_reverse adb serial) (try_adb (get_http_proxy adb serial) d).1).0 _ _ h₂ in
      let (frida, probed, h₄) =
        continue-eq-ok
          (probe_frida adb note serial [] ("frida-server" ∷ "re.frida.server" ∷ []) _).0 _ _ h₃ in
      let (package_result, asked, h₅) =
        continue-eq-ok (try_adb (shell adb serial ("pm" ∷ "path" ∷ target ∷ []) false) _).0 _ _
          h₄ in
      subst (λ reading. parse_proxy_snapshot conv (snapshot_to_dict s) ≡ reading_of note reading)
        (try_adb_reading (get_http_proxy adb serial) d read)
        (parse_captured s proxy (ap (λ (x : DeviceSnapshot). x.http_proxy) (returned h₅))
          (ap (λ (x : DeviceSnapshot). x.http_proxy_state) (returned h₅))
          (ap (λ (x : DeviceSnapshot). x.http_proxy_error) (returned h₅))
          (subst HasText (sym (try_adb_reading (get_http_proxy adb serial) d read))
            (HasText-get_http_proxy adb serial d)))
