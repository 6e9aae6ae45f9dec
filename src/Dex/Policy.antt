-- ===== src/Dex/Policy.antt =====
-- The limits of the static analysis in android_assessor/static_apk_analysis.py.
use android_appsec_assessor.Prelude.{ℕ, List, [], ◌∷◌, any, ltb, leb, if◌then◌else◌}
use android_appsec_assessor.Errors.{Result, ok, err, fault, value_error}

pub record StaticApkPolicy : Type 0 where
  pub max_apks : ℕ
  pub max_apk_file_bytes : ℕ
  pub max_archive_entries : ℕ
  pub max_central_directory_bytes : ℕ
  pub max_total_uncompressed_bytes : ℕ
  pub max_entry_uncompressed_bytes : ℕ
  pub max_dex_bytes : ℕ
  pub max_text_entry_bytes : ℕ
  pub max_compression_ratio : ℕ
  pub max_dex_files : ℕ
  pub max_dex_strings : ℕ
  pub max_method_references : ℕ
  pub max_dex_string_work_bytes : ℕ
  pub max_dex_parameter_references : ℕ
  pub max_dex_prototype_bytes : ℕ
  pub max_string_bytes : ℕ
  pub max_string_scan_chunk_bytes : ℕ
  pub max_string_scan_file_bytes : ℕ
  pub max_string_scan_apk_bytes : ℕ
  pub max_string_scan_candidates : ℕ
  pub max_string_scan_milliseconds : ℕ
  pub max_resource_strings : ℕ
  pub max_secret_candidates : ℕ
  pub max_endpoints : ℕ
  pub max_dynamic_api_matches : ℕ
  pub max_policy_api_matches : ℕ
  pub max_embedded_code_entries : ℕ
  pub max_security_api_matches : ℕ
  pub max_dex_class_defs : ℕ
  pub max_dex_encoded_methods : ℕ
  pub max_dex_code_units : ℕ
  pub max_dex_invocations : ℕ
  pub min_pbe_iterations : ℕ
  pub max_static_behavior_candidates : ℕ

abbrev pub static_apk_policy : StaticApkPolicy
static_apk_policy = record {
  max_apks = 32;
  max_apk_file_bytes = 268435456;
  max_archive_entries = 10000;
  max_central_directory_bytes = 16777216;
  max_total_uncompressed_bytes = 134217728;
  max_entry_uncompressed_bytes = 67108864;
  max_dex_bytes = 67108864;
  max_text_entry_bytes = 1048576;
  max_compression_ratio = 200;
  max_dex_files = 64;
  max_dex_strings = 250000;
  max_method_references = 200000;
  max_dex_string_work_bytes = 67108864;
  max_dex_parameter_references = 1000000;
  max_dex_prototype_bytes = 16777216;
  max_string_bytes = 4096;
  max_string_scan_chunk_bytes = 65536;
  max_string_scan_file_bytes = 8388608;
  max_string_scan_apk_bytes = 33554432;
  max_string_scan_candidates = 1000;
  max_string_scan_milliseconds = 5000;
  max_resource_strings = 50000;
  max_secret_candidates = 500;
  max_endpoints = 500;
  max_dynamic_api_matches = 500;
  max_policy_api_matches = 500;
  max_embedded_code_entries = 500;
  max_security_api_matches = 500;
  max_dex_class_defs = 100000;
  max_dex_encoded_methods = 200000;
  max_dex_code_units = 8000000;
  max_dex_invocations = 500000;
  min_pbe_iterations = 10000;
  max_static_behavior_candidates = 500;
}

-- `asdict(self).values()`
unfoldable pub limit_values : StaticApkPolicy → List ℕ
limit_values p =
    p.max_apks ∷ p.max_apk_file_bytes ∷ p.max_archive_entries ∷ p.max_central_directory_bytes
    ∷ p.max_total_uncompressed_bytes ∷ p.max_entry_uncompressed_bytes ∷ p.max_dex_bytes
    ∷ p.max_text_entry_bytes ∷ p.max_compression_ratio ∷ p.max_dex_files ∷ p.max_dex_strings
    ∷ p.max_method_references ∷ p.max_dex_string_work_bytes ∷ p.max_dex_parameter_references
    ∷ p.max_dex_prototype_bytes ∷ p.max_string_bytes ∷ p.max_string_scan_chunk_bytes
    ∷ p.max_string_scan_file_bytes ∷ p.max_string_scan_apk_bytes ∷ p.max_string_scan_candidates
    ∷ p.max_string_scan_milliseconds ∷ p.max_resource_strings ∷ p.max_secret_candidates
    ∷ p.max_endpoints ∷ p.max_dynamic_api_matches ∷ p.max_policy_api_matches
    ∷ p.max_embedded_code_entries ∷ p.max_security_api_matches ∷ p.max_dex_class_defs
    ∷ p.max_dex_encoded_methods ∷ p.max_dex_code_units ∷ p.max_dex_invocations
    ∷ p.min_pbe_iterations ∷ p.max_static_behavior_candidates ∷ []

-- `__post_init__`
unfoldable pub checked_static_policy : StaticApkPolicy → Result StaticApkPolicy
unfolding limit_values
checked_static_policy p =
    if any (λ v. ltb v 1) (limit_values p)
    then err (fault value_error "Static APK analysis limits must be positive integers.")
    else if ltb p.max_text_entry_bytes p.max_string_bytes
    then err (fault value_error "Static string limit may not exceed the text-entry limit.")
    else if ltb p.max_entry_uncompressed_bytes p.max_text_entry_bytes
    then err (fault value_error "Text-entry limit may not exceed the general entry limit.")
    else if ltb p.max_entry_uncompressed_bytes p.max_dex_bytes
    then err (fault value_error "DEX limit may not exceed the general entry limit.")
    else if ltb p.max_total_uncompressed_bytes p.max_dex_bytes
    then err (fault value_error "DEX limit may not exceed the total uncompressed-byte limit.")
    else if leb p.max_string_scan_chunk_bytes p.max_string_bytes
    then err (fault value_error "String scan chunks must exceed the candidate string limit.")
    else if ltb p.max_string_scan_file_bytes p.max_string_scan_chunk_bytes
    then err (fault value_error "String scan file budget may not be smaller than a chunk.")
    else if ltb p.max_string_scan_apk_bytes p.max_string_scan_file_bytes
    then err (fault value_error "String scan APK budget may not be smaller than a file budget.")
    else ok p
