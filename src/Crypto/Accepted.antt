-- ===== src/Crypto/Accepted.antt =====
-- What `CryptoOperation.from_mapping` accepts.
use android_appsec_assessor.Prelude.{
  ℕ, ◌≤◌, String, true, false, ◌≡◌, ◌∙◌, sym, ap, refl, none, some, List, [], ◌∷◌, all, arith,
  eq_iff, length, get_elem?,
}
use android_appsec_assessor.Prelude.Int.{pos, negsuc}
use android_appsec_assessor.Prelude.Text.{codes, char_count, split_slash}
use android_appsec_assessor.Prelude.Case.{ascii_upper}
use android_appsec_assessor.Errors.{ok}
use android_appsec_assessor.Json.{
  Value, null, bool, num, str, arr, obj, nil, Fields, end, field, lookup, get, get_or, Conversions,
}
use android_appsec_assessor.Scope.{is_in}
use android_appsec_assessor.Validation.{is_hex}
use android_appsec_assessor.Crypto.{CryptoOperation}
use android_appsec_assessor.Crypto.Reading.{
  from_mapping, optional_int, optional_hash, is_hash, forbidden, has_key, purposes, operation_kinds,
  iv_sources, call_sequence_of, is_operation_id, is_purpose, is_operation_kind, is_iv_source,
  optional_non_negative_int,
}

has_key-lookup :
    (names : List String) (k : String) (value : Fields)
    → has_key names value ≡ false
    → is_in k names ≡ true
    → lookup k value ≡ none
unfolding has_key lookup
has_key-lookup names k end h m = refl
has_key-lookup names k (field j v fs) h m = ground (arith, eq_iff j k, has_key-lookup names k fs)

optional_int_bounds :
    (minimum maximum : ℕ) (message : String) (v : Value) (n : ℕ)
    → optional_int minimum maximum message v ≡ ok (some n)
    → (minimum ≤ n) × (n ≤ maximum)
unfolding optional_int
optional_int_bounds minimum maximum message null n h = cc
optional_int_bounds minimum maximum message (num (pos k)) n h = ground arith
optional_int_bounds minimum maximum message (num (negsuc k)) n h = cc
optional_int_bounds minimum maximum message (bool b) n h = cc
optional_int_bounds minimum maximum message (str s) n h = cc
optional_int_bounds minimum maximum message (arr vs) n h = cc
optional_int_bounds minimum maximum message (obj fs) n h = cc

optional_hash-IsHash :
    (name : String) (v : Value) (s : String)
    → optional_hash name v ≡ ok (some s)
    → (char_count s ≡ 64) × (all is_hex (codes s) ≡ true)
unfolding optional_hash is_hash
optional_hash-IsHash name (str t) s h = ground arith
optional_hash-IsHash name null s h = cc
optional_hash-IsHash name (num k) s h = cc
optional_hash-IsHash name (bool b) s h = cc
optional_hash-IsHash name (arr vs) s h = cc
optional_hash-IsHash name (obj fs) s h = cc

call_sequence_of_bounds :
    (v : Value) (ss : List String) → call_sequence_of v ≡ ok ss → length ss ≤ 64
unfolding call_sequence_of
call_sequence_of_bounds (arr vs) ss h = ground arith
call_sequence_of_bounds null ss h = cc
call_sequence_of_bounds (num k) ss h = cc
call_sequence_of_bounds (bool b) ss h = cc
call_sequence_of_bounds (str s) ss h = cc
call_sequence_of_bounds (obj fs) ss h = cc

-- What holds of an operation that was read from an observation.
pub record IsAccepted (source environment : String) (value : Fields) (op : CryptoOperation)
    : Type 0 where
  pub provenance : (op.source ≡ source) × (op.environment ≡ environment)
  pub no_material : (k : String) → is_in k forbidden ≡ true → lookup k value ≡ none
  pub id_bounds : (1 ≤ char_count op.operation_id) × (char_count op.operation_id ≤ 128)
  pub purpose_known : is_in op.purpose purposes ≡ true
  pub kind_known : is_in op.operation_kind operation_kinds ≡ true
  pub iv_source_known : is_in op.iv_source iv_sources ≡ true
  pub padding_after_mode : op.mode ≡ none → op.padding ≡ none
  pub key_length_bounds : (n : ℕ) → op.key_length_bits ≡ some n → (1 ≤ n) × (n ≤ 16384)
  pub iv_length_bound : (n : ℕ) → op.iv_length ≡ some n → n ≤ 65536
  pub salt_length_bound : (n : ℕ) → op.salt_length ≡ some n → n ≤ 65536
  pub iteration_bound : (n : ℕ) → op.iteration_count ≡ some n → n ≤ 2147483647
  pub key_hashed :
      (s : String) → op.key_sha256 ≡ some s → (char_count s ≡ 64) × (all is_hex (codes s) ≡ true)
  pub iv_hashed :
      (s : String) → op.iv_sha256 ≡ some s → (char_count s ≡ 64) × (all is_hex (codes s) ≡ true)
  pub calls_bound : length op.call_sequence ≤ 64

is_operation_id_bounds :
    (s : String) → is_operation_id s ≡ true → (1 ≤ char_count s) × (char_count s ≤ 128)
unfolding is_operation_id
is_operation_id_bounds s h = ground arith

get_elem?-none {ℓ} : {A : Type ℓ} (xs : List A) → get_elem? xs 1 ≡ none → get_elem? xs 2 ≡ none
get_elem?-none [] h = refl
get_elem?-none (x ∷ []) h = refl
get_elem?-none (x ∷ y ∷ ys) h = cc

module _ (conv : Conversions) (source environment : String) (value : Fields) {op : CryptoOperation}
    (accepted : from_mapping conv source environment value ≡ ok op) where
  same_provenance : (op.source ≡ source) × (op.environment ≡ environment)
  unfolding from_mapping
  same_provenance = ground arith

  has_no_material : has_key forbidden value ≡ false
  unfolding from_mapping
  has_no_material = ground arith

  has_operation_id : is_operation_id op.operation_id ≡ true
  unfolding from_mapping
  has_operation_id = ground arith

  known_names :
      (is_purpose op.purpose ≡ true)
      × (is_operation_kind op.operation_kind ≡ true)
      × (is_iv_source op.iv_source ≡ true)
  unfolding from_mapping
  known_names = ground arith

  abbrev op_parts : List String
  op_parts = split_slash (ascii_upper op.transformation)

  split_parts : (op.mode ≡ get_elem? op_parts 1) × (op.padding ≡ get_elem? op_parts 2)
  unfolding from_mapping
  split_parts = ground arith

  read_int :
      (optional_int 1 16384 "Crypto key length is invalid." (get "key_length_bits" value)
        ≡ ok op.key_length_bits)
      × (optional_non_negative_int "iv_length" 65536 value ≡ ok op.iv_length)
      × (optional_non_negative_int "salt_length" 65536 value ≡ ok op.salt_length)
      × (optional_non_negative_int "iteration_count" 2147483647 value ≡ ok op.iteration_count)
  unfolding from_mapping
  read_int = ground arith

  read_hash :
      (optional_hash "key_sha256" (get "key_sha256" value) ≡ ok op.key_sha256)
      × (optional_hash "iv_sha256" (get "iv_sha256" value) ≡ ok op.iv_sha256)
      × (call_sequence_of (get_or "call_sequence" (arr nil) value) ≡ ok op.call_sequence)
  unfolding from_mapping
  read_hash = ground arith

module _ (conv : Conversions) (source environment : String) (value : Fields) where
  -- An operation that `from_mapping` returns has the given provenance and came from a mapping that
  -- has none of the names of raw material; its identifier, lengths, iteration count and call sequence
  -- lie within their bounds, its purpose, kind and source of the initialization vector are known ones,
  -- its hashes are 64 hexadecimal digits, and it has no padding without a mode.
  pub from_mapping-IsAccepted :
      {op : CryptoOperation}
      → from_mapping conv source environment value ≡ ok op
      → IsAccepted source environment value op
  unfolding is_purpose is_operation_kind is_iv_source
  from_mapping-IsAccepted {op} accepted =
      let names = known_names conv source environment value accepted in
      let ints = read_int conv source environment value accepted in
      let hashes = read_hash conv source environment value accepted in
      let parts = split_parts conv source environment value accepted in
      record {
        provenance = same_provenance conv source environment value accepted;
        no_material = λ k m.
            has_key-lookup forbidden k value
              (has_no_material conv source environment value accepted) m;
        id_bounds =
            is_operation_id_bounds op.operation_id
              (has_operation_id conv source environment value accepted);
        purpose_known = names.0;
        kind_known = names.1;
        iv_source_known = names.2;
        padding_after_mode = λ m. parts.1 ∙ get_elem?-none _ (sym parts.0 ∙ m);
        key_length_bounds = λ n e. optional_int_bounds _ _ _ _ n (ints.0 ∙ ap ok e);
        iv_length_bound = λ n e. (optional_int_bounds _ _ _ _ n (ints.1 ∙ ap ok e)).1;
        salt_length_bound = λ n e. (optional_int_bounds _ _ _ _ n (ints.2 ∙ ap ok e)).1;
        iteration_bound = λ n e. (optional_int_bounds _ _ _ _ n (ints.3 ∙ ap ok e)).1;
        key_hashed = λ s e. optional_hash-IsHash _ _ s (hashes.0 ∙ ap ok e);
        iv_hashed = λ s e. optional_hash-IsHash _ _ s (hashes.1 ∙ ap ok e);
        calls_bound = call_sequence_of_bounds _ _ hashes.2;
      }
