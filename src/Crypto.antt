-- ===== src/Crypto.antt =====
-- android_assessor/crypto_analysis.py: the policy, a normalized crypto operation and its reading
-- from an observation. The rules over operations are in Crypto/Rules, what reads the events of a
-- Frida session in Crypto/Extraction.
pub mod Conditions
pub mod Reading
pub mod Rules
pub mod Analysis
pub mod Extraction
pub mod Accepted
pub mod Grounded
pub mod Strength
pub mod Reuse
pub mod Failing
pub mod Passing
use android_appsec_assessor.Prelude.{
  ℕ, String, Bool, ◌&&◌, Option, none, some, List, [], ◌∷◌, length, leb, ◌=ₛ◌, if◌then◌else◌,
}
use android_appsec_assessor.Errors.{Result, ok, value_error, require, ◌>>=◌, ◌>>◌}

pub data CryptoKeyOrigin : Type 0 where
  unknown generated derived static_runtime weak_random : CryptoKeyOrigin

-- `CryptoKeyOrigin(text)`, `none` where it raises.
unfoldable pub key_origin_of : String → Option CryptoKeyOrigin
key_origin_of s =
    if s =ₛ "unknown"
    then some unknown
    else if s =ₛ "generated"
    then some generated
    else if s =ₛ "derived"
    then some derived
    else if s =ₛ "static_runtime"
    then some static_runtime
    else if s =ₛ "weak_random"
    then some weak_random
    else none

pub record CryptoPolicy : Type 0 where
  pub minimum_symmetric_key_bits : ℕ
  pub weak_algorithms : List String
  pub minimum_pbe_iterations : ℕ

abbrev pub default_policy : CryptoPolicy
default_policy = record {
  minimum_symmetric_key_bits = 128;
  weak_algorithms = "DES" ∷ "3DES" ∷ "DESEDE" ∷ "RC4" ∷ [];
  minimum_pbe_iterations = 100000;
}

-- `__post_init__`
unfoldable pub checked_policy : CryptoPolicy → Result CryptoPolicy
checked_policy p = do
  require (leb 64 p.minimum_symmetric_key_bits && leb p.minimum_symmetric_key_bits 512) value_error
      "Crypto minimum key length must be between 64 and 512 bits."
  require (leb 1000 p.minimum_pbe_iterations && leb p.minimum_pbe_iterations 10000000) value_error
      "PBE minimum iterations must be between 1000 and 10000000."
  ok p

pub record CryptoOperation : Type 0 where
  pub operation_id : String
  pub transformation : String
  pub algorithm : String
  pub mode : Option String
  pub padding : Option String
  pub purpose : String
  pub executed : Bool
  pub key_length_bits : Option ℕ
  pub key_sha256 : Option String
  pub iv_sha256 : Option String
  pub iv_source : String
  pub key_origin : CryptoKeyOrigin
  pub canary_match : Bool
  pub source : String
  pub environment : String
  pub operation_kind : String
  pub iv_length : Option ℕ
  pub iv_zero : Option Bool
  pub salt_length : Option ℕ
  pub iteration_count : Option ℕ
  pub call_sequence : List String
