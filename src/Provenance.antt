-- ===== src/Provenance.antt =====
-- src/provenance.rs: in-toto statements with SLSA provenance, and the checks on their fields.
pub mod Envelope
pub mod Pae
pub mod Statement
pub mod Verified
pub mod Signed
pub mod Accepted
use sci_capsule.Prelude.{
  ℕ, ◌*◌, Bool, true, false, not, ◌||◌, ◌&&◌, Option, none, some, List, [], ◌∷◌, ◌++◌, Bytes, codes,
  ltb, leb, ◌==◌, nat_eq, list_eq, length, is_empty, all, any, map, is_alphabetic, is_alphanumeric,
  is_hexdigit, to_lower, split_once, to_hex, Result, ok, reject_if, ok_or, ◌>>=◌, ◌>>◌,
}
use sci_capsule.Crypto.{Crypto, Json}

abbrev pub in_toto_statement_v1 : Bytes
in_toto_statement_v1 = codes "https://in-toto.io/Statement/v1"

abbrev pub slsa_provenance_v1 : Bytes
slsa_provenance_v1 = codes "https://slsa.dev/provenance/v1"

abbrev pub dsse_in_toto_json_payload_type : Bytes
dsse_in_toto_json_payload_type = codes "application/vnd.in-toto+json"

abbrev pub max_provenance_payload_bytes : ℕ
max_provenance_payload_bytes = 1024 * 1024

abbrev pub max_type_uri_bytes : ℕ
max_type_uri_bytes = 2048

-- What the code takes from `serde_json::Value`.
pub record JsonValues : Type 1 where
  pub Value : Type 0
  pub is_null : Value → Bool
  pub is_object : Value → Bool
  -- `Value::Object(Map::new())`
  pub empty_object : Value

-- A `BTreeMap<String, String>`, as its entries.
abbrev pub DigestSet : Type 0
DigestSet = List (Bytes × Bytes)

pub record ResourceDescriptor : Type 0 where
  pub uri : Option Bytes
  pub digest : DigestSet
  pub name : Option Bytes

pub record BuildDefinition (Value : Type 0) : Type 0 where
  pub build_type : Bytes
  pub external_parameters : Value
  pub internal_parameters : Value
  pub resolved_dependencies : List ResourceDescriptor

pub record Builder : Type 0 where
  pub id : Bytes

pub record RunDetails : Type 0 where
  pub builder : Builder

pub record SlsaProvenance (Value : Type 0) : Type 0 where
  pub build_definition : BuildDefinition Value
  pub run_details : RunDetails

pub record ProvenanceStatement (Value : Type 0) : Type 0 where
  pub statement_type : Bytes
  pub subject : List ResourceDescriptor
  pub predicate_type : Bytes
  pub predicate : SlsaProvenance Value

-- The labels that `validate_type_uri` and the other checks are given.
pub data Label : Type 0 where
  builder_id build_type source_uri source_sha256 : Label
  provenance_build_type provenance_builder_id : Label
  external_parameters internal_parameters : Label

-- The messages of `ProvenanceError`, one constructor for each message.
pub data ProvenanceError (Trust : Type 0) : Type 0 where
  invalid_statement_json serialize_failed : ProvenanceError Trust
  statement_too_large : ℕ → ProvenanceError Trust
  unsupported_statement_type unsupported_predicate_type : Bytes → ProvenanceError Trust
  no_subject : ProvenanceError Trust
  not_object_or_null : Label → ProvenanceError Trust
  uri_empty uri_form uri_without_scheme uri_scheme : Label → ProvenanceError Trust
  uri_too_long : Label → ℕ → ProvenanceError Trust
  sha256_form : Label → ProvenanceError Trust
  empty_payload : ProvenanceError Trust
  payload_too_large : ℕ → ProvenanceError Trust
  no_signatures : ProvenanceError Trust
  too_many_signatures : ℕ → ProvenanceError Trust
  invalid_private_key : ProvenanceError Trust
  invalid_envelope_json serialize_envelope_failed : ProvenanceError Trust
  unsupported_payload_type : Bytes → ProvenanceError Trust
  invalid_base64_payload invalid_base64_signature : ProvenanceError Trust
  signature_length_mismatch : ℕ → ProvenanceError Trust
  trust_failed : Trust → ProvenanceError Trust
  subject_mismatch : ProvenanceError Trust

-- `u8::is_ascii`, `is_ascii_whitespace` and `is_ascii_control`
unfoldable pub is_ascii : ℕ → Bool
is_ascii c = leb c 127

unfoldable pub is_whitespace : ℕ → Bool
is_whitespace c = c == 32 || c == 9 || c == 10 || c == 12 || c == 13

unfoldable pub is_control : ℕ → Bool
is_control c = ltb c 32 || c == 127

unfoldable pub is_scheme_byte : ℕ → Bool
is_scheme_byte c = is_alphanumeric c || c == b'+' || c == b'-' || c == b'.'

unfoldable pub is_scheme : Bytes → Bool
is_scheme [] = false
is_scheme (c ∷ s) = is_alphabetic c && all is_scheme_byte s

-- `BTreeMap::get` of a key
unfoldable pub lookup : DigestSet → Bytes → Option Bytes
lookup [] key = none
lookup ((k, v) ∷ entries) key = elim (k == key) [ true ↦ some v | false ↦ lookup entries key ]

module _ {Trust : Type 0} where
  unfoldable pub validate_type_uri : Bytes → Label → Result (ProvenanceError Trust) (Unit {0})
  validate_type_uri value label = do
    reject_if (is_empty value) (uri_empty label)
    reject_if (ltb max_type_uri_bytes (length value)) (uri_too_long label (length value))
    reject_if (not (all is_ascii value) || any (λ c. is_whitespace c || is_control c) value)
        (uri_form label)
    (scheme, _) ← ok_or (split_once b':' value) (uri_without_scheme label)
    reject_if (not (is_scheme scheme)) (uri_scheme label)

  unfoldable pub normalize_sha256 : Bytes → Label → Result (ProvenanceError Trust) Bytes
  normalize_sha256 value label = do
    reject_if (not (length value == 64) || not (all is_hexdigit value)) (sha256_form label)
    ok (map to_lower value)

  module _ (values : JsonValues) where
    unfoldable pub validate_parameters :
        values.Value → Label → Result (ProvenanceError Trust) (Unit {0})
    validate_parameters value label =
        reject_if (not (values.is_null value || values.is_object value)) (not_object_or_null label)

    unfoldable pub validate :
        ProvenanceStatement values.Value → Result (ProvenanceError Trust) (Unit {0})
    validate s = do
      reject_if (not (s.statement_type == in_toto_statement_v1))
          (unsupported_statement_type s.statement_type)
      reject_if (not (s.predicate_type == slsa_provenance_v1))
          (unsupported_predicate_type s.predicate_type)
      reject_if (is_empty s.subject) no_subject
      validate_type_uri s.predicate.build_definition.build_type provenance_build_type
      validate_type_uri s.predicate.run_details.builder.id provenance_builder_id
      validate_parameters s.predicate.build_definition.external_parameters external_parameters
      validate_parameters s.predicate.build_definition.internal_parameters internal_parameters

    module _ (json : Json (ProvenanceStatement values.Value)) where
      unfoldable pub from_json :
          Bytes → Result (ProvenanceError Trust) (ProvenanceStatement values.Value)
      from_json encoded = do
        statement ← ok_or (json.from_slice encoded) invalid_statement_json
        validate statement
        ok statement

      unfoldable pub to_json :
          ProvenanceStatement values.Value → Result (ProvenanceError Trust) Bytes
      to_json s = do
        validate s
        encoded ← ok_or (json.to_vec_pretty s) serialize_failed
        let encoded = encoded ++ b'\n' ∷ []
        reject_if (ltb max_provenance_payload_bytes (length encoded))
            (statement_too_large (length encoded))
        ok encoded

module _ (crypto : Crypto) where
  unfoldable pub sha256_hex : Bytes → Bytes
  sha256_hex bytes = to_hex (crypto.sha256 bytes)

  -- Whether one subject has the SHA-256 of the capsule, in either case.
  unfoldable pub subject_matches : Bytes → ResourceDescriptor → Bool
  subject_matches expected subject = elim (lookup subject.digest (codes "sha256")) [
    | none ↦ false
    | some actual ↦ map to_lower actual == map to_lower expected
  ]

  unfoldable pub matches_capsule : {Value : Type 0} → ProvenanceStatement Value → Bytes → Bool
  matches_capsule s capsule_bytes = any (subject_matches (sha256_hex capsule_bytes)) s.subject

  module _ (values : JsonValues) where
    -- The statement that `for_capsule` builds, from the normalized digest of the source.
    unfoldable pub capsule_statement :
        Bytes → Bytes → Bytes → Bytes → Bytes → Bytes → ProvenanceStatement values.Value
    capsule_statement capsule_name capsule_bytes id build_uri source normalized = record {
      statement_type = in_toto_statement_v1;
      subject =
          record {
            uri = none;
            digest = (codes "sha256", sha256_hex capsule_bytes) ∷ [];
            name = some capsule_name;
          }
          ∷ [];
      predicate_type = slsa_provenance_v1;
      predicate = record {
        build_definition = record {
          build_type = build_uri;
          external_parameters = values.empty_object;
          internal_parameters = values.empty_object;
          resolved_dependencies =
              record { uri = some source; digest = (codes "sha256", normalized) ∷ []; name = none }
              ∷ [];
        };
        run_details = record { builder = record { id = id } };
      };
    }

    unfoldable pub for_capsule :
        {Trust : Type 0}
        → Bytes
        → Bytes
        → Bytes
        → Bytes
        → Bytes
        → Bytes
        → Result (ProvenanceError Trust) (ProvenanceStatement values.Value)
    for_capsule capsule_name capsule_bytes id build_uri source digest = do
      validate_type_uri id builder_id
      validate_type_uri build_uri build_type
      validate_type_uri source source_uri
      normalized ← normalize_sha256 digest source_sha256
      let statement = capsule_statement capsule_name capsule_bytes id build_uri source normalized
      validate values statement
      ok statement
