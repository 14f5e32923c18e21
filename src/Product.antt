-- ===== src/Product.antt =====
-- src/product_main.rs: the commands on signatures and trust policies, on the file system.
pub mod Reading
pub mod Trusting
pub mod Signing
use sci_capsule.Prelude.{
  ℕ, ◌+◌, ◌*◌, Bool, true, false, not, ◌&&◌, ◌||◌, Option, none, some, List, [], ◌∷◌, Bytes, ltb,
  leb, ◌==◌, nat_eq, if◌then◌else◌, length, Result, ok, err, ok_or, map_err,
}
use sci_capsule.Action.{Action, pure, lift, raise_if, ◌>>=◌, ◌>>◌, map_error}
use sci_capsule.Crypto.{Crypto, Json}
use sci_capsule.Files.{Location, Disk, IoError}
use sci_capsule.Files.Access.{FileError, read_regular_file_bounded, write_new_file}
use sci_capsule.Extraction.{ExtractionError, default_extraction_limits, max_capsule_metadata_bytes}
use sci_capsule.Extraction.Materialize.{Capsule}
use sci_capsule.Cli.Commands.{Container}
use sci_capsule.Signature
use sci_capsule.Signature.{
  SignatureEnvelope, SignatureModelError, sign_capsule, verify_capsule_signature,
}
use sci_capsule.Trust.{TrustPolicy, TrustPolicyError, TrustDecision}
use sci_capsule.Trust.Verify
use sci_capsule.Trust.Verify.{policy_digest, verify}
use sci_capsule.Trust.Update.{
  from_named_pem_keys, from_named_pem_keys_v2, update_from_named_pem_keys,
}

abbrev pub max_signature_envelope_bytes : ℕ
max_signature_envelope_bytes = 16 * 1024

abbrev pub max_key_file_bytes : ℕ
max_key_file_bytes = 64 * 1024

abbrev pub max_trust_policy_bytes : ℕ
max_trust_policy_bytes = 256 * 1024

abbrev pub max_auth_capsule_bytes : ℕ
max_auth_capsule_bytes = default_extraction_limits.max_total_bytes + max_capsule_metadata_bytes

-- The messages of `ProductError::operation` of these commands and of `execute`; `lifecycle_required`
-- and those below it are of `execute`, `max_bytes_too_large` is a usage error.
pub data ProductError : Type 0 where
  file : FileError → ProductError
  not_utf8 invalid_capsule : ProductError
  cannot_sign cannot_encode_signature : SignatureModelError → ProductError
  invalid_envelope verification_failed : SignatureModelError → ProductError
  invalid_policy cannot_encode_policy trust_failed cannot_update : TrustPolicyError → ProductError
  no_revision max_bytes_too_large lifecycle_required entrypoint_not_regular : ProductError
  cannot_create_run_directory cannot_inspect_entrypoint cannot_make_executable :
      IoError → ProductError
  cannot_materialize : ExtractionError → ProductError

abbrev pub Acting : Type 0 → Type 0
Acting A = Action Disk ProductError A

-- What a command prints, by its parts.
pub data Report : Type 0 where
  -- the capsule file, the capsule's name, the signature file
  signed verified : Bytes → Bytes → Bytes → Report
  -- the policy file, the signatures that it requires, the number of its keys
  policy_created : Bytes → ℕ → ℕ → Report
  -- the policy file, its digest
  lifecycle_policy_created : Bytes → Bytes → Report
  -- the revision, the digest
  policy_updated : ℕ → Bytes → Report
  -- the capsule file, the capsule's name, the matched signers, the required signatures
  trusted : Bytes → Bytes → List Bytes → ℕ → Report

abbrev between : ℕ → ℕ → ℕ → Bool
between a b c = leb a c && leb c b

abbrev is_tail : ℕ → Bool
is_tail c = between 0x80 0xBF c

-- The second byte of three and of four, by the first one.
abbrev second_of_three : ℕ → ℕ → Bool
second_of_three a b =
    (a == 0xE0 && between 0xA0 0xBF b)
    || (between 0xE1 0xEC a && is_tail b)
    || (a == 0xED && between 0x80 0x9F b)
    || (between 0xEE 0xEF a && is_tail b)

abbrev second_of_four : ℕ → ℕ → Bool
second_of_four a b =
    (a == 0xF0 && between 0x90 0xBF b)
    || (between 0xF1 0xF3 a && is_tail b)
    || (a == 0xF4 && between 0x80 0x8F b)

-- Whether `String::from_utf8` accepts the bytes.
unfoldable pub is_utf8 : Bytes → Bool
is_utf8 [] = true
is_utf8 (a ∷ []) = ltb a 0x80
is_utf8 (a ∷ b ∷ []) = (ltb a 0x80 && ltb b 0x80) || (between 0xC2 0xDF a && is_tail b)
is_utf8 (a ∷ b ∷ c ∷ []) =
    (ltb a 0x80 && is_utf8 (b ∷ c ∷ []))
    || (between 0xC2 0xDF a && is_tail b && is_utf8 (c ∷ []))
    || (second_of_three a b && is_tail c)
is_utf8 (a ∷ b ∷ c ∷ d ∷ rest) =
    (ltb a 0x80 && is_utf8 (b ∷ c ∷ d ∷ rest))
    || (between 0xC2 0xDF a && is_tail b && is_utf8 (c ∷ d ∷ rest))
    || (second_of_three a b && is_tail c && is_utf8 (d ∷ rest))
    || (second_of_four a b && is_tail c && is_tail d && is_utf8 rest)

module _ (locate : Bytes → Location) where
  unfoldable pub read_bounded : Bytes → ℕ → Acting Bytes
  read_bounded path maximum = map_error file (read_regular_file_bounded (locate path) maximum)

  unfoldable pub read_regular_utf8_bounded : Bytes → ℕ → Acting Bytes
  read_regular_utf8_bounded path maximum_bytes = do
    bytes ← read_bounded path maximum_bytes
    raise_if (not (is_utf8 bytes)) not_utf8
    pure bytes

  -- The reading of each key's file.
  unfoldable pub read_named_pem_keys : List (Bytes × Bytes) → Acting (List (Bytes × Bytes))
  read_named_pem_keys [] = pure []
  read_named_pem_keys ((name, path) ∷ keys) = do
    pem ← read_regular_utf8_bounded path max_key_file_bytes
    rest ← read_named_pem_keys keys
    pure ((name, pem) ∷ rest)

  -- The creation of a policy's file.
  unfoldable pub write_output : Bytes → Bytes → Acting (Unit {0})
  write_output output encoded = map_error file (write_new_file (locate output) encoded)

  module _ (container : Container) where
    -- The reading and decoding of the capsule.
    unfoldable pub read_decoded : Bytes → ℕ → Acting (Bytes × Capsule)
    read_decoded capsule_path maximum = do
      capsule_bytes ← read_bounded capsule_path maximum
      capsule ← lift (ok_or (container.decode capsule_bytes) invalid_capsule)
      pure (capsule_bytes, capsule)

  module _ (json : Json SignatureEnvelope) where
    unfoldable pub read_envelope : Bytes → Acting SignatureEnvelope
    read_envelope path = do
      signature_bytes ← read_bounded path max_signature_envelope_bytes
      lift (map_err invalid_envelope (Signature.from_json json signature_bytes))

    -- The loop over the signature files.
    unfoldable pub read_envelopes : List Bytes → Acting (List SignatureEnvelope)
    read_envelopes [] = pure []
    read_envelopes (path ∷ paths) = do
      envelope ← read_envelope path
      envelopes ← read_envelopes paths
      pure (envelope ∷ envelopes)

  module _ (crypto : Crypto) (container : Container) (json : Json SignatureEnvelope) where
    unfoldable pub sign_command : Bytes → Bytes → Bytes → Acting Report
    sign_command capsule_path key_path output = do
      (capsule_bytes, capsule) ← read_decoded container capsule_path max_auth_capsule_bytes
      private_key ← read_regular_utf8_bounded key_path max_key_file_bytes
      envelope ← lift (map_err cannot_sign (sign_capsule crypto capsule_bytes private_key))
      encoded ← lift (map_err cannot_encode_signature (Signature.to_json json envelope))
      write_output output encoded
      pure (signed capsule_path (container.name capsule) output)

    unfoldable pub verify_signature_command : Bytes → Bytes → Bytes → Acting Report
    verify_signature_command capsule_path signature_path key_path = do
      (capsule_bytes, capsule) ← read_decoded container capsule_path max_auth_capsule_bytes
      envelope ← read_envelope json signature_path
      public_key ← read_regular_utf8_bounded key_path max_key_file_bytes
      lift (
          map_err verification_failed
            (verify_capsule_signature crypto capsule_bytes envelope public_key))
      pure (verified capsule_path (container.name capsule) signature_path)

  module _ (crypto : Crypto) (policy_json : Json TrustPolicy) where
    unfoldable pub create_trust_policy_command : Bytes → ℕ → List (Bytes × Bytes) → Acting Report
    create_trust_policy_command output minimum_signatures keys = do
      pem_keys ← read_named_pem_keys keys
      policy ←
          lift (map_err invalid_policy (from_named_pem_keys crypto minimum_signatures pem_keys))
      encoded ← lift (map_err cannot_encode_policy (Verify.to_json crypto policy_json policy))
      write_output output encoded
      pure (policy_created output policy.minimum_signatures (length policy.trusted_keys))

    unfoldable pub create_lifecycle_trust_policy_command :
        Bytes → Bytes → ℕ → ℕ → ℕ → List (Bytes × Bytes) → Acting Report
    create_lifecycle_trust_policy_command output policy_id from until minimum_signatures keys = do
      pem_keys ← read_named_pem_keys keys
      policy ← lift (
          map_err invalid_policy
            (from_named_pem_keys_v2 crypto policy_id from until minimum_signatures pem_keys))
      digest ← lift (map_err cannot_encode_policy (policy_digest crypto policy_json policy))
      encoded ← lift (map_err cannot_encode_policy (Verify.to_json crypto policy_json policy))
      write_output output encoded
      pure (lifecycle_policy_created output digest)

    unfoldable pub read_policy : Bytes → Acting TrustPolicy
    read_policy path = do
      policy_bytes ← read_bounded path max_trust_policy_bytes
      lift (map_err invalid_policy (Verify.from_json crypto policy_json policy_bytes))

    -- The panic of the last `expect` is `no_revision`.
    unfoldable pub update_trust_policy_command :
        Bytes → Bytes → Bytes → ℕ → ℕ → ℕ → List Bytes → List (Bytes × Bytes) → Acting Report
    update_trust_policy_command current expected_digest output from until minimum_signatures
          revoked_names keys =
        do
          current_policy ← read_policy current
          pem_keys ← read_named_pem_keys keys
          next ← lift (
              map_err cannot_update (
                update_from_named_pem_keys crypto policy_json current_policy expected_digest from
                  until minimum_signatures pem_keys revoked_names))
          digest ← lift (map_err cannot_encode_policy (policy_digest crypto policy_json next))
          encoded ← lift (map_err cannot_encode_policy (Verify.to_json crypto policy_json next))
          write_output output encoded
          revision ← lift (ok_or next.revision no_revision)
          pure (policy_updated revision digest)

    -- `clock` is the system time, or `none` where it is before the Unix epoch.
    unfoldable pub verify_trusted_command :
        Container → Json SignatureEnvelope → Option ℕ → Bytes → Bytes → List Bytes → Acting Report
    verify_trusted_command container json clock capsule_path policy_path signature_paths = do
      (capsule_bytes, capsule) ← read_decoded container capsule_path max_auth_capsule_bytes
      policy ← read_policy policy_path
      signatures ← read_envelopes json signature_paths
      decision ←
          lift
            (map_err trust_failed (verify crypto policy_json clock policy capsule_bytes signatures))
      pure (
          trusted capsule_path (container.name capsule) decision.matched_signers
            decision.required_signatures)
