-- ===== src/Product/Signing.antt =====
-- src/product_main.rs: `verify_signature_command` after `sign_command`.
use sci_capsule.Prelude.{
  ℕ, ◌≡◌, ◌≢◌, ◌+◌, some_of_ne_none, refl, sym, ap, subst, ◌∙◌, true, some, [], ◌∷◌, ◌++◌, length,
  length-append, ◌≤◌, ◌<◌, nat_eq, Bytes, arith, ok, ok_or, map_err, ok-injective, u64_max,
}
use sci_capsule.Action.{lift, map_error, >>=-succeeds, map_error-succeeds}
use sci_capsule.Crypto.{Crypto, IsLawful, Json, ReadsBack}
use sci_capsule.Files.{Location, Entries, Disk, regular, still}
use sci_capsule.Files.Access.{read_regular_input_bounded}
use sci_capsule.Files.Calls.{update_same, update_other}
use sci_capsule.Files.Reading.{read-succeeds, read_fits}
use sci_capsule.Files.Writing.{IsWritten}
use sci_capsule.Extraction.Materialize.{Capsule}
use sci_capsule.Cli.Commands.{Container}
use sci_capsule.Signature
use sci_capsule.Signature.{
  SignatureEnvelope, sign_capsule, verify_capsule_signature, verify_capsule_signature_with_key,
  verify_capsule_signature_with_public_key_bytes,
}
use sci_capsule.Signature.Laws.{IsEnvelope, verify-IsVerified, verify-sign_capsule}
use sci_capsule.Product.{
  Report, signed, verified, file, invalid_capsule, cannot_sign, cannot_encode_signature,
  max_auth_capsule_bytes, max_key_file_bytes, max_signature_envelope_bytes, is_utf8, read_bounded,
  read_decoded, read_regular_utf8_bounded, read_envelope, write_output, sign_command,
  verify_signature_command,
}
use sci_capsule.Product.Reading.{
  Holds, lift-map_err-succeeds, read_decoded-succeeds, read_regular_utf8_bounded-succeeds,
  write_output-succeeds,
}

-- The printed form of a valid envelope, which has a fixed number of fields of fixed sizes.
pub record IsShort (json : Json SignatureEnvelope) : Type 0 where
  pub length-to_vec_pretty :
      (e : SignatureEnvelope) (text : Bytes)
      → IsEnvelope e
      → json.to_vec_pretty e ≡ some text
      → length text < max_signature_envelope_bytes

length-to_json :
    (json : Json SignatureEnvelope) (short : IsShort json) (e : SignatureEnvelope) (encoded : Bytes)
    → IsEnvelope e
    → Signature.to_json json e ≡ ok encoded
    → length encoded ≤ max_signature_envelope_bytes
unfolding Signature.to_json
length-to_json json short e encoded v h =
    let (text, printed) = some_of_ne_none (json.to_vec_pretty e) (ground arith) in
    let same : text ++ b'\n' ∷ [] ≡ encoded = ground (arith, printed) in
    let small = short.length-to_vec_pretty e text v printed in
    let size : length (text ++ b'\n' ∷ []) ≡ length text + 1 = length-append text (b'\n' ∷ []) in
    subst (λ b. length b ≤ max_signature_envelope_bytes) same (omega (arith, small, size))

-- The key in a PEM file verifies as its raw bytes do.
verify_with_pem :
    (crypto : Crypto) (lawful : IsLawful crypto) (bytes : Bytes) (e : SignatureEnvelope)
    (key : crypto.VerifyingKey) (pem : Bytes)
    → crypto.key_from_pem pem ≡ some key
    → verify_capsule_signature_with_public_key_bytes crypto bytes e (crypto.key_to_bytes key)
      ≡ ok tt
    → verify_capsule_signature crypto bytes e pem ≡ ok tt
unfolding verify_capsule_signature verify_capsule_signature_with_public_key_bytes
verify_with_pem crypto lawful bytes e key pem is_key h =
    rw is_key (rw (lawful.length-key_to_bytes key, lawful.key_from_bytes-key_to_bytes key) at h)

module _ (locate : Bytes → Location) where
  read_bounded_fits :
      (path : Bytes) (maximum : ℕ) (f : Entries) (bytes : Bytes)
      → Holds locate f path bytes
      → length bytes ≤ maximum
      → maximum < u64_max
      → read_bounded locate path maximum (still f) ≡ (ok bytes, still f)
  unfolding read_bounded
  read_bounded_fits path maximum f bytes holds short bound =
      rw (read_fits (locate path) maximum f bytes holds short bound) refl

  read_decoded_short :
      (container : Container) (path : Bytes) (maximum : ℕ) (d d' : Disk) {bytes : Bytes}
      {capsule : Capsule}
      → read_decoded locate container path maximum d ≡ (ok (bytes, capsule), d')
      → length bytes ≤ maximum
  unfolding read_decoded read_bounded
  read_decoded_short container path maximum d d' {bytes} {capsule} h =
      let act = read_regular_input_bounded (locate path) maximum in
      let (read, d1, h1, h) = >>=-succeeds (map_error file act) _ d h in
      let (decoded, d2, h2, h) =
        >>=-succeeds (lift (ok_or (container.decode read) invalid_capsule)) _ d1 h in
      let regular_file =
        read-succeeds (locate path) maximum d d1 read (map_error-succeeds file act d h1) in
      subst (λ b. length b ≤ maximum) (ap (λ x. x.0) (ok-injective (ap (λ x. x.0) h)))
        regular_file.short

  -- A file that is there is not the one that is written.
  kept :
      {output encoded : Bytes} {before after : Entries}
      → IsWritten (locate output) encoded before after
      → (path : Bytes) {bytes : Bytes} → Holds locate before path bytes
      → Holds locate after path bytes
  kept {output} {encoded} {before} written path holds =
      let other : locate path ≢ locate output = λ e. cc (holds, ap before e, written.was_absent) in
      written.written (locate path)
      ∙ update_other before (locate output) (some (regular encoded)) (locate path) other
      ∙ holds

  -- What `sign_command` has read and written.
  record IsSigned (crypto : Crypto) (container : Container) (json : Json SignatureEnvelope)
      (capsule_path key_path output : Bytes) (before after : Entries) (report : Report)
      : Type 0 where
    capsule_bytes : Bytes
    capsule : Capsule
    holds_capsule : Holds locate before capsule_path capsule_bytes
    short : length capsule_bytes ≤ max_auth_capsule_bytes
    decodes : container.decode capsule_bytes ≡ some capsule
    private_key : Bytes
    holds_key : Holds locate before key_path private_key
    envelope : SignatureEnvelope
    is_envelope : sign_capsule crypto capsule_bytes private_key ≡ ok envelope
    encoded : Bytes
    encodes : Signature.to_json json envelope ≡ ok encoded
    written : IsWritten (locate output) encoded before after
    reports : report ≡ signed capsule_path (container.name capsule) output

  sign_command-IsSigned :
      (crypto : Crypto) (container : Container) (json : Json SignatureEnvelope)
      (capsule_path key_path output : Bytes) (d d' : Disk) (report : Report)
      → sign_command locate crypto container json capsule_path key_path output d ≡ (ok report, d')
      → IsSigned crypto container json capsule_path key_path output d.entries d'.entries report
  unfolding sign_command
  sign_command-IsSigned crypto container json capsule_path key_path output d d' report h =
      let ((bytes, capsule), d1, h1, h) =
        >>=-succeeds (read_decoded locate container capsule_path max_auth_capsule_bytes) _ d h in
      let (private_key, d2, h2, h) =
        >>=-succeeds (read_regular_utf8_bounded locate key_path max_key_file_bytes) _ d1 h in
      let signing = sign_capsule crypto bytes private_key in
      let (envelope, d3, h3, h) = >>=-succeeds (lift (map_err cannot_sign signing)) _ d2 h in
      let printing = Signature.to_json json envelope in
      let (encoded, d4, h4, h) =
        >>=-succeeds (lift (map_err cannot_encode_signature printing)) _ d3 h in
      let (_, d5, h5, h) = >>=-succeeds (write_output locate output encoded) _ d4 h in
      let (holds_capsule, decodes, same1) =
        read_decoded-succeeds locate container capsule_path max_auth_capsule_bytes d d1 h1 in
      let (holds_key, _, same2) =
        read_regular_utf8_bounded-succeeds locate key_path max_key_file_bytes d1 d2 h2 in
      let (is_envelope, same3) = lift-map_err-succeeds cannot_sign signing d2 h3 in
      let (encodes, same4) = lift-map_err-succeeds cannot_encode_signature printing d3 h4 in
      let start : d4.entries ≡ d.entries =
        ap (λ s. s.entries) same4 ∙ ap (λ s. s.entries) same3 ∙ same2 ∙ same1 in
      record {
        capsule_bytes = bytes;
        capsule = capsule;
        holds_capsule = holds_capsule;
        short = read_decoded_short container capsule_path max_auth_capsule_bytes d d1 h1;
        decodes = decodes;
        private_key = private_key;
        holds_key = ap (λ f. f (locate key_path)) (sym same1) ∙ holds_key;
        envelope = envelope;
        is_envelope = is_envelope;
        encoded = encoded;
        encodes = encodes;
        written =
            subst (λ f. IsWritten (locate output) encoded d.entries f) (ap (λ x. x.1.entries) h)
              (subst (λ f. IsWritten (locate output) encoded f d5.entries) start
                (write_output-succeeds locate output encoded d4 d5 h5));
        reports = ok-injective (ap (λ x. x.0) (sym h));
      }

  -- Over lawful cryptographic primitives and an envelope printer that reads back and is short,
  -- whatever failures the system has in store: where `sign_command` succeeds, and another file
  -- holds, as valid UTF-8 that is short enough, the public key of the private key in the key file,
  -- `verify_signature_command` of the capsule with the written signature and that public key
  -- succeeds once the system does not fail, for the same capsule, and changes nothing.
  pub verify_signature_command-sign_command :
      (crypto : Crypto) (container : Container) (json : Json SignatureEnvelope)
      (capsule_path key_path output public_path private_key public_key : Bytes)
      (key : crypto.SigningKey) (d d' : Disk) (report : Report)
      → IsLawful crypto
      → ReadsBack json
      → IsShort json
      → Holds locate d.entries key_path private_key
      → crypto.signing_key_from_pem private_key ≡ some key
      → Holds locate d.entries public_path public_key
      → is_utf8 public_key ≡ true
      → length public_key ≤ max_key_file_bytes
      → crypto.key_from_pem public_key ≡ some (crypto.public_key key)
      → sign_command locate crypto container json capsule_path key_path output d ≡ (ok report, d')
      → (name : Bytes) × (report ≡ signed capsule_path name output)
        × (verify_signature_command locate crypto container json capsule_path output public_path
              (still d'.entries)
            ≡ (ok (verified capsule_path name output), still d'.entries))
  unfolding verify_signature_command read_decoded read_envelope read_regular_utf8_bounded
  verify_signature_command-sign_command crypto container json capsule_path key_path output
        public_path private_key public_key key d d' report lawful reads short private_file
        is_private public_file utf8 public_short is_public h =
      let s =
        sign_command-IsSigned crypto container json capsule_path key_path output d d' report h in
      let same_key : s.private_key ≡ private_key = cc (s.holds_key, private_file) in
      let is_private' : crypto.signing_key_from_pem s.private_key ≡ some key =
        ap crypto.signing_key_from_pem same_key ∙ is_private in
      let (back, verifies) =
        verify-sign_capsule crypto json lawful reads s.capsule_bytes s.private_key s.encoded
          s.envelope key is_private' s.is_envelope s.encodes in
      let verifies' =
        verify_with_pem crypto lawful s.capsule_bytes s.envelope (crypto.public_key key) public_key
          is_public verifies in
      let size =
        length-to_json json short s.envelope s.encoded
          (verify-IsVerified crypto s.capsule_bytes s.envelope _ verifies).envelope s.encodes in
      let capsule_read =
        read_bounded_fits capsule_path max_auth_capsule_bytes d'.entries s.capsule_bytes
          (kept s.written capsule_path s.holds_capsule) s.short (omega arith) in
      let envelope_read =
        read_bounded_fits output max_signature_envelope_bytes d'.entries s.encoded
          (s.written.written (locate output)
            ∙ update_same d.entries (locate output) (some (regular s.encoded)))
          size (omega arith) in
      let key_read =
        read_bounded_fits public_path max_key_file_bytes d'.entries public_key
          (kept s.written public_path public_file) public_short (omega arith) in
      (
        container.name s.capsule,
        s.reports,
        rw (capsule_read, s.decodes, envelope_read, back, key_read, utf8, verifies') refl,
      )
