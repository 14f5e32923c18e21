-- ===== src/Product/Reading.antt =====
-- src/product_main.rs: what the commands have read when they go on.
use sci_capsule.Prelude.{
  ℕ, ◌≡◌, sym, ap, subst, ◌∙◌, true, not, some, List, [], ◌∷◌, Bytes, Result, ok, ok_or, map_err,
  map_err-eq-ok, ok-injective, not-eq-false,
}
use sci_capsule.Action.{lift, raise_if, >>=-succeeds, map_error-succeeds}
use sci_capsule.Crypto.{Crypto, Json}
use sci_capsule.Files.{Location, Entries, Disk, regular}
use sci_capsule.Files.Access.{read_regular_input_bounded, write_new_capsule}
use sci_capsule.Files.Reading.{read-succeeds, raise_if-succeeds}
use sci_capsule.Files.Writing.{IsWritten, write-succeeds}
use sci_capsule.Extraction.Materialize.{Capsule}
use sci_capsule.Cli.Commands.{Container}
use sci_capsule.Cli.Packing.{lift-succeeds}
use sci_capsule.Signature
use sci_capsule.Signature.{SignatureEnvelope}
use sci_capsule.Trust.{TrustPolicy}
use sci_capsule.Trust.Verify
use sci_capsule.Product.{
  file, not_utf8, invalid_capsule, invalid_envelope, invalid_policy, is_utf8,
  max_signature_envelope_bytes, max_trust_policy_bytes, read_bounded, read_regular_utf8_bounded,
  write_output, read_decoded, read_envelope, read_envelopes, read_policy,
}

-- `?` on a value whose error is renamed.
pub lift-map_err-succeeds :
    {S E F A : Type 0} (f : E → F) (r : Result E A) (s : S) {a : A} {s' : S}
    → lift (map_err f r) s ≡ (ok a, s')
    → (r ≡ ok a) × (s' ≡ s)
lift-map_err-succeeds f r s h = (map_err-eq-ok f r (ap (λ x. x.0) h), ap (λ x. x.1) (sym h))

module _ (locate : Bytes → Location) where
  abbrev pub Holds : Entries → Bytes → Bytes → Type 0
  Holds entries path bytes = entries (locate path) ≡ some (regular bytes)

  pub read_bounded-succeeds :
      (path : Bytes) (maximum : ℕ) (d d' : Disk) {bytes : Bytes}
      → read_bounded locate path maximum d ≡ (ok bytes, d')
      → Holds d.entries path bytes × (d'.entries ≡ d.entries)
  unfolding read_bounded
  read_bounded-succeeds path maximum d d' {bytes} h =
      let read =
        read-succeeds (locate path) maximum d d' bytes
          (map_error-succeeds file (read_regular_input_bounded (locate path) maximum) d h) in
      (read.content, read.unchanged)

  pub read_regular_utf8_bounded-succeeds :
      (path : Bytes) (maximum : ℕ) (d d' : Disk) {bytes : Bytes}
      → read_regular_utf8_bounded locate path maximum d ≡ (ok bytes, d')
      → Holds d.entries path bytes × (is_utf8 bytes ≡ true) × (d'.entries ≡ d.entries)
  unfolding read_regular_utf8_bounded
  read_regular_utf8_bounded-succeeds path maximum d d' {bytes} h =
      let (read, d1, h1, h) = >>=-succeeds (read_bounded locate path maximum) _ d h in
      let (_, d2, h2, h) = >>=-succeeds (raise_if (not (is_utf8 read)) not_utf8) _ d1 h in
      let (holds, same) = read_bounded-succeeds path maximum d d1 h1 in
      let (valid, same') = raise_if-succeeds (not (is_utf8 read)) not_utf8 d1 h2 in
      let e : read ≡ bytes = ok-injective (ap (λ x. x.0) h) in
      (
        holds ∙ ap (λ b. some (regular b)) e,
        subst (λ b. is_utf8 b ≡ true) e (not-eq-false (is_utf8 read) valid),
        ap (λ x. x.1.entries) (sym h) ∙ ap (λ s. s.entries) (sym same') ∙ same,
      )

  pub write_output-succeeds :
      (path encoded : Bytes) (d d' : Disk)
      → write_output locate path encoded d ≡ (ok tt, d')
      → IsWritten (locate path) encoded d.entries d'.entries
  unfolding write_output
  write_output-succeeds path encoded d d' h =
      write-succeeds (locate path) encoded d d'
        (map_error-succeeds file (write_new_capsule (locate path) encoded) d h)

  pub read_decoded-succeeds :
      (container : Container) (path : Bytes) (maximum : ℕ) (d d' : Disk) {bytes : Bytes}
      {capsule : Capsule}
      → read_decoded locate container path maximum d ≡ (ok (bytes, capsule), d')
      → Holds d.entries path bytes
        × (container.decode bytes ≡ some capsule)
        × (d'.entries ≡ d.entries)
  unfolding read_decoded
  read_decoded-succeeds container path maximum d d' {bytes} {capsule} h =
      let (read, d1, h1, h) = >>=-succeeds (read_bounded locate path maximum) _ d h in
      let (decoded, d2, h2, h) =
        >>=-succeeds (lift (ok_or (container.decode read) invalid_capsule)) _ d1 h in
      let (holds, same) = read_bounded-succeeds path maximum d d1 h1 in
      let (decodes, same') = lift-succeeds (container.decode read) invalid_capsule d1 h2 in
      let result = ok-injective (ap (λ x. x.0) h) in
      let e : read ≡ bytes = ap (λ x. x.0) result in
      (
        holds ∙ ap (λ b. some (regular b)) e,
        ap container.decode (sym e) ∙ decodes ∙ ap (λ x. some x.1) result,
        ap (λ x. x.1.entries) (sym h) ∙ ap (λ s. s.entries) same' ∙ same,
      )

  -- The envelopes are those of the files, in their order.
  pub data AreEnvelopes (json : Json SignatureEnvelope) (entries : Entries)
      : List Bytes → List SignatureEnvelope → Type 0 where
    no_envelopes : AreEnvelopes json entries [] []
    next_envelope :
        {path bytes : Bytes} {paths : List Bytes} {envelope : SignatureEnvelope}
        {envelopes : List SignatureEnvelope}
        → Holds entries path bytes
        → Signature.from_json json bytes ≡ ok envelope
        → AreEnvelopes json entries paths envelopes
        → AreEnvelopes json entries (path ∷ paths) (envelope ∷ envelopes)

  pub read_envelope-succeeds :
      (json : Json SignatureEnvelope) (path : Bytes) (d d' : Disk) {envelope : SignatureEnvelope}
      → read_envelope locate json path d ≡ (ok envelope, d')
      → (bytes : Bytes) × Holds d.entries path bytes
        × (Signature.from_json json bytes ≡ ok envelope)
        × (d'.entries ≡ d.entries)
  unfolding read_envelope
  read_envelope-succeeds json path d d' h =
      let (bytes, d1, h1, h) =
        >>=-succeeds (read_bounded locate path max_signature_envelope_bytes) _ d h in
      let (holds, same) = read_bounded-succeeds path max_signature_envelope_bytes d d1 h1 in
      let (reads, same') =
        lift-map_err-succeeds invalid_envelope (Signature.from_json json bytes) d1 h in
      (bytes, holds, reads, ap (λ s. s.entries) same' ∙ same)

  pub read_envelopes-succeeds :
      (json : Json SignatureEnvelope) (paths : List Bytes) (d d' : Disk)
      {envelopes : List SignatureEnvelope}
      → read_envelopes locate json paths d ≡ (ok envelopes, d')
      → AreEnvelopes json d.entries paths envelopes × (d'.entries ≡ d.entries)
  unfolding read_envelopes
  read_envelopes-succeeds json [] d d' {envelopes} h = (
    subst (AreEnvelopes json d.entries []) (ok-injective (ap (λ x. x.0) h)) no_envelopes,
    ap (λ x. x.1.entries) (sym h),
  )
  read_envelopes-succeeds json (path ∷ paths) d d' {envelopes} h =
      let (envelope, d1, h1, h) = >>=-succeeds (read_envelope locate json path) _ d h in
      let (rest, d2, h2, h) = >>=-succeeds (read_envelopes locate json paths) _ d1 h in
      let (bytes, holds, reads, same) = read_envelope-succeeds json path d d1 h1 in
      let (others, same') = read_envelopes-succeeds json paths d1 d2 h2 in
      (
        subst (AreEnvelopes json d.entries (path ∷ paths)) (ok-injective (ap (λ x. x.0) h))
            (next_envelope holds reads (subst (λ f. AreEnvelopes json f paths rest) same others)),
        ap (λ x. x.1.entries) (sym h) ∙ same' ∙ same,
      )

  pub read_policy-succeeds :
      (crypto : Crypto) (json : Json TrustPolicy) (path : Bytes) (d d' : Disk)
      {policy : TrustPolicy}
      → read_policy locate crypto json path d ≡ (ok policy, d')
      → (bytes : Bytes) × Holds d.entries path bytes
        × (Verify.from_json crypto json bytes ≡ ok policy)
        × (d'.entries ≡ d.entries)
  unfolding read_policy
  read_policy-succeeds crypto json path d d' h =
      let (bytes, d1, h1, h) =
        >>=-succeeds (read_bounded locate path max_trust_policy_bytes) _ d h in
      let (holds, same) = read_bounded-succeeds path max_trust_policy_bytes d d1 h1 in
      let (reads, same') =
        lift-map_err-succeeds invalid_policy (Verify.from_json crypto json bytes) d1 h in
      (bytes, holds, reads, ap (λ s. s.entries) same' ∙ same)
