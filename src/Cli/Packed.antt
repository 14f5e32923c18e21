-- ===== src/Cli/Packed.antt =====
-- src/lib.rs: what `pack_command` leaves when it succeeds.
use sci_capsule.Prelude.{
  ℕ, ◌+◌, ◌≤◌, ◌≡◌, sym, ap, subst, ◌∙◌, true, false, some, List, Bytes, ltb, ltb→le, nat_eq,
  list_eq, if◌then◌else◌, length, ok, ok_or, arith, ok-injective,
}
use sci_capsule.Action.{lift, raise_if, map_error, >>=-succeeds, map_error-succeeds}
use sci_capsule.Files.{Location, Entries, Disk}
use sci_capsule.Files.Access.{write_new_capsule}
use sci_capsule.Files.Reading.{raise_if-succeeds}
use sci_capsule.Files.Writing.{IsWritten, write-succeeds}
use sci_capsule.Extraction.{ExtractionLimits, Payload}
use sci_capsule.Extraction.Limits.{payload_bytes}
use sci_capsule.Extraction.Materialize.{Capsule}
use sci_capsule.Cli.{
  usage, operation, cannot_build, cannot_encode, invalid_entrypoint, empty_name, too_many_payloads,
}
use sci_capsule.Cli.Commands.{
  Container, Output, packed, file_error, is_blank, pack_payloads, write_packed, pack_command,
}
use sci_capsule.Cli.Packing.{AreSources, pack_payloads-succeeds, lift-succeeds}

module _ (container : Container) (locate : Bytes → Location) where
  -- What a `pack` that succeeds has done.
  pub record IsPacked (name entrypoint output : Bytes) (specs : List Bytes)
      (limits : ExtractionLimits) (before after : Entries) (printed : Output) : Type 0 where
    pub payloads : List Payload
    pub capsule : Capsule
    pub encoded : Bytes
    pub named : is_blank name ≡ false
    pub sources : AreSources container locate before specs payloads
    pub few_files : length payloads ≤ limits.max_files
    pub few_bytes : payload_bytes payloads ≤ limits.max_total_bytes
    pub built : container.new_capsule name entrypoint payloads ≡ some capsule
    pub encoding : container.encode capsule ≡ some encoded
    pub written : IsWritten (locate output) encoded before after
    pub printing :
        printed ≡ packed (length capsule.payloads) (payload_bytes payloads) output (length encoded)

  record IsFinished (name entrypoint output : Bytes) (payloads : List Payload) (total : ℕ)
      (before after : Entries) (printed : Output) : Type 0 where
    capsule : Capsule
    encoded : Bytes
    built : container.new_capsule name entrypoint payloads ≡ some capsule
    encoding : container.encode capsule ≡ some encoded
    written : IsWritten (locate output) encoded before after
    printing : printed ≡ packed (length capsule.payloads) total output (length encoded)

  write_packed-succeeds :
      (name entrypoint output : Bytes) (payloads : List Payload) (total : ℕ) (d d' : Disk)
      {printed : Output}
      → write_packed container locate name entrypoint output payloads total d ≡ (ok printed, d')
      → IsFinished name entrypoint output payloads total d.entries d'.entries printed
  unfolding write_packed
  write_packed-succeeds name entrypoint output payloads total d d' {printed} h =
      let new = container.new_capsule name entrypoint payloads in
      let (capsule, d1, h1, h) = >>=-succeeds (lift (ok_or new (operation cannot_build))) _ d h in
      let (encoded, d2, h2, h) =
        >>=-succeeds (lift (ok_or (container.encode capsule) (operation cannot_encode))) _ d1 h in
      let write = write_new_capsule (locate output) encoded in
      let (_, d3, h3, h) = >>=-succeeds (map_error file_error write) _ d2 h in
      let (built, same1) = lift-succeeds new (operation cannot_build) d h1 in
      let (encoding, same2) =
        lift-succeeds (container.encode capsule) (operation cannot_encode) d1 h2 in
      let written =
        write-succeeds (locate output) encoded d2 d3 (map_error-succeeds file_error write d2 h3) in
      let start : d2.entries ≡ d.entries = ap (λ s. s.entries) (same2 ∙ same1) in
      record {
        capsule = capsule;
        encoded = encoded;
        built = built;
        encoding = encoding;
        written =
            subst (λ f. IsWritten (locate output) encoded f d'.entries) start
              (subst (λ f. IsWritten (locate output) encoded d2.entries f) (ap (λ x. x.1.entries) h)
                written);
        printing = ok-injective (ap (λ x. x.0) (sym h));
      }

  -- `pack_command`, with whatever failures in store, succeeds only where the name is not blank and
  -- each mapping is a path that the container accepts, `=` and the name of a regular file; the
  -- payloads are then the bytes of these files under these paths in the order of the mappings, no
  -- more in number and in bytes than the limits allow; and a new file holds the encoding of the
  -- capsule made of them, every other place holds what it held before, and the report counts them.
  pub pack_command-IsPacked :
      (name entrypoint output : Bytes) (specs : List Bytes) (limits : ExtractionLimits)
      (d d' : Disk) (printed : Output)
      → pack_command container locate name entrypoint output specs limits d ≡ (ok printed, d')
      → IsPacked name entrypoint output specs limits d.entries d'.entries printed
  unfolding pack_command
  pack_command-IsPacked name entrypoint output specs limits d d' printed h =
      let many = ltb limits.max_files (length specs) in
      let too_many = operation (too_many_payloads (length specs) limits.max_files) in
      let refused = if container.accepts_path entrypoint then false else true in
      let (_, d1, h1, h) = >>=-succeeds (raise_if (is_blank name) (usage empty_name)) _ d h in
      let (_, d2, h2, h) = >>=-succeeds (raise_if many too_many) _ d1 h in
      let (_, d3, h3, h) =
        >>=-succeeds (raise_if refused (usage (invalid_entrypoint entrypoint))) _ d2 h in
      let ((payloads, total), d4, h4, h) =
        >>=-succeeds (pack_payloads container locate limits.max_total_bytes 0 specs) _ d3 h in
      let (named, same1) = raise_if-succeeds (is_blank name) (usage empty_name) d h1 in
      let (few, same2) = raise_if-succeeds many too_many d1 h2 in
      let (_, same3) = raise_if-succeeds refused (usage (invalid_entrypoint entrypoint)) d2 h3 in
      let same : d3.entries ≡ d.entries = ap (λ s. s.entries) (sym (same1 ∙ same2 ∙ same3)) in
      let counted =
        pack_payloads-succeeds container locate limits.max_total_bytes 0 specs d3 d4 h4 in
      let finished = write_packed-succeeds name entrypoint output payloads total d4 d' h in
      let sum : total ≡ payload_bytes payloads =
        zero_plus total (payload_bytes payloads) counted.counted in
      record {
        payloads = payloads;
        capsule = finished.capsule;
        encoded = finished.encoded;
        named = named;
        sources = subst (λ f. AreSources container locate f specs payloads) same counted.from;
        few_files = subst (λ n. n ≤ limits.max_files) (sym counted.as_many) (ltb→le _ _ few);
        few_bytes = subst (λ n. n ≤ limits.max_total_bytes) sum (counted.bounded (omega arith));
        built = finished.built;
        encoding = finished.encoding;
        written =
            subst (λ f. IsWritten (locate output) finished.encoded f d'.entries)
              (counted.unchanged ∙ same) finished.written;
        printing =
            finished.printing
            ∙ ap (λ n. packed (length finished.capsule.payloads) n output (length finished.encoded))
                sum;
      }
    where
      zero_plus : (a b : ℕ) → a ≡ 0 + b → a ≡ b
      zero_plus a b e = omega (arith, e)
