-- ===== src/Cli/Extracting.antt =====
-- src/lib.rs: `extract_command`, of a capsule that `pack_command` has written.
use sci_capsule.Prelude.{
  ℕ, ◌≡◌, sym, ap, subst, ◌∙◌, Bool, some, List, Bytes, nat_eq, list_eq, ok, ok_or, checked_add,
  ok-injective,
}
use sci_capsule.Action.{lift, map_error, >>=-succeeds, map_error-succeeds}
use sci_capsule.Files.{Location, Entries, Disk, regular}
use sci_capsule.Files.Access.{read_regular_input_bounded}
use sci_capsule.Files.Reading.{read-succeeds}
use sci_capsule.Extraction.{ExtractionLimits}
use sci_capsule.Extraction.Materialize.{Capsule}
use sci_capsule.Cli.{usage, operation}
use sci_capsule.Cli.Commands.{
  Container, Output, file_error, pack_command, read_capsule, extract_command, IsLawful, extracted,
}
use sci_capsule.Cli.Packing.{lift-succeeds}
use sci_capsule.Cli.Packed.{IsPacked, pack_command-IsPacked}
use sci_capsule.Cli.{invalid_capsule, max_bytes_too_large, cannot_extract}
use sci_capsule.Files.Calls.{update_same}
use sci_capsule.Files.Directories.{IsTree}
use sci_capsule.Extraction.{max_capsule_metadata_bytes}
use sci_capsule.Extraction.Materialize.{ExtractionSummary, extract_capsule}
use sci_capsule.Extraction.Publishing.{IsExtracted}
use sci_capsule.Extraction.Extracted.{extract_capsule-IsExtracted}

module _ (container : Container) (locate : Bytes → Location) where
  -- A capsule that has been read is what its file decodes to.
  record IsDecoded (path : Bytes) (d d' : Disk) (capsule : Capsule) : Type 0 where
    encoded : Bytes
    content : d.entries (locate path) ≡ some (regular encoded)
    decoded : container.decode encoded ≡ some capsule
    unchanged : d'.entries ≡ d.entries

  read_capsule-succeeds :
      (path : Bytes) (maximum : ℕ) (d d' : Disk) {capsule : Capsule}
      → read_capsule container locate path maximum d ≡ (ok capsule, d')
      → IsDecoded path d d' capsule
  unfolding read_capsule
  read_capsule-succeeds path maximum d d' {capsule} h =
      let read = read_regular_input_bounded (locate path) maximum in
      let (encoded, d1, h1, h) = >>=-succeeds (map_error file_error read) _ d h in
      let file =
        read-succeeds (locate path) maximum d d1 encoded
          (map_error-succeeds file_error read d h1) in
      let (decoded, same) =
        lift-succeeds (container.decode encoded) (operation invalid_capsule) d1 h in
      record {
        encoded = encoded;
        content = file.content;
        decoded = decoded;
        unchanged = ap (λ s. s.entries) same ∙ file.unchanged;
      }

  -- What an `extract` that succeeds has done.
  pub record IsExtraction (path output : Bytes) (limits : ExtractionLimits) (json : Bool)
      (capsule : Capsule) (before after : Entries) (printed : Output) : Type 0 where
    pub summary : ExtractionSummary
    pub tree : IsExtracted capsule (locate output) limits before after summary
    pub printing : printed ≡ extracted summary json

  -- `extract_command`, from a file system in which every entry stands in a directory and with
  -- whatever failures in store, extracts the capsule that the file decodes to.
  extract_command-succeeds :
      (staging path output : Bytes) (limits : ExtractionLimits) (json : Bool) (d d' : Disk)
      (printed : Output)
      → IsTree d.entries
      → extract_command container locate staging path output limits json d ≡ (ok printed, d')
      → (encoded : Bytes) × (capsule : Capsule) × (d.entries (locate path) ≡ some (regular encoded))
        × (container.decode encoded ≡ some capsule)
        × IsExtraction path output limits json capsule d.entries d'.entries printed
  unfolding extract_command
  extract_command-succeeds staging path output limits json d d' printed t h =
      let limit = checked_add limits.max_total_bytes max_capsule_metadata_bytes in
      let (maximum, d1, h1, h) =
        >>=-succeeds (lift (ok_or limit (usage max_bytes_too_large))) _ d h in
      let (capsule, d2, h2, h) = >>=-succeeds (read_capsule container locate path maximum) _ d1 h in
      let act = extract_capsule staging capsule (locate output) limits in
      let (summary, d3, h3, h) =
        >>=-succeeds (map_error (λ e. operation (cannot_extract e)) act) _ d2 h in
      let (_, same1) = lift-succeeds limit (usage max_bytes_too_large) d h1 in
      let read = read_capsule-succeeds path maximum d1 d2 h2 in
      let start : d2.entries ≡ d.entries = read.unchanged ∙ ap (λ s. s.entries) same1 in
      let done =
        extract_capsule-IsExtracted staging capsule (locate output) limits d2 d3 summary
          (subst IsTree (sym start) t)
          (map_error-succeeds (λ e. operation (cannot_extract e)) act d2 h3) in
      (
        read.encoded,
        capsule,
        ap (λ s. s.entries (locate path)) (sym same1) ∙ read.content,
        read.decoded,
        record {
          summary = summary;
          tree =
              subst (λ f. IsExtracted capsule (locate output) limits f d'.entries summary) start
                (subst (λ f. IsExtracted capsule (locate output) limits d2.entries f summary)
                  (ap (λ x. x.1.entries) h) done);
          printing = ok-injective (ap (λ x. x.0) (sym h));
        },
      )

  -- Over a container that reads back what it has written, `extract_command` of the file that a
  -- successful `pack_command` has made, under any limits and with whatever failures in store, if
  -- it succeeds in a file system where every entry stands in a directory, extracts the very
  -- capsule that was packed: its tree is below the output directory, and all else is unchanged.
  pub extract_command-pack_command :
      (name entrypoint file : Bytes) (specs : List Bytes) (limits : ExtractionLimits)
      (staging output : Bytes) (limits' : ExtractionLimits) (json : Bool) (d d1 d2 : Disk)
      (printed printed' : Output)
      → IsLawful container
      → pack_command container locate name entrypoint file specs limits d ≡ (ok printed, d1)
      → IsTree d1.entries
      → extract_command container locate staging file output limits' json d1 ≡ (ok printed', d2)
      → (packing : IsPacked container locate name entrypoint file specs limits d.entries d1.entries
          printed)
        × IsExtraction file output limits' json packing.capsule d1.entries d2.entries printed'
  extract_command-pack_command name entrypoint file specs limits staging output limits' json d d1 d2
        printed printed' lawful pack t extract =
      let packing =
        pack_command-IsPacked container locate name entrypoint file specs limits d d1 printed
          pack in
      let (encoded, capsule, content, decoded, done) =
        extract_command-succeeds staging file output limits' json d1 d2 printed' t extract in
      let there : d1.entries (locate file) ≡ some (regular packing.encoded) =
        packing.written.written (locate file)
        ∙ update_same d.entries (locate file) (some (regular packing.encoded)) in
      let same : encoded ≡ packing.encoded = cc (content, there) in
      let same_capsule : capsule ≡ packing.capsule = cc (
        decoded,
        ap container.decode same,
        lawful packing.capsule packing.encoded packing.encoding,
      ) in
      (
        packing,
        subst (λ c. IsExtraction file output limits' json c d1.entries d2.entries printed')
            same_capsule done,
      )
