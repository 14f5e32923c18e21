-- ===== src/Lib.antt =====
-- SciCapsule: trust policies, detached signatures, provenance, extraction, the core commands, the
-- commands on signatures and policies, the run command and Hub requests.
--
-- SciCapsule packages a computation as a capsule, signs it, and runs it only where a trust policy
-- authorizes it. A capsule is a byte string here: its container is another package, and the model
-- takes what the container yields (its bytes, the payloads' paths and bytes) as arguments. A
-- command decides in steps that the files follow: the envelope of each signature is read and
-- checked (Signature), a policy is read and checked and counts the distinct trusted keys that are
-- not revoked and under which a signature verifies (Trust), provenance is decoded, counted by the
-- same policy over the encoded payload and only then parsed (Provenance), the payloads' paths and
-- sizes are checked before anything is written, and the files are then made in a staging directory
-- that a rename publishes (Extraction), the core commands pack, inspect, verify and extract
-- capsule files (Cli), and the runner parses its command line and captures a bounded part of the
-- output (Execution). A Hub request is validated and turned into such a command line (Hub).
--
-- Files and sources. Signature.antt is src/signature.rs; its laws are in Signature/Laws.antt.
-- Trust.antt has the types and the checks on single fields of src/trust.rs, Trust/Validate.antt
-- `TrustPolicy::validate` cut into its parts, Trust/Verify.antt `validate_at_unix_seconds`,
-- `verify_at_unix_seconds`, `verify`, `verify_raw_ed25519_signatures` and the digest,
-- Trust/Update.antt the creation of policies and `update_from_named_pem_keys`; the other files
-- below Trust are proofs, named for what they prove. Provenance.antt is the statement half of
-- src/provenance.rs and Provenance/Envelope.antt its DSSE half; Pae, Statement, Verified, Signed
-- and Accepted are proofs. Extraction.antt is `portable_path` and `preflight` of
-- src/extraction.rs, and Extraction/Materialize.antt its `extract_capsule`; Trees says what tree
-- of files the payloads make, and Extracted, Failing and Succeeding what an extraction leaves,
-- over the lemmas on the steps in Placing, Places, Loop, Steps and Publishing. Files.antt is the
-- file system that src/extraction.rs, src/lib.rs and src/product_main.rs call, and
-- Files/Access.antt their bounded reads and their creation of new files; Ancestors, Calls,
-- Directories, Reading and Writing are proofs. Cli.antt, Cli/Parse.antt and Cli/Commands.antt are
-- the core commands of src/lib.rs, their parsers and their errors; Arguments, Packing, Packed and
-- Extracting are proofs. Execution.antt has the run command of src/execution_cli.rs with its
-- limits, Execution/Parse.antt the parser, Execution/Capture.antt its `capture_stream`,
-- Execution/Authorize.antt the first half of `execute`, up to what the child is started with
-- (Authorized and Prepared are proofs), and Execution/Wait.antt the end of `execute` from the
-- started child on: the wait loop over what `try_wait` and the clock show, the kills and drains in
-- their order, and the result. Product.antt has the commands of src/product_main.rs on signatures
-- and trust policies, with the reads and the writes in their order; Product/Reading, Trusting and
-- Signing are proofs. Hub.antt is `HubRunRequest` of src/hub_cli.rs, its validation, and the
-- `run_args` of `hub_run`. Prelude has the shared helpers: Boolean tests by an instance of
-- equality, `Result` with `?` as `do`, lists, text as bytes with what is used of `str`, and
-- decimal numbers. Tests has runs on small inputs and an example of each theorem.
--
-- The file system. A place is the list of its names from the last one up, and a disk holds for
-- each place nothing, a regular file with its bytes, a directory, a link or something else. The
-- calls of the operating system are `Syscall`s: the disk has in store, for each call to come,
-- whether it fails, and for a write after how many bytes; a theorem that speaks of failures in
-- store holds for every such list. Operations are `Action`s (Action.antt), which give back the
-- disk after an error too. Paths of the command line are found by an argument `locate`, so that
-- two paths may name one place. Other processes do not act in between, except that an open file
-- may hold other bytes than its metadata says. The container is the record `Container` in
-- Cli/Commands.antt, of which one theorem assumes that it reads back what it has written.
--
-- State and errors. Methods take the record they read and return a `Result`; the `for` loops are
-- recursions over their lists with the loop's variables as arguments, and each `BTreeSet` is a
-- list that is searched, in its order where the program iterates over it. An error type has one
-- constructor for each message, with the values that the message shows. A `String` is its UTF-8
-- bytes, and `u64` and `usize` are natural numbers whose additions are checked as the source
-- checks them. The panic of an `expect` is an error value of its own.
--
-- Parameters. Crypto.antt has what the program takes from ed25519-dalek, sha2, base64ct and
-- serde_json as records of operations. The documented behaviour that some theorems assume is in
-- `IsLawful`, `Decodes`, `ReadsBack` and `IsShort`: sizes, reading back what was written, and that
-- a signature verifies under its signer's key. Nothing is assumed on forging signatures or on
-- collisions. The system clock is an argument, `none` before the Unix epoch.
--
-- Fuel. Only `to_string` counts down: 20 digits, and a `u64` has no more.
--
-- Not modelled: the variants for systems other than Unix, permissions and durability of files, the
-- start of a process and the lock around it, the other command lines (the `signatures` command of
-- src/lib.rs, the dispatch and the parsers of src/product_main.rs, src/provenance_cli.rs,
-- src/signatures_cli.rs, src/hub_evidence_v2.rs), the creation of Hub requests and manifests, help
-- texts, and the display of errors.
pub mod Prelude
pub mod Action
pub mod Files
pub mod Crypto
pub mod Signature
pub mod Trust
pub mod Extraction
pub mod Provenance
pub mod Cli
pub mod Product
pub mod Execution
pub mod Hub
mod Tests
