-- ===== src/Execution/Capture.antt =====
-- src/execution_cli.rs: `capture_stream`, over the results of the reads.
use sci_capsule.Prelude.{
  ℕ, ◌+◌, ◌≤◌, ◌<◌, ◌≡◌, refl, sym, ◌↔◌, Bool, true, false, Option, none, some, List, [], ◌∷◌, ◌++◌,
  Bytes, arith, ltb, length, length-append, append_assoc, append-nil, checked_add,
  checked_add-eq-some, checked_add-eq-none, u64_max, Bool-cases, Option-cases, inl, inr, ltb→le,
  ltb→lt, if◌then◌else◌, subst, if◌then◌else◌, subst,
}

-- What one `read` gives: bytes, none of them at the end of the stream, or an error.
pub data ReadResult : Type 0 where
  bytes_read : Bytes → ReadResult
  read_failed : ReadResult

pub data CaptureError : Type 0 where
  cannot_capture size_overflow drain_exceeded disconnected : CaptureError
  exceeded : ℕ → CaptureError

pub record CaptureOutcome : Type 0 where
  pub bytes : Bytes
  pub error : Option CaptureError

-- The loop, from the bytes so far. The list is what the reader still gives; its end is the end of
-- the stream.
unfoldable pub capture_stream : ℕ → Bytes → List ReadResult → CaptureOutcome
capture_stream maximum_bytes bytes [] = record { bytes = bytes; error = none }
capture_stream maximum_bytes bytes (read_failed ∷ reads) = record {
  bytes = bytes;
  error = some cannot_capture;
}
capture_stream maximum_bytes bytes (bytes_read [] ∷ reads) = record { bytes = bytes; error = none }
capture_stream maximum_bytes bytes (bytes_read (b ∷ buffer) ∷ reads) =
    let rest = capture_stream maximum_bytes (bytes ++ b ∷ buffer) reads in
    elim (checked_add (length bytes) (length (b ∷ buffer))) [
      | none ↦ record { bytes = bytes; error = some size_overflow }
      | some next ↦
          if ltb maximum_bytes next
          then record { bytes = bytes; error = some (exceeded maximum_bytes) }
          else rest
    ]

-- The bytes that the stream gives before it ends or fails.
pub stream_bytes : List ReadResult → Bytes
stream_bytes [] = []
stream_bytes (read_failed ∷ reads) = []
stream_bytes (bytes_read [] ∷ reads) = []
stream_bytes (bytes_read (b ∷ buffer) ∷ reads) = (b ∷ buffer) ++ stream_bytes reads

-- Whether the stream ends without a failure.
pub ends : List ReadResult → Bool
ends [] = true
ends (read_failed ∷ reads) = false
ends (bytes_read [] ∷ reads) = true
ends (bytes_read (b ∷ buffer) ∷ reads) = ends reads

-- The cases of the step.
step_overflow :
    (maximum_bytes : ℕ) (bytes : Bytes) (b : ℕ) (buffer : Bytes) (reads : List ReadResult)
    → checked_add (length bytes) (length (b ∷ buffer)) ≡ none
    → capture_stream maximum_bytes bytes (bytes_read (b ∷ buffer) ∷ reads)
      ≡ record { bytes = bytes; error = some size_overflow }
unfolding capture_stream
step_overflow maximum_bytes bytes b buffer reads e = rw (capture_stream, e) refl

step_exceeded :
    (maximum_bytes : ℕ) (bytes : Bytes) (b : ℕ) (buffer : Bytes) (reads : List ReadResult)
    (next : ℕ)
    → checked_add (length bytes) (length (b ∷ buffer)) ≡ some next
    → ltb maximum_bytes next ≡ true
    → capture_stream maximum_bytes bytes (bytes_read (b ∷ buffer) ∷ reads)
      ≡ record { bytes = bytes; error = some (exceeded maximum_bytes) }
unfolding capture_stream
step_exceeded maximum_bytes bytes b buffer reads next e h = rw (capture_stream, e, h) refl

step_captured :
    (maximum_bytes : ℕ) (bytes : Bytes) (b : ℕ) (buffer : Bytes) (reads : List ReadResult)
    (next : ℕ)
    → checked_add (length bytes) (length (b ∷ buffer)) ≡ some next
    → ltb maximum_bytes next ≡ false
    → capture_stream maximum_bytes bytes (bytes_read (b ∷ buffer) ∷ reads)
      ≡ capture_stream maximum_bytes (bytes ++ b ∷ buffer) reads
unfolding capture_stream
step_captured maximum_bytes bytes b buffer reads next e h = rw (capture_stream, e, h) refl

-- Against the whole stream: within the limit, a beginning of it, and all of it where there is no
-- error.
pub record IsCapture (maximum_bytes : ℕ) (stream : Bytes) (ended : Bool) (o : CaptureOutcome)
    : Type 0 where
  pub bounded : length o.bytes ≤ maximum_bytes
  pub missing : Bytes
  pub beginning : o.bytes ++ missing ≡ stream
  pub complete : (o.error ≡ none) ↔ ((ended ≡ true) × (length stream ≤ maximum_bytes))
  pub whole : o.error ≡ none → o.bytes ≡ stream

IsCapture-end :
    (maximum_bytes : ℕ) (bytes : Bytes)
    → length bytes ≤ maximum_bytes
    → IsCapture maximum_bytes (bytes ++ []) true (record { bytes = bytes; error = none })
IsCapture-end maximum_bytes bytes h = record {
  bounded = h;
  missing = [];
  beginning = refl;
  complete = (λ _. (refl, rw (append-nil bytes) h), λ _. refl);
  whole = λ _. sym (append-nil bytes);
}

IsCapture-failed :
    (maximum_bytes : ℕ) (bytes : Bytes)
    → length bytes ≤ maximum_bytes
    → IsCapture maximum_bytes
        (bytes ++ [])
        false
        (record { bytes = bytes; error = some cannot_capture })
IsCapture-failed maximum_bytes bytes h = record {
  bounded = h;
  missing = [];
  beginning = refl;
  complete = (λ e. cc, λ (e, _). cc);
  whole = λ e. cc;
}

IsCapture-stopped :
    (maximum_bytes : ℕ) (bytes missing : Bytes) (ended : Bool) (e : CaptureError)
    → length bytes ≤ maximum_bytes
    → maximum_bytes < length (bytes ++ missing)
    → IsCapture maximum_bytes (bytes ++ missing) ended (record { bytes = bytes; error = some e })
IsCapture-stopped maximum_bytes bytes missing ended e h h' = record {
  bounded = h;
  missing = missing;
  beginning = refl;
  complete = (λ n. cc, λ (_, b). absurd (omega (arith, b, h')));
  whole = λ n. cc;
}

longer :
    (bytes buffer rest : Bytes) → length bytes + length buffer ≤ length (bytes ++ (buffer ++ rest))
longer bytes buffer rest =
    let e = length-append bytes (buffer ++ rest) in
    let e' = length-append buffer rest in omega (arith, e, e')

-- From any bytes within the limit, and a limit that is a `u64`: what is captured is within the
-- limit and a beginning of the stream, and there is no error exactly where the stream ends without
-- a failure and is within the limit as a whole, and then all of it is captured.
pub capture_stream_sound :
    (maximum_bytes : ℕ) (so_far : Bytes) (reads : List ReadResult)
    → maximum_bytes ≤ u64_max
    → length so_far ≤ maximum_bytes
    → IsCapture maximum_bytes
        (so_far ++ stream_bytes reads)
        (ends reads)
        (capture_stream maximum_bytes so_far reads)
unfolding capture_stream stream_bytes ends
capture_stream_sound maximum_bytes so_far [] m h = IsCapture-end maximum_bytes so_far h
capture_stream_sound maximum_bytes so_far (read_failed ∷ reads) m h =
    IsCapture-failed maximum_bytes so_far h
capture_stream_sound maximum_bytes so_far (bytes_read [] ∷ reads) m h =
    IsCapture-end maximum_bytes so_far h
capture_stream_sound maximum_bytes so_far (bytes_read (b ∷ buffer) ∷ reads) m h =
    let more = longer so_far (b ∷ buffer) (stream_bytes reads) in
    let all = (b ∷ buffer) ++ stream_bytes reads in
    elim (Option-cases (checked_add (length so_far) (length (b ∷ buffer)))) [
      | inl e ↦ rw (step_overflow maximum_bytes so_far b buffer reads e) (
          IsCapture-stopped maximum_bytes so_far all (ends reads) size_overflow h
            (omega (arith, m, more, checked_add-eq-none _ _ e)))
      | inr (next, e) ↦ elim (Bool-cases (ltb maximum_bytes next)) [
        | inl over ↦
            let (sum, _) = checked_add-eq-some _ _ next e in
            let above = ltb→lt maximum_bytes next over in
            rw (step_exceeded maximum_bytes so_far b buffer reads next e over) (
              IsCapture-stopped maximum_bytes so_far all (ends reads) (exceeded maximum_bytes) h
                (omega (arith, more, sum, above)))
        | inr fits ↦
            let (sum, _) = checked_add-eq-some _ _ next e in
            let within = ltb→le maximum_bytes next fits in
            let len = length-append so_far (b ∷ buffer) in
            rw (step_captured maximum_bytes so_far b buffer reads next e fits) (
              subst
                (λ stream.
                  IsCapture maximum_bytes stream (ends reads)
                    (capture_stream maximum_bytes (so_far ++ b ∷ buffer) reads))
                (append_assoc so_far (b ∷ buffer) (stream_bytes reads))
                (capture_stream_sound maximum_bytes (so_far ++ b ∷ buffer) reads m
                  (omega (arith, sum, within, len))))
      ]
    ]
