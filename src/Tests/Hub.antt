-- ===== src/Tests/Hub.antt =====
-- Runs of the command line's parser and of Hub requests, and examples of their theorems.
use sci_capsule.Execution.Bounds.{IsRunnable, parse-IsRunnable}
use sci_capsule.Prelude.{
  ◌≡◌, refl, ok, err, some, [], ◌∷◌, ◌++◌, Bytes, List, codes, contains, contains-Lacks, split_once,
  starts_with, list_beq, checked_add, nat_eq, list_eq, arith, is_digit, to_string, write_digits,
  parse_u64, parse_digits,
}
use sci_capsule.Extraction.{path_lt}
use sci_capsule.Execution
use sci_capsule.Execution.{
  RunCommand, parse_environment, environment_total, validate_environment, argument_total,
  validate_argument_limits,
}
use sci_capsule.Execution.Parse.{
  parse, parse_arguments, push_arguments, apply_option, apply_positional, option_name, take_value,
  take_unique_value, finish,
}
use sci_capsule.Execution.Capture.{
  ReadResult, bytes_read, IsCapture, capture_stream, capture_stream_sound, stream_bytes, ends,
  exceeded,
}
use sci_capsule.Hub
use sci_capsule.Hub.{HubRunRequest, HubEnvironmentEntry, validate, run_arguments}
use sci_capsule.Hub.Delivery.{NoEquals, command_for, parse-run_arguments}
use sci_capsule.Tests.Trust.{envelope}

abbrev request : HubRunRequest
request = record {
  schema_version = 1;
  signatures = envelope 1 ∷ [];
  timeout_seconds = 5;
  max_files = 10;
  max_bytes = 1000;
  environment =
      record { name = codes "LANG"; value = codes "C" }
      ∷ record { name = codes "TZ"; value = [] }
      ∷ [];
  arguments = codes "--fast" ∷ codes "in" ∷ [];
}

-- Opens everything that parsing calls.
unfoldable run_parse : List Bytes → Execution.Outcome RunCommand
unfolding parse parse_arguments push_arguments apply_option apply_positional option_name take_value
    take_unique_value parse_environment environment_total validate_environment argument_total
    validate_argument_limits finish contains split_once starts_with list_beq checked_add parse_u64
    parse_digits is_digit
run_parse = parse

-- Opens everything that validating a request calls.
unfoldable run_hub_validate : HubRunRequest → Hub.Check
unfolding validate Hub.validate_signatures Hub.validate_environment Hub.environment_total
    Hub.validate_arguments Hub.argument_total Hub.is_out_of_order path_lt contains list_beq
    checked_add
run_hub_validate = validate

unfoldable run_request : HubRunRequest → List Bytes
unfolding run_arguments Hub.signature_arguments Hub.environment_arguments Hub.argument_tail
    to_string write_digits
run_request = run_arguments (codes "/c") (codes "/p") (codes "/s0" ∷ [])

request_valid : validate request ≡ ok tt
unfolding run_hub_validate
request_valid = refl

-- The parser reads the request's arguments.
request_parses :
    run_parse (run_request request)
    ≡ ok (command_for (codes "/c") (codes "/p") (codes "/s0" ∷ []) request)
unfolding run_parse run_request
request_parses = refl

-- A name with `=` is valid in a request, and the runner splits it at another place.
abbrev split_request : HubRunRequest
split_request = record request {
  environment = record { name = codes "A=B"; value = codes "x" } ∷ [];
  arguments = [];
}

split_request_valid : run_hub_validate split_request ≡ ok tt
unfolding run_hub_validate
split_request_valid = refl

split_request_parses :
    run_parse (run_request split_request)
    ≡ ok (record (command_for (codes "/c") (codes "/p") (codes "/s0" ∷ []) split_request) {
      environment = (codes "A", codes "B=x") ∷ [];
    })
unfolding run_parse run_request
split_request_parses = refl

missing_policy :
    run_parse (codes "run" ∷ codes "f" ∷ codes "--signature" ∷ codes "s" ∷ [])
    ≡ err Execution.missing_policy
unfolding run_parse
missing_policy = refl

no_equals : NoEquals request.environment
unfolding contains
no_equals =
    ((contains-Lacks b'=' (codes "LANG")).0 refl, ((contains-Lacks b'=' (codes "TZ")).0 refl, tt))

parse-run_arguments_example :
    parse (run_arguments (codes "/c") (codes "/p") (codes "/s0" ∷ []) request)
    ≡ ok (command_for (codes "/c") (codes "/p") (codes "/s0" ∷ []) request)
parse-run_arguments_example =
    parse-run_arguments request (codes "c") (codes "/p") (codes "/s0" ∷ []) request_valid
      (omega arith) (omega arith) no_equals refl (refl, tt) refl

abbrev reads : List ReadResult
reads = bytes_read (1 ∷ 2 ∷ []) ∷ bytes_read (3 ∷ []) ∷ []

capture_reads : capture_stream 2 [] reads ≡ record { bytes = 1 ∷ 2 ∷ []; error = some (exceeded 2) }
unfolding capture_stream checked_add
capture_reads = refl

capture_stream_sound_example :
    IsCapture 2 ([] ++ stream_bytes reads) (ends reads) (capture_stream 2 [] reads)
capture_stream_sound_example = capture_stream_sound 2 [] reads (omega arith) (omega arith)

parse-IsRunnable_example :
    IsRunnable (command_for (codes "/c") (codes "/p") (codes "/s0" ∷ []) request)
unfolding run_parse run_request
parse-IsRunnable_example =
    parse-IsRunnable (run_arguments (codes "/c") (codes "/p") (codes "/s0" ∷ []) request)
      (command_for (codes "/c") (codes "/p") (codes "/s0" ∷ []) request) request_parses
