-- ===== src/Tests/Cli.antt =====
-- Runs of the core commands, and examples of their theorems.
use mathlib.Core.Path.{fun_ext}
use sci_capsule.Prelude.{
  ◌≡◌, refl, sym, subst, some, false, Result, ok, [], ◌∷◌, ◌++◌, List, codes, Bytes, checked_add,
  list_beq, arith, list_eq, nat_eq, split_once, split, starts_with, contains,
}
use sci_capsule.Files.{
  Location, Entries, Disk, regular, still, attempt, update, below, create_dir_all,
}
use sci_capsule.Files.Directories.{IsTree, IsTree-enter}
use sci_capsule.Files.Writing.{update-update}
use sci_capsule.Files.Access.{
  read_open_file, read_regular_input_bounded, write_new_capsule, open_regular_nofollow,
}
use sci_capsule.Extraction.{
  default_extraction_limits, preflight, check_payloads, portable_path, push_components, insert_path,
  path_lt, check_conflicts, find_ancestor,
}
use sci_capsule.Extraction.Materialize.{
  extract_capsule, in_staging, publish, conclude, materialize_payloads, materialize_payload,
  write_payload, reject_existing_destination,
}
use sci_capsule.Cli.{Command, CliError, pack, inspect}
use sci_capsule.Cli.Parse.{parse_command, parse_file_command}
use sci_capsule.Cli.Arguments.{command_arguments, parse-command_arguments}
use sci_capsule.Cli.Commands.{
  Output, packed, extracted, is_blank, checked_sub, pack_source, pack_payload, pack_payloads,
  write_packed, pack_command, read_capsule, extract_command,
}
use sci_capsule.Cli.Packed.{IsPacked, pack_command-IsPacked}
use sci_capsule.Cli.Extracting.{IsExtraction, extract_command-pack_command}
use sci_capsule.Tests.Container.{one_file, one_file-IsLawful}
use sci_capsule.Tests.Extracting.{root_only, root_only-IsTree}

-- A path is a name in the root directory.
abbrev locate : Bytes → Location
locate path = path ∷ []

abbrev sources : Entries
sources = update root_only (codes "script" ∷ []) (some (regular (1 ∷ 2 ∷ [])))

abbrev specs : List Bytes
specs = codes "run=script" ∷ []

run_pack : Result CliError Output × Disk
unfolding pack_command is_blank pack_payloads pack_payload pack_source write_packed checked_sub
    split_once read_regular_input_bounded read_open_file open_regular_nofollow write_new_capsule
    attempt checked_add list_beq
run_pack =
    pack_command one_file locate (codes "demo") (codes "run") (codes "x.scicap") specs
      default_extraction_limits (still sources)

abbrev expected : Output
expected = packed 1 2 (codes "x.scicap") 6

pack_succeeds : run_pack.0 ≡ ok expected
unfolding run_pack
pack_succeeds = refl

-- A file that `inspect` would print is asked for, since the case of any file comes first.
inspect_help : parse_command (codes "inspect" ∷ codes "--help" ∷ []) ≡ ok (inspect (codes "--help"))
unfolding parse_command parse_file_command list_beq
inspect_help = refl

pack_command-IsPacked_example :
    IsPacked one_file locate
      (codes "demo")
      (codes "run")
      (codes "x.scicap")
      specs
      default_extraction_limits
      sources
      run_pack.1.entries
      expected
unfolding run_pack
pack_command-IsPacked_example =
    pack_command-IsPacked one_file locate (codes "demo") (codes "run") (codes "x.scicap") specs
      default_extraction_limits (still sources) run_pack.1 expected
      (λ i. (pack_succeeds i, run_pack.1))

abbrev encoded : Bytes
encoded = 3 ∷ codes "run" ++ 1 ∷ 2 ∷ []

sources-IsTree : IsTree sources
unfolding list_beq
sources-IsTree =
    IsTree-enter root_only (regular (1 ∷ 2 ∷ [])) (codes "script") [] root_only-IsTree refl refl

packed-IsTree : IsTree run_pack.1.entries
unfolding run_pack
packed-IsTree =
    subst IsTree
      (sym (
        fun_ext λ p.
          update-update sources (codes "x.scicap" ∷ []) (some (regular [])) (some (regular encoded))
            p))
      (IsTree-enter sources (regular encoded) (codes "x.scicap") [] sources-IsTree refl refl)

run_extract : Result CliError Output × Disk
unfolding run_pack extract_command read_capsule extract_capsule in_staging publish conclude
    materialize_payloads materialize_payload write_payload reject_existing_destination attempt below
    create_dir_all preflight check_payloads portable_path push_components split starts_with contains
    list_beq checked_add insert_path path_lt check_conflicts find_ancestor
run_extract =
    extract_command one_file locate (codes "tmp") (codes "x.scicap") (codes "out")
      default_extraction_limits false run_pack.1

abbrev done : Output
done =
    extracted
      (record {
        destination = codes "out" ∷ [];
        entrypoint = codes "run" ∷ codes "out" ∷ [];
        file_count = 1;
        total_bytes = 2;
      })
      false

extract_succeeds : run_extract.0 ≡ ok done
unfolding run_extract
extract_succeeds = refl

extract_command-pack_command_example :
    (packing : IsPacked one_file locate
      (codes "demo")
      (codes "run")
      (codes "x.scicap")
      specs
      default_extraction_limits
      sources
      run_pack.1.entries
      expected)
    × IsExtraction one_file locate
        (codes "x.scicap")
        (codes "out")
        default_extraction_limits
        false
        packing.capsule
        run_pack.1.entries
        run_extract.1.entries
        done
unfolding run_pack run_extract
extract_command-pack_command_example =
    extract_command-pack_command one_file locate (codes "demo") (codes "run") (codes "x.scicap")
      specs default_extraction_limits (codes "tmp") (codes "out") default_extraction_limits false
      (still sources) run_pack.1 run_extract.1 expected done one_file-IsLawful
      (λ i. (pack_succeeds i, run_pack.1)) packed-IsTree (λ i. (extract_succeeds i, run_extract.1))

abbrev demo : Command
demo =
    pack (codes "demo") (codes "run") (codes "x.scicap") specs
      (record { max_files = 3; max_total_bytes = 100 })

parse-command_arguments_example : parse_command (command_arguments demo) ≡ ok demo
unfolding starts_with
parse-command_arguments_example = parse-command_arguments demo (record {
  name_given = refl;
  entrypoint_given = refl;
  output_given = refl;
  specs_given = refl;
  no_options = (refl, tt);
  few = omega arith;
  files_fit = omega arith;
  bytes_fit = omega arith;
})
