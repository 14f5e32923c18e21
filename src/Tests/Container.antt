-- ===== src/Tests/Container.antt =====
-- A small lawful container, for capsules of one payload: the length of its path, the path, the
-- bytes.
use sci_capsule.Prelude.{
  ℕ, zero, suc, ◌≡◌, refl, sym, ap, ◌∙◌, Bool, true, false, Option, none, some, List, [], ◌∷◌, ◌++◌,
  Bytes, ◌==◌, nat_eq, list_eq, eq_iff, if◌then◌else◌, length, not, is_empty,
}
use sci_capsule.Files.{take_bytes}
use sci_capsule.Extraction.{Payload}
use sci_capsule.Extraction.Materialize.{Capsule}
use sci_capsule.Cli.Commands.{Container, IsLawful}

abbrev drop_bytes : ℕ → Bytes → Bytes
drop_bytes zero bytes = bytes
drop_bytes (suc n) [] = []
drop_bytes (suc n) (c ∷ bytes) = drop_bytes n bytes

take-append : (a b : Bytes) → take_bytes (length a) (a ++ b) ≡ a
take-append [] b = refl
take-append (c ∷ a) b = ap (λ t. c ∷ t) (take-append a b)

drop-append : (a b : Bytes) → drop_bytes (length a) (a ++ b) ≡ b
drop-append [] b = refl
drop-append (c ∷ a) b = drop-append a b

abbrev single : Bytes → Bytes → Capsule
single path bytes = record {
  entrypoint = path;
  payloads = record { path = path; bytes = bytes } ∷ [];
}

abbrev single_encode : Capsule → Option Bytes
single_encode capsule = elim capsule.payloads [
  | [] ↦ none
  | payload ∷ others ↦ elim others [
    | [] ↦
        if capsule.entrypoint == payload.path
        then some (length payload.path ∷ payload.path ++ payload.bytes)
        else none
    | other ∷ more ↦ none
  ]
]

abbrev single_decode : Bytes → Option Capsule
single_decode [] = none
single_decode (n ∷ rest) = some (single (take_bytes n rest) (drop_bytes n rest))

abbrev pub one_file : Container
one_file = record {
  accepts_path = λ path. not (is_empty path);
  new_capsule =
      λ name entrypoint payloads. some (record { entrypoint = entrypoint; payloads = payloads });
  encode = single_encode;
  decode = single_decode;
  name = λ capsule. capsule.entrypoint;
  manifest_json = λ capsule. capsule.entrypoint;
}

single_back :
    (path bytes encoded : Bytes) (b : Bool)
    → (if b then some (length path ∷ path ++ bytes) else none) ≡ some encoded
    → single_decode encoded ≡ some (single path bytes)
single_back path bytes encoded true h =
    let e : length path ∷ path ++ bytes ≡ encoded = cc h in
    ap single_decode (sym e)
    ∙ ap (λ t. some (single t (drop_bytes (length path) (path ++ bytes)))) (take-append path bytes)
    ∙ ap (λ t. some (single path t)) (drop-append path bytes)
single_back path bytes encoded false h = cc h

guard_true : {A : Type 0} (b : Bool) (x y : A) → (if b then some x else none) ≡ some y → b ≡ true
guard_true true x y h = refl
guard_true false x y h = cc h

pub one_file-IsLawful : IsLawful one_file
one_file-IsLawful capsule encoded h = law capsule.entrypoint capsule.payloads encoded h
  where
    law :
        (entrypoint : Bytes) (payloads : List Payload) (encoded : Bytes)
        → single_encode (record { entrypoint = entrypoint; payloads = payloads }) ≡ some encoded
        → single_decode encoded ≡ some (record { entrypoint = entrypoint; payloads = payloads })
    law entrypoint [] encoded h = cc h
    law entrypoint (p ∷ q ∷ rest) encoded h = cc h
    law entrypoint (p ∷ []) encoded h =
        let same : entrypoint ≡ p.path = (eq_iff entrypoint p.path).0 (guard_true _ _ _ h) in
        single_back p.path p.bytes encoded (entrypoint == p.path) h
        ∙ ap (λ t. some (record { entrypoint = t; payloads = p ∷ [] })) (sym same)
