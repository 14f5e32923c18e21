-- ===== src/Cli/Packing.antt =====
-- src/lib.rs: what `pack_command` has packed when it succeeds.
use sci_capsule.Prelude.{
  ℕ, ◌+◌, ◌≤◌, ◌≡◌, refl, sym, ap, subst, ◌∙◌, Bool, true, false, Option, some, List, [], ◌∷◌, ◌++◌,
  Bytes, nat_eq, list_eq, if◌then◌else◌, length, is_empty, split_once, ok, ok_or, ok_or-eq-ok,
  arith, checked_add, checked_add-eq-some, ok-injective, split_once_sound,
}
use sci_capsule.Action.{lift, raise_if, map_error, >>=-succeeds, map_error-succeeds}
use sci_capsule.Files.{Location, Entries, Disk, regular}
use sci_capsule.Files.Access.{read_regular_input_bounded}
use sci_capsule.Files.Reading.{raise_if-succeeds, read-succeeds}
use sci_capsule.Extraction.{Payload}
use sci_capsule.Extraction.Limits.{payload_bytes}
use sci_capsule.Cli.{
  usage, operation, accounting_underflow, accounting_overflow, mapping_form, empty_source,
  invalid_payload_path,
}
use sci_capsule.Cli.Commands.{
  Container, file_error, checked_sub, pack_source, pack_payload, pack_payloads,
}

pub lift-succeeds :
    {S E A : Type 0} (o : Option A) (e : E) (s : S) {a : A} {s' : S}
    → lift (ok_or o e) s ≡ (ok a, s')
    → (o ≡ some a) × (s' ≡ s)
lift-succeeds o e s h = (ok_or-eq-ok o e (ap (λ x. x.0) h), ap (λ x. x.1) (sym h))

checked_sub-eq-some : (a b c : ℕ) → checked_sub a b ≡ some c → (b ≤ a) × (c + b ≡ a)
unfolding checked_sub
checked_sub-eq-some a b c h = ground (arith, h)

pub negated : (b : Bool) → (if b then false else true) ≡ false → b ≡ true
negated true h = refl
negated false h = cc h

module _ (container : Container) (locate : Bytes → Location) where
  -- A mapping, and the payload that it makes of a regular file.
  pub record IsSource (entries : Entries) (spec : Bytes) (payload : Payload) : Type 0 where
    pub source : Bytes
    pub mapping : spec ≡ payload.path ++ b'=' ∷ source
    pub given : is_empty source ≡ false
    pub accepted : container.accepts_path payload.path ≡ true
    pub content : entries (locate source) ≡ some (regular payload.bytes)

  -- The payloads are those of the mappings, in their order.
  pub data AreSources (entries : Entries) : List Bytes → List Payload → Type 0 where
    none_left : AreSources entries [] []
    one_more :
        {spec : Bytes} {payload : Payload} {specs : List Bytes} {payloads : List Payload}
        → IsSource entries spec payload
        → AreSources entries specs payloads
        → AreSources entries (spec ∷ specs) (payload ∷ payloads)

  record IsCounted (maximum total : ℕ) (path source : Bytes) (d d' : Disk) (payload : Payload)
      (total' : ℕ) : Type 0 where
    named : payload.path ≡ path
    content : d.entries (locate source) ≡ some (regular payload.bytes)
    counted : total' ≡ total + length payload.bytes
    bounded : total' ≤ maximum
    unchanged : d'.entries ≡ d.entries

  pack_source-succeeds :
      (maximum total : ℕ) (path source : Bytes) (d d' : Disk) {payload : Payload} {total' : ℕ}
      → pack_source container locate maximum total path source d ≡ (ok (payload, total'), d')
      → IsCounted maximum total path source d d' payload total'
  unfolding pack_source
  pack_source-succeeds maximum total path source d d' {payload} {total'} h =
      let read = read_regular_input_bounded (locate source) in
      let (remaining, d1, h1, h) =
        >>=-succeeds (lift (ok_or (checked_sub maximum total) (operation accounting_underflow))) _ d
          h in
      let (bytes, d2, h2, h) = >>=-succeeds (map_error file_error (read remaining)) _ d1 h in
      let (sum, d3, h3, h) =
        >>=-succeeds
          (lift (ok_or (checked_add total (length bytes)) (operation accounting_overflow))) _ d2
          h in
      let (left, same1) =
        lift-succeeds (checked_sub maximum total) (operation accounting_underflow) d h1 in
      let regular_file =
        read-succeeds (locate source) remaining d1 d2 bytes
          (map_error-succeeds file_error (read remaining) d1 h2) in
      let (added, same3) =
        lift-succeeds (checked_add total (length bytes)) (operation accounting_overflow) d2 h3 in
      let (enough, rest) = checked_sub-eq-some maximum total remaining left in
      let (sum_eq, _) = checked_add-eq-some total (length bytes) sum added in
      let result = ap (λ x. x.0) h in
      let payload_eq : record { path = path; bytes = bytes } ≡ payload =
        ap (λ x. x.0) (ok-injective result) in
      let total_eq : sum ≡ total' = ap (λ x. x.1) (ok-injective result) in
      let bytes_eq : bytes ≡ payload.bytes = ap (λ (p : Payload). p.bytes) payload_eq in
      record {
        named = ap (λ (p : Payload). p.path) (sym payload_eq);
        content =
            ap (λ s. s.entries (locate source)) (sym same1)
            ∙ regular_file.content
            ∙ ap (λ b. some (regular b)) bytes_eq;
        counted = sym total_eq ∙ sum_eq ∙ ap (λ b. total + length b) bytes_eq;
        bounded =
            within maximum total remaining (length bytes) sum total' rest regular_file.short sum_eq
              total_eq;
        unchanged =
            ap (λ x. x.1.entries) (sym h)
            ∙ ap (λ s. s.entries) same3
            ∙ regular_file.unchanged
            ∙ ap (λ s. s.entries) same1;
      }
    where
      within :
          (maximum total remaining n sum total' : ℕ)
          → remaining + total ≡ maximum
          → n ≤ remaining
          → sum ≡ total + n
          → sum ≡ total'
          → total' ≤ maximum
      within maximum total remaining n sum total' a b c d = omega (arith, a, b, c, d)

  pack_payload-succeeds :
      (maximum total : ℕ) (spec : Bytes) (d d' : Disk) {payload : Payload} {total' : ℕ}
      → pack_payload container locate maximum total spec d ≡ (ok (payload, total'), d')
      → IsSource d.entries spec payload
        × (total' ≡ total + length payload.bytes)
        × (total' ≤ maximum)
        × (d'.entries ≡ d.entries)
  unfolding pack_payload
  pack_payload-succeeds maximum total spec d d' {payload} {total'} h =
      let ((path, source), d1, h1, h) =
        >>=-succeeds (lift (ok_or (split_once b'=' spec) (usage (mapping_form spec)))) _ d h in
      let (_, d2, h2, h) =
        >>=-succeeds (raise_if (is_empty source) (usage (empty_source spec))) _ d1 h in
      let (_, d3, h3, h) =
        >>=-succeeds
          (raise_if (if container.accepts_path path then false else true)
            (usage (invalid_payload_path path)))
          _ d2 h in
      let (cut, same1) = lift-succeeds (split_once b'=' spec) (usage (mapping_form spec)) d h1 in
      let (given, same2) = raise_if-succeeds (is_empty source) (usage (empty_source spec)) d1 h2 in
      let (accepted, same3) =
        raise_if-succeeds (if container.accepts_path path then false else true)
          (usage (invalid_payload_path path)) d2 h3 in
      let counted = pack_source-succeeds maximum total path source d3 d' h in
      let (mapping, _) = split_once_sound b'=' spec path source cut in
      let same : d3.entries ≡ d.entries =
        ap (λ s. s.entries) (sym same3)
        ∙ ap (λ s. s.entries) (sym same2)
        ∙ ap (λ s. s.entries) same1 in
      (
        record {
          source = source;
          mapping = mapping ∙ ap (λ p. p ++ b'=' ∷ source) (sym counted.named);
          given = given;
          accepted =
              ap container.accepts_path counted.named
              ∙ negated (container.accepts_path path) accepted;
          content = ap (λ f. f (locate source)) (sym same) ∙ counted.content;
        },
        counted.counted,
        counted.bounded,
        counted.unchanged ∙ same,
      )

  -- What the loop has made of the mappings.
  pub record AreCounted (maximum total : ℕ) (specs : List Bytes) (d d' : Disk)
      (payloads : List Payload) (total' : ℕ) : Type 0 where
    pub from : AreSources d.entries specs payloads
    pub counted : total' ≡ total + payload_bytes payloads
    pub bounded : total ≤ maximum → total' ≤ maximum
    pub as_many : length payloads ≡ length specs
    pub unchanged : d'.entries ≡ d.entries

  pub pack_payloads-succeeds :
      (maximum total : ℕ) (specs : List Bytes) (d d' : Disk) {payloads : List Payload} {total' : ℕ}
      → pack_payloads container locate maximum total specs d ≡ (ok (payloads, total'), d')
      → AreCounted maximum total specs d d' payloads total'
  unfolding pack_payloads
  pack_payloads-succeeds maximum total [] d d' {payloads} {total'} h =
      let result = ok-injective (ap (λ x. x.0) h) in
      let none_packed : [] ≡ payloads = ap (λ x. x.0) result in
      record {
        from = subst (AreSources d.entries []) none_packed none_left;
        counted =
            no_more total total' (ap (λ x. x.1) result)
            ∙ ap (λ ps. total + payload_bytes ps) none_packed;
        bounded = λ b. subst (λ t. t ≤ maximum) (ap (λ x. x.1) result) b;
        as_many = ap length (sym none_packed);
        unchanged = ap (λ x. x.1.entries) (sym h);
      }
    where
      no_more : (a b : ℕ) → a ≡ b → b ≡ a + 0
      no_more a b e = omega (arith, e)
  pack_payloads-succeeds maximum total (spec ∷ specs) d d' {payloads} {total'} h =
      let ((payload, middle), d1, h1, h) =
        >>=-succeeds (pack_payload container locate maximum total spec) _ d h in
      let ((rest, sum), d2, h2, h) =
        >>=-succeeds (pack_payloads container locate maximum middle specs) _ d1 h in
      let (from, counted, bounded, same) = pack_payload-succeeds maximum total spec d d1 h1 in
      let others = pack_payloads-succeeds maximum middle specs d1 d2 h2 in
      let result = ok-injective (ap (λ x. x.0) h) in
      let all : payload ∷ rest ≡ payloads = ap (λ x. x.0) result in
      let sources = subst (λ f. AreSources f specs rest) same others.from in
      record {
        from = subst (AreSources d.entries (spec ∷ specs)) all (one_more from sources);
        counted =
            both (length payload.bytes) (payload_bytes rest) middle sum counted others.counted
              (ap (λ x. x.1) result)
            ∙ ap (λ ps. total + payload_bytes ps) all;
        bounded = λ _. subst (λ t. t ≤ maximum) (ap (λ x. x.1) result) (others.bounded bounded);
        as_many = ap length (sym all) ∙ longer payload rest others.as_many;
        unchanged = ap (λ x. x.1.entries) (sym h) ∙ others.unchanged ∙ same;
      }
    where
      both :
          (n m middle sum : ℕ)
          → middle ≡ total + n
          → sum ≡ middle + m
          → sum ≡ total'
          → total' ≡ total + (n + m)
      both n m middle sum a b c = omega (arith, a, b, c)

      longer :
          (x : Payload) (rest : List Payload)
          → length rest ≡ length specs
          → length (x ∷ rest) ≡ length (spec ∷ specs)
      longer x rest e = omega (arith, e)
