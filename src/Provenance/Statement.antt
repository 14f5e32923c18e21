-- ===== src/Provenance/Statement.antt =====
-- src/provenance.rs: which statements are valid, and which capsule they are about.
use sci_capsule.Prelude.{
  ℕ, ◌/◌, ◌%◌, ◌≤◌, ◌<◌, ◌≡◌, sym, ap, ◌∙◌, ◌↔◌, ◌≢◌, Bool, false, true, not, ◌||◌, refl, none,
  some, [], ◌∷◌, ◌++◌, Bytes, codes, arith, length, is_upper, map, is_empty, all, any, All, ltb,
  hex_digit, to_hex, to_lower, eq_iff, nat_eq, list_beq, list_eq, list_beq, ◌==◌, tail_eq, head_eq,
  split_once, split_once-append, split_once_sound, Lacks, ltb→le, le→ltb, ok, reject-eq-ok,
  require-eq-ok, reject_if-eq-ok, not-eq-false,
}
use sci_capsule.Crypto.{Crypto, IsLawful}
use sci_capsule.Provenance.{
  JsonValues, Label, max_type_uri_bytes, is_ascii, is_whitespace, is_control, is_scheme,
  validate_type_uri, sha256_hex, matches_capsule, subject_matches, lookup, capsule_statement,
  uri_empty, uri_too_long, uri_form, uri_without_scheme, uri_scheme,
}

-- A printable ASCII character other than the space.
abbrev pub IsPrintable : ℕ → Type 0
IsPrintable c = (32 < c) × (c < 127)

-- An absolute URI: a scheme, a colon and anything printable.
pub record IsTypeUri (value : Bytes) : Type 0 where
  pub short : length value ≤ max_type_uri_bytes
  pub printable : All IsPrintable value
  pub scheme : Bytes
  pub rest : Bytes
  pub parts : value ≡ scheme ++ b':' ∷ rest
  pub before_colon : Lacks b':' scheme
  pub is_a_scheme : is_scheme scheme ≡ true

unprintable : Bytes → Bool
unprintable value = not (all is_ascii value) || any (λ c. is_whitespace c || is_control c) value

IsPrintable-iff : (value : Bytes) → (unprintable value ≡ false) ↔ All IsPrintable value
unfolding unprintable all any is_ascii is_whitespace is_control
IsPrintable-iff [] = ground arith
IsPrintable-iff (c ∷ s) = ground (arith, IsPrintable-iff s)

nil_ne_append : (x : ℕ) (xs ys : Bytes) → [] ≢ xs ++ x ∷ ys
nil_ne_append x [] ys h = cc
nil_ne_append x (c ∷ xs) ys h = cc

module _ {Trust : Type 0} where
  validate_type_uri_sound :
      (value : Bytes) (label : Label)
      → validate_type_uri {Trust = Trust} value label ≡ ok tt
      → IsTypeUri value
  unfolding validate_type_uri unprintable
  validate_type_uri_sound value label h =
      let (_, h) = reject-eq-ok (is_empty value) (uri_empty label) _ h in
      let (hn, h) =
        reject-eq-ok (ltb max_type_uri_bytes (length value)) (uri_too_long label (length value)) _
          h in
      let (hp, h) = reject-eq-ok (unprintable value) (uri_form label) _ h in
      let ((scheme, rest), hs, h) =
        require-eq-ok (split_once b':' value) (uri_without_scheme label) _ h in
      let (parts, before) = split_once_sound b':' value scheme rest hs in
      record {
        short = ltb→le _ _ hn;
        printable = (IsPrintable-iff value).0 hp;
        scheme = scheme;
        rest = rest;
        parts = parts;
        before_colon = before;
        is_a_scheme =
            not-eq-false (is_scheme scheme)
              (reject_if-eq-ok (not (is_scheme scheme)) (uri_scheme label) h);
      }

  validate_type_uri_complete :
      (value : Bytes) (label : Label)
      → IsTypeUri value
      → validate_type_uri {Trust = Trust} value label ≡ ok tt
  unfolding validate_type_uri unprintable
  validate_type_uri_complete [] label u = absurd (nil_ne_append b':' u.scheme u.rest u.parts)
  validate_type_uri_complete (c ∷ value) label u =
      let e =
        ap (split_once b':') u.parts ∙ split_once-append b':' u.scheme u.rest u.before_colon in
      rw (le→ltb _ _ u.short, (IsPrintable-iff (c ∷ value)).1 u.printable, e, u.is_a_scheme) refl

  -- A type URI is accepted exactly where it has at most 2048 bytes, all of them printable ASCII
  -- and no space, and a scheme before its first colon.
  pub validate_type_uri_iff :
      (value : Bytes) (label : Label)
      → (validate_type_uri {Trust = Trust} value label ≡ ok tt) ↔ IsTypeUri value
  validate_type_uri_iff value label =
      (validate_type_uri_sound value label, validate_type_uri_complete value label)

to_lower-hex_digit : (n : ℕ) → n < 16 → to_lower (hex_digit n) ≡ hex_digit n
unfolding to_lower hex_digit is_upper
to_lower-hex_digit n h = ground arith

hex_digit_injective : (m n : ℕ) → m < 16 → n < 16 → hex_digit m ≡ hex_digit n → m ≡ n
unfolding hex_digit
hex_digit_injective m n h h' e = ground arith

to_lower-to_hex : (bs : Bytes) → All (λ b. b < 256) bs → map to_lower (to_hex bs) ≡ to_hex bs
unfolding to_hex
to_lower-to_hex [] _ = refl
to_lower-to_hex (b ∷ bs) (h, hs) =
    rw
      (
        to_lower-hex_digit (b / 16) (omega arith),
        to_lower-hex_digit (b % 16) (omega arith),
        to_lower-to_hex bs hs,
      )
      refl

to_hex_injective :
    (bs cs : Bytes)
    → All (λ b. b < 256) bs
    → All (λ b. b < 256) cs
    → to_hex bs ≡ to_hex cs
    → bs ≡ cs
unfolding to_hex
to_hex_injective [] [] _ _ _ = refl
to_hex_injective [] (c ∷ cs) _ _ h = cc
to_hex_injective (b ∷ bs) [] _ _ h = cc
to_hex_injective (b ∷ bs) (c ∷ cs) (hb, hbs) (hc, hcs) h =
    let high = hex_digit_injective (b / 16) (c / 16) (omega arith) (omega arith) (head_eq h) in
    let low =
      hex_digit_injective (b % 16) (c % 16) (omega arith) (omega arith) (head_eq (tail_eq h)) in
    let rest = to_hex_injective bs cs hbs hcs (tail_eq (tail_eq h)) in
    let same : b ≡ c = omega (arith, high, low) in cc

or_false : {b : Bool} → (b || false) ≡ true → b ≡ true
or_false h = ground arith

subject_matches-sha256 :
    (crypto : Crypto) (name v expected : Bytes)
    → subject_matches crypto expected
        (record { uri = none; digest = (codes "sha256", v) ∷ []; name = some name })
      ≡ (map to_lower v == map to_lower expected)
unfolding subject_matches lookup list_beq
subject_matches-sha256 crypto name v expected = refl

module _ (crypto : Crypto) (lawful : IsLawful crypto) (values : JsonValues) where
  -- With lawful primitives: the statement that is built for a capsule is about another byte
  -- string exactly where the two have the same SHA-256.
  pub matches-capsule_statement :
      (name capsule_bytes id build_uri source digest other : Bytes)
      → (matches_capsule crypto
            (capsule_statement crypto values name capsule_bytes id build_uri source digest)
            other
          ≡ true)
        ↔ (crypto.sha256 other ≡ crypto.sha256 capsule_bytes)
  unfolding matches_capsule capsule_statement any sha256_hex
  matches-capsule_statement name capsule_bytes id build_uri source digest other =
      let hc = to_lower-to_hex (crypto.sha256 capsule_bytes) (lawful.sha256-IsByte capsule_bytes) in
      let ho = to_lower-to_hex (crypto.sha256 other) (lawful.sha256-IsByte other) in
      let hex =
        to_hex_injective (crypto.sha256 capsule_bytes) (crypto.sha256 other)
          (lawful.sha256-IsByte capsule_bytes) (lawful.sha256-IsByte other) in
      let test = eq_iff (to_hex (crypto.sha256 capsule_bytes)) (to_hex (crypto.sha256 other)) in
      rw
        (
          subject_matches-sha256 crypto name (to_hex (crypto.sha256 capsule_bytes))
              (to_hex (crypto.sha256 other)),
          hc,
          ho,
        )
        ((λ h. sym (hex (test.0 (or_false h)))), (λ e. ground (arith, test.1 (ap to_hex (sym e)))))
