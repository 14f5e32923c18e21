-- ===== src/Files/Reading.antt =====
-- src/lib.rs and src/product_main.rs: what a bounded read returns.
use sci_capsule.Prelude.{
  ℕ, ◌+◌, ◌≤◌, ◌<◌, ◌≡◌, refl, sym, ap, subst, ◌∙◌, ◌↔◌, Bool, true, false, not, Option, none, some,
  [], ◌∷◌, zero, suc, Bytes, arith, ltb, ltb→le, le→ltb, length, u64_max, checked_add,
  checked_add_fits, checked_add-eq-some, ok, ok_or, ok_or-eq-ok, not-eq-false, ok-injective,
}
use sci_capsule.Action.{lift, raise_if, map_error, >>=-succeeds, map_error-succeeds}
use sci_capsule.Files.{
  Location, Node, Entries, Disk, regular, still, attempt, untouched, take_bytes,
}
use sci_capsule.Files.Calls.{attempt-succeeds, attempt_undisturbed}
use sci_capsule.Files.Access.{
  OpenFile, opened, open_regular_nofollow, metadata, read_to_end, read_open_file,
  read_regular_input_bounded, cannot_open, cannot_inspect, cannot_read, non_regular, too_long,
  exceeded, read_limit_too_large,
}

-- A cut to one more than the bytes there may be shows whether there are more.
take-short :
    (n : ℕ) (bytes : Bytes)
    → length (take_bytes (suc n) bytes) ≤ n
    → (take_bytes (suc n) bytes ≡ bytes) × (length bytes ≤ n)
take-short n [] h = (refl, omega arith)
take-short zero (c ∷ bytes) h = absurd (omega (arith, h))
take-short (suc n) (c ∷ bytes) h =
    let (e, b) = take-short n bytes (omega (arith, h)) in (ap (λ t. c ∷ t) e, omega (arith, b))

take_long : (n : ℕ) (bytes : Bytes) → length bytes ≤ n → take_bytes (suc n) bytes ≡ bytes
take_long n [] h = refl
take_long zero (c ∷ bytes) h = absurd (omega (arith, h))
take_long (suc n) (c ∷ bytes) h = ap (λ t. c ∷ t) (take_long n bytes (omega (arith, h)))

pub raise_if-succeeds :
    {S E : Type 0} (b : Bool) (e : E) (s : S) {s' : S}
    → raise_if b e s ≡ (ok tt, s')
    → (b ≡ false) × (s ≡ s')
raise_if-succeeds true e s h = cc (ap (λ x. x.0) h)
raise_if-succeeds false e s h = (refl, ap (λ x. x.1) h)

pub record IsRead (maximum : ℕ) (file : OpenFile) (d d' : Disk) (bytes : Bytes) : Type 0 where
  pub is_file : file.is_file ≡ true
  pub len : file.len ≤ maximum
  pub whole : bytes ≡ file.bytes
  pub short : length bytes ≤ maximum
  pub unchanged : d'.entries ≡ d.entries

-- A read of an open file that succeeds, with one more than the limit as the bound of the read,
-- returns all its bytes, which are no more than the limit, and changes nothing: a file that has
-- grown since `metadata` told its size, or of which it told another size, is refused and never cut.
pub read_open_file-succeeds :
    (maximum : ℕ) (file : OpenFile) (d d' : Disk) (bytes : Bytes)
    → read_open_file maximum (suc maximum) file d ≡ (ok bytes, d')
    → IsRead maximum file d d' bytes
unfolding read_open_file
read_open_file-succeeds maximum file d d' bytes h =
    let cut = take_bytes (suc maximum) file.bytes in
    let (_, d1, h1, h) = >>=-succeeds (map_error cannot_inspect metadata) _ d h in
    let (_, d2, h2, h) = >>=-succeeds (raise_if (not file.is_file) non_regular) _ d1 h in
    let (_, d3, h3, h) =
      >>=-succeeds (raise_if (ltb maximum file.len) (too_long file.len maximum)) _ d2 h in
    let (read, d4, h4, h) =
      >>=-succeeds (map_error cannot_read (read_to_end (suc maximum) file)) _ d3 h in
    let (_, d5, h5, h) =
      >>=-succeeds (raise_if (ltb maximum (length read)) (exceeded maximum)) _ d4 h in
    let e1 =
      attempt-succeeds untouched (λ f. (ok tt, f)) d
        (map_error-succeeds cannot_inspect metadata d h1) in
    let (is_file, e2) = raise_if-succeeds (not file.is_file) non_regular d1 h2 in
    let (len, e3) = raise_if-succeeds (ltb maximum file.len) (too_long file.len maximum) d2 h3 in
    let e4 =
      attempt-succeeds untouched (λ f. (ok cut, f)) d3
        (map_error-succeeds cannot_read (read_to_end (suc maximum) file) d3 h4) in
    let (short, e5) = raise_if-succeeds (ltb maximum (length read)) (exceeded maximum) d4 h5 in
    let cut_eq : cut ≡ read = ok-injective (ap (λ x. x.0) e4) in
    let bytes_eq : read ≡ bytes = ok-injective (ap (λ x. x.0) h) in
    let fits : length read ≤ maximum = ltb→le maximum (length read) short in
    let (all, b) =
      take-short maximum file.bytes (subst (λ t. length t ≤ maximum) (sym cut_eq) fits) in
    record {
      is_file = not-eq-false file.is_file is_file;
      len = ltb→le maximum file.len len;
      whole = sym bytes_eq ∙ sym cut_eq ∙ all;
      short = subst (λ t. length t ≤ maximum) bytes_eq fits;
      unchanged =
          ap (λ x. x.1.entries) (sym h)
          ∙ ap (λ x. x.entries) (sym e5)
          ∙ ap (λ x. x.1) (sym e4)
          ∙ ap (λ x. x.entries) (sym e3)
          ∙ ap (λ x. x.entries) (sym e2)
          ∙ ap (λ x. x.1) (sym e1);
    }

opened-regular :
    (o : Option Node) (file : OpenFile)
    → opened o ≡ ok file
    → file.is_file ≡ true
    → o ≡ some (regular file.bytes)
opened-regular none file h g = cc h
opened-regular (some (regular bytes)) file h g =
    ap (λ (x : OpenFile). some (regular x.bytes)) (ok-injective h)
opened-regular (some Node.directory) file h g =
    cc (ap (λ (x : OpenFile). x.is_file) (ok-injective h), g)
opened-regular (some Node.link) file h g = cc h
opened-regular (some Node.special) file h g =
    cc (ap (λ (x : OpenFile). x.is_file) (ok-injective h), g)

suc_le : (n m : ℕ) → n + 1 ≤ m → n < m
suc_le n m h = omega (arith, h)

one_more : (n m : ℕ) → m ≡ n + 1 → m ≡ suc n
one_more n m h = omega (arith, h)

-- What a bounded read of a place has shown when it succeeds.
pub record IsRegular (l : Location) (maximum : ℕ) (d d' : Disk) (bytes : Bytes) : Type 0 where
  pub content : d.entries l ≡ some (regular bytes)
  pub short : length bytes ≤ maximum
  pub no_overflow : maximum < u64_max
  pub unchanged : d'.entries ≡ d.entries

pub read-succeeds :
    (l : Location) (maximum : ℕ) (d d' : Disk) (bytes : Bytes)
    → read_regular_input_bounded l maximum d ≡ (ok bytes, d')
    → IsRegular l maximum d d' bytes
unfolding read_regular_input_bounded open_regular_nofollow
read-succeeds l maximum d d' bytes h =
    let (limit, d1, h1, h) =
      >>=-succeeds (lift (ok_or (checked_add maximum 1) read_limit_too_large)) _ d h in
    let (file, d2, h2, h) = >>=-succeeds (open_regular_nofollow l) _ d1 h in
    let (limit_eq, bound) =
      checked_add-eq-some maximum 1 limit (ok_or-eq-ok _ _ (ap (λ x. x.0) h1)) in
    let e2 =
      attempt-succeeds untouched (λ f. (opened (f l), f)) d1
        (map_error-succeeds cannot_open (attempt untouched (λ f. (opened (f l), f))) d1 h2) in
    let e1 : d1.entries ≡ d.entries = ap (λ x. x.1.entries) (sym h1) in
    let read = read_open_file-succeeds maximum file d2 d' bytes (
      subst (λ t. read_open_file maximum t file d2 ≡ (ok bytes, d'))
        (one_more maximum limit limit_eq) h) in
    record {
      content =
          ap (λ f. f l) (sym e1)
          ∙ opened-regular (d1.entries l) file (ap (λ x. x.0) e2) read.is_file
          ∙ ap (λ b. some (regular b)) (sym read.whole);
      short = read.short;
      no_overflow = suc_le maximum u64_max bound;
      unchanged = read.unchanged ∙ ap (λ x. x.1) (sym e2) ∙ e1;
    }

pub read_fits :
    (l : Location) (maximum : ℕ) (f : Entries) (bytes : Bytes)
    → f l ≡ some (regular bytes)
    → length bytes ≤ maximum
    → maximum < u64_max
    → read_regular_input_bounded l maximum (still f) ≡ (ok bytes, still f)
unfolding read_regular_input_bounded open_regular_nofollow read_open_file
read_fits l maximum f bytes h short bound =
    let file : OpenFile = record { is_file = true; len = length bytes; bytes = bytes } in
    let same : maximum + 1 ≡ suc maximum = omega arith in
    rw
      (
        checked_add_fits maximum 1 (omega (arith, bound)),
        attempt_undisturbed untouched (λ f. (opened (f l), f)) f,
        h,
        attempt_undisturbed untouched (λ f. (ok tt, f)) f,
        le→ltb maximum (length bytes) short,
        same,
        attempt_undisturbed untouched (λ f. (ok (take_bytes (suc maximum) bytes), f)) f,
        take_long maximum bytes short,
        le→ltb maximum (length bytes) short,
      )
      refl

-- With no failure of the system in store, a bounded read returns these bytes and changes nothing
-- exactly where the place holds a regular file of these bytes, they are no more than the limit,
-- and the limit is less than the greatest `u64`.
pub read_regular_input_bounded_iff :
    (l : Location) (maximum : ℕ) (f : Entries) (bytes : Bytes)
    → (read_regular_input_bounded l maximum (still f) ≡ (ok bytes, still f))
      ↔ IsRegular l maximum (still f) (still f) bytes
read_regular_input_bounded_iff l maximum f bytes = (
  read-succeeds l maximum (still f) (still f) bytes,
  λ h. read_fits l maximum f bytes h.content h.short h.no_overflow,
)
