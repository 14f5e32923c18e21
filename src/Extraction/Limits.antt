-- ===== src/Extraction/Limits.antt =====
-- src/extraction.rs: what `preflight` accepts, and the sizes it reports.
use sci_capsule.Prelude.{
  ℕ, ◌+◌, ◌≤◌, ◌≡◌, refl, sym, ap, ◌∙◌, ◌↔◌, false, ◌||◌, none, List, [], ◌∷◌, Bytes, arith, nat_eq,
  list_eq, ltb, ltb→le, le→ltb, contains, split, All, All-map, Distinct, Fresh, Fresh-cons_iff,
  Fresh-nil, length, join, ok, Bool-cases, inl, inr, u64_max, checked_add, checked_add-eq-some,
  checked_add_fits, >>=-eq-ok, >>-eq-ok, require-eq-ok, reject-eq-ok, ok-injective,
}
use sci_capsule.Extraction.{
  PathBuf, Payload, Preflight, ExtractionLimits, insert_path, path_lt, portable_path,
  check_payloads, check_conflicts, find_ancestor, preflight, size_overflow, duplicate_path,
  too_many_files, too_many_bytes,
}
use sci_capsule.Extraction.Paths.{IsPortable, portable_path_iff}
use sci_capsule.Extraction.Conflicts.{NoAncestor, check_conflicts_iff, find_ancestor_iff}

-- The bytes of all payloads together.
abbrev pub payload_bytes : List Payload → ℕ
payload_bytes [] = 0
payload_bytes (p ∷ ps) = length p.bytes + payload_bytes ps

abbrev pub paths_of : List Payload → List Bytes
paths_of [] = []
paths_of (p ∷ ps) = p.path ∷ paths_of ps

contains-insert_path :
    (p : Bytes) (paths : List Bytes) (q : Bytes)
    → contains (insert_path p paths) q ≡ (list_eq.test p q || contains paths q)
unfolding insert_path contains
contains-insert_path p [] q = refl
contains-insert_path p (x ∷ paths) q = ground (arith, contains-insert_path p paths q)

All-insert_path :
    (P : Bytes → Type 0) (p : Bytes) (paths : List Bytes)
    → All P (insert_path p paths) ↔ (P p × All P paths)
unfolding insert_path
All-insert_path P p [] = (λ h. h, λ h. h)
All-insert_path P p (x ∷ paths) =
    let (f, g) = All-insert_path P p paths in
    elim (Bool-cases (path_lt p x)) [
      | inl e ↦ rw e (λ h. h, λ h. h)
      | inr e ↦ rw e (λ (hx, hs). ((f hs).0, (hx, (f hs).1)), λ (hp, (hx, hs)). (hx, g (hp, hs)))
    ]

contains-cons_insert_path :
    (p : Bytes) (paths : List Bytes) (q : Bytes)
    → contains (insert_path p paths) q ≡ contains (p ∷ paths) q
unfolding contains
contains-cons_insert_path p paths q = contains-insert_path p paths q

Fresh-insert_path :
    (p : Bytes) (paths xs : List Bytes)
    → Fresh (insert_path p paths) xs ↔ (Fresh paths xs × (contains xs p ≡ false))
Fresh-insert_path p paths xs =
    let (f, g) = Fresh-cons_iff p paths xs in
    (
      λ h. f (All-map (λ q e. sym (contains-cons_insert_path p paths q) ∙ e) xs h),
      λ h. All-map (λ q e. contains-cons_insert_path p paths q ∙ e) xs (g h),
    )

-- One round of the loop, and its inverse.
check_payloads-cons :
    (total : ℕ) (paths : List Bytes) (p : Payload) (ps : List Payload) {s : ℕ × List Bytes}
    → check_payloads total paths (p ∷ ps) ≡ ok s
    → (r : PathBuf) × (portable_path p.path ≡ ok r)
      × (total + length p.bytes ≤ u64_max)
      × (contains paths p.path ≡ false)
      × (check_payloads (total + length p.bytes) (insert_path p.path paths) ps ≡ ok s)
unfolding check_payloads
check_payloads-cons total paths p ps h =
    let (r, hr, h) = >>=-eq-ok (portable_path p.path) _ h in
    let (t, ht, h) = require-eq-ok (checked_add total (length p.bytes)) size_overflow _ h in
    let (hc, h) = reject-eq-ok (contains paths p.path) (duplicate_path p.path) _ h in
    let (e, b) = checked_add-eq-some total (length p.bytes) t ht in (r, hr, b, hc, rw (sym e) h)

-- What the loop has checked when it ends, and how its set of paths is made up.
record IsChecked (total : ℕ) (paths : List Bytes) (ps : List Payload) (total' : ℕ)
    (paths' : List Bytes) : Type 1 where
  portable : All (λ (p : Payload). (r : PathBuf) × IsPortable p.path r) ps
  sum : total' ≡ total + payload_bytes ps
  bounded : total ≤ u64_max → total' ≤ u64_max
  distinct : Distinct (paths_of ps)
  fresh : Fresh paths (paths_of ps)
  members : (q : Bytes) → contains paths' q ≡ (contains paths q || contains (paths_of ps) q)
  elements : (P : Bytes → Type 0) → All P paths' ↔ (All P paths × All P (paths_of ps))

IsChecked-check_payloads :
    (total : ℕ) (paths : List Bytes) (ps : List Payload) {total' : ℕ} {paths' : List Bytes}
    → check_payloads total paths ps ≡ ok (total', paths')
    → IsChecked total paths ps total' paths'
unfolding check_payloads contains
IsChecked-check_payloads total paths [] {total'} {paths'} h =
    let e = ap (λ x. x.0) (ok-injective h) in
    let e' = ap (λ x. x.1) (ok-injective h) in
    rw (sym e, sym e')
      (record {
        portable = tt;
        sum = omega arith;
        bounded = λ b. b;
        distinct = tt;
        fresh = tt;
        members = λ q. ground arith;
        elements = λ P. (λ h. (h, tt), λ (h, _). h);
      })
IsChecked-check_payloads total paths (p ∷ ps) {total'} {paths'} h =
    let (r, hr, hb, hc, h) = check_payloads-cons total paths p ps h in
    let ih = IsChecked-check_payloads (total + length p.bytes) (insert_path p.path paths) ps h in
    let (fresh, absent) = (Fresh-insert_path p.path paths (paths_of ps)).0 ih.fresh in
    record {
      portable = ((r, (portable_path_iff p.path r).0 hr), ih.portable);
      sum = omega (arith, ih.sum);
      bounded = λ _. ih.bounded hb;
      distinct = (absent, ih.distinct);
      fresh = (hc, fresh);
      members = λ q. ground (arith, ih.members q, contains-insert_path p.path paths q);
      elements = λ P.
          let (f, g) = ih.elements P in
          let (f', g') = All-insert_path P p.path paths in
          (
            λ h. let (hi, hs) = f h in ((f' hi).1, ((f' hi).0, hs)),
            λ (hq, (hp, hs)). g (g' (hp, hq), hs),
          );
    }

plus_zero : (n : ℕ) → n ≡ n + 0
plus_zero n = omega arith

check_payloads_complete :
    (total : ℕ) (paths : List Bytes) (ps : List Payload)
    → All (λ (p : Payload). (r : PathBuf) × IsPortable p.path r) ps
    → total + payload_bytes ps ≤ u64_max
    → Distinct (paths_of ps)
    → Fresh paths (paths_of ps)
    → (paths' : List Bytes) × (check_payloads total paths ps
        ≡ ok (total + payload_bytes ps, paths'))
unfolding check_payloads
check_payloads_complete total paths [] _ b _ _ = (paths, ap (λ t. ok (t, paths)) (plus_zero total))
check_payloads_complete total paths (p ∷ ps) ((r, hr), hs) b (ha, hd) (hc, hf) =
    let (paths', e) =
      check_payloads_complete (total + length p.bytes) (insert_path p.path paths) ps hs
        (omega (arith, b)) hd ((Fresh-insert_path p.path paths (paths_of ps)).1 (hf, ha)) in
    (
      paths',
      rw
          (
            (portable_path_iff p.path r).1 hr,
            checked_add_fits total (length p.bytes) (omega (arith, b)),
            hc,
          )
          (e ∙ ap (λ t. ok (t, paths')) (omega arith)),
    )

-- What `preflight` promises of the payloads.
pub record Fits (payloads : List Payload) (limits : ExtractionLimits) : Type 0 where
  pub few_files : length payloads ≤ limits.max_files
  pub few_bytes : payload_bytes payloads ≤ limits.max_total_bytes
  pub no_overflow : payload_bytes payloads ≤ u64_max
  pub portable : All (λ (p : Payload). (r : PathBuf) × IsPortable p.path r) payloads
  pub distinct : Distinct (paths_of payloads)
  pub apart :
      All
        (λ path. (r : PathBuf) → IsPortable path r → NoAncestor (paths_of payloads) r)
        (paths_of payloads)

NoAncestor-members :
    (paths paths' : List Bytes)
    → ((q : Bytes) → contains paths q ≡ contains paths' q)
    → (r : PathBuf) → NoAncestor paths r
    → NoAncestor paths' r
NoAncestor-members paths paths' same r h c i x rest e =
    sym (same (join b'/' (c ∷ i))) ∙ h c i x rest e

apart_sound :
    (paths : List Bytes) (ps : List Bytes)
    → All (λ path. find_ancestor paths [] (split b'/' path) ≡ none) ps
    → All (λ path. (r : PathBuf) → IsPortable path r → NoAncestor paths r) ps
apart_sound paths = All-map (λ path h r hr. (find_ancestor_iff paths path r hr).0 h)

apart_complete :
    (paths : List Bytes) (ps : List Payload)
    → All (λ (p : Payload). (r : PathBuf) × IsPortable p.path r) ps
    → All (λ path. (r : PathBuf) → IsPortable path r → NoAncestor paths r) (paths_of ps)
    → All (λ path. find_ancestor paths [] (split b'/' path) ≡ none) (paths_of ps)
apart_complete paths [] _ _ = tt
apart_complete paths (p ∷ ps) ((r, hr), hs) (h, h') =
    ((find_ancestor_iff paths p.path r hr).1 (h r hr), apart_complete paths ps hs h')

preflight_sound :
    (payloads : List Payload) (limits : ExtractionLimits) {r : Preflight}
    → preflight payloads limits ≡ ok r
    → Fits payloads limits
      × (r.file_count ≡ length payloads)
      × (r.total_bytes ≡ payload_bytes payloads)
unfolding preflight contains
preflight_sound payloads limits h =
    let (hn, h) =
      reject-eq-ok (ltb limits.max_files (length payloads))
        (too_many_files (length payloads) limits.max_files) _ h in
    let ((total, paths), hp, h) = >>=-eq-ok (check_payloads 0 [] payloads) _ h in
    let (hb, h) =
      reject-eq-ok (ltb limits.max_total_bytes total) (too_many_bytes total limits.max_total_bytes)
        _ h in
    let (hc, h) = >>-eq-ok (check_conflicts paths paths) _ h in
    let checked = IsChecked-check_payloads 0 [] payloads hp in
    let bytes : total ≡ payload_bytes payloads = omega (arith, checked.sum) in
    let none_found =
      (checked.elements (λ path. find_ancestor paths [] (split b'/' path) ≡ none)).0
        ((check_conflicts_iff paths paths).0 hc) in
    (
      record {
        few_files = ltb→le _ _ hn;
        few_bytes = rw (sym bytes) (ltb→le _ _ hb);
        no_overflow = rw (sym bytes) (checked.bounded (omega arith));
        portable = checked.portable;
        distinct = checked.distinct;
        apart =
            All-map
              (λ path apart r hr.
                NoAncestor-members paths (paths_of payloads) checked.members r (apart r hr))
              (paths_of payloads) (apart_sound paths (paths_of payloads) none_found.1);
      },
      ap (λ (x : Preflight). x.file_count) (sym (ok-injective h)),
      ap (λ (x : Preflight). x.total_bytes) (sym (ok-injective h)) ∙ bytes,
    )

preflight_complete :
    (payloads : List Payload) (limits : ExtractionLimits)
    → Fits payloads limits
    → preflight payloads limits
      ≡ ok (record { file_count = length payloads; total_bytes = payload_bytes payloads })
unfolding preflight contains
preflight_complete payloads limits h =
    let (paths, e) =
      check_payloads_complete 0 [] payloads h.portable (omega (arith, h.no_overflow)) h.distinct
        (Fresh-nil (paths_of payloads)) in
    let checked = IsChecked-check_payloads 0 [] payloads e in
    let none_found = apart_complete paths payloads h.portable (
      All-map
        (λ path apart r hr.
          NoAncestor-members (paths_of payloads) paths (λ q. sym (checked.members q)) r
            (apart r hr))
        (paths_of payloads) h.apart) in
    let no_conflict = (check_conflicts_iff paths paths).1 (
      (checked.elements (λ path. find_ancestor paths [] (split b'/' path) ≡ none)).1
        (tt, none_found)) in
    let zero_plus : 0 + payload_bytes payloads ≡ payload_bytes payloads = omega arith in
    rw (le→ltb _ _ h.few_files, e, zero_plus, le→ltb _ _ h.few_bytes, no_conflict) refl

-- `preflight` succeeds exactly where the payloads are no more than the limits allow in number and
-- in bytes, their bytes do not overflow a `u64`, their paths are portable and distinct, and no
-- payload's path is a proper ancestor of another's; it then reports the number of the payloads and
-- the sum of their sizes.
pub preflight_iff :
    (payloads : List Payload) (limits : ExtractionLimits) (r : Preflight)
    → (preflight payloads limits ≡ ok r) ↔ (
        Fits payloads limits
        × (r.file_count ≡ length payloads)
        × (r.total_bytes ≡ payload_bytes payloads))
preflight_iff payloads limits r = (
  preflight_sound payloads limits,
  λ (h, e, e').
      preflight_complete payloads limits h
      ∙ ap ok (λ i. record { file_count = sym e i; total_bytes = sym e' i }),
)
