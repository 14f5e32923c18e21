-- ===== src/Extraction/Places.antt =====
-- src/extraction.rs: what `preflight` means for the places of the files: no two clash.
use sci_capsule.Prelude.{
  ◌≡◌, refl, sym, ap, subst, ◌∙◌, inl, inr, Bool, true, false, ◌||◌, List, [], ◌∷◌, ◌++◌,
  append_assoc, append-nil, Bytes, arith, ◌==◌, nat_eq, list_eq, eq_iff, eq_refl, ok, All, All-map,
  contains, join, Bool-cases, Distinct,
}
use sci_capsule.Files.{Location}
use sci_capsule.Files.Ancestors.{is_ancestor, ancestor-splits}
use sci_capsule.Extraction.{PathBuf, Payload, ExtractionLimits, portable_path}
use sci_capsule.Extraction.Paths.{IsPortable, portable_path_iff}
use sci_capsule.Extraction.Conflicts.{NoAncestor}
use sci_capsule.Extraction.Limits.{Fits, paths_of}
use sci_capsule.Extraction.Materialize.{join_path}
use sci_capsule.Extraction.Trees.{File, files, Apart, IsApart}

-- The names of a place from the top down.
names : Location → PathBuf
names [] = []
names (n ∷ l) = names l ++ n ∷ []

names-append : (a b : Location) → names (a ++ b) ≡ names b ++ names a
unfolding names
names-append [] b = sym (append-nil (names b))
names-append (n ∷ a) b =
    ap (λ t. t ++ n ∷ []) (names-append a b) ∙ append_assoc (names b) (names a) (n ∷ [])

names-join_path : (base : Location) (r : PathBuf) → names (join_path base r) ≡ names base ++ r
unfolding names
names-join_path base [] = sym (append-nil (names base))
names-join_path base (n ∷ r) = names-join_path (n ∷ base) r ∙ append_assoc (names base) (n ∷ []) r

pub join_path-append : (a b : Location) (r : PathBuf) → join_path (a ++ b) r ≡ join_path a r ++ b
join_path-append a b [] = refl
join_path-append a b (n ∷ r) = join_path-append (n ∷ a) b r

names_of : (r : PathBuf) → names (join_path [] r) ≡ r
unfolding names
names_of r = names-join_path [] r

-- A relative path that is not empty leads to a place with a name.
pub record Lies (payload : Payload) : Type 0 where
  pub relative : PathBuf
  pub name : Bytes
  pub up : Location
  pub portable : portable_path payload.path ≡ ok relative
  pub place_eq : join_path [] relative ≡ name ∷ up

Lies-join_path :
    (payload : Payload) (r : PathBuf) (l : Location)
    → IsPortable payload.path r
    → join_path [] r ≡ l
    → Lies payload
unfolding names
Lies-join_path payload r [] h e = absurd (h.ne_nil (sym (names_of r) ∙ ap names e))
Lies-join_path payload r (n ∷ up) h e = record {
  relative = r;
  name = n;
  up = up;
  portable = (portable_path_iff payload.path r).1 h;
  place_eq = e;
}

pub Lies-portable : (payload : Payload) → ((r : PathBuf) × IsPortable payload.path r) → Lies payload
Lies-portable payload (r, h) = Lies-join_path payload r (join_path [] r) h refl

pub files-cons :
    (p : Payload) (ps : List Payload) (r : PathBuf)
    → portable_path p.path ≡ ok r
    → files (p ∷ ps) ≡ (join_path [] r, p.bytes) ∷ files ps
files-cons p ps r h = rw (h, files) refl

snoc-cons : (xs : PathBuf) (x : Bytes) → (y : Bytes) × (ys : PathBuf) × (xs ++ x ∷ [] ≡ y ∷ ys)
snoc-cons [] x = (x, [], refl)
snoc-cons (y ∷ ys) x = (y, ys ++ x ∷ [], refl)

-- A payload's place is not above that of one with which it does not conflict.
not_above :
    (paths : List Bytes) (p q : Bytes) (r s : PathBuf)
    → IsPortable p r
    → IsPortable q s
    → NoAncestor paths s
    → contains paths p ≡ true
    → is_ancestor (join_path [] r) (join_path [] s) ≡ false
unfolding names
not_above paths p q [] s hr hs h c = absurd (hr.ne_nil refl)
not_above paths p q (n ∷ i) s hr hs h c =
    elim (Bool-cases (is_ancestor (join_path [] (n ∷ i)) (join_path [] s))) [
      | inr e ↦ e
      | inl e ↦
          let (name, t, split) = ancestor-splits (join_path [] (n ∷ i)) (join_path [] s) e in
          let (y, ys, snoc) = snoc-cons (names t) name in
          let path : s ≡ n ∷ i ++ y ∷ ys =
            sym (names_of s)
            ∙ ap names split
            ∙ names-append (name ∷ t) (join_path [] (n ∷ i))
            ∙ ap (λ x. x ++ (names t ++ name ∷ [])) (names_of (n ∷ i))
            ∙ ap (λ x. n ∷ i ++ x) snoc in
          cc (h n i y ys path, ap (contains paths) hr.joined, c)
    ]

same_place : (r s : PathBuf) → join_path [] r ≡ join_path [] s → r ≡ s
same_place r s e = sym (names_of r) ∙ ap names e ∙ names_of s

or_false : (a b : Bool) → (a || b) ≡ false → (a ≡ false) × (b ≡ false)
or_false true b h = cc h
or_false false b h = (refl, h)

module _ (paths : List Bytes) where
  abbrev Conflictless : Bytes → Type 0
  Conflictless path = (r : PathBuf) → IsPortable path r → NoAncestor paths r

  IsApart-files :
      (p : Payload) (r : PathBuf) (ps : List Payload)
      → IsPortable p.path r
      → contains paths p.path ≡ true
      → NoAncestor paths r
      → contains (paths_of ps) p.path ≡ false
      → All (λ (p : Payload). (r : PathBuf) × IsPortable p.path r) ps
      → All Conflictless (paths_of ps)
      → All (λ q. contains paths q ≡ true) (paths_of ps)
      → All (λ (f : File). IsApart (join_path [] r) f.0) (files ps)
  unfolding contains
  IsApart-files p r [] hr hc hn d _ _ _ = tt
  IsApart-files p r (q ∷ ps) hr hc hn d ((s, hs), hps) (ha, has) (hm, hms) =
      subst (All (λ (f : File). IsApart (join_path [] r) f.0))
        (sym (files-cons q ps s ((portable_path_iff q.path s).1 hs)))
        (
          record {
            distinct = λ e.
                let same : q.path ≡ p.path =
                  sym hs.joined ∙ ap (join b'/') (sym (same_place r s e)) ∙ hr.joined in
                cc ((eq_iff q.path p.path).1 same, (or_false (q.path == p.path) _ d).0);
            not_above = not_above paths p.path q.path r s hr hs (ha s hs) hc;
            not_below = not_above paths q.path p.path s r hs hr hn hm;
          },
          IsApart-files p r ps hr hc hn (or_false (q.path == p.path) _ d).1 hps has hms,
        )

  Apart-files :
      (ps : List Payload)
      → All (λ (p : Payload). (r : PathBuf) × IsPortable p.path r) ps
      → All Conflictless (paths_of ps)
      → All (λ q. contains paths q ≡ true) (paths_of ps)
      → Distinct (paths_of ps)
      → Apart (files ps)
  Apart-files [] _ _ _ _ = tt
  Apart-files (p ∷ ps) ((r, hr), hs) (ha, has) (hm, hms) (d, ds) =
      subst Apart (sym (files-cons p ps r ((portable_path_iff p.path r).1 hr)))
        (IsApart-files p r ps hr hm (ha r hr) d hs has hms, Apart-files ps hs has hms ds)

members : (qs : List Bytes) → All (λ q. contains qs q ≡ true) qs
unfolding contains
members [] = tt
members (x ∷ qs) = (rw (eq_refl x) refl, All-map (λ q e. ground (arith, e)) qs (members qs))

pub Apart-Fits :
    (payloads : List Payload) (limits : ExtractionLimits)
    → Fits payloads limits
    → Apart (files payloads)
Apart-Fits payloads limits h =
    Apart-files (paths_of payloads) payloads h.portable h.apart (members (paths_of payloads))
      h.distinct
