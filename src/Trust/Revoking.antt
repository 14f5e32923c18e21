-- ===== src/Trust/Revoking.antt =====
-- src/trust.rs: what `revoke_names` does to the list of revoked keys.
use sci_capsule.Prelude.{
  ℕ, ◌≡◌, ◌⊎◌, inl, inr, refl, some, List, [], ◌∷◌, ◌++◌, Bytes, codes, arith, All, Any, any,
  any_sound, contains, find, Bool-cases, ok, ok-injective, reject-eq-ok, require-eq-ok, sym, ap,
  nat_eq, list_eq, eq_iff, ◌==◌, some_of_ne_none,
}
use sci_capsule.Crypto.{Crypto}
use sci_capsule.Trust.{TrustedKey, RevokedKey, duplicate_revoked_name, unknown_revoked_name}
use sci_capsule.Trust.Verify.{public_key_digest}
use sci_capsule.Trust.Update.{revoke_fingerprint, revoke_names}
use sci_capsule.Trust.Repeats.{Occurs}

module _ (fingerprint : Bytes) (at : ℕ) where
  Occurs-append : {A : Type 0} (a : A) (xs ys : List A) → Occurs a xs → Occurs a (xs ++ ys)
  Occurs-append a [] ys h = elim h [ ]
  Occurs-append a (x ∷ xs) ys (inl h) = inl h
  Occurs-append a (x ∷ xs) ys (inr h) = inr (Occurs-append a xs ys h)

  Occurs-revoke_fingerprint :
      (r : RevokedKey) (rs : List RevokedKey)
      → Occurs r rs
      → Occurs r (revoke_fingerprint fingerprint at rs)
  unfolding revoke_fingerprint
  Occurs-revoke_fingerprint r rs o =
      elim (Bool-cases (any (λ (r : RevokedKey). r.public_key_sha256 == fingerprint) rs)) [
        | inl e ↦ rw e o
        | inr e ↦ rw e (Occurs-append r rs _ o)
      ]

Occurs-snoc : {A : Type 0} (a b : A) (xs : List A) → Occurs a (xs ++ b ∷ []) → Occurs a xs ⊎ (b ≡ a)
Occurs-snoc a b [] (inl e) = inr e
Occurs-snoc a b [] (inr o) = elim o [ ]
Occurs-snoc a b (x ∷ xs) (inl e) = inl (inl e)
Occurs-snoc a b (x ∷ xs) (inr o) = elim (Occurs-snoc a b xs o) [
  | inl h ↦ inl (inr h)
  | inr e ↦ inr e
]

-- An entry is an old one, or is dated `at`.
abbrev pub OldOrAt : ℕ → List RevokedKey → RevokedKey → Type 0
OldOrAt at olds r = Occurs r olds ⊎ (r.revoked_at_unix_seconds ≡ at)

revoke_fingerprint-OldOrAt :
    (fingerprint : Bytes) (at : ℕ) (olds : List RevokedKey) (r : RevokedKey)
    → Occurs r (revoke_fingerprint fingerprint at olds)
    → OldOrAt at olds r
unfolding revoke_fingerprint
revoke_fingerprint-OldOrAt fingerprint at olds r =
    elim (Bool-cases (any (λ (x : RevokedKey). x.public_key_sha256 == fingerprint) olds)) [
      | inl e ↦ rw e (λ o. inl o)
      | inr e ↦ rw e (λ o. elim (Occurs-snoc r _ olds o) [
        | inl h ↦ inl h
        | inr e ↦ inr (ap (λ (x : RevokedKey). x.revoked_at_unix_seconds) (sym e))
      ])
    ]

abbrev pub Lists : List RevokedKey → Bytes → Type 0
Lists rs fingerprint = Any (λ (r : RevokedKey). r.public_key_sha256 ≡ fingerprint) rs

revoke_fingerprint-Lists :
    (fingerprint : Bytes) (at : ℕ) (rs : List RevokedKey)
    → Lists (revoke_fingerprint fingerprint at rs) fingerprint
unfolding revoke_fingerprint
revoke_fingerprint-Lists fingerprint at rs =
    elim (Bool-cases (any (λ (r : RevokedKey). r.public_key_sha256 == fingerprint) rs)) [
      | inl e ↦ rw e (
          any_sound (λ (r : RevokedKey). r.public_key_sha256 == fingerprint)
            (λ (r : RevokedKey) h. (eq_iff _ _).0 h) rs e)
      | inr e ↦ rw e (last rs)
    ]
  where
    last :
        (xs : List RevokedKey)
        → Lists
            (xs
              ++ record {
                public_key_sha256 = fingerprint;
                revoked_at_unix_seconds = at;
                reason = codes "controlled policy update";
              }
                ∷ [])
            fingerprint
    last [] = inl refl
    last (x ∷ xs) = inr (last xs)

Lists-Occurs :
    (fingerprint : Bytes) (rs out : List RevokedKey)
    → ((r : RevokedKey) → Occurs r rs → Occurs r out)
    → Lists rs fingerprint
    → Lists out fingerprint
Lists-Occurs fingerprint [] out sub h = elim h [ ]
Lists-Occurs fingerprint (r ∷ rs) out sub (inl h) = found out (sub r (inl refl))
  where
    found : (xs : List RevokedKey) → Occurs r xs → Lists xs fingerprint
    found [] o = elim o [ ]
    found (x ∷ xs) (inl e) = inl (rw e h)
    found (x ∷ xs) (inr o) = inr (found xs o)
Lists-Occurs fingerprint (r ∷ rs) out sub (inr h) =
    Lists-Occurs fingerprint rs out (λ x o. sub x (inr o)) h

find-Any :
    (name : Bytes) (ks : List TrustedKey) (key : TrustedKey) (P : TrustedKey → Type 0)
    → find (λ (k : TrustedKey). k.name == name) ks ≡ some key
    → P key
    → Any (λ (k : TrustedKey). (k.name ≡ name) × P k) ks
unfolding find
find-Any name [] key P h pk = cc
find-Any name (k ∷ ks) key P h pk = elim (Bool-cases (k.name == name)) [
  | inl e ↦ let same : k ≡ key = ground arith in inl ((eq_iff k.name name).0 e, rw same pk)
  | inr e ↦ inr (find-Any name ks key P (ground arith) pk)
]

-- A trusted key has the name, and its fingerprint is listed.
abbrev pub NameRevoked : Crypto → List TrustedKey → List RevokedKey → Bytes → Type 0
NameRevoked crypto trusted_keys rs name =
    Any (λ (k : TrustedKey). (k.name ≡ name) × Lists rs (public_key_digest crypto k.public_key))
      trusted_keys

module _ (crypto : Crypto) (trusted_keys : List TrustedKey) (at : ℕ) where
  pub revoke_names_sound :
      (names rest : List Bytes) (revoked out : List RevokedKey)
      → revoke_names crypto trusted_keys at names rest revoked ≡ ok out
      → ((r : RevokedKey) → Occurs r revoked → Occurs r out)
        × All (NameRevoked crypto trusted_keys out) rest
  unfolding revoke_names
  revoke_names_sound names [] revoked out h = let e : revoked ≡ out = cc in (λ r o. rw (← e) o, tt)
  revoke_names_sound names (name ∷ rest) revoked out h =
      let (key, found) =
        some_of_ne_none (find (λ (key : TrustedKey). key.name == name) trusted_keys)
          (ground arith) in
      let fingerprint = public_key_digest crypto key.public_key in
      let (keeps, all_revoked) =
        revoke_names_sound (name ∷ names) rest (revoke_fingerprint fingerprint at revoked) out
          (ground arith) in
      (
        λ r o. keeps r (Occurs-revoke_fingerprint fingerprint at r revoked o),
        (
          find-Any name trusted_keys key _ found (
              Lists-Occurs fingerprint _ out keeps
                (revoke_fingerprint-Lists fingerprint at revoked)),
          all_revoked,
        ),
      )

  pub revoke_names-OldOrAt :
      (names rest : List Bytes) (revoked out : List RevokedKey) (r : RevokedKey)
      → revoke_names crypto trusted_keys at names rest revoked ≡ ok out
      → Occurs r out
      → OldOrAt at revoked r
  unfolding revoke_names
  revoke_names-OldOrAt names [] revoked out r h o =
      let e : revoked ≡ out = ok-injective h in inl (rw e o)
  revoke_names-OldOrAt names (name ∷ rest) revoked out r h o =
      let (_, h1) = reject-eq-ok (contains names name) (duplicate_revoked_name name) _ h in
      let (key, found, h2) =
        require-eq-ok (find (λ (key : TrustedKey). key.name == name) trusted_keys)
          (unknown_revoked_name name) _ h1 in
      let fingerprint = public_key_digest crypto key.public_key in
      elim (revoke_names-OldOrAt (name ∷ names) rest (revoke_fingerprint fingerprint at revoked) out
        r h2 o) [
          | inl old ↦ revoke_fingerprint-OldOrAt fingerprint at revoked r old
          | inr e ↦ inr e
        ]
