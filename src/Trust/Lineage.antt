-- ===== src/Trust/Lineage.antt =====
-- The policies that src/trust.rs can produce: a first version 2 policy and its chain of updates.
use sci_capsule.Prelude.{
  ℕ, suc, ◌+◌, ◌≤◌, ◌≡◌, inl, inr, refl, some, List, [], ◌∷◌, Bytes, Any, All, arith, ok, true,
  All-map, eq_iff, nat_eq, list_eq,
}
use sci_capsule.Crypto.{Crypto, Json}
use sci_capsule.Trust.{TrustPolicy, TrustedKey, RevokedKey}
use sci_capsule.Trust.Update.{from_named_pem_keys_v2, update_from_named_pem_keys}
use sci_capsule.Trust.Verify.{public_key_digest, key_is_revoked}
use sci_capsule.Trust.Successor.{from_named_pem_keys_v2-IsCreated, update-IsSuccessor}
use sci_capsule.Trust.Revoking.{Lists, NameRevoked}
use sci_capsule.Trust.Repeats.{Occurs, any-witness, Any-witness, any-of-Occurs}

module _ (crypto : Crypto) (json : Json TrustPolicy) where
  -- `Lineage n p`: the policy `p` is made from scratch and then updated `n` times.
  pub data Lineage : ℕ → TrustPolicy → Type 0 where
    created :
        (id : Bytes) (from until minimum : ℕ) (keys : List (Bytes × Bytes)) {p : TrustPolicy}
        → from_named_pem_keys_v2 crypto id from until minimum keys ≡ ok p
        → Lineage 0 p
    updated :
        (expected : Bytes) (from until minimum : ℕ) (keys : List (Bytes × Bytes))
        (revoked_names : List Bytes) {k : ℕ} {p n : TrustPolicy}
        → Lineage k p
        → update_from_named_pem_keys crypto json p expected from until minimum keys revoked_names
          ≡ ok n
        → Lineage (suc k) n

  -- The revision of a policy is one more than the number of updates that led to it.
  pub revision_counts_updates : {k : ℕ} {p : TrustPolicy} → Lineage k p → p.revision ≡ some (k + 1)
  revision_counts_updates (created id from until minimum keys {p} h) =
      rw ((from_named_pem_keys_v2-IsCreated crypto id from until minimum keys p h).first) refl
  revision_counts_updates (updated expected from until minimum keys names {k} {p} {n} l h) =
      let s = (update-IsSuccessor crypto json p expected from until minimum keys names n h).link in
      ground (arith, revision_counts_updates l, s.had_revision, s.has_revision)

  listed-key_is_revoked :
      (n : TrustPolicy) (key : TrustedKey) (now : ℕ)
      → ((r : RevokedKey) → Occurs r n.revoked_keys → r.revoked_at_unix_seconds ≤ now)
      → Lists n.revoked_keys (public_key_digest crypto key.public_key)
      → key_is_revoked crypto n key now ≡ true
  unfolding key_is_revoked
  listed-key_is_revoked n key now dated listed =
      let (r, o, e) = Any-witness _ n.revoked_keys listed in
      any-of-Occurs _ r n.revoked_keys o (
        ground
          (arith, dated r o, eq_iff r.public_key_sha256 (public_key_digest crypto key.public_key)))

  listed_name-revoked :
      (n : TrustPolicy) (trusted_keys : List TrustedKey) (now : ℕ)
      → ((r : RevokedKey) → Occurs r n.revoked_keys → r.revoked_at_unix_seconds ≤ now)
      → (name : Bytes) → NameRevoked crypto trusted_keys n.revoked_keys name
      → Any
          (λ (key : TrustedKey). (key.name ≡ name) × (key_is_revoked crypto n key now ≡ true))
          trusted_keys
  listed_name-revoked n [] now dated name h = elim h [ ]
  listed_name-revoked n (key ∷ keys) now dated name (inl (e, listed)) =
      inl (e, listed-key_is_revoked n key now dated listed)
  listed_name-revoked n (key ∷ keys) now dated name (inr h) =
      inr (listed_name-revoked n keys now dated name h)

  -- No revocation in a produced policy is dated after the policy's start.
  dated_by_start :
      {k : ℕ} {p : TrustPolicy}
      → Lineage k p
      → (start : ℕ) × (p.valid_from_unix_seconds ≡ some start)
        × ((r : RevokedKey) → Occurs r p.revoked_keys → r.revoked_at_unix_seconds ≤ start)
  dated_by_start (created id from until minimum keys {p} h) =
      let c = from_named_pem_keys_v2-IsCreated crypto id from until minimum keys p h in
      (from, c.has_from, λ r. rw c.none_revoked (λ o. elim o [ ]))
  dated_by_start (updated expected from until minimum keys names {k} {p} {n} l h) =
      let s = (update-IsSuccessor crypto json p expected from until minimum keys names n h).link in
      let (start, had_from, dated) = dated_by_start l in
      let same : start ≡ s.start = ground (arith, had_from, s.had_from) in
      (
        from,
        s.has_from,
        λ r o. elim (s.dated r o) [
          | inl old ↦ omega (arith, dated r old, same, s.not_before)
          | inr e ↦ omega arith
        ],
      )

  -- In a policy made by these operations and then updated, each name given for revocation belongs
  -- to a key of the old policy that the new policy revokes at every time from its start on.
  pub revocation_takes_effect :
      (k : ℕ) (p n : TrustPolicy) (expected : Bytes) (from until minimum : ℕ)
      (keys : List (Bytes × Bytes)) (names : List Bytes) (now : ℕ)
      → Lineage k p
      → update_from_named_pem_keys crypto json p expected from until minimum keys names ≡ ok n
      → from ≤ now
      → All
          (λ name.
            Any
              (λ (key : TrustedKey). (key.name ≡ name) × (key_is_revoked crypto n key now ≡ true))
              p.trusted_keys)
          names
  revocation_takes_effect k p n expected from until minimum keys names now l h le =
      let s = (update-IsSuccessor crypto json p expected from until minimum keys names n h).link in
      let (start, has_from, dated) =
        dated_by_start (updated expected from until minimum keys names l h) in
      let is_start : start ≡ from = ground (arith, has_from, s.has_from) in
      let effect =
        listed_name-revoked n p.trusted_keys now (λ r o. omega (arith, dated r o, is_start)) in
      All-map effect names s.revokes

  -- `Descends p n`: updates lead from `p` to `n`.
  pub data Descends (p : TrustPolicy) : TrustPolicy → Type 0 where
    self : Descends p p
    child :
        (expected : Bytes) (from until minimum : ℕ) (keys : List (Bytes × Bytes))
        (revoked_names : List Bytes) {q n : TrustPolicy}
        → Descends p q
        → update_from_named_pem_keys crypto json q expected from until minimum keys revoked_names
          ≡ ok n
        → Descends p n

  Occurs-Descends :
      {p n : TrustPolicy}
      → Descends p n
      → (r : RevokedKey) → Occurs r p.revoked_keys
      → Occurs r n.revoked_keys
  Occurs-Descends self r o = o
  Occurs-Descends (child expected from until minimum keys names {q} {n} d h) r o =
      (update-IsSuccessor crypto json q expected from until minimum keys names n h).link.carried r
        (Occurs-Descends d r o)

  -- A key that a policy revokes at some time is revoked at that time by every policy that updates
  -- lead to, whatever the updates ask for.
  pub revoked_stays_revoked :
      (p n : TrustPolicy) (key : TrustedKey) (now : ℕ)
      → Descends p n
      → key_is_revoked crypto p key now ≡ true
      → key_is_revoked crypto n key now ≡ true
  unfolding key_is_revoked
  revoked_stays_revoked p n key now d h =
      let (r, o, t) = any-witness _ p.revoked_keys h in
      any-of-Occurs _ r n.revoked_keys (Occurs-Descends d r o) t
