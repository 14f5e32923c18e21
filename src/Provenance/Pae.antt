-- ===== src/Provenance/Pae.antt =====
-- src/provenance.rs: the pre-authentication encoding `dsse_pae` is unambiguous.
use sci_capsule.Prelude.{
  ℕ, ◌≤◌, ◌≡◌, sym, ap, ◌∙◌, refl, ◌∷◌, ◌++◌, Bytes, codes, length, is_digit, u64_max, to_string,
  to_string_injective, Lacks-to_string, tail_eq, split_once-append, split_once, append_cancel,
}
use sci_capsule.Provenance.Envelope.{dsse_pae}

-- A number and what follows it are read off its text.
pae_number :
    (m n : ℕ) (s t : Bytes)
    → m ≤ u64_max
    → n ≤ u64_max
    → to_string m ++ b' ' ∷ s ≡ to_string n ++ b' ' ∷ t
    → (m ≡ n) × (s ≡ t)
unfolding is_digit
pae_number m n s t hm hn h =
    let e =
      sym (split_once-append b' ' (to_string m) s (Lacks-to_string b' ' m refl hm))
      ∙ ap (split_once b' ') h
      ∙ split_once-append b' ' (to_string n) t (Lacks-to_string b' ' n refl hn) in
    let same : to_string m ≡ to_string n = cc in (to_string_injective m n hm hn same, cc)

abbrev pae_payload : Bytes → Bytes
pae_payload p = b' ' ∷ (to_string (length p) ++ b' ' ∷ p)

-- Two encodings that are equal have the same payload type and the same payload, where the lengths
-- fit a `u64`.
pub dsse_pae_injective :
    (t p t' p' : Bytes)
    → length t ≤ u64_max
    → length p ≤ u64_max
    → length t' ≤ u64_max
    → length p' ≤ u64_max
    → dsse_pae t p ≡ dsse_pae t' p'
    → (t ≡ t') × (p ≡ p')
unfolding dsse_pae
dsse_pae_injective t p t' p' ht hp ht' hp' h =
    let (_, h) = append_cancel (codes "DSSEv1 ") (codes "DSSEv1 ") _ _ refl h in
    let (n, h) =
      pae_number (length t) (length t') (t ++ pae_payload p) (t' ++ pae_payload p') ht ht' h in
    let (e, h) = append_cancel t t' (pae_payload p) (pae_payload p') n h in
    let (_, h) = pae_number (length p) (length p') p p' hp hp' (tail_eq h) in (e, h)
