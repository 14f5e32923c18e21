-- ===== src/Prelude/Decimal.antt =====
-- `u64::to_string` and `str::parse::<u64>`.
use Prim.Native.Nat.{ℕ, zero, suc, ◌+◌, ◌-◌, ◌*◌, ◌/◌, ◌%◌, ◌^◌, ◌≤◌, ◌<◌}
use mathlib.Core.Path.{◌≡◌, refl, subst, sym, ap, ◌∙◌}
use mathlib.Core.Logic.{◌≢◌, inl, inr}
use mathlib.Core.Bool.{true, false, true≢false}
use mathlib.Core.Option.{Option, none, some}
use mathlib.Core.List.{[], ◌∷◌}
use native.Mathlib.Omega.{arith}
use native.Mathlib.Nat.{div-lt_iff_lt-mul, pow-suc}
use sci_capsule.Prelude.Tests.{◌==◌, lt→ltb, nat_eq, ltb, leb, if◌then◌else◌, Bool-cases, ltb→lt}
use sci_capsule.Prelude.Lists.{All, All-map, is_empty}
use sci_capsule.Prelude.Text.{Bytes, is_digit, u64_max}
use sci_capsule.Prelude.Splitting.{Lacks}

-- The digits of a number below `10 ^ fuel`, before the text `rest`.
unfoldable pub write_digits : ℕ → ℕ → Bytes → Bytes
write_digits zero n rest = rest
write_digits (suc fuel) n rest =
    let more = write_digits fuel (n / 10) ((b'0' + n % 10) ∷ rest) in
    if ltb n 10 then (b'0' + n) ∷ rest else more

-- A `u64` has at most 20 digits.
unfoldable pub to_string : ℕ → Bytes
to_string n = write_digits 20 n []

unfoldable pub parse_digits : ℕ → Bytes → Option ℕ
parse_digits n [] = some n
parse_digits n (c ∷ s) =
    let next = n * 10 + (c - b'0') in
    let rest = parse_digits next s in
    if is_digit c then (if leb next u64_max then rest else none) else none

unfoldable pub parse_u64 : Bytes → Option ℕ
parse_u64 [] = none
parse_u64 (c ∷ s) =
    if c == b'+' then (if is_empty s then none else parse_digits 0 s) else parse_digits 0 (c ∷ s)

is_digit-char : (n : ℕ) → n < 10 → is_digit (b'0' + n) ≡ true
unfolding is_digit
is_digit-char n h = ground arith

parse_digits-cons :
    (n d m : ℕ) (s : Bytes)
    → d < 10
    → n * 10 + d ≡ m
    → m ≤ u64_max
    → parse_digits n ((b'0' + d) ∷ s) ≡ parse_digits m s
unfolding parse_digits
parse_digits-cons n d m s h e b =
    let e' : n * 10 + (b'0' + d - b'0') ≡ m = omega (arith, e) in
    rw (is_digit-char d h, e') (ground (arith, b))

parse_digits-write_digits :
    (fuel n : ℕ) (rest : Bytes)
    → n < 10 ^ suc fuel
    → n ≤ u64_max
    → parse_digits 0 (write_digits (suc fuel) n rest) ≡ parse_digits n rest
unfolding write_digits
parse_digits-write_digits zero n rest h b =
    rw (lt→ltb n 10 h) (parse_digits-cons 0 n n rest h (omega arith) b)
parse_digits-write_digits (suc fuel) n rest h b = elim (Bool-cases (ltb n 10)) [
  | inl e ↦ rw e (parse_digits-cons 0 n n rest (ltb→lt n 10 e) (omega arith) b)
  | inr e ↦ rw e (
      parse_digits-write_digits fuel (n / 10) ((b'0' + n % 10) ∷ rest)
        ((div-lt_iff_lt-mul (omega arith)).1 (subst (λ x. n < x) (pow-suc 10 (suc fuel)) h))
        (omega arith)
      ∙ parse_digits-cons (n / 10) (n % 10) n rest (omega arith) (omega arith) b)
]

-- Every byte of the text is a digit.
All-write_digits :
    (fuel n : ℕ) (rest : Bytes)
    → All (λ c. is_digit c ≡ true) rest
    → n < 10 ^ suc fuel
    → All (λ c. is_digit c ≡ true) (write_digits (suc fuel) n rest)
unfolding write_digits
All-write_digits zero n rest h b = rw (lt→ltb n 10 b) (is_digit-char n b, h)
All-write_digits (suc fuel) n rest h b = elim (Bool-cases (ltb n 10)) [
  | inl e ↦ rw e (is_digit-char n (ltb→lt n 10 e), h)
  | inr e ↦ rw e (
      All-write_digits fuel (n / 10) ((b'0' + n % 10) ∷ rest)
        (is_digit-char (n % 10) (omega arith), h)
        ((div-lt_iff_lt-mul (omega arith)).1 (subst (λ x. n < x) (pow-suc 10 (suc fuel)) b)))
]

pub parse_digits-to_string : (n : ℕ) → n ≤ u64_max → parse_digits 0 (to_string n) ≡ some n
unfolding to_string parse_digits
parse_digits-to_string n h = parse_digits-write_digits 19 n [] (omega (arith, h)) h

pub All-to_string : (n : ℕ) → n ≤ u64_max → All (λ c. is_digit c ≡ true) (to_string n)
unfolding to_string
All-to_string n h = All-write_digits 19 n [] tt (omega (arith, h))

write_digits_ne_nil : (fuel n d : ℕ) (rest : Bytes) → write_digits fuel n (d ∷ rest) ≢ []
unfolding write_digits
write_digits_ne_nil zero n d rest = λ h. cc
write_digits_ne_nil (suc fuel) n d rest = elim (Bool-cases (ltb n 10)) [
  | inl e ↦ rw e (λ h. cc)
  | inr e ↦ rw e (write_digits_ne_nil fuel (n / 10) (b'0' + n % 10) (d ∷ rest))
]

to_string_ne_nil : (n : ℕ) → to_string n ≢ []
unfolding to_string write_digits
to_string_ne_nil n = elim (Bool-cases (ltb n 10)) [
  | inl e ↦ rw e (λ h. cc)
  | inr e ↦ rw e (write_digits_ne_nil 19 (n / 10) (b'0' + n % 10) [])
]

-- On digits alone the sign is not looked at.
parse_u64-digits :
    (s : Bytes) → s ≢ [] → All (λ c. is_digit c ≡ true) s → parse_u64 s ≡ parse_digits 0 s
unfolding parse_u64 is_digit
parse_u64-digits [] h _ = absurd (h refl)
parse_u64-digits (c ∷ s) _ (hc, _) = ground (arith, hc)

-- What is written reads back.
pub parse_u64-to_string : (n : ℕ) → n ≤ u64_max → parse_u64 (to_string n) ≡ some n
parse_u64-to_string n h =
    parse_u64-digits (to_string n) (to_string_ne_nil n) (All-to_string n h)
    ∙ parse_digits-to_string n h

pub to_string_injective : (m n : ℕ) → m ≤ u64_max → n ≤ u64_max → to_string m ≡ to_string n → m ≡ n
to_string_injective m n hm hn h =
    let same =
      sym (parse_digits-to_string m hm) ∙ ap (parse_digits 0) h ∙ parse_digits-to_string n hn in
    cc

pub Lacks-to_string : (c n : ℕ) → is_digit c ≡ false → n ≤ u64_max → Lacks c (to_string n)
Lacks-to_string c n e h =
    All-map (λ d hd same. absurd (true≢false (sym hd ∙ ap is_digit same ∙ e))) (to_string n)
      (All-to_string n h)

pub is_empty-to_string : (n : ℕ) → is_empty (to_string n) ≡ false
is_empty-to_string n = go (to_string n) (to_string_ne_nil n)
  where
    go : (s : Bytes) → s ≢ [] → is_empty s ≡ false
    go [] h = absurd (h refl)
    go (c ∷ s) _ = refl
