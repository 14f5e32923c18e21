-- ===== src/Prelude/Text.antt =====
-- Text and byte strings are lists of byte values: a Rust `String` is its UTF-8 bytes.
use native.Mathlib.Omega.{arith}
use mathlib.Core.Path.{◌≡◌}
use Prim.Native.Nat.{◌≤◌, ◌<◌, ℕ, ◌+◌, ◌-◌, ◌/◌, ◌%◌, ◌^◌}
use Prim.Native.Char.{code}
use Prim.Native.String.{String}
use mathlib.Core.Bool.{Bool, false, ◌&&◌, ◌||◌}
use mathlib.Core.Option.{Option, none, some}
use mathlib.Core.List.{List, [], ◌∷◌}
use sci_capsule.Prelude.Tests.{◌==◌, nat_eq, ltb, leb, if◌then◌else◌}

abbrev pub Bytes : Type 0
Bytes = List ℕ

-- The bytes of an ASCII literal.
abbrev pub codes : String → Bytes
codes String.[] = []
codes (String.◌∷◌ c s) = code c ∷ codes s

abbrev pub u64_max : ℕ
u64_max = 2 ^ 64 - 1

abbrev pub u32_max : ℕ
u32_max = 2 ^ 32 - 1

-- `checked_add` on `u64` (and on the 64-bit `usize`)
unfoldable pub checked_add : ℕ → ℕ → Option ℕ
checked_add a b = if ltb u64_max (a + b) then none else some (a + b)

pub checked_add-eq-some : (a b c : ℕ) → checked_add a b ≡ some c → (c ≡ a + b) × (a + b ≤ u64_max)
unfolding checked_add
checked_add-eq-some a b c h = ground arith

pub checked_add-eq-none : (a b : ℕ) → checked_add a b ≡ none → u64_max < a + b
unfolding checked_add
checked_add-eq-none a b h = ground arith

pub checked_add_fits : (a b : ℕ) → a + b ≤ u64_max → checked_add a b ≡ some (a + b)
unfolding checked_add
checked_add_fits a b h = ground arith

-- `u8::is_ascii_digit` and the like
unfoldable pub is_digit : ℕ → Bool
is_digit c = leb b'0' c && leb c b'9'

unfoldable pub is_lower : ℕ → Bool
is_lower c = leb b'a' c && leb c b'z'

unfoldable pub is_upper : ℕ → Bool
is_upper c = leb b'A' c && leb c b'Z'

unfoldable pub is_alphabetic : ℕ → Bool
unfolding is_lower is_upper
is_alphabetic c = is_lower c || is_upper c

unfoldable pub is_alphanumeric : ℕ → Bool
unfolding is_digit is_alphabetic
is_alphanumeric c = is_digit c || is_alphabetic c

unfoldable pub is_lower_hex : ℕ → Bool
unfolding is_digit
is_lower_hex c = is_digit c || (leb b'a' c && leb c b'f')

unfoldable pub is_hexdigit : ℕ → Bool
unfolding is_lower_hex
is_hexdigit c = is_lower_hex c || (leb b'A' c && leb c b'F')

unfoldable pub to_lower : ℕ → ℕ
unfolding is_upper
to_lower c = if is_upper c then c + 32 else c

-- `str::strip_prefix`
unfoldable pub strip_prefix : Bytes → Bytes → Option Bytes
strip_prefix [] s = some s
strip_prefix (p ∷ ps) [] = none
strip_prefix (p ∷ ps) (c ∷ s) = if p == c then strip_prefix ps s else none

-- `str::starts_with` at one character
unfoldable pub starts_with : Bytes → ℕ → Bool
starts_with [] p = false
starts_with (c ∷ s) p = c == p

-- `str::split_once` at one character
unfoldable pub split_once : ℕ → Bytes → Option (Bytes × Bytes)
split_once sep [] = none
split_once sep (c ∷ s) =
    if c == sep
    then some ([], s)
    else elim (split_once sep s) [ none ↦ none | some (a, b) ↦ some (c ∷ a, b) ]

-- `str::split` at one character
unfoldable pub split : ℕ → Bytes → List Bytes
split sep [] = [] ∷ []
split sep (c ∷ s) =
    if c == sep
    then [] ∷ split sep s
    else elim (split sep s) [ [] ↦ (c ∷ []) ∷ [] | w ∷ ws ↦ (c ∷ w) ∷ ws ]

-- `{byte:02x}` for each byte
unfoldable pub hex_digit : ℕ → ℕ
hex_digit n = if ltb n 10 then b'0' + n else b'a' + (n - 10)

unfoldable pub to_hex : Bytes → Bytes
unfolding hex_digit
to_hex [] = []
to_hex (b ∷ bs) = hex_digit (b / 16) ∷ hex_digit (b % 16) ∷ to_hex bs
