-- ===== src/Prelude/Hex.antt =====
-- `bytes.hex` and `bytes.fromhex`, over the character codes of a string.
use mathlib.Core.Path.{◌≡◌, refl}
use mathlib.Core.Option.{Option, none, some}
use mathlib.Core.List.{[], ◌∷◌, ◌++◌}
use p2pearl.Prelude.{
  ℕ, zero, suc, ◌+◌, ◌-◌, ◌*◌, ◌/◌, ◌%◌, ◌<◌, Bool, true, false, ◌&&◌, ◌||◌, ltb, leb, ◌==◌,
  if◌then◌else◌, All, arith,
}
use p2pearl.Prelude.Keys.{Bytes, Str}

abbrev digit : ℕ → ℕ
digit n = if ltb n 10 then 48 + n else 87 + n

unfoldable pub hex : Bytes → Str
hex [] = []
hex (b ∷ bs) = digit (b / 16) ∷ digit (b % 16) ∷ hex bs

abbrev from_digit : ℕ → Option ℕ
from_digit c =
    if leb 48 c && leb c 57
    then some (c - 48)
    else if leb 97 c && leb c 102
    then some (c - 87)
    else if leb 65 c && leb c 70
    then some (c - 55)
    else none

-- Blanks may stand between the bytes, and are skipped.
abbrev is_blank : ℕ → Bool
is_blank c = (c == 32) || (leb 9 c && leb c 13)

abbrev byte_of : Option ℕ → Option ℕ → Option ℕ
byte_of (some a) (some b) = some (16 * a + b)
byte_of (some a) none = none
byte_of none b = none

unfoldable pub from_hex : Str → Option Bytes
from_hex [] = some []
from_hex (c ∷ []) = if is_blank c then some [] else none
from_hex (c ∷ d ∷ cs) = elim (is_blank c) [
  | true ↦ from_hex (d ∷ cs)
  | false ↦ elim (byte_of (from_digit c) (from_digit d)) [
    | none ↦ none
    | some b ↦ elim (from_hex cs) [ none ↦ none | some bs ↦ some (b ∷ bs) ]
  ]
]

from_digit-digit : (n : ℕ) → n < 16 → from_digit (digit n) ≡ some n
from_digit-digit n h = ground arith

digit-is_blank : (n : ℕ) → n < 16 → is_blank (digit n) ≡ false
digit-is_blank n h = ground arith

from_hex_pair :
    (c d b : ℕ) (cs : Str) (bs : Bytes)
    → is_blank c ≡ false
    → byte_of (from_digit c) (from_digit d) ≡ some b
    → from_hex cs ≡ some bs
    → from_hex (c ∷ d ∷ cs) ≡ some (b ∷ bs)
unfolding from_hex
from_hex_pair c d b cs bs dark pair rest = rw (from_hex, dark, pair, rest) refl

pub from_hex-hex : (bs : Bytes) → All (λ b. b < 256) bs → from_hex (hex bs) ≡ some bs
unfolding hex from_hex
from_hex-hex [] h = refl
from_hex-hex (b ∷ bs) h =
    let hi : b / 16 < 16 = omega (arith, h.0) in
    let lo : b % 16 < 16 = omega arith in
    let whole : 16 * (b / 16) + b % 16 ≡ b = omega arith in
    from_hex_pair (digit (b / 16)) (digit (b % 16)) b (hex bs) bs (digit-is_blank (b / 16) hi)
      (rw (from_digit-digit (b / 16) hi, from_digit-digit (b % 16) lo, whole) refl)
      (from_hex-hex bs h.1)

-- `f"{n:0wx}"` of a number below `16 ^ w`
unfoldable pub hex_width : ℕ → ℕ → Str
hex_width zero n = []
hex_width (suc w) n = hex_width w (n / 16) ++ digit (n % 16) ∷ []
