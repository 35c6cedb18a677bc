-- ===== src/Prelude/Text.antt =====
-- Python's `str` methods over character codes: `strip`, `splitlines`, `rpartition`, and `int`.
use Prim.Native.Char.{code}
use Prim.Native.String.{String}
use mathlib.Core.Path.{◌≡◌, refl}
use mathlib.Core.Option.{Option, none, some}
use mathlib.Core.List.{List, [], ◌∷◌}
use p2pearl.Prelude.{
  ℕ, zero, suc, ◌+◌, ◌-◌, ◌*◌, ◌/◌, ◌%◌, Bool, true, false, ◌&&◌, ◌||◌, not, ltb, leb, ◌==◌,
  if◌then◌else◌, ℤ, pos, negsuc,
}
use p2pearl.Prelude.Keys.{Str}

-- The codes of a literal. `String` has its own `[]` and `∷`.
abbrev pub codes : String → Str
codes String.[] = []
codes (String.◌∷◌ c s) = code c ∷ codes s

-- `str.isspace` of one character
abbrev is_space : ℕ → Bool
is_space c =
    (leb 9 c && leb c 13)
    || (leb 28 c && leb c 32)
    || (c == 133)
    || (c == 160)
    || (c == 5760)
    || (leb 8192 c && leb c 8202)
    || (c == 8232)
    || (c == 8233)
    || (c == 8239)
    || (c == 8287)
    || (c == 12288)

-- `s.rstrip()`, of the characters that a test holds of
abbrev pub before : (ℕ → Bool) → ℕ → Str → Str
before p c [] = if p c then [] else c ∷ []
before p c (d ∷ ds) = c ∷ d ∷ ds

unfoldable pub rstrip : (ℕ → Bool) → Str → Str
rstrip p [] = []
rstrip p (c ∷ cs) = before p c (rstrip p cs)

unfoldable pub lstrip : (ℕ → Bool) → Str → Str
lstrip p [] = []
lstrip p (c ∷ cs) = let rest = lstrip p cs in if p c then rest else c ∷ cs

unfoldable pub strip : Str → Str
unfolding lstrip rstrip
strip s = lstrip is_space (rstrip is_space s)

-- `s or t`
abbrev pub or_str : Str → Str → Str
or_str [] t = t
or_str (c ∷ cs) t = c ∷ cs

-- Where `splitlines` ends a line.
abbrev is_line_end : ℕ → Bool
is_line_end c =
    (leb 10 c && leb c 13) || (leb 28 c && leb c 30) || (c == 133) || (c == 8232) || (c == 8233)

abbrev starts_newline : Str → Bool
starts_newline [] = false
starts_newline (c ∷ cs) = c == 10

abbrev in_first : ℕ → List Str → List Str
in_first c [] = (c ∷ []) ∷ []
in_first c (l ∷ ls) = (c ∷ l) ∷ ls

-- A return and a newline are one line end: the newline begins the empty line that both end.
unfoldable pub splitlines : Str → List Str
splitlines [] = []
splitlines (c ∷ cs) =
    let rest = splitlines cs in
    if (c == 13) && starts_newline cs
    then rest
    else if is_line_end c
    then [] ∷ rest
    else in_first c rest

-- `s.rpartition(":")`: none where there is no separator, else what stands before and behind the last.
unfoldable pub rpartition : ℕ → Str → Option (Str × Str)
rpartition sep [] = none
rpartition sep (c ∷ cs) = elim (rpartition sep cs) [
  | some (before, after) ↦ some (c ∷ before, after)
  | none ↦ if c == sep then some ([], cs) else none
]

-- `s.partition(sep)`, none where there is no separator
unfoldable pub partition : ℕ → Str → Option (Str × Str)
partition sep [] = none
partition sep (c ∷ cs) =
    let rest : Option (Str × Str) = elim (partition sep cs) [
      | some (before, after) ↦ some (c ∷ before, after)
      | none ↦ none
    ] in
    if c == sep then some ([], cs) else rest

unfoldable pub has_prefix : Str → Str → Bool
has_prefix [] s = true
has_prefix (p ∷ ps) [] = false
has_prefix (p ∷ ps) (c ∷ cs) = (p == c) && has_prefix ps cs

unfoldable pub has_char : ℕ → Str → Bool
has_char c [] = false
has_char c (d ∷ ds) = (c == d) || has_char c ds

-- `sub in s`
unfoldable pub has_infix : Str → Str → Bool
unfolding has_prefix
has_infix sub [] = has_prefix sub []
has_infix sub (c ∷ cs) = has_prefix sub (c ∷ cs) || has_infix sub cs

-- The value of a digit in a base up to 36, in ASCII.
abbrev digit_value : ℕ → Option ℕ
digit_value c =
    if leb 48 c && leb c 57
    then some (c - 48)
    else if leb 97 c && leb c 122
    then some (c - 87)
    else if leb 65 c && leb c 90
    then some (c - 55)
    else none

-- The digits of a number after those read: one underscore may stand between two of them, and the
-- flag says that one may follow here.
unfoldable pub scan_digits : ℕ → Bool → ℕ → Str → Option ℕ
scan_digits base after acc [] = if after then some acc else none
scan_digits base after acc (c ∷ cs) = elim (c == 95) [
  | true ↦ elim after [ true ↦ scan_digits base false acc cs | false ↦ none ]
  | false ↦ elim (digit_value c) [
    | none ↦ none
    | some d ↦ elim (ltb d base) [ true ↦ scan_digits base true (acc * base + d) cs | false ↦ none ]
  ]
]

abbrev pub negate : ℕ → ℤ
negate zero = pos 0
negate (suc n) = negsuc n

abbrev signed_value : Bool → Option ℕ → Option ℤ
signed_value minus none = none
signed_value false (some n) = some (pos n)
signed_value true (some n) = some (negate n)

-- The sign of a number, and the rest.
abbrev sign_of : Str → Bool × Str
sign_of [] = (false, [])
sign_of (c ∷ cs) = if c == 45 then (true, cs) else if c == 43 then (false, cs) else (false, c ∷ cs)

-- `int(s)`, of ASCII digits; none where it raises ValueError
unfoldable pub int_of : Str → Option ℤ
unfolding scan_digits strip
int_of s =
    let (minus, digits) = sign_of (strip s) in signed_value minus (scan_digits 10 false 0 digits)

-- Digits behind a base's prefix, after which one underscore may stand.
abbrev prefixed : ℕ → Str → Option ℕ
prefixed base [] = none
prefixed base (c ∷ cs) = scan_digits base true 0 (c ∷ cs)

-- `int(s, 0)` without its sign: a prefix gives the base, and a decimal has no leading zero but in 0.
abbrev any_base : Str → Option ℕ
any_base [] = none
any_base (z ∷ []) = scan_digits 10 false 0 (z ∷ [])
any_base (z ∷ x ∷ cs) =
    if not (z == 48)
    then scan_digits 10 false 0 (z ∷ x ∷ cs)
    else if (x == 120) || (x == 88)
    then prefixed 16 cs
    else if (x == 111) || (x == 79)
    then prefixed 8 cs
    else if (x == 98) || (x == 66)
    then prefixed 2 cs
    else elim (scan_digits 10 false 0 (z ∷ x ∷ cs)) [
      | none ↦ none
      | some n ↦ if n == 0 then some 0 else none
    ]

unfoldable pub int_any_base : Str → Option ℤ
unfolding scan_digits strip
int_any_base s = let (minus, digits) = sign_of (strip s) in signed_value minus (any_base digits)

-- The decimal digits of a number before those in the list; a number has fewer digits than the rounds.
unfoldable pub digits_from : ℕ → ℕ → Str → Str
digits_from zero n out = out
digits_from (suc rounds) n out =
    let out' = (48 + n % 10) ∷ out in
    let rest = digits_from rounds (n / 10) out' in if ltb n 10 then out' else rest

-- `str(n)`
unfoldable pub decimal : ℕ → Str
unfolding digits_from
decimal n = digits_from (suc n) n []

decimal_test : decimal 44107 ≡ codes "44107"
unfolding decimal
decimal_test = refl

int_of_test : int_of (codes " -1_000 ") ≡ some (negsuc 999)
unfolding int_of
int_of_test = refl

int_any_base_test : int_any_base (codes "0xfF") ≡ some (pos 255)
unfolding int_any_base
int_any_base_test = refl

leading_zero : int_any_base (codes "010") ≡ none
unfolding int_any_base
leading_zero = refl

two_lines : splitlines (codes "a\r\n\nb") ≡ codes "a" ∷ [] ∷ codes "b" ∷ []
unfolding splitlines
two_lines = refl

stripped_text : strip (codes "  a b\t") ≡ codes "a b"
unfolding strip
stripped_text = refl
