-- ===== src/Desktop/Amounts.antt =====
-- The amounts that the payout table of p2pearl/gui.py shows.
use mathlib.Core.List.{append_assoc}
use native.Mathlib.Nat.{mod-lt, div-add-mod', pow-succ', div-lt_iff_lt-mul}
use p2pearl.Prelude.{
  inl, inr, ℕ, zero, suc, ◌+◌, ◌-◌, ◌*◌, ◌/◌, ◌%◌, ◌^◌, ◌<◌, Bool, true, false, ◌==◌, ltb, none,
  some, [], ◌∷◌, ◌++◌, ◌≡◌, ◌≢◌, refl, arith, All, All-map, Bool-cases, if-elim, ap, sym, ◌∙◌,
}
use p2pearl.Prelude.Keys.{Str}
use p2pearl.Prelude.Text.{codes, or_str, rstrip, before, decimal, digits_from, partition}
use p2pearl.Config.{grain_per_pearl}
use p2pearl.Desktop.Floats.{places_8-divide}
use p2pearl.Desktop.Payouts.{decimal_width, fixed_8, format_prl_amount}

-- What a reader takes a text for: the number that digits spell, and the grains of the decimals, of
-- which there is room for so many.
pub spelled : ℕ → Str → ℕ
spelled n [] = n
spelled n (c ∷ cs) = spelled (n * 10 + (c - 48)) cs

pub decimals : ℕ → Str → ℕ
decimals w [] = 0
decimals zero (c ∷ cs) = 0
decimals (suc w) (c ∷ cs) = (c - 48) * 10 ^ w + decimals w cs

pub read_amount : Str → ℕ
read_amount s = elim (partition 46 s) [
  | none ↦ spelled 0 s * grain_per_pearl
  | some (whole, fraction) ↦ spelled 0 whole * grain_per_pearl + decimals 8 fraction
]

abbrev IsDigit : ℕ → Type 0
IsDigit c = (47 < c) × (c < 58)

decimal_width-IsDigit : (w n : ℕ) → All IsDigit (decimal_width w n)
unfolding decimal_width
decimal_width-IsDigit zero n = tt
decimal_width-IsDigit (suc w) n = (omega arith, decimal_width-IsDigit w (n % 10 ^ w))

ten_pow_pos : (w : ℕ) → 0 < 10 ^ w
ten_pow_pos zero = omega arith
ten_pow_pos (suc w) = omega (arith, pow-succ' 10 w, ten_pow_pos w)

decimals-decimal_width : (w n : ℕ) → n < 10 ^ w → decimals w (decimal_width w n) ≡ n
unfolding decimals decimal_width
decimals-decimal_width zero n h = omega arith
decimals-decimal_width (suc w) n h =
    let positive : 0 < 10 ^ w = ten_pow_pos w in
    let top : n / 10 ^ w < 10 = (div-lt_iff_lt-mul positive).1 (omega (arith, pow-succ' 10 w)) in
    let same : 48 + n / 10 ^ w % 10 - 48 ≡ n / 10 ^ w = omega arith in
    rw (same, decimals-decimal_width w (n % 10 ^ w) (mod-lt n positive)) (div-add-mod' n (10 ^ w))

digits_from-IsDigit : (r n : ℕ) (out : Str) → All IsDigit out → All IsDigit (digits_from r n out)
unfolding digits_from
digits_from-IsDigit zero n out h = h
digits_from-IsDigit (suc r) n out h =
    ground (arith, digits_from-IsDigit r (n / 10) ((48 + n % 10) ∷ out))

-- The digits are written in front of what is there.
spelled-digits_from :
    (r n : ℕ) (out : Str) → n < r → spelled 0 (digits_from r n out) ≡ spelled n out
unfolding digits_from spelled
spelled-digits_from zero n out h = absurd (omega arith)
spelled-digits_from (suc r) n out h =
    let rest = spelled-digits_from r (n / 10) ((48 + n % 10) ∷ out) in
    let joined : n / 10 * 10 + (48 + n % 10 - 48) ≡ n = omega arith in
    elim (Bool-cases (ltb n 10)) [
      | inl e ↦
          rw (digits_from, e)
            (ap (λ (k : ℕ). spelled k out)
              (let last : 0 * 10 + (48 + n % 10 - 48) ≡ n = ground arith in last))
      | inr e ↦ rw (digits_from, e) (rest (ground arith) ∙ ap (λ (k : ℕ). spelled k out) joined)
    ]

spelled-decimal : (n : ℕ) → spelled 0 (decimal n) ≡ n
unfolding decimal spelled
spelled-decimal n = spelled-digits_from (suc n) n [] (omega arith)

decimal-IsDigit : (n : ℕ) → All IsDigit (decimal n)
unfolding decimal
decimal-IsDigit n = digits_from-IsDigit (suc n) n [] tt

-- A character that stays, and one before others.
before_stays : (p : ℕ → Bool) (c : ℕ) (t : Str) → p c ≡ false → before p c t ≡ c ∷ t
before_stays p c [] h = rw h refl
before_stays p c (d ∷ ds) h = refl

before-append :
    (p : ℕ → Bool) (x c : ℕ) (xs t : Str) → before p x (xs ++ (c ∷ t)) ≡ x ∷ (xs ++ (c ∷ t))
before-append p x c [] t = refl
before-append p x c (y ∷ ys) t = refl

-- Stripping what ends a text, behind a part that stays.
rstrip-append :
    (p : ℕ → Bool) (xs : Str) (c : ℕ) (ys : Str)
    → p c ≡ false
    → rstrip p (xs ++ (c ∷ ys)) ≡ xs ++ (c ∷ rstrip p ys)
unfolding rstrip
rstrip-append p [] c ys h = before_stays p c (rstrip p ys) h
rstrip-append p (x ∷ xs) c ys h =
    ap (before p x) (rstrip-append p xs c ys h) ∙ before-append p x c xs (rstrip p ys)

rstrip_keeps : (p : ℕ → Bool) (xs : Str) → All (λ c. p c ≡ false) xs → rstrip p xs ≡ xs
unfolding rstrip
rstrip_keeps p [] h = refl
rstrip_keeps p (x ∷ xs) h = ap (before p x) (rstrip_keeps p xs h.1) ∙ before_stays p x xs h.0

abbrev is_zero : ℕ → Bool
is_zero c = c == 48

abbrev is_dot : ℕ → Bool
is_dot c = c == 46

decimals-zero : (s : Str) → decimals 0 s ≡ 0
unfolding decimals
decimals-zero [] = refl
decimals-zero (c ∷ cs) = refl

decimals-before :
    (w c : ℕ) (t : Str) → decimals (suc w) (before is_zero c t) ≡ (c - 48) * 10 ^ w + decimals w t
unfolding decimals
decimals-before w c [] = elim (Bool-cases (is_zero c)) [
  | inl e ↦ let zero : c ≡ 48 = ground arith in rw (zero) (omega arith)
  | inr e ↦ rw e refl
]
decimals-before w c (d ∷ ds) = refl

-- The zeros at the end of the decimals say nothing.
decimals-rstrip : (w : ℕ) (s : Str) → decimals w (rstrip is_zero s) ≡ decimals w s
unfolding decimals rstrip
decimals-rstrip w [] = refl
decimals-rstrip zero (c ∷ cs) = decimals-zero (rstrip is_zero (c ∷ cs))
decimals-rstrip (suc w) (c ∷ cs) =
    decimals-before w c (rstrip is_zero cs)
    ∙ ap (λ (k : ℕ). (c - 48) * 10 ^ w + k) (decimals-rstrip w cs)

before-All :
    (P : ℕ → Type 0) (p : ℕ → Bool) (c : ℕ) (t : Str) → P c → All P t → All P (before p c t)
before-All P p c [] h k = if-elim (All P) (p c) [] (c ∷ []) (λ _. tt) (λ _. (h, tt))
before-All P p c (d ∷ ds) h k = (h, k)

rstrip-All : (P : ℕ → Type 0) (p : ℕ → Bool) (s : Str) → All P s → All P (rstrip p s)
unfolding rstrip
rstrip-All P p [] h = tt
rstrip-All P p (c ∷ cs) h = before-All P p c (rstrip p cs) h.0 (rstrip-All P p cs h.1)

digit_no_dot : (c : ℕ) → IsDigit c → is_dot c ≡ false
digit_no_dot c h = ground arith

partition-whole : (xs : Str) → All IsDigit xs → partition 46 xs ≡ none
unfolding partition
partition-whole [] h = refl
partition-whole (x ∷ xs) h = rw (partition-whole xs h.1, digit_no_dot x h.0) refl

partition-append : (xs ys : Str) → All IsDigit xs → partition 46 (xs ++ (46 ∷ ys)) ≡ some (xs, ys)
unfolding partition
partition-append [] ys h = refl
partition-append (x ∷ xs) ys h = rw (partition-append xs ys h.1, digit_no_dot x h.0) refl

-- The two parts of an amount: the fraction goes with its point where nothing of it is left.
abbrev joined : Str → Str → Str
joined whole [] = whole
joined whole (c ∷ cs) = whole ++ (46 ∷ c ∷ cs)

-- One character that goes, behind others that stay.
rstrip_last :
    (p : ℕ → Bool) (xs : Str) (c : ℕ)
    → p c ≡ true
    → All (λ x. p x ≡ false) xs
    → rstrip p (xs ++ (c ∷ [])) ≡ xs
unfolding rstrip
rstrip_last p [] c goes h = rw goes refl
rstrip_last p (x ∷ xs) c goes h =
    ap (before p x) (rstrip_last p xs c goes h.1) ∙ before_stays p x xs h.0

no_dots : (s : Str) → All IsDigit s → All (λ c. is_dot c ≡ false) s
no_dots s h = All-map IsDigit (λ c. is_dot c ≡ false) s digit_no_dot h

trim_dot :
    (whole fraction : Str)
    → All IsDigit whole
    → All IsDigit fraction
    → rstrip is_dot (whole ++ (46 ∷ fraction)) ≡ joined whole fraction
trim_dot whole [] h k = rstrip_last is_dot whole 46 refl (no_dots whole h)
trim_dot whole (c ∷ cs) h k =
    ap (rstrip is_dot) (sym (append_assoc whole (46 ∷ []) (c ∷ cs)))
    ∙ (rstrip-append is_dot (whole ++ (46 ∷ [])) c cs (digit_no_dot c k.0)
        ∙ (ap (λ (t : Str). (whole ++ (46 ∷ [])) ++ (c ∷ t))
              (rstrip_keeps is_dot cs (no_dots cs k.1))
            ∙ append_assoc whole (46 ∷ []) (c ∷ cs)))

read_amount-joined :
    (whole fraction : Str)
    → All IsDigit whole
    → read_amount (joined whole fraction) ≡ spelled 0 whole * grain_per_pearl + decimals 8 fraction
unfolding read_amount decimals
read_amount-joined whole [] h = rw (read_amount, partition-whole whole h) (omega arith)
read_amount-joined whole (c ∷ cs) h = rw (read_amount, partition-append whole (c ∷ cs) h) refl

digits_from-ne-nil : (r n : ℕ) (out : Str) → n < r → digits_from r n out ≢ []
unfolding digits_from
digits_from-ne-nil zero n out h = absurd (omega arith)
digits_from-ne-nil (suc r) n out h =
    ground (arith, digits_from-ne-nil r (n / 10) ((48 + n % 10) ∷ out))

or_str-joined :
    (whole fraction d : Str) → whole ≢ [] → or_str (joined whole fraction) d ≡ joined whole fraction
or_str-joined [] fraction d h = absurd (h refl)
or_str-joined (x ∷ xs) [] d h = refl
or_str-joined (x ∷ xs) (c ∷ cs) d h = refl

decimal-ne-nil : (n : ℕ) → decimal n ≢ []
unfolding decimal
decimal-ne-nil n = digits_from-ne-nil (suc n) n [] (omega arith)

format_prl_amount-joined :
    (grains : ℕ)
    → grains < 2 ^ 26 * grain_per_pearl
    → let whole = decimal (grains / grain_per_pearl) in
      let fraction = rstrip is_zero (decimal_width 8 (grains % grain_per_pearl)) in
      format_prl_amount grains ≡ joined whole fraction
unfolding format_prl_amount
format_prl_amount-joined grains below =
    let whole : Str = decimal (grains / grain_per_pearl) in
    let places : Str = decimal_width 8 (grains % grain_per_pearl) in
    let digits = decimal-IsDigit (grains / grain_per_pearl) in
    let trimmed =
      rstrip-All IsDigit is_zero places (decimal_width-IsDigit 8 (grains % grain_per_pearl)) in
    ap (λ (n : ℕ). or_str (rstrip is_dot (rstrip is_zero (fixed_8 n))) (codes "0"))
      (places_8-divide grains below)
    ∙ (ap (λ (t : Str). or_str (rstrip is_dot t) (codes "0"))
          (rstrip-append is_zero whole 46 places refl)
        ∙ (ap (λ (t : Str). or_str t (codes "0"))
              (trim_dot whole (rstrip is_zero places) digits trimmed)
            ∙ or_str-joined whole (rstrip is_zero places) (codes "0")
                (decimal-ne-nil (grains / grain_per_pearl))))

-- Although it is computed with a float, every amount below 2 ^ 26 PRL is shown exactly: read back as a
-- decimal number of PRL with at most eight places, it gives the grains that were printed.
pub read_amount-format_prl_amount :
    (grains : ℕ)
    → grains < 2 ^ 26 * grain_per_pearl
    → read_amount (format_prl_amount grains) ≡ grains
read_amount-format_prl_amount grains below =
    let rest = grains % grain_per_pearl in
    let small : rest < 10 ^ 8 = omega arith in
    let decimals_back =
      decimals-rstrip 8 (decimal_width 8 rest) ∙ decimals-decimal_width 8 rest small in
    rw
      (
        format_prl_amount-joined grains below,
        read_amount-joined (decimal (grains / grain_per_pearl))
            (rstrip is_zero (decimal_width 8 rest)) (decimal-IsDigit (grains / grain_per_pearl)),
        spelled-decimal (grains / grain_per_pearl),
        decimals_back,
      )
      (omega arith)
