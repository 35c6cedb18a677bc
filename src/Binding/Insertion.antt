-- ===== src/Binding/Insertion.antt =====
-- Insertions of the patch tool of tools/apply_m2_binding.py, and what stands in a text that grew.
use p2pearl.Prelude.{
  ◌⊎◌, inl, inr, ℕ, true, false, some, [], ◌∷◌, ◌++◌, drop, length, ◌≡◌, refl, ◌∙◌, ap, arith,
  Bool-cases, Option-cases,
}
use p2pearl.Prelude.Keys.{Str}
use p2pearl.Prelude.Text.{has_prefix, has_infix, has_char}
use p2pearl.Binding.{find, insert_before, insert_behind}

-- The second text is the first with characters added: nothing is removed or changed.
pub data Adds : Str → Str → Type 0 where
  done : Adds [] []
  keep : {c : ℕ} {s t : Str} → Adds s t → Adds (c ∷ s) (c ∷ t)
  add : {c : ℕ} {s t : Str} → Adds s t → Adds s (c ∷ t)

pub Adds-refl : (s : Str) → Adds s s
Adds-refl [] = done
Adds-refl (c ∷ cs) = keep (Adds-refl cs)

pub Adds-behind : (x : Str) {s t : Str} → Adds s t → Adds s (x ++ t)
Adds-behind [] a = a
Adds-behind (c ∷ cs) a = add (Adds-behind cs a)

pub Adds-before : (x : Str) {s t : Str} → Adds s t → Adds (x ++ s) (x ++ t)
Adds-before [] a = a
Adds-before (c ∷ cs) a = keep (Adds-before cs a)

pub Adds-trans : {s t u : Str} → Adds s t → Adds t u → Adds s u
Adds-trans a done = a
Adds-trans a (add b) = add (Adds-trans a b)
Adds-trans (keep a) (keep b) = keep (Adds-trans a b)
Adds-trans (add a) (keep b) = add (Adds-trans a b)

find-append :
    (sub s : Str) {b r : Str} → find sub s ≡ some (b, r) → (s ≡ b ++ r) × (has_prefix sub r ≡ true)
unfolding find
find-append sub [] h = ground arith
find-append sub (c ∷ cs) {b} {r} h = elim (Bool-cases (has_prefix sub (c ∷ cs))) [
  | inl here ↦ ground arith
  | inr later ↦ elim (Option-cases (find sub cs)) [
    | inl missing ↦ absurd (ground arith)
    | inr (found, e) ↦ ground (arith, find-append sub cs e)
  ]
]

has_prefix-drop : (p s : Str) → has_prefix p s ≡ true → s ≡ p ++ drop (length p) s
unfolding has_prefix
has_prefix-drop [] s h = refl
has_prefix-drop (c ∷ p) [] h = absurd (ground arith)
has_prefix-drop (c ∷ p) (d ∷ s) h = ground (arith, has_prefix-drop p s)

-- Where an insertion came to stand.
pub insert_before_parts :
    (anchor new s : Str) {t : Str}
    → insert_before anchor new s ≡ some t
    → (b : Str) × (r : Str) × (s ≡ b ++ r) × (t ≡ b ++ (new ++ r))
unfolding insert_before
insert_before_parts anchor new s h = elim (Option-cases (find anchor s)) [
  | inl missing ↦ absurd (ground arith)
  | inr ((b, r), e) ↦ (b, r, (find-append anchor s e).0, ground arith)
]

pub insert_behind_parts :
    (reg new s : Str) {t : Str}
    → insert_behind reg new s ≡ some t
    → (b : Str) × (q : Str) × (s ≡ b ++ (reg ++ q)) × (t ≡ b ++ (reg ++ (new ++ q)))
unfolding insert_behind
insert_behind_parts reg new s h = elim (Option-cases (find reg s)) [
  | inl missing ↦ absurd (ground arith)
  | inr ((b, r), e) ↦
      let (whole, starts) = find-append reg s e in
      (
        b,
        drop (length reg) r,
        whole ∙ ap (λ (x : Str). b ++ x) (has_prefix-drop reg r starts),
        ground arith,
      )
]

has_infix-nil : (s : Str) → has_infix [] s ≡ true
unfolding has_infix has_prefix
has_infix-nil [] = refl
has_infix-nil (c ∷ cs) = refl

has_prefix-append : (p s t : Str) → has_prefix p s ≡ true → has_prefix p (s ++ t) ≡ true
unfolding has_prefix
has_prefix-append [] s t h = refl
has_prefix-append (c ∷ p) [] t h = absurd (ground arith)
has_prefix-append (c ∷ p) (d ∷ s) t h = ground (arith, has_prefix-append p s t)

pub has_infix_right : (sub s t : Str) → has_infix sub t ≡ true → has_infix sub (s ++ t) ≡ true
unfolding has_infix
has_infix_right sub [] t h = h
has_infix_right sub (c ∷ cs) t h = ground (arith, has_infix_right sub cs t h)

pub has_infix_left : (sub s t : Str) → has_infix sub s ≡ true → has_infix sub (s ++ t) ≡ true
unfolding has_infix has_prefix
has_infix_left [] [] t h = has_infix-nil t
has_infix_left (x ∷ p) [] t h = absurd (ground arith)
has_infix_left sub (c ∷ cs) t h =
    ground (arith, has_prefix-append sub (c ∷ cs) t, has_infix_left sub cs t)

-- A text without a semicolon is found on one side of one.
has_prefix_split :
    (sub p q : Str)
    → has_char 59 sub ≡ false
    → has_prefix sub (p ++ (59 ∷ q)) ≡ true
    → has_prefix sub p ≡ true
unfolding has_prefix has_char
has_prefix_split [] p q free h = refl
has_prefix_split (c ∷ cs) [] q free h = absurd (ground arith)
has_prefix_split (c ∷ cs) (d ∷ ds) q free h = ground (arith, has_prefix_split cs ds q)

has_infix_split :
    (sub p q : Str)
    → has_char 59 sub ≡ false
    → has_infix sub (p ++ (59 ∷ q)) ≡ true
    → (has_infix sub p ≡ true) ⊎ (has_infix sub q ≡ true)
unfolding has_infix
has_infix_split sub [] q free h = ground (arith, has_prefix_split sub [] q free)
has_infix_split sub (d ∷ ds) q free h =
    ground (arith, has_prefix_split sub (d ∷ ds) q free, has_infix_split sub ds q free)

-- Text that is put behind a semicolon does not split such a text.
pub has_infix_behind :
    (sub p new q : Str)
    → has_char 59 sub ≡ false
    → has_infix sub (p ++ (59 ∷ q)) ≡ true
    → has_infix sub (p ++ (59 ∷ (new ++ q))) ≡ true
has_infix_behind sub p new q free h = elim (has_infix_split sub p q free h) [
  | inl before ↦ has_infix_left sub p (59 ∷ (new ++ q)) before
  | inr behind ↦ has_infix_right sub p (59 ∷ (new ++ q)) (has_infix_right sub (59 ∷ new) q behind)
]
