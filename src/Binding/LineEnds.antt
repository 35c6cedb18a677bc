-- ===== src/Binding/LineEnds.antt =====
-- Line ends in the files that tools/apply_m2_binding.py reads and writes.
use p2pearl.Prelude.{
  Bool, true, false, not, ◌==◌, some, [], ◌∷◌, ◌++◌, ◌≡◌, refl, sym, subst, arith, All, all,
  if-elim,
}
use p2pearl.Prelude.Keys.{Str}
use p2pearl.Binding.{
  read_text, write_text, begins_line, new_fn, new_pyf, new_registration, insert_before,
  insert_behind,
}
use p2pearl.Binding.Insertion.{insert_before_parts, insert_behind_parts}

-- A text without a carriage return.
abbrev pub Clean : Str → Type 0
Clean = All (λ c. (c == 13) ≡ false)

pub read_text-Clean : (s : Str) → Clean (read_text s)
unfolding read_text
read_text-Clean [] = tt
read_text-Clean (c ∷ cs) =
    let rest = read_text-Clean cs in
    if-elim Clean (c == 13) _ (c ∷ read_text cs)
      (λ _.
        if-elim Clean (begins_line cs) (read_text cs) (10 ∷ read_text cs) (λ _. rest)
          (λ _. (refl, rest)))
      (λ h. (h, rest))

-- What was written without a carriage return is read back.
pub read_text-write_text : (crlf : Bool) (s : Str) → Clean s → read_text (write_text crlf s) ≡ s
unfolding read_text write_text
read_text-write_text crlf [] h = refl
read_text-write_text crlf (c ∷ cs) h = ground (arith, read_text-write_text crlf cs)

Clean-append : (s t : Str) → Clean s → Clean t → Clean (s ++ t)
Clean-append [] t h k = k
Clean-append (c ∷ cs) t h k = (h.0, Clean-append cs t h.1 k)

Clean-left : (s t : Str) → Clean (s ++ t) → Clean s
Clean-left [] t h = tt
Clean-left (c ∷ cs) t h = (h.0, Clean-left cs t h.1)

Clean-right : (s t : Str) → Clean (s ++ t) → Clean t
Clean-right [] t h = h
Clean-right (c ∷ cs) t h = Clean-right cs t h.1

pub insert_before-Clean :
    (anchor new s t : Str) → Clean new → Clean s → insert_before anchor new s ≡ some t → Clean t
insert_before-Clean anchor new s t free clean h =
    let (b, r, whole, made) = insert_before_parts anchor new s h in
    let old : Clean (b ++ r) = subst Clean whole clean in
    subst Clean (sym made) (
      Clean-append b (new ++ r) (Clean-left b r old)
        (Clean-append new r free (Clean-right b r old)))

pub insert_behind-Clean :
    (reg new s t : Str) → Clean new → Clean s → insert_behind reg new s ≡ some t → Clean t
insert_behind-Clean reg new s t free clean h =
    let (b, q, whole, made) = insert_behind_parts reg new s h in
    let old : Clean (b ++ (reg ++ q)) = subst Clean whole clean in
    let behind : Clean (reg ++ q) = Clean-right b (reg ++ q) old in
    subst Clean (sym made) (
      Clean-append b (reg ++ (new ++ q)) (Clean-left b (reg ++ q) old) (
        Clean-append reg (new ++ q) (Clean-left reg q behind)
          (Clean-append new q free (Clean-right reg q behind))))

-- Whether a text has no carriage return.
abbrev is_clean : Str → Bool
is_clean = all (λ c. not (c == 13))

is_clean-Clean : (s : Str) → is_clean s ≡ true → Clean s
is_clean-Clean [] h = tt
is_clean-Clean (c ∷ cs) h = (ground arith, is_clean-Clean cs (ground arith))

pub new_fn-Clean : Clean new_fn
unfolding new_fn
new_fn-Clean = is_clean-Clean new_fn refl

pub new_pyf-Clean : Clean new_pyf
unfolding new_pyf
new_pyf-Clean = is_clean-Clean new_pyf refl

pub new_registration-Clean : Clean new_registration
new_registration-Clean = is_clean-Clean new_registration refl
