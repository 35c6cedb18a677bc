-- ===== src/Binding/Additive.antt =====
-- What the patch tool of tools/apply_m2_binding.py does to the files of a checkout.
use mathlib.Core.List.{append_assoc}
use p2pearl.Prelude.{
  inl, inr, ℕ, Bool, true, false, none, some, [], ◌∷◌, ◌++◌, ◌≡◌, refl, sym, ◌∙◌, subst, arith,
  Bool-cases, Option-cases,
}
use p2pearl.Prelude.Keys.{Str}
use p2pearl.Prelude.Text.{codes, has_infix, has_char}
use p2pearl.Binding.{
  Checkout, files, Patch, already, write, read_text, store_file, new_fn, new_pyf, marker, fn_anchor,
  pyf_anchor, registration, new_registration, insert_before, insert_behind, patch_verify, patch_lib,
  main,
}
use p2pearl.Binding.Insertion.{
  Adds, Adds-refl, Adds-behind, Adds-before, Adds-trans, keep, insert_before_parts,
  insert_behind_parts, has_infix_left, has_infix_right, has_infix_behind,
}
use p2pearl.Binding.LineEnds.{
  Clean, read_text-Clean, read_text-write_text, insert_before-Clean, insert_behind-Clean,
  new_fn-Clean, new_pyf-Clean, new_registration-Clean,
}

marker_in_fn : has_infix marker new_fn ≡ true
unfolding has_infix new_fn
marker_in_fn = refl

marker_in_pyf : has_infix marker new_pyf ≡ true
unfolding has_infix new_pyf
marker_in_pyf = refl

marker_free : has_char 59 marker ≡ false
unfolding has_char
marker_free = refl

-- A patched file: it adds to the old one, and has the marker.
pub record IsPatched (old new : Str) : Type 0 where
  pub additive : Adds old new
  pub marked : has_infix marker new ≡ true

inserted-IsPatched :
    (anchor new s : Str) {t : Str}
    → has_infix marker new ≡ true
    → insert_before anchor new s ≡ some t
    → IsPatched s t
inserted-IsPatched anchor new s {t} has h =
    let (b, r, whole, made) = insert_before_parts anchor new s h in
    let adds : Adds (b ++ r) (b ++ (new ++ r)) = Adds-before b (Adds-behind new (Adds-refl r)) in
    let marked = has_infix_right marker b (new ++ r) (has_infix_left marker new r has) in
    record { additive = rw (whole, made) adds; marked = rw made marked }

-- What a step makes of the text that it read: it keeps it, where it has the marker, or writes a
-- patched one without a carriage return.
pub data IsStep (old : Str) : Patch → Type 0 where
  keeps : has_infix marker old ≡ true → IsStep old already
  writes : {t : Str} → IsPatched old t → Clean t → IsStep old (write t)

patch_verify-IsStep : (s : Str) (p : Patch) → Clean s → patch_verify s ≡ some p → IsStep s p
unfolding patch_verify
patch_verify-IsStep s p clean h = elim (Bool-cases (has_infix marker s)) [
  | inl old ↦ subst (IsStep s) (ground arith) (keeps old)
  | inr fresh ↦ elim (Option-cases (insert_before fn_anchor new_fn s)) [
    | inl missing ↦ absurd (ground arith)
    | inr (t, e) ↦
        let made = inserted-IsPatched fn_anchor new_fn s marker_in_fn e in
        let free = insert_before-Clean fn_anchor new_fn s t new_fn-Clean clean e in
        let same : write t ≡ p = ground arith in subst (IsStep s) same (writes made free)
  ]
]

-- The registration without its semicolon.
abbrev registration_head : Str
registration_head = codes "m.add_function(wrap_pyfunction!(verify_plain_proof, m)?)?"

registered-IsPatched :
    (s : Str) {t : Str}
    → has_infix marker s ≡ true
    → insert_behind registration new_registration s ≡ some t
    → IsPatched s t
registered-IsPatched s {t} has h =
    let (b, q, whole, made) = insert_behind_parts registration new_registration s h in
    let head : Str = b ++ registration_head in
    let old : s ≡ head ++ (59 ∷ q) = whole ∙ sym (append_assoc b registration_head (59 ∷ q)) in
    let new : t ≡ head ++ (59 ∷ (new_registration ++ q)) =
      made ∙ sym (append_assoc b registration_head (59 ∷ (new_registration ++ q))) in
    let adds : Adds (head ++ (59 ∷ q)) (head ++ (59 ∷ (new_registration ++ q))) =
      Adds-before head (keep (Adds-behind new_registration (Adds-refl q))) in
    let marked =
      has_infix_behind marker head new_registration q marker_free
        (subst (λ (x : Str). has_infix marker x ≡ true) old has) in
    record { additive = rw (old, new) adds; marked = rw new marked }

patch_lib-IsStep : (s : Str) (p : Patch) → Clean s → patch_lib s ≡ some p → IsStep s p
unfolding patch_lib
patch_lib-IsStep s p clean h = elim (Bool-cases (has_infix marker s)) [
  | inl old ↦ subst (IsStep s) (ground arith) (keeps old)
  | inr fresh ↦ elim (Option-cases (insert_before pyf_anchor new_pyf s)) [
    | inl missing ↦ absurd (ground arith)
    | inr (added, e) ↦ elim (Option-cases (insert_behind registration new_registration added)) [
      | inl missing ↦ absurd (ground arith)
      | inr (t, f) ↦
          let first = inserted-IsPatched pyf_anchor new_pyf s marker_in_pyf e in
          let second : IsPatched added t = registered-IsPatched added first.marked f in
          let half = insert_before-Clean pyf_anchor new_pyf s added new_pyf-Clean clean e in
          let free =
            insert_behind-Clean registration new_registration added t new_registration-Clean half
              f in
          let both : IsPatched s t = record {
            additive = Adds-trans first.additive second.additive;
            marked = second.marked;
          } in
          let same : write t ≡ p = ground arith in subst (IsStep s) same (writes both free)
    ]
  ]
]

-- What a step leaves of a file, read again: it adds to what was read, and has the marker.
stored-IsPatched :
    (crlf : Bool) (file : Str) (p : Patch)
    → IsStep (read_text file) p
    → IsPatched (read_text file) (read_text (store_file crlf file p))
stored-IsPatched crlf file p (keeps old) = record {
  additive = Adds-refl (read_text file);
  marked = old;
}
stored-IsPatched crlf file p (writes {t} made free) =
    subst (IsPatched (read_text file)) (sym (read_text-write_text crlf t free)) made

-- What a run with exit code 0 leaves, by the texts that are read from the files.
pub record IsDone (crlf : Bool) (root verify lib : Str) (r : Checkout × ℕ) : Type 0 where
  pub verify_rs : Str
  pub lib_rs : Str
  pub result : r ≡ (files verify_rs lib_rs, 0)
  pub verify_adds : Adds (read_text verify) (read_text verify_rs)
  pub lib_adds : Adds (read_text lib) (read_text lib_rs)
  pub again : main crlf (root ∷ []) (files verify_rs lib_rs) ≡ (files verify_rs lib_rs, 0)

marked_again :
    (crlf : Bool) (root v l : Str)
    → has_infix marker (read_text v) ≡ true
    → has_infix marker (read_text l) ≡ true
    → main crlf (root ∷ []) (files v l) ≡ (files v l, 0)
unfolding main patch_verify patch_lib
marked_again crlf root v l hv hl = ground arith

upstream_again :
    (crlf : Bool) (root v l : Str)
    → has_infix (codes "nbits_override") (read_text l) ≡ true
    → main crlf (root ∷ []) (files v l) ≡ (files v l, 0)
unfolding main
upstream_again crlf root v l h = ground arith

patched_result :
    (crlf : Bool) (root v l : Str) (p q : Patch)
    → has_infix (codes "nbits_override") (read_text l) ≡ false
    → patch_verify (read_text v) ≡ some p
    → patch_lib (read_text l) ≡ some q
    → main crlf (root ∷ []) (files v l) ≡ (files (store_file crlf v p) (store_file crlf l q), 0)
unfolding main
patched_result crlf root v l p q h hv hl = ground arith

verify_failed :
    (crlf : Bool) (root v l : Str)
    → has_infix (codes "nbits_override") (read_text l) ≡ false
    → patch_verify (read_text v) ≡ none
    → (main crlf (root ∷ []) (files v l)).1 ≡ 2
unfolding main
verify_failed crlf root v l h hv = ground arith

lib_failed :
    (crlf : Bool) (root v l : Str) (p : Patch)
    → has_infix (codes "nbits_override") (read_text l) ≡ false
    → patch_verify (read_text v) ≡ some p
    → patch_lib (read_text l) ≡ none
    → (main crlf (root ∷ []) (files v l)).1 ≡ 2
unfolding main
lib_failed crlf root v l p h hv hl = ground arith

-- A run that ends with code 0 only adds to the text of the two files of a checkout, up to the form of
-- the line ends, which reading drops and writing chooses as the system does; and running the tool on
-- what it left changes nothing and ends with code 0 again.
pub main-IsDone :
    (crlf : Bool) (root verify lib : Str)
    → (main crlf (root ∷ []) (files verify lib)).1 ≡ 0
    → IsDone crlf root verify lib (main crlf (root ∷ []) (files verify lib))
main-IsDone crlf root v l zero_code =
    elim (Bool-cases (has_infix (codes "nbits_override") (read_text l))) [
      | inl upstream ↦ record {
        verify_rs = v;
        lib_rs = l;
        result = upstream_again crlf root v l upstream;
        verify_adds = Adds-refl (read_text v);
        lib_adds = Adds-refl (read_text l);
        again = upstream_again crlf root v l upstream;
      }
      | inr needed ↦ elim (Option-cases (patch_verify (read_text v))) [
        | inl none_v ↦ absurd (omega (arith, verify_failed crlf root v l needed none_v))
        | inr (p, hv) ↦ elim (Option-cases (patch_lib (read_text l))) [
          | inl none_l ↦ absurd (omega (arith, lib_failed crlf root v l p needed hv none_l))
          | inr (q, hl) ↦
              let step_v = patch_verify-IsStep (read_text v) p (read_text-Clean v) hv in
              let step_l = patch_lib-IsStep (read_text l) q (read_text-Clean l) hl in
              let pv = stored-IsPatched crlf v p step_v in
              let pl = stored-IsPatched crlf l q step_l in
              record {
                verify_rs = store_file crlf v p;
                lib_rs = store_file crlf l q;
                result = patched_result crlf root v l p q needed hv hl;
                verify_adds = pv.additive;
                lib_adds = pl.additive;
                again =
                    marked_again crlf root (store_file crlf v p) (store_file crlf l q) pv.marked
                      pl.marked;
              }
        ]
      ]
    ]
