-- ===== src/Binding/Tests.antt =====
-- Runs of the patch tool of tools/apply_m2_binding.py on a small checkout with two characters at the
-- end of a line, and its theorem there.
use p2pearl.Prelude.{◌++◌, false, [], ◌∷◌, ◌≡◌, refl}
use p2pearl.Prelude.Keys.{Str}
use p2pearl.Prelude.Text.{codes, has_infix}
use p2pearl.Binding.{
  files, main, read_text, find, insert_before, insert_behind, new_pyf, patch_verify, patch_lib,
  fn_anchor, registration,
}
use p2pearl.Binding.Additive.{IsDone, main-IsDone}

abbrev verify_rs : Str
verify_rs = codes "use std;\r\n" ++ fn_anchor

abbrev lib_rs : Str
lib_rs = codes "#[pyfunction]\r\nfn verify_plain_proof(...) {\r\n" ++ registration

succeeds : (main false (codes "pearl" ∷ []) (files verify_rs lib_rs)).1 ≡ 0
unfolding main read_text has_infix patch_verify patch_lib insert_before find insert_behind new_pyf
succeeds = refl

main-IsDone_example :
    IsDone false
      (codes "pearl")
      verify_rs
      lib_rs
      (main false (codes "pearl" ∷ []) (files verify_rs lib_rs))
main-IsDone_example = main-IsDone false (codes "pearl") verify_rs lib_rs succeeds

-- Another file is left as it is, and the code is 2.
no_anchor : (main false (codes "pearl" ∷ []) (files (codes "mod x;") lib_rs)).1 ≡ 2
unfolding main read_text has_infix patch_verify insert_before find
no_anchor = refl
