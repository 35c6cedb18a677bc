-- ===== src/Binding.antt =====
-- The patch tool of tools/apply_m2_binding.py, which adds a binding to a checkout of another project.
-- What it prints is left out, and the files are the characters that they decode to.
mod Insertion
mod LineEnds
mod Additive
mod Tests
use p2pearl.Prelude.{
  ℕ, Bool, true, false, ◌||◌, ◌&&◌, ◌==◌, if◌then◌else◌, Option, none, some, List, [], ◌∷◌, ◌++◌,
  drop, length,
}
use p2pearl.Prelude.Keys.{Str}
use p2pearl.Prelude.Text.{codes, has_prefix, has_infix}

-- Lines, each with its end.
unfoldable pub text_of : List Str → Str
text_of [] = []
text_of (l ∷ ls) = l ++ (10 ∷ text_of ls)

abbrev new_fn_lines : List Str
new_fn_lines =
    codes "/// Like `verify_plain_proof` but grades the recomputed jackpot at `nbits_override`"
    ∷ codes "/// (the easy SHARE target) instead of the header's block nbits. Share-grading only;"
    ∷ codes "/// never use for block acceptance. (P2Pearl M2 — additive wrapper.)"
    ∷ codes "pub fn verify_plain_proof_with_nbits("
    ∷ codes "    block_header: &IncompleteBlockHeader,"
    ∷ codes "    plain_proof: &PlainProof,"
    ∷ codes "    nbits_override: Option<u32>,"
    ∷ codes ") -> Result<()> {"
    ∷ codes
        "    let (private_params, mut public_params) = parse_plain_proof(*block_header, plain_proof)?;"
    ∷ codes "    public_params_sanity_check(&public_params)?;"
    ∷ codes "    for strip in private_params.s_a.iter().chain(private_params.s_b.iter()) {"
    ∷ codes "        for &val in strip {"
    ∷ codes
        "            ensure!((-64..=64).contains(&val), \"Matrix value {} out of range [-64, 64]\", val);"
    ∷ codes "        }"
    ∷ codes "    }"
    ∷ codes "    let compiled = CompiledPublicParams::from(&public_params);"
    ∷ codes "    let noise = compute_noise(&compiled);"
    ∷ codes
        "    let jackpot = compute_jackpot(&compiled, &private_params.s_a, &private_params.s_b, &noise);"
    ∷ codes
        "    public_params.hash_jackpot = compute_jackpot_hash(&jackpot, compiled.a_noise_seed());"
    ∷ codes "    check_jackpot_difficulty_with_nbits(&public_params, nbits_override)?;"
    ∷ codes "    Ok(())"
    ∷ codes "}"
    ∷ codes ""
    ∷ []

abbrev new_pyf_lines : List Str
new_pyf_lines =
    codes "#[pyfunction]"
    ∷ codes "fn verify_plain_proof_with_nbits("
    ∷ codes "    block_header: IncompleteBlockHeader,"
    ∷ codes "    plain_proof: PlainProof,"
    ∷ codes "    nbits: u32,"
    ∷ codes ") -> PyResult<(bool, String)> {"
    ∷ codes
        "    match verify::verify_plain_proof_with_nbits(&block_header, &plain_proof, Some(nbits)) {"
    ∷ codes "        Ok(()) => Ok((true, \"Mining solution verified successfully\".into())),"
    ∷ codes "        Err(e) => Ok((false, e.to_string())),"
    ∷ codes "    }"
    ∷ codes "}"
    ∷ codes ""
    ∷ []

-- `NEW_FN` and `NEW_PYF`
unfoldable pub new_fn : Str
unfolding text_of
new_fn = text_of new_fn_lines

unfoldable pub new_pyf : Str
unfolding text_of
new_pyf = text_of new_pyf_lines

-- `s.index(sub)`: what stands before the first occurrence, and the rest from it on.
unfoldable pub find : Str → Str → Option (Str × Str)
find sub [] = if has_prefix sub [] then some ([], []) else none
find sub (c ∷ cs) =
    let later : Option (Str × Str) = elim (find sub cs) [
      | none ↦ none
      | some (before, rest) ↦ some (c ∷ before, rest)
    ] in
    if has_prefix sub (c ∷ cs) then some ([], c ∷ cs) else later

abbrev pub marker : Str
marker = codes "fn verify_plain_proof_with_nbits"

-- `pub fn verify_plain_proof(`, `#[pyfunction]` on the line before `fn verify_plain_proof(`, and the
-- registration, up to its semicolon
abbrev pub fn_anchor : Str
fn_anchor = codes "pub fn verify_plain_proof("

abbrev pub pyf_anchor : Str
pyf_anchor = codes "#[pyfunction]" ++ (10 ∷ codes "fn verify_plain_proof(")

abbrev pub registration : Str
registration = codes "m.add_function(wrap_pyfunction!(verify_plain_proof, m)?)?;"

abbrev pub new_registration : Str
new_registration =
    10 ∷ codes "    m.add_function(wrap_pyfunction!(verify_plain_proof_with_nbits, m)?)?;"

-- Inserting before the first occurrence of an anchor, or none where there is none.
unfoldable pub insert_before : Str → Str → Str → Option Str
insert_before anchor new src = elim (find anchor src) [
  | none ↦ none
  | some (before, rest) ↦ some (before ++ (new ++ rest))
]

-- `src.replace(reg, reg + new, 1)`, where `reg` is there
unfoldable pub insert_behind : Str → Str → Str → Option Str
insert_behind reg new src = elim (find reg src) [
  | none ↦ none
  | some (before, rest) ↦ some (before ++ (reg ++ (new ++ drop (length reg) rest)))
]

-- The first step, on verify.rs, and the second, on lib.rs: what is written, or that nothing is. None
-- is an exit with code 2.
pub data Patch : Type 0 where
  already : Patch
  write : Str → Patch

abbrev written : Option Str → Option Patch
written none = none
written (some t) = some (write t)

unfoldable pub patch_verify : Str → Option Patch
patch_verify src =
    if has_infix marker src then some already else written (insert_before fn_anchor new_fn src)

unfoldable pub patch_lib : Str → Option Patch
patch_lib src =
    if has_infix marker src then some already else elim (insert_before pyf_anchor new_pyf src) [
      | none ↦ none
      | some added ↦ written (insert_behind registration new_registration added)
    ]

-- `read_text`: a carriage return, alone or before a line feed, is read as a line feed.
abbrev pub begins_line : Str → Bool
begins_line [] = false
begins_line (c ∷ cs) = c == 10

unfoldable pub read_text : Str → Str
read_text [] = []
read_text (c ∷ cs) =
    let rest = read_text cs in
    if c == 13 then (if begins_line cs then rest else 10 ∷ rest) else c ∷ rest

-- `write_text`: where the system ends lines by two characters, both are written for a line feed.
unfoldable pub write_text : Bool → Str → Str
write_text crlf [] = []
write_text crlf (c ∷ cs) =
    let rest = write_text crlf cs in if crlf && (c == 10) then 13 ∷ 10 ∷ rest else c ∷ rest

-- A file after a step.
abbrev pub store_file : Bool → Str → Patch → Str
store_file crlf file already = file
store_file crlf file (write t) = write_text crlf t

-- The two files of a checkout, where they exist.
pub record Checkout : Type 0 where
  pub verify_rs : Option Str
  pub lib_rs : Option Str

abbrev pub files : Str → Str → Checkout
files verify lib = record { verify_rs = some verify; lib_rs = some lib }

-- `main`, for one argument: the checkout as it leaves it, and the exit code. The first file is
-- written before the second is looked at.
unfoldable pub apply_binding : Bool → Str → Str → Checkout × ℕ
apply_binding crlf verify lib =
    if has_infix (codes "nbits_override") (read_text lib)
    then (files verify lib, 0)
    else elim (patch_verify (read_text verify)) [
      | none ↦ (files verify lib, 2)
      | some p ↦ elim (patch_lib (read_text lib)) [
        | none ↦ (files (store_file crlf verify p) lib, 2)
        | some q ↦ (files (store_file crlf verify p) (store_file crlf lib q), 0)
      ]
    ]

abbrev apply_to : Bool → Option Str → Option Str → Checkout × ℕ
apply_to crlf (some verify) (some lib) = apply_binding crlf verify lib
apply_to crlf verify lib = (record { verify_rs = verify; lib_rs = lib }, 2)

-- The arguments behind the program's name: exactly one is a checkout. The flag says how the system
-- ends lines.
unfoldable pub main : Bool → List Str → Checkout → Checkout × ℕ
unfolding apply_binding
main crlf (root ∷ []) c = apply_to crlf c.verify_rs c.lib_rs
main crlf _ c = (c, 2)
