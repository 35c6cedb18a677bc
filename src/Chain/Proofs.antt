-- ===== src/Chain/Proofs.antt =====
-- The checks of a proof, of p2pearl/pow/verify.py. The bindings are the third-party pearl_mining,
-- and a parameter: which of its functions a build has, and what they answer.
use p2pearl.Prelude.{
  ℕ, Bool, true, Option, none, some, ◌≡◌, ◌⊎◌, inl, inr, refl, arith, Option-cases,
}
use p2pearl.Prelude.Result.{
  Result, ok, raise, attribute_error, type_error, not_implemented_error, ◌>>=◌, >>=-eq-ok,
}
use p2pearl.Prelude.Keys.{Bytes, Str}

-- A verdict of `verify_plain_proof`, or a TypeError where it does not know the keyword.
pub data Native : Type 0 where
  verdict : Bool → Native
  no_keyword : Native

Native-cases : (n : Native) → (n ≡ no_keyword) ⊎ ((b : Bool) × (n ≡ verdict b))
Native-cases no_keyword = inl refl
Native-cases (verdict b) = inr (b, refl)

-- The last argument of a check is the bits that replace those of the header, where any do.
pub record PearlMining : Type 1 where
  pub Proof : Type 0
  pub Header : Type 0
  pub proof_from_base64 : Str → Result Proof
  pub header_from_bytes : Bytes → Result Header
  pub verify_for_cert_version : Option (ℕ → Header → Proof → Option ℕ → Bool)
  pub verify_plain_proof : Option (Header → Proof → Option ℕ → Native)
  pub verify_with_nbits : Option (Header → Proof → ℕ → Bool)

module _ (m : PearlMining) where
  open m use {
    Proof, Header, proof_from_base64, header_from_bytes, verify_for_cert_version,
    verify_plain_proof, verify_with_nbits,
  }

  -- The patched binding of older builds; NotImplementedError where there is none.
  unfoldable pub patched : Header → Proof → ℕ → Result Bool
  patched h p nbits = elim verify_with_nbits [
    | none ↦ raise not_implemented_error
    | some check ↦ ok (check h p nbits)
  ]

  unfoldable pub unversioned : Header → Proof → ℕ → Result Bool
  unfolding patched
  unversioned h p nbits = elim verify_plain_proof [
    | none ↦ patched h p nbits
    | some check ↦ elim (check h p (some nbits)) [
      | verdict good ↦ ok good
      | no_keyword ↦ patched h p nbits
    ]
  ]

  unfoldable pub graded : Option ℕ → Header → Proof → ℕ → Result Bool
  unfolding unversioned
  graded none h p nbits = unversioned h p nbits
  graded (some version) h p nbits = elim verify_for_cert_version [
    | none ↦ unversioned h p nbits
    | some check ↦ ok (check version h p (some nbits))
  ]

  unfoldable pub verify_share : Bytes → Str → ℕ → Option ℕ → Result Bool
  unfolding graded
  verify_share header proof_b64 share_nbits cert_version = do
    p ← proof_from_base64 proof_b64
    h ← header_from_bytes header
    graded cert_version h p share_nbits

  -- `pm.verify_plain_proof(header, proof)`, where a build without the function raises
  abbrev plain : Header → Proof → Result Bool
  plain h p = elim verify_plain_proof [
    | none ↦ raise attribute_error
    | some check ↦ elim (check h p none) [ verdict good ↦ ok good | no_keyword ↦ raise type_error ]
  ]

  unfoldable pub graded_block : Option ℕ → Header → Proof → Result Bool
  graded_block none h p = plain h p
  graded_block (some version) h p = elim verify_for_cert_version [
    | none ↦ plain h p
    | some check ↦ ok (check version h p none)
  ]

  unfoldable pub verify_block_solution : Bytes → Str → Option ℕ → Result Bool
  unfolding graded_block
  verify_block_solution header proof_b64 cert_version = do
    p ← proof_from_base64 proof_b64
    h ← header_from_bytes header
    graded_block cert_version h p

  -- A check of the build accepts a proof for a header at some bits, or at the header's own.
  pub data Accepts (h : Header) (p : Proof) : Option ℕ → Type 0 where
    by_version :
        (check : ℕ → Header → Proof → Option ℕ → Bool) (version : ℕ) {bits : Option ℕ}
        → verify_for_cert_version ≡ some check
        → check version h p bits ≡ true
        → Accepts h p bits
    by_plain :
        (check : Header → Proof → Option ℕ → Native) {bits : Option ℕ}
        → verify_plain_proof ≡ some check
        → check h p bits ≡ verdict true
        → Accepts h p bits
    by_patch :
        (check : Header → Proof → ℕ → Bool) {nbits : ℕ} {bits : Option ℕ}
        → bits ≡ some nbits
        → verify_with_nbits ≡ some check
        → check h p nbits ≡ true
        → Accepts h p bits

  patched-Accepts :
      (h : Header) (p : Proof) (nbits : ℕ) → patched h p nbits ≡ ok true → Accepts h p (some nbits)
  unfolding patched
  patched-Accepts h p nbits e = elim (Option-cases verify_with_nbits) [
    | inl missing ↦ absurd (ground arith)
    | inr (check, there) ↦ by_patch check refl there (ground arith)
  ]

  unversioned-Accepts :
      (h : Header) (p : Proof) (nbits : ℕ)
      → unversioned h p nbits ≡ ok true
      → Accepts h p (some nbits)
  unfolding unversioned
  unversioned-Accepts h p nbits e = elim (Option-cases verify_plain_proof) [
    | inl missing ↦ patched-Accepts h p nbits (ground arith)
    | inr (check, there) ↦ elim (Native-cases (check h p (some nbits))) [
      | inl said ↦ patched-Accepts h p nbits (ground arith)
      | inr (good, said) ↦ by_plain check there (ground arith)
    ]
  ]

  graded-Accepts :
      (v : Option ℕ) (h : Header) (p : Proof) (nbits : ℕ)
      → graded v h p nbits ≡ ok true
      → Accepts h p (some nbits)
  unfolding graded
  graded-Accepts none h p nbits e = unversioned-Accepts h p nbits e
  graded-Accepts (some version) h p nbits e = elim (Option-cases verify_for_cert_version) [
    | inl missing ↦ unversioned-Accepts h p nbits (ground arith)
    | inr (check, there) ↦ by_version check version there (ground arith)
  ]

  plain-Accepts : (h : Header) (p : Proof) → plain h p ≡ ok true → Accepts h p none
  plain-Accepts h p e = elim (Option-cases verify_plain_proof) [
    | inl missing ↦ absurd (ground arith)
    | inr (check, there) ↦ by_plain check there (ground arith)
  ]

  graded_block-Accepts :
      (v : Option ℕ) (h : Header) (p : Proof) → graded_block v h p ≡ ok true → Accepts h p none
  unfolding graded_block
  graded_block-Accepts none h p e = plain-Accepts h p e
  graded_block-Accepts (some version) h p e = elim (Option-cases verify_for_cert_version) [
    | inl missing ↦ plain-Accepts h p (ground arith)
    | inr (check, there) ↦ by_version check version there (ground arith)
  ]

  -- The header and the proof that the bytes and the text stand for were accepted at some bits.
  abbrev pub Checked : Bytes → Str → Option ℕ → Type 0
  Checked header proof_b64 bits =
      (h : Header) × (p : Proof) × (header_from_bytes header ≡ ok h)
      × (proof_from_base64 proof_b64 ≡ ok p)
      × Accepts h p bits

  -- A share passes only where one of the build's checks accepted its proof for its header at the
  -- share's own bits, whichever bindings the build has and whatever the certificate's version.
  pub verify_share-Checked :
      (header : Bytes) (proof_b64 : Str) (nbits : ℕ) (v : Option ℕ)
      → verify_share header proof_b64 nbits v ≡ ok true
      → Checked header proof_b64 (some nbits)
  unfolding verify_share
  verify_share-Checked header proof_b64 nbits v e =
      let (p, ep, e1) = >>=-eq-ok (proof_from_base64 proof_b64) _ e in
      let (h, eh, e2) = >>=-eq-ok (header_from_bytes header) _ e1 in
      (h, p, eh, ep, graded-Accepts v h p nbits e2)

  -- A block passes only where a check accepted its proof at the bits of its header.
  pub verify_block_solution-Checked :
      (header : Bytes) (proof_b64 : Str) (v : Option ℕ)
      → verify_block_solution header proof_b64 v ≡ ok true
      → Checked header proof_b64 none
  unfolding verify_block_solution
  verify_block_solution-Checked header proof_b64 v e =
      let (p, ep, e1) = >>=-eq-ok (proof_from_base64 proof_b64) _ e in
      let (h, eh, e2) = >>=-eq-ok (header_from_bytes header) _ e1 in
      (h, p, eh, ep, graded_block-Accepts v h p e2)
