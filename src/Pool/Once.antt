-- ===== src/Pool/Once.antt =====
-- Repeated submissions, and repeated shares that clear a block, in p2pearl/daemon.py.
use p2pearl.Prelude.{
  ◌≡◌, subst, true, ◌||◌, Bool-cases, Option-cases, inl, inr, some, List, [], ◌∷◌, arith,
}
use p2pearl.Prelude.Result.{Result, ok, Result-cases}
use p2pearl.Prelude.Keys.{Bytes, Str, bytes_key, bytes_eq_iff}
use p2pearl.Prelude.Dict.{contains}
use p2pearl.Prelude.Hex.{from_hex}
use p2pearl.Consensus.Share.{share_id}
use p2pearl.Consensus.Sharechain.{member}
use p2pearl.Pool.{ParentTemplate, JobContext, PoolNode, set_template}
use p2pearl.Pool.Submit.{
  Submission, Hooks, hook_end, accepted, already_known, Effect, handle_submit, assemble_and_submit,
}

repeated :
    {Header : Type 0} (sha256 : Bytes → Bytes) (s : Submission Header) (n : PoolNode)
    (ctx : JobContext Header) (header id : Bytes)
    → s.context ≡ some ctx
    → from_hex s.header_hex ≡ some header
    → share_id sha256 ctx.candidate ≡ ok id
    → (contains id n.sharechain.entries || member id n.pending_shares) ≡ true
    → handle_submit sha256 s n ≡ ok (already_known, n, [])
unfolding handle_submit
repeated sha256 s n ctx header id e read named held = ground arith

member-head : (id : Bytes) (ids : List Bytes) → member id (id ∷ ids) ≡ true
unfolding member
member-head id ids = ground (arith, bytes_eq_iff id id)

-- A submission that was accepted is answered as a duplicate in any later state of the pool in which
-- each share that was pending right behind it is still pending, or is in the sharechain by then:
-- nothing more is scheduled and nothing changes.
pub handle_submit-twice :
    {Header : Type 0} (sha256 : Bytes → Bytes) (s : Submission Header) (n n' : PoolNode)
    (es : List (Effect Header))
    → handle_submit sha256 s n ≡ ok (accepted, n', es)
    → (later : PoolNode)
    → ((id : Bytes)
        → member id n'.pending_shares ≡ true
        → (contains id later.sharechain.entries || member id later.pending_shares) ≡ true)
    → handle_submit sha256 s later ≡ ok (already_known, later, [])
unfolding handle_submit
handle_submit-twice sha256 s n n' es h later kept = elim (Option-cases s.context) [
  | inl nothing ↦ absurd (ground arith)
  | inr (ctx, e) ↦ elim (Option-cases (from_hex s.header_hex)) [
    | inl junk ↦ absurd (ground arith)
    | inr (header, read) ↦ elim (Result-cases (share_id sha256 ctx.candidate)) [
      | inl (err, raised) ↦ absurd (ground arith)
      | inr (id, named) ↦
          elim (Bool-cases (contains id n.sharechain.entries || member id n.pending_shares)) [
            | inl known ↦ absurd (ground arith)
            | inr new ↦
                let marked : PoolNode = record n { pending_shares = id ∷ n.pending_shares } in
                let is : marked ≡ n' = ground arith in
                let held : member id n'.pending_shares ≡ true =
                  subst (λ m. member id m.pending_shares ≡ true) is
                    (member-head id n.pending_shares) in
                repeated sha256 s later ctx header id e read named (kept id held)
          ]
    ]
  ]
]

-- Once a block for a parent tip was assembled and submitted, with hooks that do not raise, no other share of that tip is proved
-- again, whether or not the template is renewed in between, as long as its parent stays the same.
pub assemble_and_submit-once :
    {Header : Type 0} (sha256 : Bytes → Bytes) (hooks : Hooks)
    (assemble : Header → Str → Result Str) (submit : Str → Result (Unit {0}))
    (ctx other : JobContext Header) (proof_b64 other_b64 block_hex : Str) (n : PoolNode)
    (old t : ParentTemplate)
    → hook_end hooks.pre ≡ ok tt
    → hook_end hooks.post ≡ ok tt
    → assemble ctx.header_ctx proof_b64 ≡ ok block_hex
    → submit block_hex ≡ ok tt
    → n.template ≡ some old
    → t.prev_block ≡ old.prev_block
    → other.candidate.parent_prev_block ≡ ctx.candidate.parent_prev_block
    → let n' =
        set_template t (assemble_and_submit sha256 hooks assemble submit ctx proof_b64 n).0 in
      assemble_and_submit sha256 hooks assemble submit other other_b64 n' ≡ (n', [])
unfolding assemble_and_submit set_template member
assemble_and_submit-once sha256 hooks assemble submit ctx other proof_b64 other_b64 block_hex n old
      t began ended made sent had same parent =
    ground (
      arith,
      bytes_eq_iff t.prev_block old.prev_block,
      bytes_eq_iff other.candidate.parent_prev_block ctx.candidate.parent_prev_block,
    )
