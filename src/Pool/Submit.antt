-- ===== src/Pool/Submit.antt =====
-- Submissions and found blocks in p2pearl/daemon.py: `handle_submit`, the validation that it
-- schedules, and the assembly of a block once per parent. Proof checks, the vardiff update (which
-- averages floats), the assembly and the submission of a block are parameters; background work that
-- is scheduled is an effect, in order.
use p2pearl.Prelude.{
  ℕ, Bool, true, ◌||◌, not, if◌then◌else◌, Option, none, some, List, [], ◌∷◌, ◌++◌,
}
use p2pearl.Prelude.Result.{Result, ok, raise, value_error, ◌>>=◌, or_raise}
use p2pearl.Prelude.Keys.{Bytes, Str, bytes_eq, bytes_key}
use p2pearl.Prelude.Dict.{contains}
use p2pearl.Prelude.Codec.{ascii}
use p2pearl.Prelude.Hex.{from_hex}
use p2pearl.Consensus.Difficulty.{target_to_bits}
use p2pearl.Consensus.Share.{ShareBlock, share_id}
use p2pearl.Consensus.Sharechain.{member}
use p2pearl.Consensus.Sharechain.Add.{add_share}
use p2pearl.Pool.{JobContext, PoolNode}

-- The `Submission` of the stratum server, with the fields of its job.
pub record Submission (Header : Type 0) : Type 0 where
  pub worker_address : Str
  pub worker_label : Str
  pub header_hex : Str
  pub share_target : ℕ
  pub context : Option (JobContext Header)
  pub plain_proof : Str

pub data SubmitResult : Type 0 where
  accepted already_known no_candidate : SubmitResult

pub data Effect (Header : Type 0) : Type 0 where
  validation : Submission Header → JobContext Header → Bytes → ℕ → Effect Header
  refresh : Effect Header
  gossip : ShareBlock → Str → Effect Header
  followup : Submission Header → JobContext Header → Bytes → Effect Header
  assembly : Header → Str → Effect Header
  submission : Str → Effect Header
  block_gossip : Str → Effect Header
  pre_assemble post_assemble : Effect Header

-- The hooks round the assembly, where they are set: how each ends.
pub record Hooks : Type 0 where
  pub pre : Option (Result (Unit {0}))
  pub post : Option (Result (Unit {0}))

abbrev pub hook_end : Option (Result (Unit {0})) → Result (Unit {0})
hook_end none = ok tt
hook_end (some r) = r

abbrev called :
    {Header : Type 0} → Effect Header → Option (Result (Unit {0})) → List (Effect Header)
called e none = []
called e (some r) = e ∷ []

-- `s.discard(x)`, for a set kept as a list
unfoldable pub discard : Bytes → List Bytes → List Bytes
discard x [] = []
discard x (y ∷ ys) = let rest = discard x ys in if bytes_eq x y then rest else y ∷ rest

-- What a submission comes to: the reply, the node, and what was scheduled.
abbrev pub Outcome : Type 0 → Type 0
Outcome Header = SubmitResult × PoolNode × List (Effect Header)

module _ {Header : Type 0} (sha256 : Bytes → Bytes) where
  -- `handle_submit`
  unfoldable pub handle_submit : Submission Header → PoolNode → Result (Outcome Header)
  handle_submit s n = elim s.context [
    | none ↦ ok (no_candidate, n, [])
    | some ctx ↦ do
      header ← or_raise (from_hex s.header_hex) value_error
      id ← share_id sha256 ctx.candidate
      ok (
          if contains id n.sharechain.entries || member id n.pending_shares
          then (already_known, n, [])
          else (
            accepted,
            record n { pending_shares = id ∷ n.pending_shares },
            validation s ctx header (target_to_bits s.share_target) ∷ [],
          ))
  ]

  -- What is scheduled for an accepted share.
  unfoldable pub scheduled :
      Submission Header → JobContext Header → Bytes → Bool → PoolNode → List (Effect Header)
  scheduled s ctx header restless n =
      let refreshed : List (Effect Header) = if restless then refresh ∷ [] else [] in
      let gossiped : List (Effect Header) =
        if n.has_broadcast_share then gossip ctx.candidate s.plain_proof ∷ [] else [] in
      refreshed ++ gossiped ++ followup s ctx header ∷ []

  module _ (verify_share : Bytes → Str → ℕ → ℕ → Result Bool)
      (record_vardiff : Submission Header → PoolNode → Bool × (Str → Str → Option ℕ)) where
    -- `add_share` of a verified candidate, and what follows.
    unfoldable pub add_candidate :
        Submission Header
        → JobContext Header
        → Bytes
        → ℕ
        → PoolNode
        → Result (PoolNode × List (Effect Header))
    unfolding scheduled
    add_candidate s ctx header now n = do
      proof ← ascii s.plain_proof
      (added, c) ← add_share sha256 n.sharechain ctx.candidate true (some proof) now
      let (changed, factors) = record_vardiff s n
      let n' = record n { sharechain = c; vardiff = factors }
      ok (
          if added.accepted
          then (n', scheduled s ctx header (added.is_best_tip || changed) n')
          else (record n { sharechain = c }, []))

    -- `_run_submit_validation`; whatever happens, the share is pending no longer.
    unfoldable pub run_submit_validation :
        Submission Header
        → JobContext Header
        → Bytes
        → ℕ
        → ℕ
        → PoolNode
        → Result (PoolNode × List (Effect Header))
    unfolding add_candidate
    run_submit_validation s ctx header share_nbits now n = do
      id ← share_id sha256 ctx.candidate
      let done = record n { pending_shares = discard id n.pending_shares }
      elim (verify_share header s.plain_proof share_nbits ctx.cert_version) [
        | raise e ↦ ok (done, [])
        | ok verified ↦
            if verified
            then elim (add_candidate s ctx header now done) [
              | raise e ↦ ok (done, [])
              | ok r ↦ ok r
            ]
            else ok (done, [])
      ]

  module _ (hooks : Hooks) (assemble : Header → Str → Result Str)
      (submit : Str → Result (Unit {0})) where
    -- `_assemble_and_submit`, under its lock: one assembly per parent, which is marked only when the
    -- block was submitted. A raise ends it; the hook behind the assembly runs in any case.
    unfoldable pub assemble_and_submit :
        JobContext Header → Str → PoolNode → PoolNode × List (Effect Header)
    assemble_and_submit ctx proof_b64 n =
        let parent = ctx.candidate.parent_prev_block in
        let before : List (Effect Header) = called pre_assemble hooks.pre in
        let tried : List (Effect Header) =
          before ++ assembly ctx.header_ctx proof_b64 ∷ called post_assemble hooks.post in
        let marked = record n { assembled_parents = parent ∷ n.assembled_parents } in
        if member parent n.assembled_parents then (n, []) else elim (hook_end hooks.pre) [
          | raise e ↦ (n, before)
          | ok _ ↦ elim (assemble ctx.header_ctx proof_b64) [
            | raise e ↦ (n, tried)
            | ok block_hex ↦ elim (hook_end hooks.post) [
              | raise e ↦ (n, tried)
              | ok _ ↦ elim (submit block_hex) [
                | raise e ↦ (n, tried ++ submission block_hex ∷ [])
                | ok _ ↦
                    if n.has_broadcast_block
                    then (marked, tried ++ submission block_hex ∷ block_gossip block_hex ∷ [])
                    else (marked, tried ++ submission block_hex ∷ [])
              ]
            ]
          ]
        ]

    -- `try_collaborative_submit`, given the header rebuilt from a share and the block check.
    unfoldable pub try_collaborative_submit :
        (PoolNode → ShareBlock → Option (Bytes × Header))
        → (Bytes → Str → ℕ → Bool)
        → ShareBlock
        → Str
        → PoolNode
        → PoolNode × List (Effect Header)
    unfolding assemble_and_submit
    try_collaborative_submit make_header verify_block s proof_b64 n = elim n.template [
      | none ↦ (n, [])
      | some t ↦
          if not (bytes_eq s.parent_prev_block t.prev_block)
          then (n, [])
          else elim (make_header n s) [
            | none ↦ (n, [])
            | some (header, header_ctx) ↦
                if verify_block header proof_b64 t.required_cert_version
                then assemble_and_submit
                    (record {
                      candidate = s;
                      header_ctx = header_ctx;
                      payouts = [];
                      cert_version = t.required_cert_version;
                    })
                    proof_b64 n
                else (n, [])
          ]
    ]
