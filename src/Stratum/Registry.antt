-- ===== src/Stratum/Registry.antt =====
-- The job registry of p2pearl/stratum/server.py over one more job.
use p2pearl.Prelude.{
  ℕ, ◌+◌, ◌%◌, ◌^◌, ◌≤◌, ◌<◌, ◌≡◌, refl, Option-cases, inl, inr, some, [], ◌∷◌, length, arith,
}
use p2pearl.Prelude.Keys.{Bytes, bytes_key}
use p2pearl.Prelude.Dict.{Dict, lookup, insert, IsDict, insert-IsDict, lookup-insert_self}
use p2pearl.P2p.{evict}
use p2pearl.P2p.Caches.{lookup-evict-last, length-evict-le, evict-IsDict, insert-new}
use p2pearl.Stratum.{JobRegistry, JobSpec, mint, get_job, job_of, job_id_of}

-- One job per id, and no more than fit.
pub record IsRegistry {C : Type 0} (r : JobRegistry C) : Type 0 where
  pub unique : IsDict r.jobs
  pub bounded : length r.jobs ≤ r.max_size
  pub room : 0 < r.max_size

-- A dictionary that fits is left as it is.
evict-fits : {V : Type 0} (limit : ℕ) (d : Dict Bytes V) → length d ≤ limit → evict limit d ≡ d
unfolding evict
evict-fits limit [] h = refl
evict-fits limit (e ∷ d) h = ground arith

length-insert_old :
    {V : Type 0} (k : Bytes) (v w : V) (d : Dict Bytes V)
    → lookup k d ≡ some w
    → length (insert k v d) ≡ length d
unfolding insert lookup
length-insert_old k v w [] h = cc
length-insert_old k v w ((i, x) ∷ d) h = ground (arith, length-insert_old k v w d)

-- A job that was minted is found under its id, with the header, target and height that it was minted
-- with, and the registry holds at most as many jobs as it may, one per id.
pub mint-IsRegistry :
    {C : Type 0} (spec : JobSpec C) (r : JobRegistry C)
    → IsRegistry r
    → let (job, r') = mint spec r in
      (get_job job.job_id r' ≡ some job) × (job ≡ job_of spec job.job_id) × IsRegistry r'
unfolding mint
mint-IsRegistry spec r k =
    let seq = (r.seq + 1) % 2 ^ 16 in
    let id = job_id_of spec.at_height seq in
    let job = job_of spec id in
    (
      elim (Option-cases (lookup id r.jobs)) [
        | inl new ↦
            rw (insert-new id job r.jobs new)
              (lookup-evict-last r.max_size id job r.jobs k.room new)
        | inr (old, e) ↦
            let same : length (insert id job r.jobs) ≡ length r.jobs =
              length-insert_old id job old r.jobs e in
            let fits : length (insert id job r.jobs) ≤ r.max_size =
              omega (arith, same, k.bounded) in
            rw (evict-fits r.max_size (insert id job r.jobs) fits)
              (lookup-insert_self id job r.jobs)
      ],
      refl,
      record {
        unique = evict-IsDict r.max_size _ (insert-IsDict id job r.jobs k.unique);
        bounded = length-evict-le r.max_size (insert id job r.jobs);
        room = k.room;
      },
    )
