-- ===== src/Pool/Vardiff.antt =====
-- The adaptive factor of a worker, of p2pearl/daemon.py. The average of the intervals is a float: its
-- type and operations are parameters, of which nothing is assumed.
use p2pearl.Prelude.{
  ℕ, ◌*◌, ◌/◌, ◌≤◌, min, max, Bool, true, false, ◌&&◌, not, ltb, ◌==◌, if◌then◌else◌, Option, none,
  some, List, [], ◌∷◌, ◌≡◌, refl, arith, if-elim,
}
use p2pearl.Prelude.Keys.{Str, bytes_eq}
use p2pearl.Pool.{label_or_default}

-- Times, and averages of the intervals between them: the first average after a share, the next one,
-- and the two tests against the target of 60 seconds.
pub record Averages : Type 1 where
  pub Time : Type 0
  pub Average : Type 0
  pub first_interval : Time → Time → Average
  pub next_interval : Average → Time → Time → Average
  pub is_fast : Average → Bool
  pub is_slow : Average → Bool

module _ (v : Averages) where
  open v use {Time, Average, first_interval, next_interval, is_fast, is_slow}

  -- `_VardiffState`
  pub record VardiffState : Type 0 where
    pub factor : ℕ
    pub last_share_at : Option Time
    pub ewma_interval : Option Average

  -- `_vardiff`, with the bounds of the factor.
  pub record Vardiff : Type 0 where
    pub enabled : Bool
    pub initial : ℕ
    pub max_factor : ℕ
    pub states : Str → Str → Option VardiffState

  -- `max(1, int(stratum_target_factor))` and what follows from it
  unfoldable pub new_vardiff : ℕ → Vardiff
  new_vardiff target_factor =
      let initial = max 1 target_factor in
      record {
        enabled = ltb 1 initial;
        initial = initial;
        max_factor = max initial 16_777_216;
        states = λ address label. none;
      }

  abbrev or_new : Vardiff → Option VardiffState → VardiffState
  or_new d none = record { factor = d.initial; last_share_at = none; ewma_interval = none }
  or_new d (some s) = s

  -- `_vardiff_state_for`, of a worker that has an address
  unfoldable pub state_for : Vardiff → Str → Str → VardiffState
  state_for d address label = or_new d (d.states address (label_or_default label))

  -- `_worker_target_factor`
  unfoldable pub target_factor : Vardiff → Str → Str → ℕ
  unfolding state_for
  target_factor d [] label = d.initial
  target_factor d (c ∷ cs) label =
      if d.enabled then (state_for d (c ∷ cs) label).factor else d.initial

  abbrev averaged : Option Average → Time → Time → Average
  averaged none last now = first_interval last now
  averaged (some e) last now = next_interval e last now

  -- The factor after an average: doubled or halved within its bounds, or as it was.
  unfoldable pub next_factor : ℕ → Average → ℕ → ℕ
  next_factor max_factor e factor =
      if is_fast e
      then min max_factor (factor * 2)
      else if is_slow e
      then max 1 (factor / 2)
      else factor

  abbrev adapted : ℕ → Average → Time → VardiffState → VardiffState × Bool
  adapted max_factor e now s =
      let factor = next_factor max_factor e s.factor in
      if factor == s.factor
      then (record s { last_share_at = some now; ewma_interval = some e }, false)
      else (record { factor = factor; last_share_at = some now; ewma_interval = none }, true)

  -- A share of a worker at a time, and whether its factor changed.
  unfoldable pub on_share_at : ℕ → Time → VardiffState → VardiffState × Bool
  on_share_at max_factor now s = elim s.last_share_at [
    | none ↦ (record s { last_share_at = some now }, false)
    | some last ↦ adapted max_factor (averaged s.ewma_interval last now) now s
  ]

  abbrev put : Str → Str → VardiffState → Vardiff → Vardiff
  put address label s d = record d {
    states = λ a l. if bytes_eq address a && bytes_eq label l then some s else d.states a l;
  }

  -- `_record_vardiff_share`
  unfoldable pub record_vardiff_share : Time → Str → Str → Vardiff → Vardiff × Bool
  unfolding state_for on_share_at
  record_vardiff_share now [] label d = (d, false)
  record_vardiff_share now (c ∷ cs) label d =
      if not d.enabled
      then (d, false)
      else let (s, changed) = on_share_at d.max_factor now (state_for d (c ∷ cs) label) in
        (put (c ∷ cs) (label_or_default label) s d, changed)

  -- Every factor stays between one and the maximum.
  pub record IsBounded (d : Vardiff) : Type 0 where
    pub initial : (1 ≤ d.initial) × (d.initial ≤ d.max_factor)
    pub factors :
        (a l : Str)
        → (1 ≤ (or_new d (d.states a l)).factor) × ((or_new d (d.states a l)).factor ≤ d.max_factor)

  on_share_at_bounds :
      (m : ℕ) (now : Time) (s : VardiffState)
      → 1 ≤ s.factor
      → s.factor ≤ m
      → (1 ≤ (on_share_at m now s).0.factor) × ((on_share_at m now s).0.factor ≤ m)
  unfolding on_share_at next_factor
  on_share_at_bounds m now s lo hi = ground arith

  put-IsBounded :
      (address label : Str) (s : VardiffState) (d : Vardiff)
      → IsBounded d
      → 1 ≤ s.factor
      → s.factor ≤ d.max_factor
      → IsBounded (put address label s d)
  put-IsBounded address label s d b lo hi = record {
    initial = b.initial;
    factors = λ a l. ground (arith, b.factors a l);
  }

  record_vardiff_share-IsBounded :
      (now : Time) (address label : Str) (d : Vardiff)
      → IsBounded d
      → IsBounded (record_vardiff_share now address label d).0
  unfolding record_vardiff_share
  record_vardiff_share-IsBounded now [] label d b = b
  record_vardiff_share-IsBounded now (c ∷ cs) label d b =
      let old : VardiffState = or_new d (d.states (c ∷ cs) (label_or_default label)) in
      let bounds = b.factors (c ∷ cs) (label_or_default label) in
      let kept = on_share_at_bounds d.max_factor now old bounds.0 bounds.1 in
      let updated : Vardiff =
        put (c ∷ cs) (label_or_default label) (on_share_at d.max_factor now old).0 d in
      if-elim (λ (r : Vardiff × Bool). IsBounded r.0) (not d.enabled) (d, false)
        (updated, (on_share_at d.max_factor now old).1) (λ _. b)
        (λ _.
          put-IsBounded (c ∷ cs) (label_or_default label) (on_share_at d.max_factor now old).0 d b
            kept.0 kept.1)

  -- The shares of a history: when, and from which address and worker.
  unfoldable pub after_shares : List (Time × Str × Str) → Vardiff → Vardiff
  after_shares [] d = d
  after_shares ((now, address, label) ∷ rest) d =
      after_shares rest (record_vardiff_share now address label d).0

  after_shares-IsBounded :
      (h : List (Time × Str × Str)) (d : Vardiff) → IsBounded d → IsBounded (after_shares h d)
  unfolding after_shares
  after_shares-IsBounded [] d b = b
  after_shares-IsBounded ((now, address, label) ∷ rest) d b =
      after_shares-IsBounded rest (record_vardiff_share now address label d).0
        (record_vardiff_share-IsBounded now address label d b)

  new_vardiff-IsBounded : (f : ℕ) → IsBounded (new_vardiff f)
  unfolding new_vardiff
  new_vardiff-IsBounded f = record { initial = ground arith; factors = λ a l. ground arith }

  after_shares_max :
      (h : List (Time × Str × Str)) (d : Vardiff) → (after_shares h d).max_factor ≡ d.max_factor
  unfolding after_shares record_vardiff_share
  after_shares_max [] d = refl
  after_shares_max ((now, [], label) ∷ rest) d = after_shares_max rest d
  after_shares_max ((now, c ∷ cs, label) ∷ rest) d = ground (
    arith,
    after_shares_max rest d,
    after_shares_max rest (
        put (c ∷ cs) (label_or_default label)
          (on_share_at d.max_factor now (state_for d (c ∷ cs) label)).0 d),
  )

  target_factor_bounds :
      (d : Vardiff) (address label : Str)
      → IsBounded d
      → (1 ≤ target_factor d address label) × (target_factor d address label ≤ d.max_factor)
  unfolding target_factor
  target_factor_bounds d [] label b = b.initial
  target_factor_bounds d (c ∷ cs) label b =
      ground (arith, b.factors (c ∷ cs) (label_or_default label), b.initial)

  -- Whatever shares come in, whenever, and however the averages and their tests come out, the factor
  -- that a worker's next job gets is at least one, and at most the larger of the configured factor
  -- and 2 ^ 24.
  pub target_factor-after_shares :
      (configured : ℕ) (h : List (Time × Str × Str)) (address label : Str)
      → let factor = target_factor (after_shares h (new_vardiff configured)) address label in
        (1 ≤ factor) × (factor ≤ max (max 1 configured) 16_777_216)
  unfolding new_vardiff
  target_factor-after_shares configured h address label =
      let start = new_vardiff configured in
      let bounds =
        target_factor_bounds (after_shares h start) address label
          (after_shares-IsBounded h start (new_vardiff-IsBounded configured)) in
      (bounds.0, omega (arith, bounds.1, after_shares_max h start))
