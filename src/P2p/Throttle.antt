-- ===== src/P2p/Throttle.antt =====
-- The rate gate of p2pearl/p2p/node.py over a run of messages.
use p2pearl.Prelude.{
  ℕ, suc, ◌+◌, ◌-◌, ◌*◌, ◌≤◌, ◌<◌, ◌≡◌, refl, true, false, ltb, leb, Bool-cases, ap, ltb→lt, ltb→le,
  leb→le, leb→lt, Option-cases, inl, inr, Option, none, some, List, [], ◌∷◌, All, arith,
}
use p2pearl.P2p.Rate.{
  Kind, limit_of, rate_window, Bucket, Buckets, bucket, set_bucket, Peer, allow_at, allow, served,
}

pub bucket-set_bucket :
    (kind : Kind) (b : Bucket) (bs : Buckets) → bucket kind (set_bucket kind b bs) ≡ some b
bucket-set_bucket Kind.getshares b bs = refl
bucket-set_bucket Kind.getproof b bs = refl
bucket-set_bucket Kind.block b bs = refl
bucket-set_bucket Kind.hello b bs = refl

pub limit_pos : (kind : Kind) → 1 < limit_of kind
limit_pos Kind.getshares = omega arith
limit_pos Kind.getproof = omega arith
limit_pos Kind.block = omega arith
limit_pos Kind.hello = omega arith

-- A time within the window that starts at `t`.
abbrev pub IsWithin : ℕ → ℕ → Type 0
IsWithin t now = (t ≤ now) × (now < t + rate_window)

-- A call of `allow` opens a window, counts in the open one, or refuses.
module _ (kind : Kind) (now : ℕ) (p : Peer) where
  unfoldable pub opened : Peer
  opened = record p {
    buckets = set_bucket kind (record { start = now; count = 1 }) p.buckets;
    strikes = 0;
  }

  unfoldable pub counted : Bucket → Peer
  counted b = record p {
    buckets = set_bucket kind (record b { count = b.count + 1 }) p.buckets;
    strikes = 0;
  }

  unfoldable pub refused : Peer
  refused = record p { strikes = p.strikes + 1 }

  pub allow_fresh : bucket kind p.buckets ≡ none → allow kind now p ≡ (true, opened)
  unfolding allow allow_at opened
  allow_fresh e = rw e refl

  module _ (b : Bucket) (e : bucket kind p.buckets ≡ some b) where
    pub allow_expired : b.start + rate_window ≤ now → allow kind now p ≡ (true, opened)
    unfolding allow allow_at opened
    allow_expired h = ground (arith, e)

    pub allow-counted :
        now < b.start + rate_window → b.count < limit_of kind → allow kind now p ≡ (true, counted b)
    unfolding allow allow_at counted
    allow-counted h l = ground (arith, e)

    pub allow-refused :
        now < b.start + rate_window → limit_of kind ≤ b.count → allow kind now p ≡ (false, refused)
    unfolding allow allow_at refused
    allow-refused h l = ground (arith, e)

served-true :
    (kind : Kind) (t : ℕ) (ts : List ℕ) (p q : Peer)
    → allow kind t p ≡ (true, q)
    → served kind (t ∷ ts) p ≡ suc (served kind ts q)
unfolding served
served-true kind t ts p q e = rw e refl

served-false :
    (kind : Kind) (t : ℕ) (ts : List ℕ) (p q : Peer)
    → allow kind t p ≡ (false, q)
    → served kind (t ∷ ts) p ≡ served kind ts q
unfolding served
served-false kind t ts p q e = rw e refl

-- Within the window of an open bucket, what is left of its limit is served.
served_open :
    (kind : Kind) (ts : List ℕ) (p : Peer) (b : Bucket)
    → bucket kind p.buckets ≡ some b
    → All (λ t. t < b.start + rate_window) ts
    → served kind ts p ≤ limit_of kind - b.count
unfolding counted refused
served_open kind [] p b e h = unfold served in omega arith
served_open kind (t ∷ ts) p b e h = elim (Bool-cases (ltb b.count (limit_of kind))) [
  | inl more ↦
      let less : b.count < limit_of kind = ltb→lt _ _ more in
      let grown = record b { count = b.count + 1 } in
      let q = counted kind t p b in
      let rest = served_open kind ts q grown (bucket-set_bucket kind grown p.buckets) h.1 in
      omega (arith, less, served-true kind t ts p q (allow-counted kind t p b e h.0 less), rest)
  | inr full ↦
      let q = refused kind t p in
      let rest = served_open kind ts q b e h.1 in
      omega
        (arith, served-false kind t ts p q (allow-refused kind t p b e h.0 (ltb→le _ _ full)), rest)
]

-- A message that opens a window at `t`, and the rest of them within it.
served_opened :
    (kind : Kind) (t : ℕ) (ts : List ℕ) (p : Peer)
    → allow kind t p ≡ (true, opened kind t p)
    → All (λ u. u < t + rate_window) ts
    → served kind (t ∷ ts) p ≤ limit_of kind
unfolding opened
served_opened kind t ts p e h =
    let new : Bucket = record { start = t; count = 1 } in
    omega (
      arith,
      limit_pos kind,
      served-true kind t ts p (opened kind t p) e,
      served_open kind ts (opened kind t p) new (bucket-set_bucket kind new p.buckets) h,
    )

pub sooner :
    (s t : ℕ) (ts : List ℕ) → s ≤ t → All (IsWithin s) ts → All (λ u. u < t + rate_window) ts
sooner s t [] le h = tt
sooner s t (u ∷ us) le h = (omega (arith, h.0.1), sooner s t us le h.1)

abbrev spare : Kind → Option Bucket → ℕ
spare kind none = 0
spare kind (some b) = limit_of kind - b.count

served_within :
    (kind : Kind) (s : ℕ) (ts : List ℕ) (p : Peer)
    → All (IsWithin s) ts
    → served kind ts p ≤ spare kind (bucket kind p.buckets) + limit_of kind
unfolding counted refused
served_within kind s [] p h = unfold served in omega arith
served_within kind s (t ∷ ts) p h = elim (Option-cases (bucket kind p.buckets)) [
  | inl nothing ↦
      omega
        (arith, served_opened kind t ts p (allow_fresh kind t p nothing) (sooner s t ts h.0.0 h.1))
  | inr (b, e) ↦ rw e (elim (Bool-cases (leb (b.start + rate_window) t)) [
    | inl old ↦ omega (
      arith,
      served_opened kind t ts p (allow_expired kind t p b e (leb→le _ _ old))
          (sooner s t ts h.0.0 h.1),
    )
    | inr current ↦
        let inside : t < b.start + rate_window = leb→lt _ _ current in
        elim (Bool-cases (ltb b.count (limit_of kind))) [
          | inl more ↦
              let less : b.count < limit_of kind = ltb→lt _ _ more in
              let grown = record b { count = b.count + 1 } in
              let q = counted kind t p b in
              let rest = served_within kind s ts q h.1 in
              let left : spare kind (bucket kind q.buckets) ≡ limit_of kind - (b.count + 1) =
                rw (bucket-set_bucket kind grown p.buckets) refl in
              omega (
                arith,
                less,
                left,
                served-true kind t ts p q (allow-counted kind t p b e inside less),
                rest,
              )
          | inr full ↦
              let q = refused kind t p in
              let rest = served_within kind s ts q h.1 in
              let left : spare kind (bucket kind q.buckets) ≡ limit_of kind - b.count = rw e refl in
              omega (
                arith,
                left,
                served-false kind t ts p q (allow-refused kind t p b e inside (ltb→le _ _ full)),
                rest,
              )
        ]
  ])
]

-- Whatever the state of the gate, and in whatever order the messages of one kind come in within ten
-- seconds, no more than twice the limit of the kind are handled.
pub served_bound :
    (kind : Kind) (s : ℕ) (ts : List ℕ) (p : Peer)
    → All (IsWithin s) ts
    → served kind ts p ≤ 2 * limit_of kind
served_bound kind s ts p h = elim (Option-cases (bucket kind p.buckets)) [
  | inl nothing ↦ omega (arith, ap (spare kind) nothing, served_within kind s ts p h)
  | inr (b, e) ↦ omega (arith, ap (spare kind) e, served_within kind s ts p h)
]
