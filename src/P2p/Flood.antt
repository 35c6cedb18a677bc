-- ===== src/P2p/Flood.antt =====
-- A peer that floods a node of p2pearl/p2p/node.py, and the gate that drops it.
use p2pearl.Prelude.{
  ℕ, ◌+◌, ◌-◌, ◌*◌, ◌≤◌, ◌<◌, ◌≡◌, refl, ap, true, false, ltb, leb, if◌then◌else◌, Bool-cases,
  Option-cases, ltb→lt, ltb→le, leb→le, leb→lt, inl, inr, Option, none, some, List, [], ◌∷◌, length,
  All, arith,
}
use p2pearl.P2p.Rate.{
  Kind, limit_of, rate_window, hard_rate_strikes, Bucket, bucket, Peer, allow, gate, outlasts,
}
use p2pearl.P2p.Throttle.{
  IsWithin, opened, counted, refused, allow_fresh, allow_expired, allow-counted, allow-refused,
  bucket-set_bucket, limit_pos, sooner,
}

outlasts-true :
    (kind : Kind) (t : ℕ) (ts : List ℕ) (p q : Peer)
    → allow kind t p ≡ (true, q)
    → outlasts kind (t ∷ ts) p ≡ true
    → outlasts kind ts q ≡ true
unfolding outlasts gate
outlasts-true kind t ts p q e h = ground (arith, e)

outlasts-false :
    (kind : Kind) (t : ℕ) (ts : List ℕ) (p q : Peer)
    → allow kind t p ≡ (false, q)
    → outlasts kind (t ∷ ts) p ≡ true
    → (q.strikes < hard_rate_strikes) × (outlasts kind ts q ≡ true)
unfolding outlasts gate
outlasts-false kind t ts p q e h = ground (arith, e)

-- How many more messages a peer outlasts while its bucket stays open.
abbrev room : Kind → Option Bucket → ℕ → ℕ
room kind none strikes = 0
room kind (some b) strikes =
    if ltb b.count (limit_of kind) then limit_of kind - b.count + 4 else 4 - strikes

flood_open :
    (kind : Kind) (ts : List ℕ) (p : Peer) (b : Bucket)
    → bucket kind p.buckets ≡ some b
    → All (λ t. t < b.start + rate_window) ts
    → outlasts kind ts p ≡ true
    → length ts ≤ room kind (some b) p.strikes
unfolding counted refused
flood_open kind [] p b e h o = omega arith
flood_open kind (t ∷ ts) p b e h o = elim (Bool-cases (ltb b.count (limit_of kind))) [
  | inl more ↦
      let less : b.count < limit_of kind = ltb→lt _ _ more in
      let grown = record b { count = b.count + 1 } in
      let q = counted kind t p b in
      let o' = outlasts-true kind t ts p q (allow-counted kind t p b e h.0 less) o in
      let rest = flood_open kind ts q grown (bucket-set_bucket kind grown p.buckets) h.1 o' in
      ground (arith, less, rest)
  | inr full ↦
      let q = refused kind t p in
      let (few, o') =
        outlasts-false kind t ts p q (allow-refused kind t p b e h.0 (ltb→le _ _ full)) o in
      let rest = flood_open kind ts q b e h.1 o' in ground (arith, full, few, rest)
]

flood_opened :
    (kind : Kind) (t : ℕ) (ts : List ℕ) (p : Peer)
    → allow kind t p ≡ (true, opened kind t p)
    → All (λ u. u < t + rate_window) ts
    → outlasts kind (t ∷ ts) p ≡ true
    → length (t ∷ ts) ≤ limit_of kind + 4
unfolding opened
flood_opened kind t ts p e h o =
    let new : Bucket = record { start = t; count = 1 } in
    let q = opened kind t p in
    let o' = outlasts-true kind t ts p q e o in
    let rest = flood_open kind ts q new (bucket-set_bucket kind new p.buckets) h o' in
    ground (arith, limit_pos kind, rest)

flood_within :
    (kind : Kind) (s : ℕ) (ts : List ℕ) (p : Peer)
    → All (IsWithin s) ts
    → outlasts kind ts p ≡ true
    → length ts ≤ room kind (bucket kind p.buckets) p.strikes + (limit_of kind + 4)
unfolding counted refused
flood_within kind s [] p h o = omega arith
flood_within kind s (t ∷ ts) p h o = elim (Option-cases (bucket kind p.buckets)) [
  | inl nothing ↦
      omega
        (arith, flood_opened kind t ts p (allow_fresh kind t p nothing) (sooner s t ts h.0.0 h.1) o)
  | inr (b, e) ↦ rw e (elim (Bool-cases (leb (b.start + rate_window) t)) [
    | inl old ↦ omega (
      arith,
      flood_opened kind t ts p (allow_expired kind t p b e (leb→le _ _ old))
          (sooner s t ts h.0.0 h.1) o,
    )
    | inr current ↦
        let inside : t < b.start + rate_window = leb→lt _ _ current in
        elim (Bool-cases (ltb b.count (limit_of kind))) [
          | inl more ↦
              let less : b.count < limit_of kind = ltb→lt _ _ more in
              let grown = record b { count = b.count + 1 } in
              let q = counted kind t p b in
              let o' = outlasts-true kind t ts p q (allow-counted kind t p b e inside less) o in
              let rest = flood_within kind s ts q h.1 o' in
              let left : room kind (bucket kind q.buckets) 0 ≡ room kind (some grown) 0 =
                rw (bucket-set_bucket kind grown p.buckets) refl in
              ground (arith, less, left, rest)
          | inr full ↦
              let q = refused kind t p in
              let (few, o') =
                outlasts-false kind t ts p q (allow-refused kind t p b e inside (ltb→le _ _ full))
                  o in
              let rest = flood_within kind s ts q h.1 o' in
              let left : room kind (bucket kind q.buckets) q.strikes
                  ≡ room kind (some b) q.strikes =
                rw e refl in
              ground (arith, full, few, left, rest)
        ]
  ])
]

-- A peer that sends only messages of one kind, and more than twice its limit and eight of them within
-- ten seconds, is dropped: one that is still connected has sent no more, whatever the state of its
-- gate was before.
pub flood_bound :
    (kind : Kind) (s : ℕ) (ts : List ℕ) (p : Peer)
    → All (IsWithin s) ts
    → outlasts kind ts p ≡ true
    → length ts ≤ 2 * limit_of kind + 8
flood_bound kind s ts p h o = elim (Option-cases (bucket kind p.buckets)) [
  | inl nothing ↦
      omega (arith, ap (λ b. room kind b p.strikes) nothing, flood_within kind s ts p h o)
  | inr (b, e) ↦ ground (arith, ap (λ b. room kind b p.strikes) e, flood_within kind s ts p h o)
]
