-- ===== src/P2p/Walk.antt =====
-- The walk of `_window_shares` in p2pearl/p2p/node.py: which shares it takes, and in which order.
use p2pearl.Prelude.{
  ◌⊎◌, inl, inr, ℕ, zero, suc, true, ◌-◌, ◌≤◌, ◌<◌, ◌≡◌, refl, subst, sym, Bool-cases, Option-cases,
  ltb, Option, none, some, List, [], ◌∷◌, ◌++◌, reverse, length, length-append, All, ℤ, pos_part,
  arith,
}
use mathlib.Core.List.{reverse-cons}
use p2pearl.Prelude.Keys.{Bytes}
use p2pearl.Consensus.Share.{ShareBlock}
use p2pearl.Consensus.Sharechain.{Sharechain, get, is_genesis_prev}
use p2pearl.P2p.{sync_limit, window_back, window_shares}

-- Shares from the oldest on: each is the parent of the next.
abbrev pub Rising : Sharechain → List ShareBlock → Type 0
Rising c [] = Unit
Rising c (s ∷ []) = Unit
Rising c (s ∷ t ∷ ss) = (get c t.prev_share_id ≡ some s) × Rising c (t ∷ ss)

-- Why the walk goes no further than an oldest share with this parent: there is none, it is not stored
-- or is below the height, or no round is left.
pub data Ends (c : Sharechain) (from_height rounds : ℕ) (parent : Bytes) : Type 0 where
  at_genesis : is_genesis_prev parent ≡ true → Ends c from_height rounds parent
  not_stored : get c parent ≡ none → Ends c from_height rounds parent
  too_low :
      {s : ShareBlock}
      → get c parent ≡ some s
      → s.sidechain_height < from_height
      → Ends c from_height rounds parent
  no_round : rounds ≡ 0 → Ends c from_height rounds parent

-- The parent of the oldest share, or the tip where no share was taken.
abbrev pub oldest_parent : Bytes → List ShareBlock → Bytes
oldest_parent tip [] = tip
oldest_parent tip (s ∷ ss) = s.prev_share_id

-- The shares of the chain from a tip back to where the walk ends, the oldest first.
pub record IsWindow (c : Sharechain) (from_height rounds : ℕ) (tip : Bytes) (ss : List ShareBlock)
    : Type 0 where
  pub rising : Rising c ss
  pub high : All (λ s. from_height ≤ s.sidechain_height) ss
  pub newest :
      (ss ≡ [])
      ⊎ ((older : List ShareBlock) × (last : ShareBlock) × (ss ≡ older ++ last ∷ [])
          × (get c tip ≡ some last))
  pub oldest : Ends c from_height (rounds - length ss) (oldest_parent tip ss)

Rising-append :
    (c : Sharechain) (older : List ShareBlock) (last s : ShareBlock)
    → Rising c (older ++ last ∷ [])
    → get c s.prev_share_id ≡ some last
    → Rising c ((older ++ last ∷ []) ++ s ∷ [])
Rising-append c [] last s h e = (e, tt)
Rising-append c (x ∷ []) last s h e = (h.0, (e, tt))
Rising-append c (x ∷ y ∷ older) last s h e = (h.0, Rising-append c (y ∷ older) last s h.1 e)

high-append :
    (h : ℕ) (ss : List ShareBlock) (s : ShareBlock)
    → All (λ s. h ≤ s.sidechain_height) ss
    → h ≤ s.sidechain_height
    → All (λ s. h ≤ s.sidechain_height) (ss ++ s ∷ [])
high-append h [] s k e = (e, tt)
high-append h (x ∷ ss) s k e = (k.0, high-append h ss s k.1 e)

oldest_parent-append :
    (tip : Bytes) (ss : List ShareBlock) (s : ShareBlock)
    → oldest_parent s.prev_share_id ss ≡ oldest_parent tip (ss ++ s ∷ [])
oldest_parent-append tip [] s = refl
oldest_parent-append tip (x ∷ ss) s = refl

-- A walk that takes nothing, and one that takes one share more.
nothing-IsWindow :
    (c : Sharechain) (h rounds : ℕ) (tip : Bytes) → Ends c h rounds tip → IsWindow c h rounds tip []
nothing-IsWindow c h rounds tip e =
    let same : rounds ≡ rounds - 0 = omega arith in
    record {
      rising = tt;
      high = tt;
      newest = inl refl;
      oldest = subst (λ r. Ends c h r tip) same e;
    }

rises :
    (c : Sharechain) (h rounds : ℕ) (s : ShareBlock) (ss : List ShareBlock)
    → IsWindow c h rounds s.prev_share_id ss
    → Rising c (ss ++ s ∷ [])
rises c h rounds s ss k = elim k.newest [
  | inl none_yet ↦ subst (λ x. Rising c (x ++ s ∷ [])) (sym none_yet) tt
  | inr (older, last, e, found) ↦
      subst (λ x. Rising c (x ++ s ∷ [])) (sym e)
        (Rising-append c older last s (subst (Rising c) e k.rising) found)
]

one_more-IsWindow :
    (c : Sharechain) (h rounds : ℕ) (tip : Bytes) (s : ShareBlock) (ss : List ShareBlock)
    → get c tip ≡ some s
    → h ≤ s.sidechain_height
    → IsWindow c h rounds s.prev_share_id ss
    → IsWindow c h (suc rounds) tip (ss ++ s ∷ [])
one_more-IsWindow c h rounds tip s ss found high k =
    let longer : rounds - length ss ≡ suc rounds - length (ss ++ s ∷ []) =
      omega (arith, length-append ss (s ∷ [])) in
    record {
      rising = rises c h rounds s ss k;
      high = high-append h ss s k.high high;
      newest = inr (ss, s, refl, found);
      oldest =
          subst (Ends c h (suc rounds - length (ss ++ s ∷ []))) (oldest_parent-append tip ss s)
            (subst (λ r. Ends c h r (oldest_parent s.prev_share_id ss)) longer k.oldest);
    }

window_back-IsWindow :
    (rounds : ℕ) (c : Sharechain) (h : ℕ) (tip : Bytes)
    → IsWindow c h rounds tip (reverse (window_back rounds c h tip))
unfolding window_back
window_back-IsWindow zero c h tip = nothing-IsWindow c h zero tip (no_round refl)
window_back-IsWindow (suc rounds) c h tip = elim (Bool-cases (is_genesis_prev tip)) [
  | inl first ↦ rw (window_back, first) (nothing-IsWindow c h (suc rounds) tip (at_genesis first))
  | inr later ↦ elim (Option-cases (get c tip)) [
    | inl missing ↦
        rw (window_back, later, missing)
          (nothing-IsWindow c h (suc rounds) tip (not_stored missing))
    | inr (s, found) ↦ elim (Bool-cases (ltb s.sidechain_height h)) [
      | inl low ↦
          rw (window_back, later, found, low)
            (nothing-IsWindow c h (suc rounds) tip (too_low found (ground arith)))
      | inr high ↦
          rw (window_back, later, found, high)
            (subst (IsWindow c h (suc rounds) tip)
              (sym (reverse-cons s (window_back rounds c h s.prev_share_id)))
              (one_more-IsWindow c h rounds tip s (reverse (window_back rounds c h s.prev_share_id))
                found (ground arith) (window_back-IsWindow rounds c h s.prev_share_id)))
    ]
  ]
]

-- What a window is: nothing without a best tip, and else the shares from the tip back.
abbrev pub WindowFrom : Sharechain → ℤ → Option Bytes → List ShareBlock → Type 0
WindowFrom c from_height none ss = ss ≡ []
WindowFrom c from_height (some tip) ss = IsWindow c (pos_part from_height) sync_limit tip ss

abbrev pub WindowOf : Sharechain → ℤ → List ShareBlock → Type 0
WindowOf c from_height ss = WindowFrom c from_height c.best_tip ss

pub window_shares-WindowOf :
    (c : Sharechain) (from_height : ℤ) → WindowOf c from_height (window_shares c from_height)
unfolding window_shares
window_shares-WindowOf c from_height = from c.best_tip
  where
    from :
        (o : Option Bytes)
        → WindowFrom c from_height o (elim o [
          | none ↦ []
          | some tip ↦ reverse (window_back sync_limit c (pos_part from_height) tip)
        ])
    from none = refl
    from (some tip) = window_back-IsWindow sync_limit c (pos_part from_height) tip
