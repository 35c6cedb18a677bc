-- ===== src/Consensus/Sharechain/Invariant.antt =====
-- The invariant of the store of p2pearl/consensus/sharechain.py, and pruning.
use p2pearl.Prelude.{
  ℕ, ◌-◌, ◌≤◌, ◌≡◌, refl, sym, subst, ltb, leb, if◌then◌else◌, if-elim, Bool-cases, Option-cases,
  inl, inr, Option, none, some, [], ◌∷◌, arith,
}
use p2pearl.Prelude.Result.{ok}
use p2pearl.Prelude.Keys.{Bytes, bytes_key, bytes_eq_iff}
use p2pearl.Prelude.Dict.{lookup, IsDict}
use p2pearl.Consensus.Share.{share_id}
use p2pearl.Consensus.Sharechain.{Entry, Entries, Sharechain, tip}
use p2pearl.Consensus.Sharechain.Add.{keep_from, prune}

-- The entry of `b` is stored and no other has more work.
abbrev pub IsHeaviest : Entries → Bytes → Type 0
IsHeaviest d b =
    (e : Entry) × (lookup b d ≡ some e)
    × ((k : Bytes) (f : Entry)
        → lookup k d ≡ some f
        → f.cumulative_difficulty ≤ e.cumulative_difficulty)

-- There is no best tip only where nothing is stored.
abbrev pub IsBestTip : Entries → Option Bytes → Type 0
IsBestTip d none = d ≡ []
IsBestTip d (some b) = IsHeaviest d b

-- Every share is stored under its own id.
abbrev pub HasIds : (Bytes → Bytes) → Entries → Type 0
HasIds sha256 d = (k : Bytes) (e : Entry) → lookup k d ≡ some e → share_id sha256 e.share ≡ ok k

pub record IsValid (sha256 : Bytes → Bytes) (c : Sharechain) : Type 0 where
  pub unique : IsDict c.entries
  pub ids : HasIds sha256 c.entries
  pub best : IsBestTip c.entries c.best_tip

-- Pruning.
lookup-keep_from-none :
    (n : ℕ) (k : Bytes) (d : Entries) → lookup k d ≡ none → lookup k (keep_from n d) ≡ none
unfolding lookup keep_from
lookup-keep_from-none n k [] h = refl
lookup-keep_from-none n k (e ∷ d) h = ground (arith, lookup-keep_from-none n k d)

keep_from-IsDict : (n : ℕ) (d : Entries) → IsDict d → IsDict (keep_from n d)
unfolding keep_from
keep_from-IsDict n [] h = h
keep_from-IsDict n (e ∷ d) h =
    if-elim IsDict (ltb e.1.share.sidechain_height n) (keep_from n d) (e ∷ keep_from n d)
      (λ _. keep_from-IsDict n d h.1)
      (λ _. (lookup-keep_from-none n e.0 d h.0, keep_from-IsDict n d h.1))

-- What is left of an entry by pruning at height `n`.
abbrev pub kept_by : ℕ → Option Entry → Option Entry
kept_by n none = none
kept_by n (some e) = if ltb e.share.sidechain_height n then none else some e

pub lookup-keep_from :
    (n : ℕ) (k : Bytes) (d : Entries) → IsDict d → lookup k (keep_from n d) ≡ kept_by n (lookup k d)
unfolding lookup keep_from
lookup-keep_from n k [] u = refl
lookup-keep_from n k ((j, f) ∷ d) u = elim (Bool-cases (ltb f.share.sidechain_height n)) [
  | inl q ↦
      rw (q, keep_from)
        (ground (arith, bytes_eq_iff j k, lookup-keep_from n k d u.1, lookup-keep_from-none n k d))
  | inr q ↦ rw (q, keep_from) (ground (arith, bytes_eq_iff j k, lookup-keep_from n k d u.1))
]

module _ (sha256 : Bytes → Bytes) (c : Sharechain) (v : IsValid sha256 c) where
  was_there :
      (n : ℕ) (k : Bytes) (e : Entry)
      → lookup k (keep_from n c.entries) ≡ some e
      → lookup k c.entries ≡ some e
  was_there n k e h = ground (arith, lookup-keep_from n k c.entries v.unique)

  cut-IsValid :
      (n : ℕ) (b : Bytes)
      → c.best_tip ≡ some b
      → ((e : Entry) → lookup b c.entries ≡ some e → n ≤ e.share.sidechain_height)
      → IsValid sha256 (record c { entries = keep_from n c.entries })
  cut-IsValid n b eb high =
      let (t, found, most) = subst (IsBestTip c.entries) eb v.best in
      let stays : lookup b (keep_from n c.entries) ≡ some t =
        rw (lookup-keep_from n b c.entries v.unique, found) (ground (arith, high t found)) in
      record {
        unique = keep_from-IsDict n c.entries v.unique;
        ids = λ k f h. v.ids k f (was_there n k f h);
        best =
            subst (IsBestTip (keep_from n c.entries)) (sym eb)
              (t, stays, λ k f h. most k f (was_there n k f h));
      }

  prune_at :
      (b : Bytes) (t : Entry)
      → c.best_tip ≡ some b
      → lookup b c.entries ≡ some t
      → IsValid sha256 (prune c)
  unfolding prune
  prune_at b t eb found =
      let cutoff = t.share.sidechain_height - c.retention in
      let cut = record c { entries = keep_from cutoff c.entries } in
      let same : (if leb cutoff 0 then c else cut) ≡ prune c = ground arith in
      subst (IsValid sha256) same (
        if-elim (IsValid sha256) (leb cutoff 0) c cut (λ _. v)
          (λ _. cut-IsValid cutoff b eb (λ e h. ground arith)))

  -- Pruning keeps the invariant: it never drops the best tip.
  pub prune-IsValid : IsValid sha256 (prune c)
  unfolding prune
  prune-IsValid = elim (Option-cases c.best_tip) [
    | inl nothing ↦ let same : c ≡ prune c = ground arith in subst (IsValid sha256) same v
    | inr (b, eb) ↦
        let heaviest = subst (IsBestTip c.entries) eb v.best in prune_at b heaviest.0 eb heaviest.1
  ]

  -- Pruning leaves the best tip, and what it leaves was there.
  pub prune-best_tip : (prune c).best_tip ≡ c.best_tip
  unfolding prune
  prune-best_tip = ground arith

  pub lookup-prune :
      (k : Bytes) (e : Entry) → lookup k (prune c).entries ≡ some e → lookup k c.entries ≡ some e
  unfolding prune
  lookup-prune k e h = elim (Option-cases (tip c)) [
    | inl nothing ↦ ground arith
    | inr (t, found) ↦
        let cutoff = t.sidechain_height - c.retention in
        elim (Bool-cases (leb cutoff 0)) [
          | inl low ↦ ground arith
          | inr high ↦ was_there cutoff k e (ground arith)
        ]
  ]
