-- ===== src/P2p/Links.antt =====
-- The peers that a node of p2pearl/p2p/node.py is connected to, as a list.
use p2pearl.Prelude.{
  ℕ, ◌≤◌, ◌<◌, ◌==◌, ◌≡◌, subst, inl, inr, if-elim, Bool-cases, some, List, [], ◌∷◌, ◌++◌, All,
  arith,
}
use p2pearl.Prelude.Keys.{Str}
use p2pearl.P2p.Rate.{hard_rate_strikes}
use p2pearl.P2p.Network.{max_msgs_per_conn, Link, new_link, find_link, put_link, discard_link}

-- A peer that is still connected has sent no more messages than it may, and is below the strikes at
-- which it is dropped.
pub record IsLink (l : Link) : Type 0 where
  pub few : l.count ≤ max_msgs_per_conn
  pub polite : l.peer.strikes < hard_rate_strikes

pub IsLink-discard : (id : ℕ) (ls : List Link) → All IsLink ls → All IsLink (discard_link id ls)
unfolding discard_link
IsLink-discard id [] h = h
IsLink-discard id (l ∷ ls) h =
    if-elim (All IsLink) (l.peer.peer_id == id) ls (l ∷ discard_link id ls) (λ _. h.1)
      (λ _. (h.0, IsLink-discard id ls h.1))

pub IsLink-put :
    (id : ℕ) (k : Link) (ls : List Link) → IsLink k → All IsLink ls → All IsLink (put_link id k ls)
unfolding put_link
IsLink-put id k [] good h = h
IsLink-put id k (l ∷ ls) good h =
    if-elim (All IsLink) (l.peer.peer_id == id) (k ∷ ls) (l ∷ put_link id k ls) (λ _. (good, h.1))
      (λ _. (h.0, IsLink-put id k ls good h.1))

pub IsLink-new :
    (host : Str) (id : ℕ) (ls : List Link)
    → All IsLink ls
    → All IsLink (ls ++ (new_link host id ∷ []))
IsLink-new host id [] h = (record { few = omega arith; polite = omega arith }, tt)
IsLink-new host id (l ∷ ls) h = (h.0, IsLink-new host id ls h.1)

pub find_link-IsLink :
    (id : ℕ) (ls : List Link) (l : Link) → find_link id ls ≡ some l → All IsLink ls → IsLink l
unfolding find_link
find_link-IsLink id [] l e h = absurd (ground arith)
find_link-IsLink id (k ∷ ls) l e h = elim (Bool-cases (k.peer.peer_id == id)) [
  | inl here ↦ let same : k ≡ l = ground arith in subst IsLink same h.0
  | inr later ↦ find_link-IsLink id ls l (ground arith) h.1
]
