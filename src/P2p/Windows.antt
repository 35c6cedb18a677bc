-- ===== src/P2p/Windows.antt =====
-- Window sync in p2pearl/p2p/node.py: which shares are served, and in which messages.
use p2pearl.Prelude.{
  ℕ, zero, suc, ◌+◌, ◌≤◌, ◌<◌, ◌≡◌, refl, ap, ◌∙◌, Bool, ltb, leb, Bool-cases, Option-cases, leb→lt,
  inl, inr, none, some, List, [], ◌∷◌, ◌++◌, length, length-append, length-reverse, All, ℤ,
  pos_part, arith,
}
use p2pearl.Prelude.Result.{ok, raise, Result-cases}
use p2pearl.Prelude.Keys.{Bytes, Str, bytes_key}
use p2pearl.Prelude.Dict.{lookup}
use p2pearl.Prelude.Hex.{hex}
use p2pearl.Consensus.Share.{ShareBlock, serialize}
use p2pearl.Consensus.Sharechain.{Sharechain, get, is_genesis_prev}
use p2pearl.P2p.{Msg, Effect, send, Node, sync_limit, sync_batch, window_back, window_shares}
use p2pearl.P2p.Walk.{WindowOf, window_shares-WindowOf}
use p2pearl.P2p.Handlers.{batches, on_getshares}

length-window_back-le :
    (rounds : ℕ) (c : Sharechain) (from_height : ℕ) (cur : Bytes)
    → length (window_back rounds c from_height cur) ≤ rounds
unfolding window_back
length-window_back-le zero c from_height cur = omega arith
length-window_back-le (suc rounds) c from_height cur = elim (Bool-cases (is_genesis_prev cur)) [
  | inl first ↦ rw (window_back, first) (omega arith)
  | inr later ↦ elim (Option-cases (get c cur)) [
    | inl missing ↦ rw (window_back, later, missing) (omega arith)
    | inr (s, found) ↦ elim (Bool-cases (ltb s.sidechain_height from_height)) [
      | inl low ↦ rw (window_back, later, found, low) (omega arith)
      | inr high ↦
          rw (window_back, later, found, high)
            (omega (arith, length-window_back-le rounds c from_height s.prev_share_id))
    ]
  ]
]

-- The pairs that can be served: a share's bytes and its proof, where there is one.
unfoldable pub servable : (Bytes → Bytes) → Node → List ShareBlock → List (Str × Str)
servable sha256 n [] = []
servable sha256 n (s ∷ ss) = elim (serialize s) [
  | raise e ↦ []
  | ok payload ↦ elim (lookup (hex (sha256 (sha256 payload))) n.proofs) [
    | none ↦ servable sha256 n ss
    | some proof_b64 ↦ (hex payload, proof_b64) ∷ servable sha256 n ss
  ]
]

-- The pairs that the messages carry, in order.
unfoldable pub sent_pairs : List Effect → List (Str × Str)
sent_pairs [] = []
sent_pairs (send p (Msg.shares pairs) ∷ es) = pairs ++ sent_pairs es
sent_pairs (_ ∷ es) = sent_pairs es

-- A window message for the peer, with one to eight shares.
abbrev pub IsBatch : ℕ → Effect → Type 0
IsBatch peer e =
    (pairs : List (Str × Str)) × (e ≡ send peer (Msg.shares pairs))
    × (0 < length pairs)
    × (length pairs ≤ sync_batch)

append_assoc : (a b c : List (Str × Str)) → (a ++ b) ++ c ≡ a ++ (b ++ c)
append_assoc [] b c = refl
append_assoc (x ∷ a) b c = ap (◌∷◌ x) (append_assoc a b c)

-- That all shares can be serialized.
abbrev pub AllSerialize : List ShareBlock → Type 0
AllSerialize = All (λ s. (payload : Bytes) × (serialize s ≡ ok payload))

module _ (sha256 : Bytes → Bytes) (verify : Sharechain → ShareBlock → Str → Bool) (now peer : ℕ)
    (n : Node) where
  batches-IsBatch :
      (batch : List (Str × Str)) (ss : List ShareBlock)
      → length batch < sync_batch
      → All (IsBatch peer) (batches sha256 verify now peer n batch ss)
  unfolding batches
  batches-IsBatch [] [] h = tt
  batches-IsBatch (b ∷ bs) [] h = ((b ∷ bs, refl, omega arith, omega arith), tt)
  batches-IsBatch batch (s ∷ ss) h = elim (Result-cases (serialize s)) [
    | inl (e, raised) ↦ rw (batches, raised) tt
    | inr (payload, e) ↦ elim (Option-cases (lookup (hex (sha256 (sha256 payload))) n.proofs)) [
      | inl missing ↦ rw (batches, e, missing) (batches-IsBatch batch ss h)
      | inr (b64, found) ↦
          let full = batch ++ (hex payload, b64) ∷ [] in
          let longer : length full ≡ length batch + 1 =
            length-append batch ((hex payload, b64) ∷ []) in
          elim (Bool-cases (leb sync_batch (length full))) [
            | inl whole ↦
                rw (batches, e, found, whole)
                  (
                    (full, refl, omega (arith, longer), omega (arith, longer, h)),
                    batches-IsBatch [] ss (omega arith),
                  )
            | inr part ↦ rw (batches, e, found, part) (batches-IsBatch full ss (leb→lt _ _ part))
          ]
    ]
  ]

  sent_pairs-batches :
      (batch : List (Str × Str)) (ss : List ShareBlock)
      → AllSerialize ss
      → sent_pairs (batches sha256 verify now peer n batch ss) ≡ batch ++ servable sha256 n ss
  unfolding batches servable sent_pairs
  sent_pairs-batches [] [] k = refl
  sent_pairs-batches (b ∷ bs) [] k = refl
  sent_pairs-batches batch (s ∷ ss) ((payload, e), k) =
      elim (Option-cases (lookup (hex (sha256 (sha256 payload))) n.proofs)) [
        | inl missing ↦ rw (batches, servable, e, missing) (sent_pairs-batches batch ss k)
        | inr (b64, found) ↦
            let full = batch ++ (hex payload, b64) ∷ [] in
            let joined = append_assoc batch ((hex payload, b64) ∷ []) (servable sha256 n ss) in
            elim (Bool-cases (leb sync_batch (length full))) [
              | inl whole ↦
                  rw (batches, servable, e, found, whole)
                    (ap (◌++◌ full) (sent_pairs-batches [] ss k) ∙ joined)
              | inr part ↦
                  rw (batches, servable, e, found, part) (sent_pairs-batches full ss k ∙ joined)
            ]
      ]

-- A request for a window is answered by messages of one to eight shares each, which together carry,
-- in this order, exactly those shares of the window whose proofs are stored. The window has the
-- shares from the best tip back, each followed by its child, so the oldest comes first; it ends
-- with the first share of the chain, before one below the height asked for or one that is not stored,
-- or at 2048 shares. The shares of the window must have fields in range, so that they can be
-- serialized.
pub on_getshares-IsBatch :
    (sha256 : Bytes → Bytes) (verify : Sharechain → ShareBlock → Str → Bool) (now peer : ℕ)
    (from_height : ℤ) (n : Node)
    → AllSerialize (window_shares n.sharechain from_height)
    → let window = window_shares n.sharechain from_height in
      let sent = (on_getshares sha256 verify now peer from_height n).1 in
      All (IsBatch peer) sent
      × (sent_pairs sent ≡ servable sha256 n window)
      × (length window ≤ sync_limit)
      × WindowOf n.sharechain from_height window
unfolding on_getshares window_shares window_back
on_getshares-IsBatch sha256 verify now peer from_height n k = (
  batches-IsBatch sha256 verify now peer n [] (window_shares n.sharechain from_height)
      (omega arith),
  sent_pairs-batches sha256 verify now peer n [] (window_shares n.sharechain from_height) k,
  elim (Option-cases n.sharechain.best_tip) [
    | inl none_yet ↦ rw none_yet (omega arith)
    | inr (tip, e) ↦
        let back = window_back sync_limit n.sharechain (pos_part from_height) tip in
        rw (e, length-reverse back)
          (length-window_back-le sync_limit n.sharechain (pos_part from_height) tip)
  ],
  window_shares-WindowOf n.sharechain from_height,
)
