-- ===== src/Pool/Merkle.antt =====
-- The merkle root of p2pearl/daemon.py against the tree that it is the root of.
use native.Mathlib.Nat.{pow-suc}
use p2pearl.Prelude.{
  ℕ, zero, suc, ◌+◌, ◌*◌, ◌^◌, ◌≤◌, ◌<◌, ◌≡◌, refl, sym, ap, ◌∙◌, true, false, leb, if◌then◌else◌,
  Bool-cases, inl, inr, List, [], ◌∷◌, ◌++◌, map, reverse, length, length-drop, take, drop, arith,
}
use p2pearl.Prelude.Keys.{Bytes}
use p2pearl.Consensus.Difficulty.BitLength.{pow_pos}
use p2pearl.Consensus.Share.{double_sha256}
use p2pearl.Pool.Verify.{next_level, merkle_from, tx_merkle_root}

length-take : {A : Type 0} (n : ℕ) (xs : List A) → n ≤ length xs → length (take n xs) ≡ n
length-take zero xs h = refl
length-take (suc n) [] h = absurd (omega arith)
length-take (suc n) (x ∷ xs) h = omega (arith, length-take n xs (omega arith))

length-map : {A : Type 0} (f : A → A) (xs : List A) → length (map f xs) ≡ length xs
length-map f [] = refl
length-map f (x ∷ xs) = ap suc (length-map f xs)

abbrev twice : ℕ → ℕ
twice zero = 0
twice (suc m) = suc (suc (twice m))

twice_lem : (m : ℕ) → twice m ≡ 2 * m
twice_lem zero = omega arith
twice_lem (suc m) = omega (arith, twice_lem m)

module _ (sha256 : Bytes → Bytes) where
  abbrev pub node_hash : Bytes → Bytes → Bytes
  node_hash a b = double_sha256 sha256 (a ++ b)

  -- The hash of a tree of this depth whose leaves are the ids, from the left: a node's children are
  -- the trees of the two halves, and where no id is left for the right one it is the left one again.
  unfoldable pub tree_hash : ℕ → List Bytes → Bytes
  tree_hash zero [] = []
  tree_hash zero (a ∷ as') = a
  tree_hash (suc depth) l =
      let whole = tree_hash depth l in
      let left = tree_hash depth (take (2 ^ depth) l) in
      let right = tree_hash depth (drop (2 ^ depth) l) in
      if leb (length l) (2 ^ depth) then node_hash whole whole else node_hash left right

  length-next_level :
      (l : List Bytes)
      → (2 * length (next_level sha256 l) ≤ length l + 1)
        × (length l ≤ 2 * length (next_level sha256 l))
  unfolding next_level
  length-next_level [] = (omega arith, omega arith)
  length-next_level (a ∷ []) = (omega arith, omega arith)
  length-next_level (a ∷ b ∷ rest) =
      (omega (arith, length-next_level rest), omega (arith, length-next_level rest))

  next_level-take :
      (m : ℕ) (l : List Bytes) → next_level sha256 (take (twice m) l) ≡ take m (next_level sha256 l)
  unfolding next_level
  next_level-take zero l = refl
  next_level-take (suc m) [] = refl
  next_level-take (suc zero) (a ∷ []) = refl
  next_level-take (suc (suc m)) (a ∷ []) = refl
  next_level-take (suc m) (a ∷ b ∷ rest) = ap (◌∷◌ (node_hash a b)) (next_level-take m rest)

  next_level-drop :
      (m : ℕ) (l : List Bytes) → next_level sha256 (drop (twice m) l) ≡ drop m (next_level sha256 l)
  unfolding next_level
  next_level-drop zero l = refl
  next_level-drop (suc m) [] = refl
  next_level-drop (suc zero) (a ∷ []) = refl
  next_level-drop (suc (suc m)) (a ∷ []) = refl
  next_level-drop (suc m) (a ∷ b ∷ rest) = next_level-drop m rest

  tree_hash_fits :
      (d : ℕ) (l : List Bytes)
      → length l ≤ 2 ^ d
      → tree_hash (suc d) l ≡ node_hash (tree_hash d l) (tree_hash d l)
  unfolding tree_hash
  tree_hash_fits d l h =
      let e : leb (length l) (2 ^ d) ≡ true = ground arith in
      ap
        (λ b.
          if b
          then node_hash (tree_hash d l) (tree_hash d l)
          else node_hash (tree_hash d (take (2 ^ d) l)) (tree_hash d (drop (2 ^ d) l)))
        e

  tree_hash_splits :
      (d : ℕ) (l : List Bytes)
      → 2 ^ d < length l
      → tree_hash (suc d) l
        ≡ node_hash (tree_hash d (take (2 ^ d) l)) (tree_hash d (drop (2 ^ d) l))
  unfolding tree_hash
  tree_hash_splits d l h =
      let e : leb (length l) (2 ^ d) ≡ false = ground arith in
      ap
        (λ b.
          if b
          then node_hash (tree_hash d l) (tree_hash d l)
          else node_hash (tree_hash d (take (2 ^ d) l)) (tree_hash d (drop (2 ^ d) l)))
        e

  -- The lowest level of a tree can be hashed first.
  tree_hash-next_level :
      (d : ℕ) (l : List Bytes)
      → 0 < length l
      → length l ≤ 2 ^ suc d
      → tree_hash (suc d) l ≡ tree_hash d (next_level sha256 l)
  unfolding tree_hash next_level
  tree_hash-next_level zero [] p h = absurd (omega arith)
  tree_hash-next_level zero (a ∷ []) p h = refl
  tree_hash-next_level zero (a ∷ b ∷ []) p h = refl
  tree_hash-next_level zero (a ∷ b ∷ c ∷ rest) p h = absurd (omega arith)
  tree_hash-next_level (suc d) l p h =
      let half = 2 ^ suc d in
      let doubled : half ≡ 2 * 2 ^ d = omega (arith, pow-suc 2 d) in
      let doubled' : 2 ^ suc (suc d) ≡ 2 * half = omega (arith, pow-suc 2 (suc d)) in
      let even : half ≡ twice (2 ^ d) = doubled ∙ sym (twice_lem (2 ^ d)) in
      let up = next_level sha256 l in
      let (upper, lower) = length-next_level l in
      elim (Bool-cases (leb (length l) half)) [
        | inl fits ↦
            let small : length l ≤ half = ground arith in
            let s = tree_hash-next_level d l p small in
            tree_hash_fits (suc d) l small
            ∙ (ap (λ x. node_hash x x) s
                ∙ sym (tree_hash_fits d up (omega (arith, upper, small, doubled))))
        | inr over ↦
            let large : half < length l = ground arith in
            let left : next_level sha256 (take half l) ≡ take (2 ^ d) up =
              ap (λ n. next_level sha256 (take n l)) even ∙ next_level-take (2 ^ d) l in
            let right : next_level sha256 (drop half l) ≡ drop (2 ^ d) up =
              ap (λ n. next_level sha256 (drop n l)) even ∙ next_level-drop (2 ^ d) l in
            let taken = length-take half l (omega arith) in
            let dropped = length-drop half l in
            let s =
              tree_hash-next_level d (take half l) (omega (arith, taken, pow_pos (suc d)))
                (omega (arith, taken)) in
            let t =
              tree_hash-next_level d (drop half l) (omega (arith, dropped, large))
                (omega (arith, dropped, h, doubled')) in
            tree_hash_splits (suc d) l large
            ∙ (ap (λ x. node_hash x (tree_hash (suc d) (drop half l))) (s ∙ ap (tree_hash d) left)
                ∙ (ap (node_hash (tree_hash d (take (2 ^ d) up))) (t ∙ ap (tree_hash d) right)
                    ∙ sym (tree_hash_splits d up (omega (arith, lower, large, doubled)))))
      ]

  merkle_from-tree_hash :
      (fuel d : ℕ) (l : List Bytes)
      → length l ≤ fuel
      → 0 < length l
      → length l ≤ 2 ^ d
      → 2 ^ d < 2 * length l
      → merkle_from sha256 fuel l ≡ tree_hash d l
  unfolding merkle_from tree_hash
  merkle_from-tree_hash fuel d [] f p h k = absurd (omega arith)
  merkle_from-tree_hash fuel zero (a ∷ []) f p h k = refl
  merkle_from-tree_hash fuel (suc d) (a ∷ []) f p h k =
      absurd (omega (arith, pow-suc 2 d, pow_pos d))
  merkle_from-tree_hash fuel zero (a ∷ b ∷ rest) f p h k = absurd (omega arith)
  merkle_from-tree_hash zero (suc d) (a ∷ b ∷ rest) f p h k = absurd (omega arith)
  merkle_from-tree_hash (suc fuel) (suc d) (a ∷ b ∷ rest) f p h k =
      let l = a ∷ b ∷ rest in
      let up = next_level sha256 l in
      let (upper, lower) = length-next_level l in
      let doubled = pow-suc 2 d in
      merkle_from-tree_hash fuel d up (omega (arith, upper)) (omega (arith, lower))
        (omega (arith, upper, h, doubled)) (omega (arith, lower, k, doubled))
      ∙ sym (tree_hash-next_level d l p h)

  -- The merkle root of any ids, of which there is one at least, is the hash of the smallest tree that
  -- has room for them, with the ids' bytes in reverse order, and reversed in the end.
  pub tx_merkle_root-tree_hash :
      (d : ℕ) (ids : List Bytes)
      → 0 < length ids
      → length ids ≤ 2 ^ d
      → 2 ^ d < 2 * length ids
      → tx_merkle_root sha256 ids ≡ reverse (tree_hash d (map reverse ids))
  unfolding tx_merkle_root
  tx_merkle_root-tree_hash d [] p h k = absurd (omega arith)
  tx_merkle_root-tree_hash d (a ∷ as') p h k =
      let l = map reverse (a ∷ as') in
      let same = length-map reverse (a ∷ as') in
      ap reverse (
        merkle_from-tree_hash (length (a ∷ as')) d l (omega (arith, same)) (omega (arith, same))
          (omega (arith, same, h)) (omega (arith, same, k)))
