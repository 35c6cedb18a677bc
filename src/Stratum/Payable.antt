-- ===== src/Stratum/Payable.antt =====
-- The payout address of a login in p2pearl/stratum/server.py.
use p2pearl.Prelude.{
  inl, inr, Bool, false, leb, ◌&&◌, if◌then◌else◌, if-elim, Option, none, some, [], ◌∷◌, length,
  drop, ◌≡◌, refl, subst, arith, Option-cases,
}
use p2pearl.Prelude.Keys.{Str}
use p2pearl.Stratum.{one_of, partition_dot, find_hrp, valid_hrps, is_payload, parse_worker}
use p2pearl.Stratum.Logins.{IsAddress}

-- A session pays nobody, or a plausible address.
pub data IsPayable : Option Str → Type 0 where
  nobody : IsPayable none
  somebody : {a : Str} → IsAddress a → IsPayable (some a)

partition_dot_free : (raw : Str) → one_of (partition_dot raw).0 46 ≡ false
unfolding partition_dot one_of
partition_dot_free [] = refl
partition_dot_free (c ∷ cs) = ground (arith, partition_dot_free cs)

unknown_login :
    (raw : Str) → find_hrp valid_hrps (partition_dot raw).0 ≡ none → none ≡ (parse_worker raw).0
unfolding parse_worker
unknown_login raw e = ground (arith, e)

-- Whether the address part of a login, with a prefix, is plausible.
abbrev is_plausible : Str → Str → Bool
is_plausible addr hrp =
    leb 50 (length addr) && leb (length addr) 100 && is_payload (drop (length hrp) addr)

known_login :
    (raw hrp : Str)
    → find_hrp valid_hrps (partition_dot raw).0 ≡ some hrp
    → (if is_plausible (partition_dot raw).0 hrp then some (partition_dot raw).0 else none)
      ≡ (parse_worker raw).0
unfolding parse_worker
known_login raw hrp e = ground (arith, e)

-- The server never takes an address that is not plausible.
pub parse_worker-IsPayable : (raw : Str) → IsPayable (parse_worker raw).0
parse_worker-IsPayable raw =
    let addr : Str = (partition_dot raw).0 in
    elim (Option-cases (find_hrp valid_hrps addr)) [
      | inl missing ↦ subst IsPayable (unknown_login raw missing) nobody
      | inr (hrp, e) ↦ subst IsPayable (known_login raw hrp e) (
          if-elim IsPayable (is_plausible addr hrp) (some addr) none
            (λ h. somebody (record {
              no_dot = partition_dot_free raw;
              hrp = hrp;
              prefixed = e;
              long = ground arith;
              short = ground arith;
              payload = ground arith;
            }))
            (λ _. nobody))
    ]
