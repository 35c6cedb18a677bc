-- ===== src/Stratum/Logins.antt =====
-- Worker logins of p2pearl/stratum: the address and the label that a login was put together from.
use p2pearl.Prelude.{◌≤◌, ◌≡◌, refl, true, false, ◌==◌, some, [], ◌∷◌, ◌++◌, length, drop, arith}
use p2pearl.Prelude.Keys.{Str, bytes_key}
use p2pearl.Stratum.{
  valid_hrps, one_of, partition_dot, find_hrp, or_default, is_payload, parse_worker,
}
use p2pearl.Stratum.Session.{full_login}

partition_dot-append :
    (addr label : Str)
    → one_of addr 46 ≡ false
    → partition_dot (addr ++ (46 ∷ label)) ≡ (addr, label)
unfolding partition_dot one_of
partition_dot-append [] label h = refl
partition_dot-append (c ∷ cs) label h =
    let rest = partition_dot-append cs label (ground arith) in
    let other : (c == 46) ≡ false = ground arith in rw (rest, other) refl

partition_dot-whole : (addr : Str) → one_of addr 46 ≡ false → partition_dot addr ≡ (addr, [])
unfolding partition_dot one_of
partition_dot-whole [] h = refl
partition_dot-whole (c ∷ cs) h =
    let rest = partition_dot-whole cs (ground arith) in
    let other : (c == 46) ≡ false = ground arith in rw (rest, other) refl

-- An address that the server takes for one: no dot, a known prefix, between 50 and 100 characters,
-- and the rest in the bech32 alphabet.
pub record IsAddress (addr : Str) : Type 0 where
  pub no_dot : one_of addr 46 ≡ false
  pub hrp : Str
  pub prefixed : find_hrp valid_hrps addr ≡ some hrp
  pub long : 50 ≤ length addr
  pub short : length addr ≤ 100
  pub payload : is_payload (drop (length hrp) addr) ≡ true

address_parts :
    (raw addr label : Str)
    → IsAddress addr
    → partition_dot raw ≡ (addr, label)
    → parse_worker raw ≡ (some addr, or_default label)
unfolding parse_worker
address_parts raw addr label k e = ground (arith, e, k.prefixed, k.long, k.short, k.payload)

-- A miner that authorizes with an address and a worker name, in either dialect, is known by that
-- address and that name, and by the name default where it gives none.
pub parse_worker-full_login :
    (addr name : Str)
    → IsAddress addr
    → (parse_worker (full_login addr name) ≡ (some addr, or_default name))
      × (parse_worker (addr ++ (46 ∷ name)) ≡ (some addr, or_default name))
parse_worker-full_login addr [] k = (
  rw k.no_dot (address_parts addr addr [] k (partition_dot-whole addr k.no_dot)),
  address_parts (addr ++ (46 ∷ [])) addr [] k (partition_dot-append addr [] k.no_dot),
)
parse_worker-full_login addr (c ∷ cs) k = (
  rw k.no_dot (
      address_parts (addr ++ (46 ∷ c ∷ cs)) addr (c ∷ cs) k
        (partition_dot-append addr (c ∷ cs) k.no_dot)),
  address_parts (addr ++ (46 ∷ c ∷ cs)) addr (c ∷ cs) k
      (partition_dot-append addr (c ∷ cs) k.no_dot),
)
