-- ===== src/Pool/Estimate.antt =====
-- The payout estimate that p2pearl/daemon.py prints for terminal users, in one line.
use p2pearl.Prelude.{
  ℕ, ◌-◌, ◌/◌, ◌%◌, ◌&&◌, ltb, leb, ◌==◌, if◌then◌else◌, List, [], ◌∷◌, ◌++◌, map, take, drop,
  length, ◌≡◌, refl,
}
use p2pearl.Prelude.Keys.{Str}
use p2pearl.Prelude.Text.{codes, or_str, rstrip, decimal}
use p2pearl.Desktop.Floats.{divide, places_8}
use p2pearl.Desktop.Payouts.{decimal_width, fixed_8}
use p2pearl.Pool.{EstimateRow, Snapshot}

unfoldable pub prl : ℕ → Str
prl grains =
    or_str (rstrip (λ c. c == 46) (rstrip (λ c. c == 48) (fixed_8 (places_8 (divide grains)))))
      (codes "0")

-- `s[-n:]`
abbrev last_of : ℕ → Str → Str
last_of n s = drop (length s - n) s

unfoldable pub short_addr : Str → Str
short_addr address =
    if leb (length address) 18
    then address
    else take 10 address ++ (codes "..." ++ last_of 6 address)

unfoldable pub estimate_text : ℕ → EstimateRow → Str
unfolding prl
estimate_text min_payout r =
    if (r.estimated_grains == 0) && ltb 0 r.potential_grains
    then codes "<" ++ (prl min_payout ++ codes " PRL")
    else prl r.estimated_grains ++ codes " PRL"

unfoldable pub estimate_part : ℕ → EstimateRow → Str
unfolding short_addr estimate_text decimal_width
estimate_part min_payout r =
    short_addr r.address
    ++ (codes ": "
        ++ (decimal (r.percent_bps / 100)
            ++ (46
                ∷ (decimal_width 2 (r.percent_bps % 100)
                    ++ (codes "% ~" ++ estimate_text min_payout r)))))

-- `", ".join(parts)`
unfoldable pub comma_join : List Str → Str
comma_join [] = []
comma_join (p ∷ []) = p
comma_join (p ∷ q ∷ ps) = p ++ (codes ", " ++ comma_join (q ∷ ps))

abbrev more_text : ℕ → Str
more_text n = if leb n 3 then [] else codes "; +" ++ (decimal (n - 3) ++ codes " more")

unfoldable pub format_payout_estimate : Snapshot → Str
unfolding estimate_part comma_join
format_payout_estimate s =
    let window = decimal s.window_shares ++ (47 ∷ decimal s.window_max) in
    elim s.addresses [
      | [] ↦ codes "  payout est  : window " ++ (window ++ codes "; no accepted shares yet")
      | r ∷ rs ↦
          codes "  payout est  : window "
          ++ (window
              ++ (codes "; "
                  ++ (comma_join (map (estimate_part s.min_payout_grains) (take 3 (r ∷ rs)))
                      ++ more_text (length (r ∷ rs)))))
    ]

short : short_addr (codes "prl1pqqqqqqqqqqqqqqqq") ≡ codes "prl1pqqqqq...qqqqqq"
unfolding short_addr
short = refl
