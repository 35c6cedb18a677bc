-- ===== src/Desktop/Payouts.antt =====
-- The payout table of p2pearl/gui.py. A percentage is a whole number of hundredths, up to 100%.
use p2pearl.Prelude.{
  ℕ, zero, suc, ◌+◌, ◌/◌, ◌%◌, ◌^◌, ◌&&◌, not, ltb, ◌==◌, if◌then◌else◌, Option, none, some, List,
  [], ◌∷◌, ◌++◌, map, take,
}
use p2pearl.Prelude.Keys.{Str}
use p2pearl.Prelude.Text.{codes, or_str, rstrip, decimal}
use p2pearl.Config.{grain_per_pearl}
use p2pearl.Desktop.Floats.{divide, places_8}
use p2pearl.Pool.{Snapshot, EstimateRow}

-- The last digits of a number, as many as asked for.
unfoldable pub decimal_width : ℕ → ℕ → Str
decimal_width zero n = []
decimal_width (suc w) n = (48 + (n / 10 ^ w) % 10) ∷ decimal_width w (n % 10 ^ w)

-- Eight places and a point.
abbrev pub fixed_8 : ℕ → Str
fixed_8 places =
    decimal (places / grain_per_pearl) ++ (46 ∷ decimal_width 8 (places % grain_per_pearl))

unfoldable pub format_prl_amount : ℕ → Str
format_prl_amount grains =
    or_str (rstrip (λ c. c == 46) (rstrip (λ c. c == 48) (fixed_8 (places_8 (divide grains)))))
      (codes "0")

-- `f"{n:,}"`; a number has fewer groups than the rounds.
unfoldable pub grouped_from : ℕ → ℕ → Str
grouped_from zero n = []
grouped_from (suc rounds) n =
    let high = grouped_from rounds (n / 1000) in
    if ltb n 1000 then decimal n else high ++ (44 ∷ decimal_width 3 (n % 1000))

unfoldable pub grouped : ℕ → Str
unfolding grouped_from
grouped n = grouped_from (suc n) n

-- `f"{bps / 100:.2f}%"`
unfoldable pub percent : ℕ → Str
unfolding decimal_width
percent bps = decimal (bps / 100) ++ (46 ∷ (decimal_width 2 (bps % 100) ++ codes "%"))

unfoldable pub payout_stats_summary : Option Snapshot → Str
payout_stats_summary none = codes "No accepted shares yet."
payout_stats_summary (some s) = elim s.addresses [
  | [] ↦ codes "No accepted shares yet."
  | _ ∷ _ ↦
      codes "PPLNS window: "
      ++ (decimal s.window_shares
          ++ (codes " / "
              ++ (decimal s.window_max
                  ++ (codes " shares; next block reward: "
                      ++ (format_prl_amount s.block_reward_grains ++ codes " PRL")))))
]

-- The four columns.
pub record Row : Type 0 where
  pub wallet : Str
  pub share : Str
  pub payout : Str
  pub weight : Str

unfoldable pub payout_text : ℕ → EstimateRow → Str
payout_text min_payout r =
    if (r.estimated_grains == 0) && (ltb 0 r.potential_grains && not (min_payout == 0))
    then codes "<" ++ (format_prl_amount min_payout ++ codes " PRL")
    else format_prl_amount r.estimated_grains ++ codes " PRL"

unfoldable pub payout_stats_row : ℕ → EstimateRow → Row
unfolding payout_text
payout_stats_row min_payout r = record {
  wallet = r.address;
  share = percent r.percent_bps;
  payout = payout_text min_payout r;
  weight = grouped r.weight;
}

unfoldable pub payout_stats_rows : Option Snapshot → ℕ → List Row
unfolding payout_stats_row
payout_stats_rows none limit = []
payout_stats_rows (some s) limit =
    map (payout_stats_row s.min_payout_grains) (take limit s.addresses)
