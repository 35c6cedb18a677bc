-- ===== src/Consensus/Pplns/Order.antt =====
-- The three sort keys of p2pearl/consensus/pplns.py as orders.
use p2pearl.Prelude.{arith}
use p2pearl.Prelude.Keys.{str_le_total, str_le_trans, str_le_antisymm}
use p2pearl.Prelude.SortLaws.{IsOrder}
use p2pearl.Consensus.Pplns.{lighter, heavier, pays_before}

pub lighter-IsOrder : IsOrder lighter
unfolding lighter
lighter-IsOrder = record {
  total = λ (a, v) (b, w) h. ground (arith, str_le_total a b);
  trans = λ (a, u) (b, v) (c, w) h k. ground (arith, str_le_trans a b c);
  antisymm = λ (a, v) (b, w) h k. ground (arith, str_le_antisymm a b);
}

pub heavier-IsOrder : IsOrder heavier
unfolding heavier
heavier-IsOrder = record {
  total = λ (a, v) (b, w) h. ground (arith, str_le_total a b);
  trans = λ (a, u) (b, v) (c, w) h k. ground (arith, str_le_trans a b c);
  antisymm = λ (a, v) (b, w) h k. ground (arith, str_le_antisymm a b);
}

pub pays_before-IsOrder : IsOrder pays_before
unfolding pays_before
pays_before-IsOrder = record {
  total = λ p q h. ground (arith, str_le_total p.address q.address);
  trans = λ p q r h k. ground (arith, str_le_trans p.address q.address r.address);
  antisymm = λ p q h k. ground (arith, str_le_antisymm p.address q.address);
}
