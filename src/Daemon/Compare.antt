-- ===== src/Daemon/Compare.antt =====
-- reconciliation_daemon.py: `compare_pair` and `compare_three_sources`. Sets of tickers are listed
-- in the order of the books.
pub mod Agreement
use blackhole_network.Base.{
  ℕ, ◌*◌, String, Bool, none, some, List, [], ◌∷◌, ◌++◌, get, ltb, if◌then◌else◌,
}
use blackhole_network.Base.Int.{ℤ, ◌-ℤ◌, scale, abs, eqb_ℤ}
use blackhole_network.Core.Types.{Ratio}
use blackhole_network.Daemon.Sources.{Holding, Book}

pub data Source : Type 0 where
  alpaca pg nj_cache : Source

pub data Difference : Type 0 where
  only_in_a only_in_b : Difference
  qty_differs : ℤ → ℤ → Difference
  price_differs : Ratio → Ratio → Difference

pub record PairMismatch : Type 0 where
  pub source_a : Source
  pub source_b : Source
  pub ticker : String
  pub difference : Difference

-- PRICE_TOLERANCE, $0.005 in ten-thousandths
abbrev pub price_tolerance : ℕ
price_tolerance = 50

-- abs(a - b) > PRICE_TOLERANCE, multiplied out by both denominators
unfoldable pub price_drifts : Ratio → Ratio → Bool
price_drifts a b =
    ltb (price_tolerance * (a.den * b.den)) (abs (scale b.den a.num -ℤ scale a.den b.num))

module _ (name_a name_b : Source) where
  abbrev found : String → Difference → PairMismatch
  found ticker d = record { source_a = name_a; source_b = name_b; ticker = ticker; difference = d }

  -- tickers_a - tickers_b, or the other way round
  unfoldable pub missing_from : Difference → Book → Book → List PairMismatch
  missing_from d [] other = []
  missing_from d ((ticker, h) ∷ book) other =
      let rest = missing_from d book other in
      elim (get ticker other) [ none ↦ found ticker d ∷ rest | some k ↦ rest ]

  abbrev pub compare_holdings : String → Holding → Holding → List PairMismatch
  unfolding price_drifts
  compare_holdings ticker a b =
      (if eqb_ℤ a.qty b.qty then [] else found ticker (qty_differs a.qty b.qty) ∷ [])
      ++ (if price_drifts a.avg_entry_price b.avg_entry_price
          then found ticker (price_differs a.avg_entry_price b.avg_entry_price) ∷ []
          else [])

  unfoldable pub compare_common : Book → Book → List PairMismatch
  unfolding price_drifts
  compare_common [] other = []
  compare_common ((ticker, a) ∷ book) other =
      let rest = compare_common book other in
      elim (get ticker other) [ none ↦ rest | some b ↦ compare_holdings ticker a b ++ rest ]

  unfoldable pub compare_pair : Book → Book → List PairMismatch
  unfolding missing_from compare_common
  compare_pair a b =
      missing_from only_in_a a b ++ (missing_from only_in_b b a ++ compare_common a b)

unfoldable pub compare_three_sources : Book → Book → Book → List PairMismatch
unfolding compare_pair
compare_three_sources at_alpaca at_pg at_nj =
    compare_pair alpaca pg at_alpaca at_pg
    ++ (compare_pair alpaca nj_cache at_alpaca at_nj ++ compare_pair pg nj_cache at_pg at_nj)
