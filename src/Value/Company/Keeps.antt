-- ===== src/Value/Company/Keeps.antt =====
-- strategy_value.py: the screen of strategy 2, for a relation between worlds that looks at paper_trades
-- alone.
use blackhole_network.Base.{ℕ, String, Bool, Option, none, some, List, [], ◌∷◌, ◌≡◌}
use blackhole_network.Core.World.{World, Env, Client, Result, Fields}
use blackhole_network.Core.Monad.Keeps.{IsPreorder, Keeps}
use blackhole_network.Strategies.Entry.Steps.{step_rules}
use blackhole_network.Value.Screen.{Figure, Answer}
use blackhole_network.Value.Company.{
  Rules, Endpoint, Candidate, fmp_get, get_row, get_52w_decline_pct, with_ratio, with_balance,
  with_figures, with_ratios, with_profile, passes_buffett_filter, qualify,
}

module _ {R : World → World → Type 0} (o : IsPreorder R)
    (same : (w w' : World) → w'.trades ≡ w.trades → R w w') (env : Env) (has_key : Bool)
    (fmp : Endpoint → ℕ → Answer) (bars : Client → String → Result (List ℕ)) (rules : Rules) where
  pub fmp_get-Keeps : (endpoint : Endpoint) → Keeps R (fmp_get env has_key fmp bars rules endpoint)
  unfolding fmp_get
  fmp_get-Keeps endpoint = search step_rules

  pub get_row-Keeps : (endpoint : Endpoint) → Keeps R (get_row env has_key fmp bars rules endpoint)
  get_row-Keeps endpoint = search (step_rules, fmp_get-Keeps)

  get_52w_decline_pct-Keeps :
      (ticker : String) → Keeps R (get_52w_decline_pct env has_key fmp bars rules ticker)
  unfolding get_52w_decline_pct
  get_52w_decline_pct-Keeps ticker = search step_rules depth 20

  with_ratio-Keeps :
      (ticker : String) (pe pb roe : Figure) (de : Option (Figure × Figure))
      → Keeps R (with_ratio env has_key fmp bars rules ticker pe pb roe de)
  with_ratio-Keeps ticker pe pb roe none = search step_rules
  with_ratio-Keeps ticker pe pb roe (some de) = search (step_rules, get_52w_decline_pct-Keeps)

  with_balance-Keeps :
      (ticker : String) (pe pb roe : Figure) (bs : Option Fields)
      → Keeps R (with_balance env has_key fmp bars rules ticker pe pb roe bs)
  with_balance-Keeps ticker pe pb roe none = search step_rules
  with_balance-Keeps ticker pe pb roe (some bs) = with_ratio-Keeps ticker pe pb roe _

  with_figures-Keeps :
      (ticker : String) (pe pb roe : Option Figure)
      → Keeps R (with_figures env has_key fmp bars rules ticker pe pb roe)
  with_figures-Keeps ticker none pb roe = search step_rules
  with_figures-Keeps ticker (some pe) none roe = search step_rules
  with_figures-Keeps ticker (some pe) (some pb) none = search step_rules
  with_figures-Keeps ticker (some pe) (some pb) (some roe) =
      search (step_rules, get_row-Keeps, with_balance-Keeps)

  with_ratios-Keeps :
      (ticker : String) (r : Option Fields)
      → Keeps R (with_ratios env has_key fmp bars rules ticker r)
  with_ratios-Keeps ticker none = search step_rules
  with_ratios-Keeps ticker (some r) = with_figures-Keeps ticker _ _ _

  with_profile-Keeps :
      (ticker : String) (p : Option Fields)
      → Keeps R (with_profile env has_key fmp bars rules ticker p)
  with_profile-Keeps ticker none = search step_rules
  with_profile-Keeps ticker (some p) = search (step_rules, get_row-Keeps, with_ratios-Keeps)

  passes_buffett_filter-Keeps :
      (ticker : String) (upcoming : List String)
      → Keeps R (passes_buffett_filter env has_key fmp bars rules ticker upcoming)
  unfolding passes_buffett_filter
  passes_buffett_filter-Keeps ticker upcoming =
      search (step_rules, get_row-Keeps, with_profile-Keeps)

  pub qualify-Keeps :
      (upcoming held tickers : List String) (found : List Candidate)
      → Keeps R (qualify env has_key fmp bars rules upcoming held tickers found)
  unfolding qualify
  qualify-Keeps upcoming held [] found = search step_rules
  qualify-Keeps upcoming held (ticker ∷ tickers) found =
      search (step_rules, passes_buffett_filter-Keeps, qualify-Keeps upcoming held tickers) depth 20
