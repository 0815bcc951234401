-- ===== src/Core/Reconcile.antt =====
-- trading_core.py: `reconcile_state` and what a mismatch sets off.
pub mod Agreement
use blackhole_network.Base.{
  ℕ, ◌*◌, String, Bool, false, not, ◌&&◌, Option, none, some, List, [], ◌∷◌, ◌++◌, get, put, elem,
  is_some, if◌then◌else◌,
}
use blackhole_network.Base.Int.{ℤ, pos, ◌+ℤ◌, ◌-ℤ◌, neg, abs, eqb_ℤ, ltb_ℤ}
use blackhole_network.Core.Types.{
  unknown_position, missing_position, Mismatch, default_account, unconfigured, strategy_account,
  Trade,
}
use blackhole_network.Core.World.{Env, Result, ok, raised, Client, Position}
use blackhole_network.Core.Monad.{Call, pass, try_except, ◌>>=◌}
use blackhole_network.Core.Rules.{is_strategy_enabled}
use blackhole_network.Core.Clients.{get_alpaca, for_clients}
use blackhole_network.Core.Lifecycle.{is_strategy_active}
use blackhole_network.Core.Trades.{is_buy, get_open_trades}

-- The open trades by strategy and ticker.
abbrev pub ByTicker : Type 0
ByTicker = List (String × List Trade)

abbrev or_nil {ℓ} : {A : Type ℓ} → Option (List A) → List A
or_nil none = []
or_nil (some xs) = xs

-- `setdefault(t["strategy_id"], {}).setdefault(t["ticker"], []).append(t)`
abbrev add_trade : Trade → ByTicker → ByTicker
add_trade t d = put t.ticker (or_nil (get t.ticker d) ++ t ∷ []) d

pub partition : List Trade → List (String × ByTicker) → List (String × ByTicker)
partition [] d = d
partition (t ∷ ts) d =
    partition ts (put t.strategy_id (add_trade t (or_nil (get t.strategy_id d))) d)

-- sum(int(t["qty"]) * (1 if t["side"] == "buy" else -1))
unfoldable pub pg_qty : List Trade → ℤ
pg_qty [] = pos 0
pg_qty (t ∷ ts) = (if is_buy t.side then pos t.qty else neg (pos t.qty)) +ℤ pg_qty ts

-- `{p.symbol: int(p.qty) for p in positions}`
pub by_symbol : List Position → List (String × ℤ) → List (String × ℤ)
by_symbol [] d = d
by_symbol (p ∷ ps) d = by_symbol ps (put p.symbol p.qty d)

abbrev price_or_zero : Result ℕ → ℕ
price_or_zero (ok p) = p
price_or_zero (raised e) = 0

abbrev qty_or_zero : Option ℤ → ℤ
qty_or_zero none = pos 0
qty_or_zero (some q) = q

module _ (env : Env) (sid : String) (client : Client) where
  -- A position of the account against the trades of the strategy.
  pub position_mismatch : String → ℤ → ℤ → Mismatch
  position_mismatch ticker alpaca_qty expected =
      let price = price_or_zero (env.latest_trade client ticker) in
      let diff = alpaca_qty -ℤ expected in
      if eqb_ℤ expected (pos 0)
      then record {
        kind = unknown_position;
        strategy_id = some sid;
        ticker = ticker;
        expected_qty = pos 0;
        actual_qty = alpaca_qty;
        value_usd = price * abs alpaca_qty;
        account = strategy_account sid;
      }
      else record {
        kind = if ltb_ℤ (pos 0) diff then unknown_position else missing_position;
        strategy_id = some sid;
        ticker = ticker;
        expected_qty = expected;
        actual_qty = alpaca_qty;
        value_usd = price * abs diff;
        account = strategy_account sid;
      }

  unfoldable pub position_mismatches : List (String × ℤ) → ByTicker → List Mismatch
  position_mismatches [] pg = []
  position_mismatches ((ticker, alpaca_qty) ∷ held) pg =
      let rest = position_mismatches held pg in
      let expected = pg_qty (or_nil (get ticker pg)) in
      if eqb_ℤ expected alpaca_qty
      then rest
      else position_mismatch ticker alpaca_qty expected ∷ rest

  -- Trades whose ticker the account does not hold.
  unfoldable pub absent_mismatches : List (String × ℤ) → ByTicker → List Mismatch
  absent_mismatches held [] = []
  absent_mismatches held ((ticker, trades) ∷ pg) =
      let rest = absent_mismatches held pg in
      if is_some (get ticker held)
      then rest
      else record {
        kind = missing_position;
        strategy_id = some sid;
        ticker = ticker;
        expected_qty = pg_qty trades;
        actual_qty = pos 0;
        value_usd = price_or_zero (env.latest_trade client ticker) * abs (pg_qty trades);
        account = strategy_account sid;
      }
        ∷ rest

  unfoldable pub account_mismatches : List (String × ℤ) → ByTicker → List Mismatch
  account_mismatches held pg = position_mismatches held pg ++ absent_mismatches held pg

-- The tally of one account: a failed `list_positions` is a warning, and `continue`.
pub visit_account :
    Env
    → List (String × ByTicker)
    → String
    → Client
    → List String × List Mismatch
    → List String × List Mismatch
visit_account env pg sid client (seen, found) = elim (env.list_positions client) [
  | raised e ↦ (sid ∷ seen, found)
  | ok positions ↦ (
    sid ∷ seen,
    found ++ account_mismatches env sid client (by_symbol positions []) (or_nil (get sid pg)),
  )
]

-- The quantities that active and enabled strategies claim, by ticker.
abbrev claim_tickers : ByTicker → List (String × ℤ) → List (String × ℤ)
claim_tickers [] d = d
claim_tickers ((ticker, trades) ∷ pg) d =
    claim_tickers pg (put ticker (qty_or_zero (get ticker d) +ℤ pg_qty trades) d)

abbrev is_claimant : String → Call Bool
unfolding is_strategy_enabled is_strategy_active
is_claimant sid = do
  enabled ← is_strategy_enabled sid
  if enabled then try_except (is_strategy_active sid) (λ e. pass false) else pass false

claims : List (String × ByTicker) → List (String × ℤ) → Call (List (String × ℤ))
unfolding is_strategy_enabled is_strategy_active
claims [] d w = (ok d, w)
claims ((sid, by_ticker) ∷ pg) d w =
    (is_claimant sid >>= λ yes_claim.
    claims pg (if yes_claim then claim_tickers by_ticker d else d))
      w

-- The sweep of the default account.
pub default_mismatches : Env → Client → List (String × ℤ) → List Position → List Mismatch
default_mismatches env client claimed [] = []
default_mismatches env client claimed (p ∷ ps) =
    let rest = default_mismatches env client claimed ps in
    let mine = qty_or_zero (get p.symbol claimed) in
    if eqb_ℤ mine p.qty && not (eqb_ℤ p.qty (pos 0))
    then rest
    else record {
      kind = unknown_position;
      strategy_id = none;
      ticker = p.symbol;
      expected_qty = mine;
      actual_qty = p.qty;
      value_usd = price_or_zero (env.latest_trade client p.symbol) * abs (p.qty -ℤ mine);
      account = default_account;
    }
      ∷ rest

-- Trades of a strategy whose account was not looked at.
pub unseen_rows : String → ByTicker → List Mismatch
unseen_rows sid [] = []
unseen_rows sid ((ticker, trades) ∷ pg) =
    record {
      kind = missing_position;
      strategy_id = some sid;
      ticker = ticker;
      expected_qty = pg_qty trades;
      actual_qty = pos 0;
      value_usd = 0;
      account = unconfigured;
    }
    ∷ unseen_rows sid pg

pub unseen_mismatches : List String → List (String × ByTicker) → List Mismatch
unseen_mismatches seen [] = []
unseen_mismatches seen ((sid, by_ticker) ∷ pg) =
    if elem sid seen
    then unseen_mismatches seen pg
    else unseen_rows sid by_ticker ++ unseen_mismatches seen pg

module _ (env : Env) where
  -- The default client and its positions, or none after an exception.
  sweep : Call (Option (Client × List Position))
  sweep =
      try_except
        (get_alpaca env >>= λ client w. elim (env.list_positions client) [
          | ok ps ↦ (ok (some (client, ps)), w)
          | raised e ↦ (raised e, w)
        ])
        (λ e. pass none)

  abbrev swept : List (String × ℤ) → Option (Client × List Position) → List Mismatch
  swept claimed none = []
  swept claimed (some (client, ps)) = default_mismatches env client claimed ps

  unfoldable pub reconcile_state : Call (List Mismatch)
  unfolding sweep claims
  reconcile_state = do
    trades ← get_open_trades none
    let pg = partition trades []
    (seen, found) ←
        for_clients env (λ sid client acc. pass (visit_account env pg sid client acc)) ([], [])
    default ← sweep
    claimed ← claims pg []
    pass ((found ++ swept claimed default) ++ unseen_mismatches seen pg)
