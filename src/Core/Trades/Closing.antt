-- ===== src/Core/Trades/Closing.antt =====
-- Closing a trade: what it returns, that it happens once, and the profit or loss.
use blackhole_network.Base.{
  ℕ, ◌-◌, ◌*◌, ◌<◌, ◌≤◌, ◌↔◌, String, false, Option, some, List, ◌≡◌, ◌≢◌, refl, arith, ◌==◌,
}
use blackhole_network.Base.Int.{pos, neg, scale, ◌-ℤ◌, ◌<ℤ◌}
use blackhole_network.Core.Types.{buy, sell, Trade, ExitReason, opened, closed}
use blackhole_network.Core.World.{World, Env, ok, raised, already_closed}
use blackhole_network.Core.Trades.{
  find_trade, update_trade, close_trade, close_row, closed_row, Closed, pnl_dollar_of, pnl_pct_of,
}
use blackhole_network.Core.Trades.Invariant.{
  TradesValid, IsPriced, find-IsPriced, update-TradesValid, find-update_self, find-update_other,
}

-- What is returned of a row that is closed.
abbrev pub summary : Env → ℕ → Trade → Closed
unfolding pnl_dollar_of pnl_pct_of
summary env exit t = record {
  trade_id = t.id;
  pnl_dollar = pnl_dollar_of t.side t.qty t.entry_price exit;
  pnl_pct = pnl_pct_of (pnl_dollar_of t.side t.qty t.entry_price exit) t.qty t.entry_price;
  duration_seconds = pos env.now -ℤ pos t.entry_time;
  ticker = t.ticker;
  side = t.side;
}

pub find_trade-id :
    (id : ℕ) (rows : List Trade) (t : Trade) → find_trade id rows ≡ some t → t.id ≡ id
find_trade-id id List.[] t h = absurd (cc h)
find_trade-id id (List.◌∷◌ r rows) t h = ground (arith, find_trade-id id rows t)

positive_product : (a b : ℕ) → 0 < a → 0 < b → (a * b == 0) ≡ false
positive_product a b ha hb = let p : 0 < a * b = grind arith in ground arith

close_row_open :
    (env : Env) (id exit : ℕ) (why : ExitReason) (order : Option String) (w : World) (t : Trade)
    → t.id ≡ id
    → t.status ≡ opened
    → IsPriced t
    → close_row env id exit why order t w ≡ (
      ok (summary env exit t),
      record w { trades = update_trade id (closed_row exit why order) w.trades },
    )
unfolding close_row
close_row_open env id exit why order w t same is_now priced =
    ground (arith, positive_product t.entry_price t.qty priced.1 priced.0)

-- An open trade of a valid table is closed: the row is updated, and the dict that is returned has
-- its profit or loss.
pub close_trade-returns :
    (env : Env) (id exit : ℕ) (why : ExitReason) (order : Option String) (w : World) (t : Trade)
    → TradesValid w.trades
    → find_trade id w.trades ≡ some t
    → t.status ≡ opened
    → close_trade env id exit why order w ≡ (
      ok (summary env exit t),
      record w { trades = update_trade id (closed_row exit why order) w.trades },
    )
unfolding close_trade
close_trade-returns env id exit why order w t v found is_now = rw found (
    close_row_open env id exit why order w t (find_trade-id id w.trades t found) is_now
      (find-IsPriced id w.trades t v.priced found))

close_row_closed :
    (env : Env) (id exit : ℕ) (why : ExitReason) (order : Option String) (w : World) (t : Trade)
    → t.status ≡ closed
    → close_row env id exit why order t w ≡ (raised (already_closed id), w)
unfolding close_row
close_row_closed env id exit why order w t is_now = ground arith

-- A trade of a valid table that is open can be closed once: the call returns, the row is closed
-- with the exit price, every other row is as it was, the table stays valid, and a second call
-- raises and changes nothing, whatever its price and reason.
pub close_trade-once :
    (env : Env) (id exit again : ℕ) (why later : ExitReason) (order order' : Option String)
    (w : World) (t : Trade)
    → TradesValid w.trades
    → find_trade id w.trades ≡ some t
    → t.status ≡ opened
    → let w' = (close_trade env id exit why order w).1 in
      (find_trade id w'.trades ≡ some (closed_row exit why order t))
      × TradesValid w'.trades
      × ((other : ℕ) → other ≢ id → find_trade other w'.trades ≡ find_trade other w.trades)
      × (close_trade env id again later order' w' ≡ (raised (already_closed id), w'))
unfolding close_trade
close_trade-once env id exit again why later order order' w t v found is_now =
    let e = close_trade-returns env id exit why order w t v found is_now in
    let f = closed_row exit why order in
    let closed_now = find-update_self id f (λ t. refl) (λ t p. p) w.trades t found in
    rw e (
      (
        closed_now,
        update-TradesValid id f (λ t. refl) (λ t p. p) w.trades v,
        λ other ne. find-update_other id f (λ t. refl) (λ t p. p) other w.trades ne,
        rw closed_now (close_row_closed env id again later order' _ (f t) refl),
      ))

times_less : (k a b : ℕ) → 0 < k → (k * (b - a) ≡ 0 ↔ b ≤ a)
times_less k a b h = (λ e. grind arith, λ e. grind arith)

-- A closed trade that was bought gains exactly where the exit price is above the entry price, one
-- that was sold exactly where it is below, and the amount is the quantity times the difference.
pub pnl_dollar_of-sign :
    (qty entry exit : ℕ)
    → 0 < qty
    → (pos 0 <ℤ pnl_dollar_of buy qty entry exit ↔ entry < exit)
      × (pos 0 <ℤ pnl_dollar_of sell qty entry exit ↔ exit < entry)
      × (pnl_dollar_of buy qty entry exit ≡ neg (pnl_dollar_of sell qty entry exit))
      × (pnl_dollar_of buy qty entry entry ≡ pos 0)
unfolding pnl_dollar_of ◌-ℤ◌ scale neg
pnl_dollar_of-sign qty entry exit h =
    let u = times_less qty entry exit h in
    let v = times_less qty exit entry h in
    (ground (arith, u), ground (arith, v), ground arith, ground arith)
