-- ===== src/Strategies/Entry/Slots.antt =====
-- The slots of strategies 2 and 4: how many open trades an entry, and a list of entries, may add.
use blackhole_network.Base.{
  ℕ, zero, suc, ◌≤◌, String, some, List, [], ◌∷◌, map, length, take_first, max_of, ◌≡◌, refl, ap,
  arith,
}
use blackhole_network.Core.World.{World, Env}
use blackhole_network.Core.Monad.{Call, write}
use blackhole_network.Core.Monad.Keeps.{IsPreorder, Keeps, keeps_rules}
use blackhole_network.Core.Trades.{Ticket, get_open_trades}
use blackhole_network.Core.Trades.Count.{
  open_in, open_count, GrowsBy, NoMore, NoMore-preorder, NoMore-of_same, GrowsBy-of_Keeps,
  GrowsBy-if, GrowsBy-try, GrowsBy-after, GrowsBy-then, close_trade-NoMore,
}
use blackhole_network.Core.Orders.Count.{
  get_alpaca-NoMore, log_signal-NoMore, submit_order-NoMore, place_order-GrowsBy,
}
use blackhole_network.Nasdaq.Run.{unacted}
use blackhole_network.Strategies.Entry.{order_or_log}

module _ (sid : String) where
  pub get_open_trades-NoMore : Keeps (NoMore sid) (get_open_trades (some sid))
  unfolding get_open_trades
  get_open_trades-NoMore = search (keeps_rules, NoMore-preorder)

  undo-NoMore :
      (id : ℕ) → Keeps (NoMore sid) (write (λ w. record w { signals = map (unacted id) w.signals }))
  undo-NoMore id = NoMore-of_same sid _ (λ w. refl)

  pub order_or_log-GrowsBy :
      (env : Env) (t : Ticket) (id : ℕ) → GrowsBy sid 1 (order_or_log env t id)
  unfolding order_or_log
  order_or_log-GrowsBy env t id =
      search
        (keeps_rules, NoMore-preorder, GrowsBy-try, GrowsBy-then, place_order-GrowsBy, undo-NoMore)
        depth 20

pub ruleset count_rules = (
  keeps_rules, NoMore-preorder, get_alpaca-NoMore, log_signal-NoMore, submit_order-NoMore,
  close_trade-NoMore, get_open_trades-NoMore,
)

pub ruleset grow_rules = (
  count_rules, GrowsBy-of_Keeps, GrowsBy-if, GrowsBy-try, GrowsBy-after, GrowsBy-then,
  order_or_log-GrowsBy,
)

pub length-take_first : {A : Type 0} (n : ℕ) (xs : List A) → length (take_first n xs) ≤ n
length-take_first zero xs = omega arith
length-take_first (suc n) [] = omega arith
length-take_first (suc n) (x ∷ xs) = omega (arith, length-take_first n xs)

-- At most the cap, or as many as before.
pub record Capped (sid : String) (cap : ℕ) (w w' : World) : Type 0 where
  pub le : open_count sid w' ≤ max_of (open_count sid w) cap

module _ (sid : String) (cap : ℕ) where
  pub Capped-preorder : IsPreorder (Capped sid cap)
  Capped-preorder = record {
    same = λ w. record { le = ground arith };
    trans = λ u v w h k. record { le = ground (arith, h.le, k.le) };
  }

  pub Capped-of_rows : (w w' : World) → w'.trades ≡ w.trades → Capped sid cap w w'
  Capped-of_rows w w' e = record { le = rw (ap (open_in sid) e) (ground arith) }

  pub Capped-of_NoMore : {A : Type 0} (m : Call A) → Keeps (NoMore sid) m → Keeps (Capped sid cap) m
  Capped-of_NoMore m k = record { at = λ w. record { le = ground (arith, (k.at w).le) } }
