-- ===== src/Daemon/Sources.antt =====
-- reconciliation_daemon.py: the positions as the broker, the database and the cache report them.
-- An average price is a quotient of ten-thousandths, kept exact.
use blackhole_network.Base.{
  ℕ, suc, ◌*◌, String, Bool, true, false, not, ◌||◌, Option, none, some, List, [], ◌∷◌, get, put,
  keep, if◌then◌else◌,
}
use blackhole_network.Base.Int.{ℤ, pos, negsuc, ◌+ℤ◌, ◌*ℤ◌, neg, scale, eqb_ℤ}
use blackhole_network.Core.Types.{Ratio, Trade}
use blackhole_network.Core.World.{
  Env, Result, ok, raised, division_by_zero, Client, Position, CacheRow,
}
use blackhole_network.Core.Monad.{Call, pass, answer, try_except, ◌>>=◌}
use blackhole_network.Core.Clients.{get_alpaca, for_clients}
use blackhole_network.Core.Trades.{is_open}

pub record Holding : Type 0 where
  pub qty : ℤ
  pub avg_entry_price : Ratio

abbrev pub Book : Type 0
Book = List (String × Holding)

abbrev whole : ℕ → Ratio
whole p = record { num = pos p; den = 1 }

-- `a / q`, with the sign in the numerator
unfoldable pub divide : ℤ → ℕ → ℤ → Ratio
divide num den (pos q) = record { num = num; den = den * q }
divide num den (negsuc q) = record { num = neg num; den = den * suc q }

-- (prev_avg * prev_qty + avg * qty) / total_qty
unfoldable pub weighted : Holding → ℕ → ℤ → ℤ → Ratio
unfolding divide
weighted prev avg qty total =
    divide (prev.avg_entry_price.num *ℤ prev.qty +ℤ scale (avg * prev.avg_entry_price.den) qty)
      prev.avg_entry_price.den total

abbrev merged : Option Holding → ℤ → ℕ → Holding
unfolding weighted
merged none qty avg = record { qty = qty; avg_entry_price = whole avg }
merged (some prev) qty avg =
    let total = prev.qty +ℤ qty in
    record {
      qty = total;
      avg_entry_price =
          if eqb_ℤ total (pos 0) then prev.avg_entry_price else weighted prev avg qty total;
    }

-- `_merge`
unfoldable pub merge : Position → Book → Book
unfolding weighted
merge p out = put p.symbol (merged (get p.symbol out) p.qty p.avg_entry_price) out

unfoldable pub merge_all : List Position → Book → Book
unfolding merge
merge_all [] out = out
merge_all (p ∷ ps) out = merge_all ps (merge p out)

abbrev is_nil {ℓ} : {A : Type ℓ} → List A → Bool
is_nil [] = true
is_nil (x ∷ xs) = false

-- The accounts looked at so far: the book, `saw_any`, `any_strategy_ok`.
pub record Seen : Type 0 where
  pub out : Book
  pub saw_any : Bool
  pub any_strategy_ok : Bool

-- The rows of one ticker are averaged; a total of 0 divides by zero.
abbrev pg_merged : Option Holding → ℤ → ℕ → Result Holding
unfolding weighted
pg_merged none qty price = ok (record { qty = qty; avg_entry_price = whole price })
pg_merged (some prev) qty price =
    let total = prev.qty +ℤ qty in
    if eqb_ℤ total (pos 0)
    then raised division_by_zero
    else ok (record { qty = total; avg_entry_price = weighted prev price qty total })

unfoldable pub pg_rows : List Trade → Book → Result Book
unfolding weighted
pg_rows [] out = ok out
pg_rows (t ∷ ts) out = elim (pg_merged (get t.ticker out) (pos t.qty) t.entry_price) [
  | raised e ↦ raised e
  | ok h ↦ pg_rows ts (put t.ticker h out)
]

unfoldable pub fetch_pg_state : Call Book
fetch_pg_state w = (pg_rows (keep is_open w.trades) [], w)

abbrev cache_rows : List CacheRow → Book → Book
cache_rows [] out = out
cache_rows (r ∷ rs) out =
    cache_rows rs
      (put r.ticker (record { qty = r.qty; avg_entry_price = whole r.avg_entry_price }) out)

abbrev cache_book : Option (List CacheRow) → Book
cache_book none = []
cache_book (some rows) = cache_rows rows []

module _ (env : Env) where
  -- A missing cache file is an empty book.
  unfoldable pub fetch_nj_cache_state : Call Book
  fetch_nj_cache_state = answer env.nj_cache >>= λ rows. pass (cache_book rows)

  unfoldable pub visit_default : Seen → Call Seen
  unfolding merge_all
  visit_default seen = do
    client ← get_alpaca env
    positions ← answer (env.list_positions client)
    pass (record {
      out = merge_all positions seen.out;
      saw_any = not (is_nil positions);
      any_strategy_ok = seen.any_strategy_ok;
    })

  unfoldable pub visit_strategy : String → Client → Seen → Call Seen
  unfolding merge_all
  visit_strategy sid client seen = elim (env.list_positions client) [
    | raised e ↦ pass seen
    | ok positions ↦ pass (record {
      out = merge_all positions seen.out;
      saw_any = seen.saw_any || not (is_nil positions);
      any_strategy_ok = true;
    })
  ]

  -- Whether the default account answers at all; an exception here is the function's.
  unfoldable pub recheck : Seen → Call Book
  recheck seen =
      if seen.any_strategy_ok || seen.saw_any
      then pass seen.out
      else get_alpaca env >>= λ client. answer (env.get_account client) >>= λ acct. pass seen.out

  unfoldable pub fetch_alpaca_state : Call Book
  unfolding visit_default visit_strategy recheck
  fetch_alpaca_state = do
    let start : Seen = record { out = []; saw_any = false; any_strategy_ok = false }
    first ← try_except (visit_default start) (λ e. pass start)
    seen ← for_clients env visit_strategy first
    recheck seen
