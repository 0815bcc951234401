-- ===== src/Core/Trades/Count.antt =====
-- How many open trades a strategy has, and which calls add to them: one rule for each way to build a
-- call.
use blackhole_network.Base.{
  ℕ, suc, ◌+◌, ◌*◌, ◌≤◌, String, Bool, true, false, ◌&&◌, Option, none, some, List, [], ◌∷◌, ◌++◌,
  ◌≡◌, refl, arith, length, keep, ◌==◌, Bool-cases, inl, inr, if◌then◌else◌, ap,
}
use blackhole_network.Core.Types.{Trade, ExitReason}
use blackhole_network.Core.World.{World, Env, Result, ok, raised, Error}
use blackhole_network.Core.Monad.{Call, answer, try_except, ◌>>=◌}
use blackhole_network.Core.Monad.Keeps.{IsPreorder, Keeps}
use blackhole_network.Core.Clients.Frame.{SameTables}
use blackhole_network.Core.Trades.{
  Ticket, is_open, is_closed, of_strategy, find_trade, update_trade, open_trade, closed_row,
  close_row, close_trade, insert_row, newest_first, get_open_trades, trade_allowed,
}
use blackhole_network.Core.Trades.Invariant.{open_trade_rows, open_trade_refused}

abbrev pub counts : String → Trade → Bool
counts sid t = is_open t && of_strategy (some sid) t

abbrev pub open_in : String → List Trade → ℕ
open_in sid rows = length (keep (counts sid) rows)

abbrev pub open_count : String → World → ℕ
open_count sid w = open_in sid w.trades

length-insert_row : (t : Trade) (ts : List Trade) → length (insert_row t ts) ≡ suc (length ts)
unfolding insert_row
length-insert_row t [] = refl
length-insert_row t (u ∷ us) = ground (arith, length-insert_row t us)

length-newest_first : (ts : List Trade) → length (newest_first ts) ≡ length ts
unfolding newest_first
length-newest_first [] = refl
length-newest_first (t ∷ ts) =
    omega (arith, length-insert_row t (newest_first ts), length-newest_first ts)

-- `get_open_trades` returns that many rows, and changes nothing.
pub length-get_open_trades :
    (sid : String) (w : World)
    → (ts : List Trade) × (get_open_trades (some sid) w ≡ (ok ts, w))
      × (length ts ≡ open_count sid w)
unfolding get_open_trades
length-get_open_trades sid w = (_, refl, length-newest_first (keep (counts sid) w.trades))

-- After the call there are at most `n` open trades more.
pub record GrowsBy {A : Type 0} (sid : String) (n : ℕ) (m : Call A) : Type 0 where
  pub at : (w : World) → open_count sid (m w).1 ≤ open_count sid w + n

-- There are no more open trades than before.
pub record NoMore (sid : String) (w w' : World) : Type 0 where
  pub le : open_count sid w' ≤ open_count sid w

pub NoMore-preorder : (sid : String) → IsPreorder (NoMore sid)
NoMore-preorder sid = record {
  same = λ w. record { le = omega arith };
  trans = λ u v w h k. record { le = omega (arith, h.le, k.le) };
}

pub NoMore-of_rows : (sid : String) (w w' : World) → w'.trades ≡ w.trades → NoMore sid w w'
NoMore-of_rows sid w w' e = record { le = rw (ap (open_in sid) e) (omega arith) }

module _ {A : Type 0} (sid : String) where
  pub NoMore-of_same :
      (m : Call A) → ((w : World) → (m w).1.trades ≡ w.trades) → Keeps (NoMore sid) m
  NoMore-of_same m h = record { at = λ w. record { le = rw (h w) (omega arith) } }

  pub NoMore-of_tables : (m : Call A) → Keeps SameTables m → Keeps (NoMore sid) m
  NoMore-of_tables m k = NoMore-of_same m (λ w. (k.at w).trades)

  pub GrowsBy-of_Keeps : (n : ℕ) (m : Call A) → Keeps (NoMore sid) m → GrowsBy sid n m
  GrowsBy-of_Keeps n m k = record { at = λ w. omega (arith, (k.at w).le) }

  pub GrowsBy-if :
      (n : ℕ) (b : Bool) (m k : Call A)
      → GrowsBy sid n m
      → GrowsBy sid n k
      → GrowsBy sid n (if b then m else k)
  GrowsBy-if n true m k h q = h
  GrowsBy-if n false m k h q = q

  try_after :
      (n : ℕ) (h : Error → Call A) (w : World) (r : Result A) (w' : World)
      → open_count sid w' ≤ open_count sid w + n
      → ((e : Error) → Keeps (NoMore sid) (h e))
      → open_count sid ((try_except (answer r) h) w').1 ≤ open_count sid w + n
  try_after n h w (ok a) w' l k = l
  try_after n h w (raised e) w' l k = omega (arith, l, ((k e).at w').le)

  pub GrowsBy-try :
      (n : ℕ) (m : Call A) (h : Error → Call A)
      → GrowsBy sid n m
      → ((e : Error) → Keeps (NoMore sid) (h e))
      → GrowsBy sid n (try_except m h)
  GrowsBy-try n m h g k = record { at = λ w. try_after n h w (m w).0 (m w).1 (g.at w) k }

module _ {A B : Type 0} (sid : String) where
  bind_after :
      (a n : ℕ) (f : A → Call B) (w : World) (r : Result A) (w' : World)
      → open_count sid w' ≤ open_count sid w + a
      → ((x : A) → GrowsBy sid n (f x))
      → open_count sid ((answer r >>= f) w').1 ≤ open_count sid w + (a + n)
  bind_after a n f w (ok x) w' l k = omega (arith, l, (k x).at w')
  bind_after a n f w (raised e) w' l k = omega (arith, l)

  pub GrowsBy-bind :
      (a n : ℕ) (m : Call A) (f : A → Call B)
      → GrowsBy sid a m
      → ((x : A) → GrowsBy sid n (f x))
      → GrowsBy sid (a + n) (m >>= f)
  GrowsBy-bind a n m f g k = record { at = λ w. bind_after a n f w (m w).0 (m w).1 (g.at w) k }

  -- A call before that adds none.
  pub GrowsBy-after :
      (n : ℕ) (m : Call A) (f : A → Call B)
      → Keeps (NoMore sid) m
      → ((x : A) → GrowsBy sid n (f x))
      → GrowsBy sid n (m >>= f)
  GrowsBy-after n m f k h = record {
    at = λ w. omega (arith, bind_after 0 n f w (m w).0 (m w).1 (omega (arith, (k.at w).le)) h);
  }

  -- Nothing is added after it.
  pub GrowsBy-then :
      (n : ℕ) (m : Call A) (f : A → Call B)
      → GrowsBy sid n m
      → ((x : A) → Keeps (NoMore sid) (f x))
      → GrowsBy sid n (m >>= f)
  GrowsBy-then n m f g k = record {
    at = λ w. omega (
      arith,
      bind_after n 0 f w (m w).0 (m w).1 (g.at w) (λ x. GrowsBy-of_Keeps sid 0 (f x) (k x)),
    );
  }

pub open-update :
    (sid : String) (id : ℕ) (f : Trade → Trade) (rows : List Trade)
    → ((t : Trade) → counts sid (f t) ≡ true → counts sid t ≡ true)
    → open_in sid (update_trade id f rows) ≤ open_in sid rows
open-update sid id f [] h = omega arith
open-update sid id f (t ∷ ts) h = ground (arith, open-update sid id f ts h, h t)

open-append :
    (sid : String) (rows : List Trade) (t : Trade)
    → open_in sid (rows ++ t ∷ []) ≤ open_in sid rows + 1
open-append sid [] t = ground arith
open-append sid (r ∷ rows) t = ground (arith, open-append sid rows t)

module _ (env : Env) (sid : String) where
  pub open_trade-GrowsBy :
      (t : Ticket) (price : ℕ) (order : Option String)
      → GrowsBy sid 1 (open_trade env t price order)
  open_trade-GrowsBy t price order = record {
    at = λ w. elim (Bool-cases (trade_allowed t price w)) [
      | inl e ↦ rw (open_trade_rows env t price order w e) (open-append sid w.trades _)
      | inr e ↦ rw (open_trade_refused env t price order w e) (omega arith)
    ];
  }

  close_row-NoMore :
      (id exit : ℕ) (why : ExitReason) (order : Option String) (row : Trade)
      → Keeps (NoMore sid) (close_row env id exit why order row)
  unfolding close_row
  close_row-NoMore id exit why order row = record {
    at = λ w.
        let less =
          open-update sid id (closed_row exit why order) w.trades (λ t h. absurd (ground arith)) in
        elim (Bool-cases (is_closed row.status)) [
          | inl c ↦ rw c (record { le = omega arith })
          | inr c ↦ elim (Bool-cases (row.entry_price * row.qty == 0)) [
            | inl z ↦ rw (c, z) (record { le = omega arith })
            | inr z ↦ rw (c, z) (record { le = less })
          ]
        ];
  }

  pub close_trade-NoMore :
      (id exit : ℕ) (why : ExitReason) (order : Option String)
      → Keeps (NoMore sid) (close_trade env id exit why order)
  unfolding close_trade
  close_trade-NoMore id exit why order = record { at = λ w. found w (find_trade id w.trades) refl }
    where
      found :
          (w : World) (o : Option Trade)
          → find_trade id w.trades ≡ o
          → NoMore sid w (close_trade env id exit why order w).1
      found w none e = rw e (record { le = omega arith })
      found w (some t) e = rw e ((close_row-NoMore id exit why order t).at w)
