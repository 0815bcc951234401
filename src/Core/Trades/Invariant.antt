-- ===== src/Core/Trades/Invariant.antt =====
-- What holds of paper_trades between two calls.
use mathlib.Core.Path.{subst}
use blackhole_network.Base.{
  ℕ, suc, ◌+◌, ◌<◌, String, true, false, Option, none, some, List, [], ◌∷◌, ◌++◌, ◌≡◌, ◌≢◌, refl,
  sym, ap, arith, length, length-append, All, All-append, All-map, ◌==◌, Bool-cases, inl, inr,
}
use blackhole_network.Core.Types.{Trade}
use blackhole_network.Core.World.{World, Env, raised, integrity_error}
use blackhole_network.Core.Trades.{
  Ticket, new_trade, open_trade, find_trade, update_trade, link_if, trade_allowed,
}

-- Ids count the rows, every id stands once, and quantity and price are positive.
abbrev pub IsPriced : Trade → Type 0
IsPriced t = (0 < t.qty) × (0 < t.entry_price)

abbrev pub IdsBelow : ℕ → List Trade → Type 0
IdsBelow n = All (λ t. t.id < n)

abbrev pub Unique : List Trade → Type 0
Unique [] = Unit
Unique (t ∷ ts) = (find_trade t.id ts ≡ none) × Unique ts

pub record TradesValid (rows : List Trade) : Type 0 where
  pub below : IdsBelow (length rows + 1) rows
  pub unique : Unique rows
  pub priced : All IsPriced rows

pub find-IsPriced :
    (id : ℕ) (rows : List Trade) (t : Trade)
    → All IsPriced rows
    → find_trade id rows ≡ some t
    → IsPriced t
find-IsPriced id [] t h e = absurd (cc e)
find-IsPriced id (r ∷ rows) t h e = ground (arith, find-IsPriced id rows t h.1)

pub find-below : (n : ℕ) (rows : List Trade) → IdsBelow n rows → find_trade n rows ≡ none
find-below n [] h = refl
find-below n (t ∷ ts) h = ground (arith, find-below n ts h.1)

-- A row with a new id at the end.
Unique-append :
    (rows : List Trade) (t : Trade) → IdsBelow t.id rows → Unique rows → Unique (rows ++ t ∷ [])
Unique-append [] t b u = (refl, tt)
Unique-append (r ∷ rows) t b u =
    (find-append r.id rows t u.0 (omega arith), Unique-append rows t b.1 u.1)
  where
    find-append :
        (id : ℕ) (rows : List Trade) (t : Trade)
        → find_trade id rows ≡ none
        → id ≢ t.id
        → find_trade id (rows ++ t ∷ []) ≡ none
    find-append id [] t h ne = ground arith
    find-append id (r ∷ rows) t h ne = ground (arith, find-append id rows t)

link_if_trades : (s : Option ℕ) (id : ℕ) (w : World) → (link_if s id w).trades ≡ w.trades
link_if_trades none id w = refl
link_if_trades (some s) id w = ground arith

append-TradesValid :
    (rows : List Trade) (t : Trade)
    → t.id ≡ length rows + 1
    → IsPriced t
    → TradesValid rows
    → TradesValid (rows ++ t ∷ [])
append-TradesValid rows t e p v = record {
  below =
      All-append (λ u. u.id < length (rows ++ t ∷ []) + 1) rows (t ∷ [])
        (All-map (λ u. u.id < length rows + 1) (λ u. u.id < length (rows ++ t ∷ []) + 1) rows
          (λ u h. omega (arith, length-append rows (t ∷ []))) v.below)
        (omega (arith, length-append rows (t ∷ [])), tt);
  unique = Unique-append rows t (subst (λ n. IdsBelow n rows) (sym e) v.below) v.unique;
  priced = All-append IsPriced rows (t ∷ []) v.priced (p, tt);
}

-- What the statement leaves: one more row, or the rows as they were.
pub open_trade_rows :
    (env : Env) (t : Ticket) (price : ℕ) (order : Option String) (w : World)
    → trade_allowed t price w ≡ true
    → (open_trade env t price order w).1.trades
      ≡ w.trades ++ new_trade t price order env.now (length w.trades + 1) ∷ []
unfolding open_trade
open_trade_rows env t price order w h = rw h (link_if_trades t.signal_id (length w.trades + 1) _)

pub open_trade_refused :
    (env : Env) (t : Ticket) (price : ℕ) (order : Option String) (w : World)
    → trade_allowed t price w ≡ false
    → open_trade env t price order w ≡ (raised integrity_error, w)
unfolding open_trade
open_trade_refused env t price order w h = rw h

trade_allowed-positive :
    (t : Ticket) (price : ℕ) (w : World)
    → trade_allowed t price w ≡ true
    → (0 < t.qty) × (0 < price)
trade_allowed-positive t price w h = ground arith

-- An order that is recorded keeps the rows valid, and a constraint that refuses it changes nothing.
pub open_trade-TradesValid :
    (env : Env) (t : Ticket) (price : ℕ) (order : Option String) (w : World)
    → TradesValid w.trades
    → TradesValid (open_trade env t price order w).1.trades
open_trade-TradesValid env t price order w v = elim (Bool-cases (trade_allowed t price w)) [
  | inl yes_row ↦ subst TradesValid (sym (open_trade_rows env t price order w yes_row)) (
      append-TradesValid w.trades (new_trade t price order env.now (length w.trades + 1)) refl
        (trade_allowed-positive t price w yes_row) v)
  | inr refusal ↦
      subst TradesValid
        (ap (λ p. p.1.trades) (sym (open_trade_refused env t price order w refusal))) v
]

-- An update of one row that keeps its id and stays priced.
module _ (id : ℕ) (f : Trade → Trade) (same : (t : Trade) → (f t).id ≡ t.id)
    (fine : (t : Trade) → IsPriced t → IsPriced (f t)) where
  find-update_none :
      (k : ℕ) (rows : List Trade)
      → find_trade k rows ≡ none
      → find_trade k (update_trade id f rows) ≡ none
  find-update_none k [] h = refl
  find-update_none k (t ∷ ts) h = ground (arith, same t, find-update_none k ts)

  length-update : (rows : List Trade) → length (update_trade id f rows) ≡ length rows
  length-update [] = refl
  length-update (t ∷ ts) = ap suc (length-update ts)

  update-IdsBelow :
      (n : ℕ) (rows : List Trade) → IdsBelow n rows → IdsBelow n (update_trade id f rows)
  update-IdsBelow n [] h = tt
  update-IdsBelow n (t ∷ ts) h = (ground (arith, same t), update-IdsBelow n ts h.1)

  update-Unique : (rows : List Trade) → Unique rows → Unique (update_trade id f rows)
  update-Unique [] h = tt
  update-Unique (t ∷ ts) h =
      (ground (arith, same t, find-update_none t.id ts), update-Unique ts h.1)

  update-IsPriced : (rows : List Trade) → All IsPriced rows → All IsPriced (update_trade id f rows)
  update-IsPriced [] h = tt
  update-IsPriced (t ∷ ts) h = (
    elim (Bool-cases (t.id == id)) [ inl e ↦ rw e (fine t h.0) | inr e ↦ rw e h.0 ],
    update-IsPriced ts h.1,
  )

  pub update-TradesValid :
      (rows : List Trade) → TradesValid rows → TradesValid (update_trade id f rows)
  update-TradesValid rows v = record {
    below =
        subst (λ n. IdsBelow (n + 1) (update_trade id f rows)) (sym (length-update rows))
          (update-IdsBelow _ rows v.below);
    unique = update-Unique rows v.unique;
    priced = update-IsPriced rows v.priced;
  }

  pub find-update_self :
      (rows : List Trade) (t : Trade)
      → find_trade id rows ≡ some t
      → find_trade id (update_trade id f rows) ≡ some (f t)
  find-update_self [] u h = absurd (cc h)
  find-update_self (t ∷ ts) u h = ground (arith, same t, find-update_self ts u)

  pub find-update_other :
      (k : ℕ) (rows : List Trade)
      → k ≢ id
      → find_trade k (update_trade id f rows) ≡ find_trade k rows
  find-update_other k [] ne = refl
  find-update_other k (t ∷ ts) ne = ground (arith, same t, find-update_other k ts ne)
