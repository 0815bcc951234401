-- ===== src/Core/Trades/Lasting.antt =====
-- What a program over paper_trades may do to its rows: the rows stay valid, and a closed row keeps
-- its result. One rule for each call that writes the table, the others leave it alone.
use mathlib.Core.Path.{subst}
use blackhole_network.Base.{
  ℕ, ◌*◌, String, true, Option, none, some, List, [], ◌∷◌, ◌++◌, ◌≡◌, refl, sym, ap, ◌∙◌, arith,
  ◌==◌, Bool-cases, inl, inr,
}
use blackhole_network.Core.Types.{Trade, ExitReason}
use blackhole_network.Core.World.{World, Env}
use blackhole_network.Core.Monad.{Call}
use blackhole_network.Core.Monad.Keeps.{IsPreorder, Keeps}
use blackhole_network.Core.Clients.Frame.{SameTables}
use blackhole_network.Core.Trades.{
  Ticket, is_closed, find_trade, update_trade, open_trade, closed_row, close_trade, close_row,
  trade_allowed,
}
use blackhole_network.Core.Trades.Invariant.{
  TradesValid, IsPriced, open_trade-TradesValid, open_trade_rows, open_trade_refused,
  update-TradesValid, find-update_self, find-update_other,
}

-- All but the water mark, which a check of the risk may still write.
abbrev pub Finished : Trade → Option Trade → Type 0
Finished t found = (m : Option ℕ) × (found ≡ some (record t { water_mark = m }))

abbrev pub Lasts : List Trade → List Trade → Type 0
Lasts rows rows' =
    (id : ℕ) (t : Trade)
    → find_trade id rows ≡ some t
    → is_closed t.status ≡ true
    → Finished t (find_trade id rows')

pub record Lasting (w w' : World) : Type 0 where
  pub valid : TradesValid w.trades → TradesValid w'.trades
  pub lasts : TradesValid w.trades → Lasts w.trades w'.trades

Lasts-same : (rows : List Trade) → Lasts rows rows
Lasts-same rows id t e c = (t.water_mark, e)

Lasts-trans : (a b c : List Trade) → Lasts a b → Lasts b c → Lasts a c
Lasts-trans a b c h k id t e q =
    let (m, f) = h id t e q in let (n, g) = k id (record t { water_mark = m }) f q in (n, g)

pub Lasting-preorder : IsPreorder Lasting
Lasting-preorder = record {
  same = λ w. record { valid = λ v. v; lasts = λ v. Lasts-same w.trades };
  trans = λ u v w h k. record {
    valid = λ p. k.valid (h.valid p);
    lasts = λ p. Lasts-trans u.trades v.trades w.trades (h.lasts p) (k.lasts (h.valid p));
  };
}

pub Lasting-of_rows : (w w' : World) → w'.trades ≡ w.trades → Lasting w w'
Lasting-of_rows w w' e = record {
  valid = λ v. subst TradesValid (sym e) v;
  lasts = λ v. subst (Lasts w.trades) (sym e) (Lasts-same w.trades);
}

-- A call that leaves paper_trades as it is.
pub Lasting-of_same :
    {A : Type 0} (m : Call A) → ((w : World) → (m w).1.trades ≡ w.trades) → Keeps Lasting m
Lasting-of_same m h = record { at = λ w. Lasting-of_rows w (m w).1 (h w) }

pub Lasting-of_tables : {A : Type 0} (m : Call A) → Keeps SameTables m → Keeps Lasting m
Lasting-of_tables m k = Lasting-of_same m (λ w. (k.at w).trades)

find-append :
    (id : ℕ) (rows : List Trade) (t u : Trade)
    → find_trade id rows ≡ some t
    → find_trade id (rows ++ u ∷ []) ≡ some t
find-append id [] t u e = absurd (cc e)
find-append id (r ∷ rows) t u e = ground (arith, find-append id rows t u)

module _ (env : Env) where
  open_trade-Lasts :
      (t : Ticket) (price : ℕ) (order : Option String) (w : World)
      → Lasts w.trades (open_trade env t price order w).1.trades
  open_trade-Lasts t price order w = elim (Bool-cases (trade_allowed t price w)) [
    | inl yes_row ↦
        subst (Lasts w.trades) (sym (open_trade_rows env t price order w yes_row))
          (λ id u e c. (u.water_mark, find-append id w.trades u _ e))
    | inr refusal ↦
        subst (Lasts w.trades)
          (ap (λ p. p.1.trades) (sym (open_trade_refused env t price order w refusal)))
          (Lasts-same w.trades)
  ]

  pub open_trade-Lasting :
      (t : Ticket) (price : ℕ) (order : Option String)
      → Keeps Lasting (open_trade env t price order)
  open_trade-Lasting t price order = record {
    at = λ w. record {
      valid = open_trade-TradesValid env t price order w;
      lasts = λ v. open_trade-Lasts t price order w;
    };
  }

-- An update that writes closed rows no more than their mark.
module _ (id : ℕ) (f : Trade → Trade) (same : (t : Trade) → (f t).id ≡ t.id)
    (fine : (t : Trade) → IsPriced t → IsPriced (f t)) where
  pub update-Lasting :
      (rows : List Trade)
      → ((t : Trade)
          → find_trade id rows ≡ some t
          → is_closed t.status ≡ true
          → Finished t (some (f t)))
      → Lasts rows (update_trade id f rows)
  update-Lasting rows h k t e c = elim (Bool-cases (k == id)) [
    | inl q ↦
        let here : k ≡ id = ground arith in
        let found : find_trade id rows ≡ some t = subst (λ n. find_trade n rows ≡ some t) here e in
        subst (λ n. Finished t (find_trade n (update_trade id f rows))) (sym here)
          (subst (Finished t) (sym (find-update_self id f same fine rows t found)) (h t found c))
    | inr q ↦ (t.water_mark, find-update_other id f same fine k rows (ground arith) ∙ e)
  ]

  pub write-Lasting :
      (g : World → World)
      → ((w : World) → (g w).trades ≡ update_trade id f w.trades)
      → (w : World)
      → ((t : Trade)
          → find_trade id w.trades ≡ some t
          → is_closed t.status ≡ true
          → Finished t (some (f t)))
      → Lasting w (g w)
  write-Lasting g e w h = record {
    valid = λ v. subst TradesValid (sym (e w)) (update-TradesValid id f same fine w.trades v);
    lasts = λ v. subst (Lasts w.trades) (sym (e w)) (update-Lasting w.trades h);
  }

module _ (env : Env) where
  close_found :
      (id exit : ℕ) (why : ExitReason) (order : Option String) (row : Trade) (w : World)
      → find_trade id w.trades ≡ some row
      → Lasting w (close_row env id exit why order row w).1
  unfolding close_row
  close_found id exit why order row w e = elim (Bool-cases (is_closed row.status)) [
    | inl c ↦ rw c (Lasting-preorder.same w)
    | inr c ↦ elim (Bool-cases (row.entry_price * row.qty == 0)) [
      | inl z ↦ rw (c, z) (Lasting-preorder.same w)
      | inr z ↦
          rw (c, z)
            (write-Lasting id (closed_row exit why order) (λ t. refl) (λ t p. p)
              (λ v. record v { trades = update_trade id (closed_row exit why order) v.trades })
              (λ v. refl) w (λ t f q. absurd (ground (arith, e, f, q, c))))
    ]
  ]

  pub close_trade-Lasting :
      (id exit : ℕ) (why : ExitReason) (order : Option String)
      → Keeps Lasting (close_trade env id exit why order)
  unfolding close_trade
  close_trade-Lasting id exit why order = record { at = λ w. found w (find_trade id w.trades) refl }
    where
      found :
          (w : World) (o : Option Trade)
          → find_trade id w.trades ≡ o
          → Lasting w (close_trade env id exit why order w).1
      found w none e = rw e (Lasting-preorder.same w)
      found w (some t) e = rw e (close_found id exit why order t w e)
