-- ===== src/Nasdaq/Risk/Ratchet.antt =====
-- nasdaq_risk.py: the water mark over a sequence of prices, and the actions of one check.
use mathlib.Core.Path.{subst}
use blackhole_network.Base.{
  ℕ, ◌≤◌, Bool, true, false, Option, none, some, List, [], ◌∷◌, ◌≡◌, inl, inr, refl, sym, ap, ◌∙◌,
  arith, ltb, All, any, ◌==◌, Bool-cases, if◌then◌else◌,
}
use blackhole_network.Core.Types.{Action, buy, sell, hold, Trade}
use blackhole_network.Core.World.{World, Env}
use blackhole_network.Core.Monad.{pass, ◌>>=◌}
use blackhole_network.Core.Trades.{find_trade, update_trade}
use blackhole_network.Core.Trades.Invariant.{find-update_self}
use blackhole_network.Core.Trades.Closing.{find_trade-id}
use blackhole_network.Nasdaq.Risk.{
  get_water_mark, moved, evaluate, persist_water_mark, evaluate_trade, set_mark,
}

-- One check of the trade with an id, as a run of the strategy makes it: the row is read again.
abbrev pub check_once : Env → ℕ → ℕ → Option Trade → World → World
check_once env current goal none w = w
check_once env current goal (some t) w = (evaluate_trade env t current goal true w).1

abbrev pub checks : Env → ℕ → ℕ → List ℕ → World → World
checks env id goal [] w = w
checks env id goal (p ∷ ps) w =
    checks env id goal ps (check_once env p goal (find_trade id w.trades) w)

-- A price or the mark it started from, and at least as favourable as all of them.
abbrev pub IsBest : Action → ℕ → ℕ → List ℕ → Type 0
IsBest buy wm start ps =
    (start ≤ wm) × All (λ p. p ≤ wm) ps × (any (λ p. p == wm) (start ∷ ps) ≡ true)
IsBest sell wm start ps =
    (wm ≤ start) × All (λ p. wm ≤ p) ps × (any (λ p. p == wm) (start ∷ ps) ≡ true)
IsBest hold wm start ps = wm ≡ start

abbrev mark_after : Trade → ℕ → ℕ
mark_after t p = if moved t.side p (get_water_mark t) then p else get_water_mark t

check_once-mark :
    (env : Env) (id p goal : ℕ) (w : World) (t : Trade)
    → find_trade id w.trades ≡ some t
    → (u : Trade) × (find_trade id (check_once env p goal (some t) w).trades ≡ some u)
      × (u.side ≡ t.side)
      × (get_water_mark u ≡ mark_after t p)
unfolding evaluate_trade get_water_mark persist_water_mark
check_once-mark env id p goal w t found = go (moved t.side p (get_water_mark t)) refl
  where
    go :
        (b : Bool)
        → moved t.side p (get_water_mark t) ≡ b
        → (u : Trade) × (find_trade id (check_once env p goal (some t) w).trades ≡ some u)
          × (u.side ≡ t.side)
          × (get_water_mark u ≡ mark_after t p)
    go true e = (
      set_mark p t,
      ap
            (λ b.
              find_trade id
                (((if b then persist_water_mark t.id p else pass tt) >>= λ _.
                    pass (evaluate t env.now p goal))
                  w).1.trades)
            e
          ∙ ap (λ k. find_trade id (update_trade k (set_mark p) w.trades))
              (find_trade-id id w.trades t found)
          ∙ find-update_self id (set_mark p) (λ t. refl) (λ t q. q) w.trades t found,
      refl,
      ap (λ b. if b then p else get_water_mark t) (sym e),
    )
    go false e = (
      t,
      ap
            (λ b.
              find_trade id
                (((if b then persist_water_mark t.id p else pass tt) >>= λ _.
                    pass (evaluate t env.now p goal))
                  w).1.trades)
            e
          ∙ found,
      refl,
      ap (λ b. if b then p else get_water_mark t) (sym e),
    )

IsBest-step :
    (side : Action) (wm start p : ℕ) (ps : List ℕ)
    → IsBest side wm (if moved side p start then p else start) ps
    → IsBest side wm start (p ∷ ps)
unfolding moved
IsBest-step buy wm start p ps h = elim (Bool-cases (ltb start p)) [
  | inl e ↦
      let k : IsBest buy wm p ps = subst (λ b. IsBest buy wm (if b then p else start) ps) e h in
      let (low, all, hit) = k in (ground arith, (low, all), ground arith)
  | inr e ↦
      let k : IsBest buy wm start ps = subst (λ b. IsBest buy wm (if b then p else start) ps) e h in
      let (low, all, hit) = k in (low, (ground arith, all), ground arith)
]
IsBest-step sell wm start p ps h = elim (Bool-cases (ltb p start)) [
  | inl e ↦
      let k : IsBest sell wm p ps = subst (λ b. IsBest sell wm (if b then p else start) ps) e h in
      let (low, all, hit) = k in (ground arith, (low, all), ground arith)
  | inr e ↦
      let k : IsBest sell wm start ps =
        subst (λ b. IsBest sell wm (if b then p else start) ps) e h in
      let (low, all, hit) = k in (low, (ground arith, all), ground arith)
]
IsBest-step hold wm start p ps h = h

-- After any sequence of checks the stored mark of a trade is the best of its first mark and of the
-- prices seen: the highest for a bought trade and the lowest for a sold one.
pub checks-IsBest :
    (env : Env) (id goal : ℕ) (ps : List ℕ) (w : World) (t : Trade)
    → find_trade id w.trades ≡ some t
    → (u : Trade) × (find_trade id (checks env id goal ps w).trades ≡ some u)
      × IsBest t.side (get_water_mark u) (get_water_mark t) ps
checks-IsBest env id goal [] w t found = (t, found, best_self t.side (get_water_mark t))
  where
    best_self : (side : Action) (m : ℕ) → IsBest side m m []
    best_self buy m = (ground arith, tt, ground arith)
    best_self sell m = (ground arith, tt, ground arith)
    best_self hold m = refl
checks-IsBest env id goal (p ∷ ps) w t found =
    let (u, here, side, mark) = check_once-mark env id p goal w t found in
    let (v, last, best) = checks-IsBest env id goal ps (check_once env p goal (some t) w) u here in
    (
      v,
      subst (λ o. find_trade id (checks env id goal ps (check_once env p goal o w)).trades ≡ some v)
          (sym found) last,
      IsBest-step t.side (get_water_mark v) (get_water_mark t) p ps (
          subst (λ m. IsBest t.side (get_water_mark v) m ps) mark
            (subst (λ s. IsBest s (get_water_mark v) (get_water_mark u) ps) side best)),
    )
