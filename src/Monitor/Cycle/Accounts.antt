-- ===== src/Monitor/Cycle/Accounts.antt =====
-- weather_position_monitor.py: the rows of a cycle against its count, and the dry run.
use mathlib.Core.Path.{subst}
use blackhole_network.Base.{
  none-is_not, ℕ, ◌+◌, Bool, true, false, Option, none, some, List, [], ◌∷◌, ◌++◌, length, ◌≡◌,
  refl, sym, ap, ◌∙◌, arith, All, Bool-cases, Option-cases, ◌⊎◌, inl, inr, if◌then◌else◌,
}
use blackhole_network.Monitor.Positions.{
  Tables, Position, load_open_positions, enrich_market_prices, enrich_nws_forecasts,
}
use blackhole_network.Monitor.Triggers.{Settings, Trigger, evaluate_triggers}
use blackhole_network.Monitor.Cycle.{
  ExitRow, Message, SellOrder, Floor, Services, exit_row, log_exit, sold_at, send_sms,
  place_exit_order, logged, run_positions, committed, run_cycle,
}

-- The rows that a run put before those that it found.
abbrev pub Adds : Bool → ℕ → List ExitRow → List ExitRow → Type 0
Adds dry n before after =
    (rows : List ExitRow) × (after ≡ rows ++ before)
    × (length rows ≡ n)
    × All (λ r. r.is_dry_run ≡ dry) rows

module _ (g : Settings) (s : Services) where
  send_sms-exits : (p : Position) (t : Trigger) (f : Floor) → (send_sms s p t f).exits ≡ f.exits
  unfolding send_sms
  send_sms-exits p t f = same f _
    where
      same :
          (f : Floor) (m : Message)
          → (if s.takes_message m then record f { messages = m ∷ f.messages } else f).exits
            ≡ f.exits
      same f m = elim (Bool-cases (s.takes_message m)) [ inl e ↦ rw e refl | inr e ↦ rw e refl ]

  place_exit_order-exits : (p : Position) (f : Floor) → (place_exit_order s p f).exits ≡ f.exits
  unfolding place_exit_order
  place_exit_order-exits p f = sold p.current_yes_bid
    where
      taken :
          (o : SellOrder)
          → (if s.takes_order o then record f { orders = o ∷ f.orders } else f).exits ≡ f.exits
      taken o = elim (Bool-cases (s.takes_order o)) [ inl e ↦ rw e refl | inr e ↦ rw e refl ]

      sold : (bid : Option ℕ) → (sold_at s p bid f).exits ≡ f.exits
      sold none = refl
      sold (some bid) = taken _

  logged-exits : (p : Position) (t : Trigger) (f : Floor) → (logged g s p t f).exits ≡ f.exits
  unfolding logged
  logged-exits p t f = elim (Bool-cases g.dry_run) [
    | inl e ↦ rw e refl
    | inr e ↦ rw e (place_exit_order-exits p (send_sms s p t f) ∙ send_sms-exits p t f)
  ]

  log_exit-cases :
      (p : Position) (t : Trigger) (f : Floor)
      → (log_exit s g.dry_run p t f ≡ none)
        ⊎ (log_exit s g.dry_run p t f
            ≡ some (record f { exits = exit_row g.dry_run p t ∷ f.exits }))
  unfolding log_exit
  log_exit-cases p t f = elim (Bool-cases (s.inserts (exit_row g.dry_run p t))) [
    | inl e ↦ rw e (inr refl)
    | inr e ↦ rw e (inl refl)
  ]

  more :
      (n : ℕ) (before after after' : List ExitRow) (row : ExitRow)
      → row.is_dry_run ≡ g.dry_run
      → after' ≡ row ∷ after
      → Adds g.dry_run n before after
      → Adds g.dry_run (n + 1) before after'
  more n before after after' row d e (rows, same, count, all) =
      (row ∷ rows, e ∙ ap (λ x. row ∷ x) same, omega arith, (d, all))

  run_positions-Adds :
      (ps : List Position) (n k : ℕ) (f : Floor) (before : List ExitRow)
      → Adds g.dry_run n before f.exits
      → (run_positions g s ps n f).0 ≡ some k
      → Adds g.dry_run k before (run_positions g s ps n f).1.exits
  unfolding run_positions
  run_positions-Adds [] n k f before h =
      λ e. subst (λ x. Adds g.dry_run x before f.exits) (ap count e) h
    where
      count : Option ℕ → ℕ
      count none = 0
      count (some x) = x
  run_positions-Adds (p ∷ ps) n k f before h = elim (Option-cases (evaluate_triggers g s.now p)) [
    | inl q ↦ rw (run_positions, q) (λ e. run_positions-Adds ps n k f before h e)
    | inr (t, q) ↦
        rw (run_positions, q)
          (elim (log_exit-cases p t f) [
            | inl r ↦ rw r (λ e. absurd (none-is_not e))
            | inr r ↦ rw r (λ e.
                let f' = record f { exits = exit_row g.dry_run p t ∷ f.exits } in
                run_positions-Adds ps (n + 1) k (logged g s p t f') before
                  (more n before f.exits (logged g s p t f').exits (exit_row g.dry_run p t) refl
                    (logged-exits p t f') h)
                  e)
          ])
  ]

  logged-dry : g.dry_run ≡ true → (p : Position) (t : Trigger) (f : Floor) → logged g s p t f ≡ f
  unfolding logged
  logged-dry d p t f = rw d refl

  run_positions-dry :
      (d : g.dry_run ≡ true) (ps : List Position) (n : ℕ) (f : Floor)
      → ((run_positions g s ps n f).1.messages ≡ f.messages)
        × ((run_positions g s ps n f).1.orders ≡ f.orders)
  unfolding run_positions
  run_positions-dry d [] n f = (refl, refl)
  run_positions-dry d (p ∷ ps) n f = elim (Option-cases (evaluate_triggers g s.now p)) [
    | inl q ↦ rw (run_positions, q) (run_positions-dry d ps n f)
    | inr (t, q) ↦
        rw (run_positions, q)
          (elim (log_exit-cases p t f) [
            | inl r ↦ rw r (refl, refl)
            | inr r ↦ rw r (
                let f' = record f { exits = exit_row g.dry_run p t ∷ f.exits } in
                let (m, o) = run_positions-dry d ps (n + 1) (logged g s p t f') in
                (
                  m ∙ ap (λ x. x.messages) (logged-dry d p t f'),
                  o ∙ ap (λ x. x.orders) (logged-dry d p t f'),
                ))
          ])
  ]

module _ (g : Settings) (f : Floor) where
  abbrev Books : Option ℕ × Floor → Type 0
  Books r =
      ((k : ℕ) → r.0 ≡ some k → Adds g.dry_run k f.exits r.1.exits)
      × (r.0 ≡ none → r.1.exits ≡ f.exits)
      × (g.dry_run ≡ true → (r.1.messages ≡ f.messages) × (r.1.orders ≡ f.orders))

  committed-Books :
      (r : Option ℕ × Floor)
      → ((k : ℕ) → r.0 ≡ some k → Adds g.dry_run k f.exits r.1.exits)
      → (g.dry_run ≡ true → (r.1.messages ≡ f.messages) × (r.1.orders ≡ f.orders))
      → Books (committed f.exits r)
  committed-Books (none, f') rows quiet = ((λ k e. absurd (none-is_not e)), (λ e. refl), quiet)
  committed-Books (some n, f') rows quiet = (rows, (λ e. absurd (none-is_not (sym e))), quiet)

-- The books of a cycle: if it ends with a count, it has added that many exit rows and no other, each
-- marked as a dry run exactly when it was one; if an insert fails, the rows are those from before the
-- cycle. A dry run sends no message and places no order either way.
pub run_cycle-accounts :
    (g : Settings) (s : Services) (t : Tables) (f : Floor)
    → ((k : ℕ)
        → (run_cycle g s t f).0 ≡ some k
        → Adds g.dry_run k f.exits (run_cycle g s t f).1.exits)
      × ((run_cycle g s t f).0 ≡ none → (run_cycle g s t f).1.exits ≡ f.exits)
      × (g.dry_run ≡ true
          → ((run_cycle g s t f).1.messages ≡ f.messages)
            × ((run_cycle g s t f).1.orders ≡ f.orders))
unfolding run_cycle
run_cycle-accounts g s t f = switched g.enabled
  where
    ps : List Position
    ps = enrich_nws_forecasts t (enrich_market_prices t (load_open_positions t))

    count : Option ℕ → ℕ
    count none = 0
    count (some x) = x

    switched :
        (on : Bool)
        → Books g f (if on then committed f.exits (run_positions g s ps 0 f) else (some 0, f))
    switched true =
        committed-Books g f (run_positions g s ps 0 f)
          (λ k. run_positions-Adds g s ps 0 k f f.exits ([], refl, refl, tt))
          (λ d. run_positions-dry g s d ps 0 f)
    switched false = ((λ k q. ([], refl, ap count q, tt)), (λ q. refl), (λ d. (refl, refl)))
