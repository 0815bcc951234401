-- ===== src/Killswitch/Halt/Audit.antt =====
-- master_killswitch.py: the audit row and the message of a halt.
use blackhole_network.Base.{
  ℕ, String, Bool, true, false, not, Option, none, some, List, ◌≡◌, ap, ◌∙◌, arith,
}
use blackhole_network.Core.Types.{Message, Strategy}
use blackhole_network.Core.World.{World, Env, Client, Order, Result, ok, raised, attribute_error}
use blackhole_network.Core.Monad.Keeps.{Keeps, keeps_rules}
use blackhole_network.Core.Monad.Bind.{bind_ok, bind-eq-ok}
use blackhole_network.Core.Lifecycle.{system_id, find_strategy}
use blackhole_network.Core.Clients.Returns.{Returns, returns_rules}
use blackhole_network.Core.Clients.Frame.{for_clients-Keeps}
use blackhole_network.Core.Clients.{for_clients}
use blackhole_network.Killswitch.Teardown.{Cancelled, Flattened, cancel_all_open_orders}
use blackhole_network.Killswitch.Teardown.Keeps.{
  SameStatus, SameStatus-preorder, get_alpaca-SameStatus, get_strategy_alpaca-SameStatus,
  cancel_all_open_orders-SameStatus, flatten_all_positions-SameStatus,
}
use blackhole_network.Killswitch.Teardown.Returns.{
  cancel_all_open_orders-Returns, flatten_all_positions-Returns,
}
use blackhole_network.Killswitch.Halt.{
  HaltState, report, halt_state_of, first_count, counted, state_with, row_halted, add_orders,
  count_orders, get_halt_state, record_killswitch_event, flatten_if, tear_down, halt,
}
use blackhole_network.Killswitch.Halt.Outcome.{get_halt_state-Returns}

-- Whether the system row says halted.
abbrev pub was_halted : World → Bool
was_halted w = row_halted (find_strategy system_id w.strategies)

module _ (env : Env) where
  add_orders-SameStatus :
      (acc : Option ℕ) (r : Result (List Order)) → Keeps SameStatus (add_orders env acc r)
  unfolding add_orders
  add_orders-SameStatus acc (raised e) = record { at = λ w. SameStatus-preorder.same w }
  add_orders-SameStatus none (ok os) = record { at = λ w. SameStatus-preorder.same w }
  add_orders-SameStatus (some n) (ok os) = record { at = λ w. SameStatus-preorder.same w }

  count_orders-SameStatus :
      (l : String) (c : Client) (acc : Option ℕ) → Keeps SameStatus (count_orders env l c acc)
  unfolding count_orders
  count_orders-SameStatus l c acc = add_orders-SameStatus acc (env.list_orders c)

  halt_state_of-SameStatus :
      (row : Option Strategy) (n : ℕ) → Keeps SameStatus (halt_state_of env row n)
  unfolding halt_state_of
  halt_state_of-SameStatus row n =
      search
        (
          keeps_rules, SameStatus-preorder, get_alpaca-SameStatus, get_strategy_alpaca-SameStatus,
          count_orders-SameStatus, for_clients-Keeps,
        )
        depth 15

  pub get_halt_state-SameStatus : Keeps SameStatus (get_halt_state env)
  unfolding get_halt_state
  get_halt_state-SameStatus = record { at = λ w. (halt_state_of-SameStatus _ _).at w }

  halt_state_of-flag :
      (row : Option Strategy) (n : ℕ) (w : World) (s : HaltState)
      → (halt_state_of env row n w).0 ≡ ok s
      → s.is_halted ≡ row_halted row
  unfolding halt_state_of
  halt_state_of-flag row n w s e =
      let (a, ea, ra) = bind-eq-ok (first_count env) (counted env row n) w e in
      let (b, eb, rb) =
        bind-eq-ok (for_clients env (count_orders env) a) (state_with env row n) _ ra in
      cc rb

  -- The flag is read before anything is asked of the broker.
  pub get_halt_state-flag :
      (w : World) (s : HaltState) → (get_halt_state env w).0 ≡ ok s → s.is_halted ≡ was_halted w
  unfolding get_halt_state
  get_halt_state-flag w s e = halt_state_of-flag _ _ w s e

  flatten_if-Returns : (b : Bool) → Returns (flatten_if env b)
  flatten_if-Returns true = flatten_all_positions-Returns env
  flatten_if-Returns false = search returns_rules

  flatten_if-SameStatus : (b : Bool) → Keeps SameStatus (flatten_if env b)
  flatten_if-SameStatus true = flatten_all_positions-SameStatus env
  flatten_if-SameStatus false = search (keeps_rules, SameStatus-preorder)

  report-raises :
      (why : Message) (source : String) (flatten first : Bool) (c : Cancelled) (f : Flattened)
      (w : World)
      → env.has_json_safe ≡ false
      → report env why source flatten first c f w ≡ (raised attribute_error, w)
  unfolding report record_killswitch_event
  report-raises why source flatten first c f w h = ground arith

  tear_down-raises :
      (why : Message) (source : String) (flatten first : Bool) (w : World)
      → env.has_json_safe ≡ false
      → let (r, w') = tear_down env why source flatten first w in
        (r ≡ raised attribute_error) × (w'.events ≡ w.events) × (w'.texts ≡ w.texts)
  unfolding tear_down
  tear_down-raises why source flatten first w h =
      let (c, ec) = (cancel_all_open_orders-Returns env).at w in
      let w1 = (cancel_all_open_orders env w).1 in
      let (f, ef) = (flatten_if-Returns flatten).at w1 in
      let w2 = (flatten_if env flatten w1).1 in
      let k1 = (cancel_all_open_orders-SameStatus env).at w in
      let k2 = (flatten_if-SameStatus flatten).at w1 in
      let e = report-raises why source flatten first c f w2 h in
      rw (bind_ok (cancel_all_open_orders env) _ w ec) (
        rw (bind_ok (flatten_if env flatten) _ w1 ef) (
          ap (λ p. p.0) e,
          ap (λ p. p.1.events) e ∙ (k2.events ∙ k1.events),
          ap (λ p. p.1.texts) e ∙ (k2.texts ∙ k1.texts),
        ))

  -- Where `trading_core` has no `json_safe`, every halt raises, whatever the broker answers: no
  -- audit row is written and the operator is not told.
  pub halt-unaudited :
      (why : Message) (source : String) (flatten : Bool) (w : World)
      → env.has_json_safe ≡ false
      → let (r, w') = halt env why source flatten w in
        (r ≡ raised attribute_error) × (w'.events ≡ w.events) × (w'.texts ≡ w.texts)
  unfolding halt
  halt-unaudited why source flatten w h =
      let (state, e) = (get_halt_state-Returns env).at w in
      let k = get_halt_state-SameStatus.at w in
      let (r, ev, tx) = tear_down-raises why source flatten (not state.is_halted) _ h in
      rw (bind_ok (get_halt_state env) _ w e) (r, ev ∙ k.events, tx ∙ k.texts)
