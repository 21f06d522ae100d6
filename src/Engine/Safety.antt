-- ===== src/Engine/Safety.antt =====
-- okx/engine/engine.cpp: what the kill switch stops.
use cpp_trading_engine.Base.{
  ℕ, suc, ◌≡◌, refl, sym, ◌∙◌, Bool, true, false, Option, List, [], ◌∷◌, Text, Result, ok, err,
  arith, subst, if-both,
}
use cpp_trading_engine.Base.Double.{Double}
use cpp_trading_engine.Base.Keeps.{Keeps}
use cpp_trading_engine.Connectivity.RateLimiter.{EndpointRateLimiter}
use cpp_trading_engine.Connectivity.WsClient.{WsClient}
use cpp_trading_engine.Engine.{
  RestCall, place_order, get_pending_orders, cancel_order, Members, State, tell, after_trigger,
  trigger_kill_switch,
}
use cpp_trading_engine.Engine.Events.{has_lost, take_fill, after_event, list_of, apply_to_store}
use cpp_trading_engine.Orders.Events.{OrderFill, OrderEvent}
use cpp_trading_engine.Orders.Store.{OrderStore}
use cpp_trading_engine.Risk.KillSwitch.{trigger}
use cpp_trading_engine.Risk.Position.{apply_fill}
use cpp_trading_engine.Strategy.Desk.{on_order_removed, Quoter}

-- The orders placed over the REST interface
abbrev pub placed_by_rest : List RestCall → ℕ
placed_by_rest [] = 0
placed_by_rest (place_order ∷ calls) = suc (placed_by_rest calls)
placed_by_rest (get_pending_orders ∷ calls) = placed_by_rest calls
placed_by_rest (cancel_order inst_id ord_id ∷ calls) = placed_by_rest calls

module _ (d : Double) where
  open d use {Val}

  -- The kill switch is on, and the rate limiter, the mid price quoted last and the number of orders
  -- placed over the REST interface are those given.
  pub record Halted (limiter : EndpointRateLimiter) (mid : Option Val) (placed : ℕ) (s : State d)
      : Type 0 where
    pub on : s.1.kill_switch ≡ true
    pub limits : s.1.desk.rate_limiter ≡ limiter
    pub mid_kept : s.1.desk.quoter.last_quoted_mid ≡ mid
    pub rest : placed_by_rest s.1.rest_calls ≡ placed

  module _ (limiter : EndpointRateLimiter) (mid : Option Val) (placed : ℕ) where
    abbrev pub Stays : State d → Type 0
    Stays = Halted limiter mid placed

    pub tell-Stays :
        (ids : List Text) (c : WsClient) (e : Members d) → Stays (c, e) → Stays (c, tell d ids e)
    unfolding on_order_removed
    tell-Stays [] c e h = h
    tell-Stays (id ∷ ids) c e h = tell-Stays ids c _ (record {
      on = h.on;
      limits = h.limits;
      mid_kept = same e.desk.quoter ∙ h.mid_kept;
      rest = h.rest;
    })
      where
        same : (q : Quoter d) → (on_order_removed d id q).last_quoted_mid ≡ q.last_quoted_mid
        same q = ground arith

    pub trigger_kill_switch-Stays : Keeps Stays (trigger_kill_switch d)
    unfolding trigger_kill_switch trigger
    trigger_kill_switch-Stays = record {
      keeps = λ (c, e) h.
          subst (λ (r : Members d × Result (Unit {0})). Stays (c, r.0))
            (sym (again e.desk.order_store e e.kill_switch h.on))
            (record { on = refl; limits = h.limits; mid_kept = h.mid_kept; rest = h.rest });
    }
      where
        again :
            (store : OrderStore) (e : Members d) (on : Bool)
            → on ≡ true
            → after_trigger d e (trigger store on) ≡ (record e { kill_switch = true }, ok tt)
        again store e true h = refl
        again store e false h = cc

    pub take_fill-Stays :
        (side : Text) (filled : OrderFill Val) → Keeps Stays (take_fill d side filled)
    unfolding take_fill
    take_fill-Stays side filled = record {
      keeps = λ (c, e) h.
          let moved = record e { position = apply_fill d side filled.px filled.sz e.position } in
          let kept : Stays (c, moved) = record {
            on = h.on;
            limits = h.limits;
            mid_kept = h.mid_kept;
            rest = h.rest;
          } in
          if-both (λ (r : State d × Result (Unit {0})). Stays r.0) (has_lost d moved.position)
            (trigger_kill_switch d (c, moved)) ((c, moved), ok tt)
            (λ l. trigger_kill_switch-Stays.keeps (c, moved) kept) (λ l. kept);
    }

    pub apply_to_store-Stays : (event : OrderEvent Val) → Keeps Stays (apply_to_store d event)
    apply_to_store-Stays event = record { keeps = λ (c, e) h. applied_at (c, e) h _ }
      where
        applied_at :
            (s : State d)
            → Stays s
            → (r : OrderStore × Result (Option Text)) → Stays (after_event d s r).0
        applied_at (c, e) h (store, ok notice) =
            tell-Stays (list_of d notice) c _
              (record { on = h.on; limits = h.limits; mid_kept = h.mid_kept; rest = h.rest })
        applied_at (c, e) h (store, err x) = record {
          on = h.on;
          limits = h.limits;
          mid_kept = h.mid_kept;
          rest = h.rest;
        }
