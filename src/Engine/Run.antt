-- ===== src/Engine/Run.antt =====
-- okx/engine/engine.cpp: the engine as a whole, with what reaches it one event after another.
use cpp_trading_engine.Base.{
  ℕ, ◌≡◌, refl, Bool, true, false, not, ◌&&◌, Option, List, [], ◌∷◌, if◌then◌else◌, Text, Result,
  ok, if-both,
}
use cpp_trading_engine.Base.Double.{Double}
use cpp_trading_engine.Base.Effects.{Effect}
use cpp_trading_engine.Connectivity.RateLimiter.{EndpointRateLimiter}
use cpp_trading_engine.Connectivity.WsClient.{Outside, WsClient}
use cpp_trading_engine.Engine.{
  RestAnswers, Members, State, may_quote, on_desk, handle_book_update, handle_quoter_timer,
  trigger_kill_switch,
}
use cpp_trading_engine.Engine.Events.{on_private_ws_message}
use cpp_trading_engine.Engine.Safety.{Halted, Stays, placed_by_rest, trigger_kill_switch-Stays}
use cpp_trading_engine.Engine.Halt.Messages.{on_private_ws_message-Halts}
use cpp_trading_engine.MarketData.OrderBook.{OrderBook}
use cpp_trading_engine.Perf.Trace.{TickToTradeTrace}
use cpp_trading_engine.Strategy.Quoter.{on_book_update, on_timer}

module _ (d : Double) where
  -- What the event loop calls. The client may be changed in any way between, as by a read, a write, its
  -- timers or a reconnection.
  pub data Event : Type 0 where
    message : Text → Event
    book_update : OrderBook d.Val → TickToTradeTrace → Event
    quoter_timer : Event
    signal : Event
    client : WsClient → Event

  module _ (o : Outside) (round : d.Val → d.Val) (to_chars : ℕ → d.Val → Text)
      (rest : RestAnswers) where
    -- An exception ends the program; here the run goes on from the state that it leaves.
    unfoldable pub handle_event : Event → State d → State d
    unfolding on_private_ws_message handle_book_update handle_quoter_timer trigger_kill_switch
    handle_event (message text) s = (on_private_ws_message d o rest text s).0
    handle_event (book_update book trace) s = (handle_book_update d o round to_chars book trace s).0
    handle_event quoter_timer s = (handle_quoter_timer d o round to_chars s).0
    handle_event signal s = (trigger_kill_switch d s).0
    handle_event (client changed) (c, e) = (changed, e)

    unfoldable pub handle_events : List Event → State d → State d
    unfolding handle_event
    handle_events [] s = s
    handle_events (event ∷ events) s = handle_events events (handle_event event s)

    module _ (limiter : EndpointRateLimiter) (mid : Option d.Val) (placed : ℕ) where
      no_quote :
          (action : Effect (State d) (Unit {0})) (c : WsClient) (e : Members d)
          → Stays d limiter mid placed (c, e)
          → Stays d limiter mid placed
              (if may_quote d (c, e) then action (c, e) else ((c, e), ok tt)).0
      no_quote action c e h =
          if-both (λ (r : State d × Result (Unit {0})). Stays d limiter mid placed r.0)
            (may_quote d (c, e)) (action (c, e)) ((c, e), ok tt)
            (λ m. absurd (off e.kill_switch c.authenticated h.on m)) (λ m. h)
        where
          off : (on authenticated : Bool) → on ≡ true → not on && authenticated ≡ true → ⊥
          off true authenticated p q = cc
          off false authenticated p q = cc

      handle_event-Halted :
          (event : Event) (s : State d)
          → Halted d limiter mid placed s
          → Halted d limiter mid placed (handle_event event s)
      unfolding handle_event handle_book_update handle_quoter_timer
      handle_event-Halted (message text) s h =
          (on_private_ws_message-Halts d o rest limiter mid placed text).keeps s h
      handle_event-Halted (book_update book trace) (c, e) h =
          no_quote (on_desk d (on_book_update d o round to_chars book trace)) c e h
      handle_event-Halted quoter_timer (c, e) h =
          no_quote (on_desk d (on_timer d o round to_chars)) c e h
      handle_event-Halted signal s h = (trigger_kill_switch-Stays d limiter mid placed).keeps s h
      handle_event-Halted (client changed) (c, e) h = record {
        on = h.on;
        limits = h.limits;
        mid_kept = h.mid_kept;
        rest = h.rest;
      }

      run-Halted :
          (events : List Event) (s : State d)
          → Halted d limiter mid placed s
          → Halted d limiter mid placed (handle_events events s)
      unfolding handle_events
      run-Halted [] s h = h
      run-Halted (event ∷ events) s h =
          run-Halted events (handle_event event s) (handle_event-Halted event s h)

    -- Once the kill switch is on it stays on, whatever messages, books, timers, signals and changes of
    -- the connection follow, and whatever throws: the rate limiter grants nothing more, the quoter
    -- quotes no new price, and no order is placed over the REST interface.
    pub handle_events-Halted :
        (events : List Event) (c : WsClient) (e : Members d)
        → e.kill_switch ≡ true
        → Halted d e.desk.rate_limiter e.desk.quoter.last_quoted_mid
            (placed_by_rest e.rest_calls)
            (handle_events events (c, e))
    handle_events-Halted events c e on =
        run-Halted e.desk.rate_limiter e.desk.quoter.last_quoted_mid (placed_by_rest e.rest_calls)
          events (c, e) (record { on = on; limits = refl; mid_kept = refl; rest = refl })
