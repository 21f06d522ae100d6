-- ===== src/Connectivity/WsClient/Handle.antt =====
-- What the client does with a frame, and how it connects. The state is the pair of the client and of what
-- the handlers change besides, which is of any type. Arguments: whether the client has credentials,
-- the login message that they make, and the handlers.
use cpp_trading_engine.Base.{
  Bool, true, false, ◌&&◌, ◌||◌, not, Option, none, some, [], if◌then◌else◌, Text, Result, ok, err,
}
use cpp_trading_engine.Base.Effects.{Effect, resume}
use cpp_trading_engine.Connectivity.Heartbeat.{is_okx_pong}
use cpp_trading_engine.Connectivity.ReadLoop.{on_read}
use cpp_trading_engine.Connectivity.WsClient.{
  WsEndpointKind, json, sbe, Outside, WsClient, max_message_size, draw, key_of, ticks_of,
  schedule_reconnect, write_raw, send, schedule_heartbeat,
}
use cpp_trading_engine.Constants.{is_text, event_key, login_event, code_key, success_code}
use cpp_trading_engine.Json.Fields.{find_string}
use cpp_trading_engine.Net.Control.{build_control_response}
use cpp_trading_engine.Net.Frame.{WebSocketOpcode, continuation, pong, Frame}
use cpp_trading_engine.Net.Reassembler.{Reassembler, append, get_message, reset_message}

abbrev pub is_pong : WebSocketOpcode → Bool
is_pong pong = true
is_pong _ = false

abbrev pub is_continuation : WebSocketOpcode → Bool
is_continuation continuation = true
is_continuation _ = false

abbrev has_auth : Option Text → Bool
has_auth none = false
has_auth (some login) = true

module _ (o : Outside) (login : Option Text) where
  -- `auth_ && !authenticated_ && FindString(message, kEvent) == kLoginEvent`
  abbrev pub is_login : WsClient → Text → Bool
  is_login c message =
      has_auth login && (not c.authenticated && is_text (find_string message event_key) login_event)

  -- The part of `DispatchMessage` before the handler
  unfoldable pub note_message : Text → WsClient → WsClient
  unfolding find_string
  note_message message c =
      let noted = draw (record c { last_message_decoded_ticks = ticks_of o c }) in
      if is_login c message
      then record noted { authenticated = is_text (find_string message code_key) success_code }
      else noted

module _ (o : Outside) (login : Option Text) {W : Type 0} where
  -- A call of the client beside what else there is.
  abbrev pub on_client : Effect WsClient (Unit {0}) → Effect (WsClient × W) (Unit {0})
  on_client action (c, w) = let (d, answer) = action c in ((d, w), answer)

  module _ (on_message : Text → Effect (WsClient × W) (Unit {0})) where
    -- `DispatchMessage`
    unfoldable pub dispatch_message : Text → Effect (WsClient × W) (Unit {0})
    unfolding note_message
    dispatch_message message (c, w) = on_message message (note_message o login message c, w)

    abbrev set_reassembler : Reassembler → WsClient × W → WsClient × W
    set_reassembler r (c, w) = (record c { reassembler = r }, w)

    -- After a continuation: a complete message is handed on, and then cleared.
    abbrev if_complete : Effect (WsClient × W) (Unit {0})
    if_complete (c, w) =
        if c.reassembler.complete
        then resume (λ _ (d, v). (set_reassembler (reset_message d.reassembler) (d, v), ok tt))
            (dispatch_message (get_message c.reassembler) (c, w))
        else ((c, w), ok tt)

    abbrev appended :
        Effect (WsClient × W) (Unit {0})
        → WsClient × W
        → Result Reassembler
        → (WsClient × W) × Result (Unit {0})
    appended next s (err e) = (s, err e)
    appended next s (ok r) = next (set_reassembler r s)

    -- A frame that is neither a control frame nor a pong
    abbrev on_data_frame : Frame → Effect (WsClient × W) (Unit {0})
    on_data_frame frame (c, w) =
        if is_continuation frame.header.opcode
        then appended if_complete (c, w)
            (append max_message_size frame.payload frame.header.fin c.reassembler)
        else (if frame.header.fin
            then dispatch_message frame.payload (c, w)
            else appended (λ s. (s, ok tt)) (c, w)
                (append max_message_size frame.payload false c.reassembler))

    abbrev control :
        Frame → WsClient × W → Result (Option Text) → (WsClient × W) × Result (Unit {0})
    control frame (c, w) (err e) = ((draw c, w), err e)
    control frame (c, w) (ok (some response)) = on_client (write_raw o response none) (draw c, w)
    control frame (c, w) (ok none) =
        if is_pong frame.header.opcode || is_okx_pong frame
        then ((c, w), ok tt)
        else on_data_frame frame (c, w)

    -- `HandleFrame`
    unfoldable pub handle_frame : Frame → Effect (WsClient × W) (Unit {0})
    unfolding build_control_response is_okx_pong append get_message reset_message write_raw
        dispatch_message
    handle_frame frame (c, w) = control frame (c, w) (build_control_response (key_of o c) frame)

    -- The completion of a read; one with an error is `schedule_reconnect`.
    unfoldable pub on_read_some : Text → Effect (Text × (WsClient × W)) (Unit {0})
    unfolding on_read handle_frame
    on_read_some chunk (rx_buffer, (c, w)) =
        on_read handle_frame chunk
          (rx_buffer, (draw (record c { last_message_arrival_ticks = ticks_of o c }), w))

  module _ (kind : WsEndpointKind) (on_connected : Effect (WsClient × W) (Unit {0})) where
    -- `Send(BuildPrivateWsLoginMessage())` where there are credentials
    abbrev send_login : Option Text → Effect (WsClient × W) (Unit {0})
    send_login none s = (s, ok tt)
    send_login (some message) s = on_client (send o message none) s

    abbrev log_in : WsEndpointKind → Effect (WsClient × W) (Unit {0})
    log_in sbe (c, w) = ((record c { authenticated = true }, w), ok tt)
    log_in json s = send_login login s

    -- The statements after the handshake
    abbrev pub connected_up : Effect (WsClient × W) (Unit {0})
    connected_up (c, w) =
        let up = record c { reconnect_attempt = 0; authenticated = false } in
        resume (λ _ (d, v). ((schedule_heartbeat o kind d, v), ok tt))
          (resume (λ _. on_connected) (log_in kind (up, w)))

    -- The `catch`
    abbrev pub caught : (WsClient × W) × Result (Unit {0}) → WsClient × W
    caught (s, ok done) = s
    caught ((c, w), err e) = (schedule_reconnect o c, w)

    -- `Connect`, by whether the transport and the handshake come about
    unfoldable pub connect : Bool → Text × (WsClient × W) → Text × (WsClient × W)
    unfolding send schedule_reconnect
    connect reached (rx_buffer, (c, w)) =
        let transport = record c { connected = true } in
        if reached
        then ([], caught (connected_up (transport, w)))
        else (rx_buffer, (schedule_reconnect o transport, w))
