-- ===== src/Connectivity/ResponseDemux.antt =====
-- okx/connectivity/ws_response_demux: the handlers that wait for answers, by the id of the request. The
-- hash map is a function from an id to the handler that waits for it; a handler is of any type, and
-- `dispatch` returns the one that is called with the message.
use cpp_trading_engine.Base.{Option, none, some, if◌then◌else◌, Text, text_eq}
use cpp_trading_engine.Constants.{id_key}
use cpp_trading_engine.Json.Fields.{find_string}

abbrev pub Pending : Type 0 → Type 0
Pending H = Text → Option H

abbrev pub insert_absent : {H : Type 0} → Text → H → Option H → Option H
insert_absent id handler (some old) = some old
insert_absent id handler none = some handler

-- `Track`: `emplace` leaves a handler that is there.
unfoldable pub track : {H : Type 0} → Text → H → Pending H → Pending H
track id handler pending other =
    if text_eq other id then insert_absent id handler (pending other) else pending other

unfoldable pub erase : {H : Type 0} → Text → Pending H → Pending H
erase id pending other = if text_eq other id then none else pending other

abbrev pub take_out : {H : Type 0} → Text → Pending H → Option H → Pending H × Option H
take_out id pending none = (pending, none)
take_out id pending (some handler) = (erase id pending, some handler)

abbrev pub dispatch_id : {H : Type 0} → Option Text → Pending H → Pending H × Option H
dispatch_id none pending = (pending, none)
dispatch_id (some id) pending = take_out id pending (pending id)

-- `Dispatch`: `false` in the source is `none` here.
unfoldable pub dispatch : {H : Type 0} → Text → Pending H → Pending H × Option H
unfolding erase find_string
dispatch message pending = dispatch_id (find_string message id_key) pending
