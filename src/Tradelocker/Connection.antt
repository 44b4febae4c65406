-- ===== src/Tradelocker/Connection.antt =====
-- src/tradelocker/connection.ts and stream.schema.ts: one socket to the streams API. Socket.io and
-- the checks of zod are parameters: frames and acks come as the schemas parse them.
pub mod Once
use tradetrack_api.Prelude.{
  ℕ, ◌+◌, Bool, true, false, ◌&&◌, not, String, str_eq, Option, none, some, List, [], ◌∷◌, is_some,
  if◌then◌else◌,
}
use tradetrack_api.Tradelocker.Types.{TradeSide}

pub record PositionPnl : Type 0 where
  pub position_id : String
  pub pnl : String

pub record AccountStatusMessage : Type 0 where
  pub account_id : String
  pub position_pnls : Option (List PositionPnl)

pub record PositionMessage : Type 0 where
  pub account_id : String
  pub position_id : String
  pub instrument : String
  pub side : TradeSide
  pub lots : Option String
  pub lot_size : Option String
  pub units : Option String
  pub open_date_time : Option String

pub data PropertyName : Type 0 where
  sync_end disconnected : PropertyName

-- The messages that a handler of the manager reads, with the fields that it reads.
pub data StreamMessage : Type 0 where
  account_status : AccountStatusMessage → StreamMessage
  open_order : String → StreamMessage
  position : PositionMessage → StreamMessage
  close_position : String → StreamMessage
  property : PropertyName → StreamMessage

-- A frame without a type, one that its schema refuses, or a message.
pub data Frame : Type 0 where
  untyped : Frame
  unparseable : String → Frame
  parsed : StreamMessage → Frame

pub data Status : Type 0 where
  ok error : Status

pub record StatusMessage : Type 0 where
  pub status : Status
  pub code : Option String
  pub message : Option String

pub record SubscribeError : Type 0 where
  pub code : String
  pub fatal : Bool

-- What `subscribe` does with an ack: it returns, or throws, after `onJwtInvalid` or without it.
pub data Outcome : Type 0 where
  subscribed : Outcome
  rejected : SubscribeError → Outcome
  jwt_invalid : SubscribeError → Outcome

abbrev pub error_of : String → Bool → SubscribeError
error_of code fatal = record { code = code; fatal = fatal }

abbrev pub message_of : Option String → String
message_of none = ""
message_of (some s) = s

-- `mentions_host` is the test `/not recognized|host/i`.
module _ (mentions_host : String → Bool) where
  abbrev pub rejected_with : Option String → String → Outcome
  rejected_with none message = rejected (error_of "error" false)
  rejected_with (some code) message =
      if str_eq code "invalidJwt"
      then (if mentions_host message
          then rejected (error_of code true)
          else jwt_invalid (error_of code false))
      else if str_eq code "accountNotFound"
      then rejected (error_of code true)
      else if str_eq code "unauthorized"
      then rejected (error_of code true)
      else rejected (error_of code false)

  abbrev pub acked : Status → StatusMessage → Outcome
  acked ok ack = subscribed
  acked error ack = rejected_with ack.code (message_of ack.message)

  -- The ack as the schema parses it, `none` where it does not.
  unfoldable pub classify_ack : Option StatusMessage → Outcome
  classify_ack none = rejected (error_of "unknown" false)
  classify_ack (some ack) = acked ack.status ack

-- What the connection calls of its handlers.
pub data Call : Type 0 where
  on_account_status : AccountStatusMessage → Call
  on_open_order : String → Call
  on_position : PositionMessage → Call
  on_close_position : String → Call
  on_sync_end : Call
  on_lost : Call

-- The socket is there from `open` to `close`. `calls` lists the calls of the handlers, `sent` the
-- number of requests to unsubscribe, both of this connection.
pub record Connection : Type 0 where
  pub socket : Bool
  pub lost : Bool
  pub account_id : Option String
  pub brand_id : Option String
  pub calls : List Call
  pub sent : ℕ

abbrev pub made : Connection
made = record {
  socket = false;
  lost = false;
  account_id = none;
  brand_id = none;
  calls = [];
  sent = 0;
}

abbrev pub call : Call → Connection → Connection
call c x = record x { calls = c ∷ x.calls }

unfoldable pub fail : Connection → Connection
fail x = if x.lost then x else call on_lost (record x { lost = true })

abbrev pub has_text : Option String → Bool
has_text none = false
has_text (some s) = not (str_eq s "")

abbrev pub unsubscribed : Bool → Connection → Connection
unsubscribed connected x =
    if connected && has_text x.account_id && has_text x.brand_id
    then record x { sent = x.sent + 1 }
    else x

-- `connected` is the socket's own state.
unfoldable pub close : Bool → Connection → Connection
close connected x =
    let gone = record x { lost = true; socket = false } in
    if x.socket then unsubscribed connected gone else gone

abbrev pub property_read : PropertyName → Connection → Connection
property_read sync_end x = call on_sync_end x
property_read disconnected x = fail x

abbrev pub message_read : StreamMessage → Connection → Connection
message_read (account_status m) x = call (on_account_status m) x
message_read (open_order id) x = call (on_open_order id) x
message_read (position m) x = call (on_position m) x
message_read (close_position id) x = call (on_close_position id) x
message_read (property name) x = property_read name x

unfoldable pub dispatch : Frame → Connection → Connection
dispatch untyped x = x
dispatch (unparseable kind) x = x
dispatch (parsed m) x = message_read m x

-- What reaches a connection. Its listeners are there while it has its socket.
pub data Event : Type 0 where
  opens : Event
  subscribes : Option String → Option String → Event
  streams : Frame → Event
  disconnects : Event
  closes : Bool → Event

abbrev pub handle : Event → Connection → Connection
handle opens x = record x { socket = true }
handle (subscribes account_id brand_id) x =
    if x.socket then record x { account_id = account_id; brand_id = brand_id } else x
handle (streams frame) x = if x.socket then dispatch frame x else x
handle disconnects x = if x.socket then fail x else x
handle (closes connected) x = close connected x

abbrev pub handle_all : List Event → Connection → Connection
handle_all [] x = x
handle_all (e ∷ es) x = handle_all es (handle e x)
