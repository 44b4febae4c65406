-- ===== src/Tradelocker/Connection/Once.antt =====
-- How often a socket of src/tradelocker/connection.ts reports that it is lost.
use tradetrack_api.Prelude.{
  ℕ, ◌+◌, ◌≤◌, Bool, true, false, ◌&&◌, List, [], ◌∷◌, inl, inr, Bool-cases, arith, if_either,
  if◌then◌else◌,
}
use tradetrack_api.Tradelocker.Connection.{
  Connection, Call, on_lost, StreamMessage, account_status, open_order, position, close_position,
  property, sync_end, disconnected, Frame, untyped, unparseable, parsed, fail, has_text,
  unsubscribed, close, message_read, dispatch, Event, opens, subscribes, streams, disconnects,
  closes, handle, handle_all,
}

abbrev pub losses : List Call → ℕ
losses [] = 0
losses (on_lost ∷ cs) = 1 + losses cs
losses (_ ∷ cs) = losses cs

-- The reports so far, and one that may come.
abbrev pub at_most : Connection → ℕ
at_most x = losses x.calls + (if x.lost then 0 else 1)

fail-at_most : (x : Connection) → at_most (fail x) ≤ at_most x
unfolding fail
fail-at_most x = elim (Bool-cases x.lost) [
  | inl e ↦ rw (e) (omega arith)
  | inr e ↦ rw (e) (omega arith)
]

message_read-at_most : (m : StreamMessage) (x : Connection) → at_most (message_read m x) ≤ at_most x
message_read-at_most (account_status m) x = omega arith
message_read-at_most (open_order id) x = omega arith
message_read-at_most (position m) x = omega arith
message_read-at_most (close_position id) x = omega arith
message_read-at_most (property sync_end) x = omega arith
message_read-at_most (property disconnected) x = fail-at_most x

dispatch-at_most : (f : Frame) (x : Connection) → at_most (dispatch f x) ≤ at_most x
unfolding dispatch
dispatch-at_most untyped x = omega arith
dispatch-at_most (unparseable kind) x = omega arith
dispatch-at_most (parsed m) x = message_read-at_most m x

unsubscribed-at_most :
    (connected : Bool) (y : Connection) (n : ℕ)
    → at_most y ≤ n
    → at_most (unsubscribed connected y) ≤ n
unsubscribed-at_most connected y n h =
    if_either (λ z. at_most z ≤ n) (connected && has_text y.account_id && has_text y.brand_id)
      (record y { sent = y.sent + 1 }) y h h

-- Nothing is left to report after a close.
close-at_most : (connected : Bool) (x : Connection) → at_most (close connected x) ≤ losses x.calls
unfolding close
close-at_most connected x =
    let gone : Connection = record x { lost = true; socket = false } in
    let small : at_most gone ≤ losses x.calls = omega arith in
    if_either (λ z. at_most z ≤ losses x.calls) x.socket (unsubscribed connected gone) gone
      (unsubscribed-at_most connected gone (losses x.calls) small) small

handle-at_most : (e : Event) (x : Connection) → at_most (handle e x) ≤ at_most x
handle-at_most opens x = omega arith
handle-at_most (subscribes account_id brand_id) x =
    if_either (λ y. at_most y ≤ at_most x) x.socket _ x (omega arith) (omega arith)
handle-at_most (streams f) x =
    if_either (λ y. at_most y ≤ at_most x) x.socket _ x (dispatch-at_most f x) (omega arith)
handle-at_most disconnects x =
    if_either (λ y. at_most y ≤ at_most x) x.socket _ x (fail-at_most x) (omega arith)
handle-at_most (closes connected) x = omega (arith, close-at_most connected x)

reports : (es : List Event) (x : Connection) → losses (handle_all es x).calls ≤ at_most x
reports [] x = omega arith
reports (e ∷ es) x = omega (arith, reports es (handle e x), handle-at_most e x)

-- Whatever frames, drops and closes reach a connection, it reports that it is lost at most once more than it
-- did, and no more if it was lost before; and after a close it reports no more, whatever comes.
pub handle_all-losses :
    (es : List Event) (connected : Bool) (x : Connection)
    → (losses (handle_all es x).calls ≤ losses x.calls + (if x.lost then 0 else 1))
      × (losses (handle_all es (close connected x)).calls ≤ losses x.calls)
handle_all-losses es connected x =
    (reports es x, omega (arith, reports es (close connected x), close-at_most connected x))
