-- ===== src/Tradelocker/Manager/Stream.antt =====
-- The messages of the stream as src/tradelocker/connection-manager.service.ts handles them:
-- handlePosition, handleAccountStatus and mapOpenTrade. `Date.parse` is a parameter, absent where that
-- is NaN.
pub mod Announced
pub mod Throttle
use mathlib.Core.Option
use tradetrack_api.Prelude.{
  ℕ, zero, suc, ◌-◌, ltb, Bool, true, false, ◌&&◌, not, String, str_eq, Option, none, some, List,
  [], ◌∷◌, value_or, get, set, elem, if◌then◌else◌,
}
use tradetrack_api.Number.{JsNumber}
use tradetrack_api.Tradelocker.Types.{OpenTrade}
use tradetrack_api.Tradelocker.Connection.{PositionMessage, PositionPnl}

abbrev pub open_pnl_update_interval_ms : ℕ
open_pnl_update_interval_ms = 30000

-- A call of `recordUnrealized`.
pub record Unrealized (F : Type 0) : Type 0 where
  pub position_id : String
  pub value : F
  pub at : ℕ

-- What a session has of the floating figures: `pnlWriteAt`, and the calls made, the last one first.
pub record Floating (F : Type 0) : Type 0 where
  pub pnl_write_at : List (String × ℕ)
  pub calls : List (Unrealized F)

abbrev pub entry_ms : (String → Option ℕ) → Option String → Option ℕ
entry_ms parse_date none = none
entry_ms parse_date (some s) = if str_eq s "" then none else parse_date s

abbrev pub is_recent : ℕ → Option ℕ → Bool
is_recent now none = false
is_recent now (some last) = ltb (now - last) open_pnl_update_interval_ms

module _ {F : Type 0} ⦃num : JsNumber F⦄ where
  open num use {of_nat, of_string, mul, is_finite}

  -- The units of a position, absent for NaN.
  abbrev pub units_of : Option String → Option String → Option String → Option F
  units_of (some units) lots lot_size = some (of_string units)
  units_of none (some lots) (some lot_size) = some (mul (of_string lots) (of_string lot_size))
  units_of none _ _ = none

  abbrev pub finite_or_zero : Option F → F
  finite_or_zero none = of_nat 0
  finite_or_zero (some x) = if is_finite x then x else of_nat 0

  unfoldable pub map_open_trade : (String → Option ℕ) → ℕ → PositionMessage → OpenTrade F
  map_open_trade parse_date now msg = record {
    position_id = msg.position_id;
    symbol = msg.instrument;
    side = msg.side;
    quantity = finite_or_zero (units_of msg.units msg.lots msg.lot_size);
    entry_date = value_or now (entry_ms parse_date msg.open_date_time);
  }

  -- One entry of `positionPnLs`.
  abbrev pub float_entry : ℕ → PositionPnl → Floating F → Floating F
  float_entry now p f =
      if is_recent now (get p.position_id f.pnl_write_at)
      then f
      else if is_finite (of_string p.pnl)
      then record f {
        pnl_write_at = set p.position_id now f.pnl_write_at;
        calls = record { position_id = p.position_id; value = of_string p.pnl; at = now } ∷ f.calls;
      }
      else f

  abbrev pub float_entries : ℕ → List PositionPnl → Floating F → Floating F
  float_entries now [] f = f
  float_entries now (p ∷ ps) f = float_entries now ps (float_entry now p f)

  unfoldable pub handle_account_status : ℕ → Option (List PositionPnl) → Floating F → Floating F
  handle_account_status now none f = f
  handle_account_status now (some pnls) f = float_entries now pnls f

-- What a session has of its opens: whether the snapshot is over, the positions seen, the writes under
-- way, each with whether it will be announced, and the positions announced.
pub record Opens (F : Type 0) : Type 0 where
  pub synced : Bool
  pub seen_opens : List String
  pub writing : List (OpenTrade F × Bool)
  pub notified : List String

-- What reaches them: a position, the end of the snapshot, the end of a write.
pub data Event (F : Type 0) : Type 0 where
  position : OpenTrade F → Event F
  sync_end : Event F
  writes : ℕ → Bool → Event F

module _ {F : Type 0} where
  unfoldable pub handle_position : OpenTrade F → Opens F → Opens F
  handle_position o s =
      let notify_new_open = s.synced && not (elem o.position_id s.seen_opens) in
      record s {
        seen_opens = o.position_id ∷ s.seen_opens;
        writing = (o, notify_new_open) ∷ s.writing;
      }

  abbrev pub write_at : ℕ → List (OpenTrade F × Bool) → Option (OpenTrade F × Bool)
  write_at i [] = none
  write_at zero (w ∷ ws) = some w
  write_at (suc i) (w ∷ ws) = write_at i ws

  abbrev pub without_write : ℕ → List (OpenTrade F × Bool) → List (OpenTrade F × Bool)
  without_write i [] = []
  without_write zero (w ∷ ws) = ws
  without_write (suc i) (w ∷ ws) = w ∷ without_write i ws

  -- The write of an open ends: the `then` announces it, the `catch` does not.
  abbrev pub announced : Bool → Option (OpenTrade F × Bool) → List String → List String
  announced ok none ns = ns
  announced ok (some (o, notify)) ns = if ok && notify then o.position_id ∷ ns else ns

  abbrev pub handle : Event F → Opens F → Opens F
  handle (position o) s = handle_position o s
  handle sync_end s = record s { synced = true }
  handle (writes i ok) s = record s {
    writing = without_write i s.writing;
    notified = announced ok (write_at i s.writing) s.notified;
  }

  abbrev pub handle_all : List (Event F) → Opens F → Opens F
  handle_all [] s = s
  handle_all (e ∷ es) s = handle_all es (handle e s)

  -- A session as `connect` leaves it.
  abbrev pub connected : Opens F
  connected = record { synced = false; seen_opens = []; writing = []; notified = [] }
