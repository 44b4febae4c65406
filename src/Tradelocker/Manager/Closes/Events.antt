-- ===== src/Tradelocker/Manager/Closes/Events.antt =====
-- The events that reach the closes of src/tradelocker/connection-manager.service.ts, in any order.
use tradetrack_api.Prelude.{
  ℕ, zero, suc, ◌==◌, Bool, true, false, ◌&&◌, ◌||◌, String, str_eq, Option, none, some, List, [],
  ◌∷◌, ◌++◌, get_elem?, get, set, delete, elem, if◌then◌else◌,
}
use tradetrack_api.Number.{JsNumber}
use tradetrack_api.Store.{TradeTable}
use tradetrack_api.Tradelocker.Types.{ClosedTrade}
use tradetrack_api.Tradelocker.Writer.{write_closed}
use tradetrack_api.Tradelocker.Manager.Closes.{
  SessionRef, Live, Pending, done, threw, Phase, fetching, writing, Task, Fill, Pass, idle, past,
  Closes, close_key, context, task_of, is_current, drop_pending, top_up_close,
}
use tradetrack_api.Tradelocker.Manager.Closes.Retries.{retry_pending_closes, ended, fetched_task}

pub data Event (F : Type 0) : Type 0 where
  starts : SessionRef F → Event F
  authorizes : String → Option String → Event F
  stops : SessionRef F → Event F
  closes : SessionRef F → String → Event F
  ticks : Event F
  reconciles : Event F
  answers : String → Option (List (ClosedTrade F)) → Event F
  writes : String → Bool → Event F
  primes : SessionRef F → Option (List String) → Event F
  backfills : SessionRef F → List (ClosedTrade F) → Event F
  fills : ℕ → Bool → Event F

module _ {F : Type 0} where
  abbrev pub set_elem : ℕ → Fill F → List (Fill F) → List (Fill F)
  set_elem i f [] = []
  set_elem zero f (g ∷ gs) = f ∷ gs
  set_elem (suc i) f (g ∷ gs) = g ∷ set_elem i f gs

  -- The pending closes that are not of a session, and the keys of those that are.
  abbrev pub of_session : SessionRef F → Pending F → Bool
  of_session s p =
      str_eq p.session.account.trading_account_id s.account.trading_account_id
      && p.session.serial == s.serial

  abbrev pub other_pending : SessionRef F → List (String × Pending F) → List (String × Pending F)
  other_pending s [] = []
  other_pending s ((key, p) ∷ m) =
      if of_session s p then other_pending s m else (key, p) ∷ other_pending s m

  abbrev pub pending_keys : SessionRef F → List (String × Pending F) → List String
  pending_keys s [] = []
  pending_keys s ((key, p) ∷ m) =
      if of_session s p then key ∷ pending_keys s m else pending_keys s m

  abbrev pub close_keys : SessionRef F → List String → List String
  close_keys s [] = []
  close_keys s (id ∷ ids) = close_key s id ∷ close_keys s ids

  module _ {T : Type 0} where
    -- The row of a close is written: the position is finalized, and no longer pending.
    abbrev pub finalized : String → T → Closes F T → Closes F T
    finalized key table st = record (drop_pending key st) {
      table = table;
      closed_seen = key ∷ st.closed_seen;
    }

    abbrev pub announced : String → Closes F T → Closes F T
    announced key st = record st { notified = key ∷ st.notified }

    -- The trades of a backfill from the first on that is neither finalized nor being finalized.
    abbrev pub unwritten : SessionRef F → Closes F T → List (ClosedTrade F) → List (ClosedTrade F)
    unwritten s st [] = []
    unwritten s st (c ∷ cs) =
        let key = close_key s c.position_id in
        let later = unwritten s st cs in
        if elem key st.closed_seen || elem key st.finalizing then later else c ∷ cs

    -- `backfillCloses` once its report is there.
    abbrev pub backfill_begun : SessionRef F → List (ClosedTrade F) → Closes F T → Closes F T
    backfill_begun s trades st = record st {
      fills = st.fills ++ record { session = s; trades = unwritten s st trades } ∷ [];
    }

    abbrev pub next_fill : ℕ → SessionRef F → List (ClosedTrade F) → Closes F T → Closes F T
    next_fill i s trades st = record st {
      fills = set_elem i (record { session = s; trades = unwritten s st trades }) st.fills;
    }

    -- `primeClosedSeen`: the positions that the table has as closed, `none` where the query fails.
    abbrev pub primed_with : SessionRef F → Option (List String) → Closes F T → Closes F T
    primed_with s none st = st
    primed_with s (some ids) st = record st {
      closed_seen = close_keys s ids ++ st.closed_seen;
      primed = s.account.trading_account_id ∷ st.primed;
    }

    unfoldable pub prime_closed_seen : SessionRef F → Option (List String) → Closes F T → Closes F T
    prime_closed_seen s rows st =
        if elem s.account.trading_account_id st.primed then st else primed_with s rows st

    -- `stopSession` of the session that an account has.
    unfoldable pub stop_session : SessionRef F → Closes F T → Closes F T
    stop_session s st =
        if is_current s st
        then record st {
          sessions = delete s.account.trading_account_id st.sessions;
          pending = other_pending s st.pending;
          lost = pending_keys s st.pending ++ st.lost;
        }
        else st

    abbrev pub authorized : String → Option String → Option Live → Closes F T → Closes F T
    authorized id token none st = st
    authorized id token (some l) st = record st {
      sessions = set id (record l { token = token }) st.sessions;
    }

    abbrev pub reconciled : Pass → Closes F T → Closes F T
    reconciled past st = record st { pass = idle }
    reconciled _ st = st

module _ {F : Type 0} ⦃num : JsNumber F⦄ {T : Type 0} ⦃table : TradeTable F T⦄ where
  -- The end of the write of a finalize.
  abbrev pub written : Task F → Phase F → Bool → Closes F T → Closes F T
  written t fetching ok st = st
  written t (writing c) true st =
      ended t done
        (announced t.key (finalized t.key (write_closed (context t.session.account) c st.table) st))
  written t (writing c) false st = ended t threw st

  abbrev pub written_task : Option (Task F) → Bool → Closes F T → Closes F T
  written_task none ok st = st
  written_task (some t) ok st = written t t.phase ok st

  -- The end of a write of a backfill, which a rejected write ends.
  abbrev pub filled : ℕ → SessionRef F → List (ClosedTrade F) → Bool → Closes F T → Closes F T
  filled i s [] ok st = st
  filled i s (c ∷ cs) false st = next_fill i s [] st
  filled i s (c ∷ cs) true st =
      next_fill i s cs
        (finalized (close_key s c.position_id) (write_closed (context s.account) c st.table) st)

  abbrev pub filled_at : ℕ → Option (Fill F) → Bool → Closes F T → Closes F T
  filled_at i none ok st = st
  filled_at i (some f) ok st = filled i f.session f.trades ok st

  abbrev pub handle : Event F → Closes F T → Closes F T
  handle (starts s) st = record st {
    sessions =
        set s.account.trading_account_id (record { serial = s.serial; token = none }) st.sessions;
  }
  handle (authorizes id token) st = authorized id token (get id st.sessions) st
  handle (stops s) st = stop_session s st
  handle (closes s position_id) st = top_up_close s position_id st
  handle ticks st = retry_pending_closes st
  handle reconciles st = reconciled st.pass st
  handle (answers key report) st = fetched_task (task_of key st.tasks) report st
  handle (writes key ok) st = written_task (task_of key st.tasks) ok st
  handle (primes s rows) st = prime_closed_seen s rows st
  handle (backfills s trades) st = backfill_begun s trades st
  handle (fills i ok) st = filled_at i (get_elem? st.fills i) ok st

  abbrev pub handle_all : List (Event F) → Closes F T → Closes F T
  handle_all [] st = st
  handle_all (e ∷ es) st = handle_all es (handle e st)

module _ {F T : Type 0} where
  -- The manager as it is made.
  abbrev pub no_closes : T → Closes F T
  no_closes table = record {
    sessions = [];
    pending = [];
    finalizing = [];
    closed_seen = [];
    primed = [];
    tasks = [];
    fills = [];
    pass = idle;
    next_ref = 0;
    table = table;
    notified = [];
    reported = [];
    lost = [];
  }
