-- ===== src/Tradelocker/Manager/Closes/Once.antt =====
-- How often a close of src/tradelocker/connection-manager.service.ts is announced, over any events.
use tradetrack_api.Prelude.{
  ℕ, ◌+◌, ◌≤◌, ◌≡◌, refl, Bool, true, false, String, Option, none, some, List, [], ◌∷◌, get,
  get_elem?, elem, times, arith, if_either,
}
use tradetrack_api.Number.{JsNumber}
use tradetrack_api.Store.{TradeTable}
use tradetrack_api.Tradelocker.Types.{ClosedTrade}
use tradetrack_api.Tradelocker.Manager.Closes.{
  SessionRef, Live, done, threw, live_close, Phase, fetching, writing, Task, Fill, Pass, idle,
  retrying, past, Closes, close_key, task_of, is_current, top_up_close,
}
use tradetrack_api.Tradelocker.Manager.Closes.Retries.{retries_begun, retry_pending_closes}
use tradetrack_api.Tradelocker.Manager.Closes.Events.{
  Event, starts, authorizes, stops, closes, ticks, reconciles, answers, writes, primes, backfills,
  fills, prime_closed_seen, stop_session, authorized, reconciled, written, written_task, filled,
  filled_at, handle, handle_all, no_closes,
}
use tradetrack_api.Tradelocker.Manager.Closes.Effects.{under_way, task_of-here, announce-AllOnce}
use tradetrack_api.Tradelocker.Manager.Closes.Single.{
  IsSingle, topped_up-IsSingle, claim-IsSingle, retry_from-IsSingle, resumed-IsSingle,
  ended-IsSingle, fetched_task-IsSingle, seen-IsSingle, primed_with-IsSingle,
}

module _ {F T : Type 0} where
  top_up_close-IsSingle :
      (s : SessionRef F) (position_id : String) (st : Closes F T)
      → IsSingle st
      → IsSingle (top_up_close s position_id st)
  unfolding top_up_close
  top_up_close-IsSingle s position_id st h =
      let key = close_key s position_id in
      topped_up-IsSingle key s position_id _ _ (claim-IsSingle key s position_id live_close st h)

  retries_begun-IsSingle :
      (p : Pass) (st : Closes F T) → IsSingle st → IsSingle (retries_begun p st)
  retries_begun-IsSingle idle st h =
      retry_from-IsSingle st.pending (record st { pass = retrying }) h
  retries_begun-IsSingle retrying st h = h
  retries_begun-IsSingle past st h = h

  authorized-IsSingle :
      (id : String) (token : Option String) (o : Option Live) (st : Closes F T)
      → IsSingle st
      → IsSingle (authorized id token o st)
  authorized-IsSingle id token none st h = h
  authorized-IsSingle id token (some l) st h = h

  reconciled-IsSingle : (p : Pass) (st : Closes F T) → IsSingle st → IsSingle (reconciled p st)
  reconciled-IsSingle idle st h = h
  reconciled-IsSingle retrying st h = h
  reconciled-IsSingle past st h = h

module _ {F : Type 0} ⦃num : JsNumber F⦄ {T : Type 0} ⦃table : TradeTable F T⦄ where
  written-IsSingle :
      (t : Task F) (ph : Phase F) (ok : Bool) (st : Closes F T)
      → 1 ≤ under_way t.key st.tasks
      → IsSingle st
      → IsSingle (written t ph ok st)
  written-IsSingle t fetching ok st here h = h
  written-IsSingle t (writing c) false st here h = ended-IsSingle t threw st h
  written-IsSingle t (writing c) true st here h =
      resumed-IsSingle t t.origin done _
        (announce-AllOnce st.tasks st.finalizing st.closed_seen st.notified t.key here h)

  written_task-IsSingle :
      (key : String) (o : Option (Task F)) (ok : Bool) (st : Closes F T)
      → task_of key st.tasks ≡ o
      → IsSingle st
      → IsSingle (written_task o ok st)
  written_task-IsSingle key none ok st e h = h
  written_task-IsSingle key (some t) ok st e h =
      written-IsSingle t t.phase ok st (task_of-here key t st.tasks e) h

  filled-IsSingle :
      (i : ℕ) (s : SessionRef F) (trades : List (ClosedTrade F)) (ok : Bool) (st : Closes F T)
      → IsSingle st
      → IsSingle (filled i s trades ok st)
  filled-IsSingle i s [] ok st h = h
  filled-IsSingle i s (c ∷ cs) false st h = h
  filled-IsSingle i s (c ∷ cs) true st h = seen-IsSingle (close_key s c.position_id ∷ []) st h

  filled_at-IsSingle :
      (i : ℕ) (o : Option (Fill F)) (ok : Bool) (st : Closes F T)
      → IsSingle st
      → IsSingle (filled_at i o ok st)
  filled_at-IsSingle i none ok st h = h
  filled_at-IsSingle i (some f) ok st h = filled-IsSingle i f.session f.trades ok st h

  pub handle-IsSingle : (e : Event F) (st : Closes F T) → IsSingle st → IsSingle (handle e st)
  unfolding retry_pending_closes prime_closed_seen stop_session
  handle-IsSingle (starts s) st h = h
  handle-IsSingle (authorizes id token) st h =
      authorized-IsSingle id token (get id st.sessions) st h
  handle-IsSingle (stops s) st h = if_either IsSingle (is_current s st) _ st h h
  handle-IsSingle (closes s position_id) st h = top_up_close-IsSingle s position_id st h
  handle-IsSingle ticks st h = retries_begun-IsSingle st.pass st h
  handle-IsSingle reconciles st h = reconciled-IsSingle st.pass st h
  handle-IsSingle (answers key report) st h =
      fetched_task-IsSingle key (task_of key st.tasks) report st refl h
  handle-IsSingle (writes key ok) st h =
      written_task-IsSingle key (task_of key st.tasks) ok st refl h
  handle-IsSingle (primes s rows) st h =
      if_either IsSingle (elem s.account.trading_account_id st.primed) st _ h
        (primed_with-IsSingle s rows st h)
  handle-IsSingle (backfills s trades) st h = h
  handle-IsSingle (fills i ok) st h = filled_at-IsSingle i (get_elem? st.fills i) ok st h

  handle_all-IsSingle :
      (es : List (Event F)) (st : Closes F T) → IsSingle st → IsSingle (handle_all es st)
  handle_all-IsSingle [] st h = h
  handle_all-IsSingle (e ∷ es) st h = handle_all-IsSingle es (handle e st) (handle-IsSingle e st h)

  pub no_closes-IsSingle : (t : T) → IsSingle (no_closes {F = F} t)
  no_closes-IsSingle t key = record {
    single = omega arith;
    unseen = λ e. refl;
    unclaimed = λ e. refl;
  }

  -- However live closes, retries, backfills, replaced sessions, the answers of the report and the ends of
  -- writes interleave, the close of a position of an account is announced at most once; while it is being
  -- finalized it was not announced before, and no second finalize of it is under way.
  pub handle_all_once :
      (es : List (Event F)) (t : T) (key : String)
      → times key (handle_all es (no_closes t)).notified
          + under_way key (handle_all es (no_closes t)).tasks
        ≤ 1
  handle_all_once es t key =
      (handle_all-IsSingle es (no_closes t) (no_closes-IsSingle t) key).single
