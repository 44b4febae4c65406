-- ===== src/Tradelocker/Manager/Closes/Reported.antt =====
-- Where src/tradelocker/connection-manager.service.ts has a live close, after any events.
use mathlib.Core.Bool.{true≢false}
use tradetrack_api.Prelude.{
  str_eq_refl, ℕ, ◌≤◌, ◌≡◌, refl, sym, subst, Bool, true, false, String, Option, none, some, List,
  [], ◌∷◌, get, get_elem?, elem, arith, if_either, ap,
}
use tradetrack_api.Number.{JsNumber}
use tradetrack_api.Store.{TradeTable}
use tradetrack_api.Tradelocker.Types.{ClosedTrade}
use tradetrack_api.Tradelocker.Writer.{write_closed}
use tradetrack_api.Tradelocker.Manager.Closes.{
  SessionRef, Live, done, missed, threw, Phase, fetching, writing, Task, Fill, Pass, idle, retrying,
  past, Closes, close_key, context, task_of, find_closed,
}
use tradetrack_api.Tradelocker.Manager.Closes.Retries.{
  retries_begun, retry_pending_closes, matched, fetched, fetched_task,
}
use tradetrack_api.Tradelocker.Manager.Closes.Events.{
  Event, starts, authorizes, stops, closes, ticks, reconciles, answers, writes, primes, backfills,
  fills, finalized, announced, close_keys, primed_with, prime_closed_seen, authorized, reconciled,
  written, written_task, filled, filled_at, handle, handle_all, no_closes,
}
use tradetrack_api.Tradelocker.Manager.Closes.Effects.{under_way, task_of-under_way}
use tradetrack_api.Tradelocker.Manager.Closes.Tracked.{elem_here, seen-Tracked}
use tradetrack_api.Tradelocker.Manager.Closes.Followed.{
  IsTracked, AllTracked, drop_pending-AllTracked,
}
use tradetrack_api.Tradelocker.Manager.Closes.Ended.{
  retry_from-AllTracked, ended-AllTracked, advanced-AllTracked,
}
use tradetrack_api.Tradelocker.Manager.Closes.Single.{IsSingle}
use tradetrack_api.Tradelocker.Manager.Closes.Once.{handle-IsSingle, no_closes-IsSingle}
use tradetrack_api.Tradelocker.Manager.Closes.Told.{
  is_done, top_up_close-AllTracked, stop_session-AllTracked,
}

module _ {F T : Type 0} where
  retries_begun-AllTracked :
      (p : Pass) (st : Closes F T) → AllTracked st → AllTracked (retries_begun p st)
  retries_begun-AllTracked idle st h =
      retry_from-AllTracked st.pending (record st { pass = retrying }) h
  retries_begun-AllTracked retrying st h = h
  retries_begun-AllTracked past st h = h

  authorized-AllTracked :
      (id : String) (token : Option String) (o : Option Live) (st : Closes F T)
      → AllTracked st
      → AllTracked (authorized id token o st)
  authorized-AllTracked id token none st h = h
  authorized-AllTracked id token (some l) st h = h

  reconciled-AllTracked :
      (p : Pass) (st : Closes F T) → AllTracked st → AllTracked (reconciled p st)
  reconciled-AllTracked idle st h = h
  reconciled-AllTracked retrying st h = h
  reconciled-AllTracked past st h = h

  fetched-AllTracked :
      (t : Task F) (ph : Phase F) (report : Option (List (ClosedTrade F))) (st : Closes F T)
      → task_of t.key st.tasks ≡ some t
      → under_way t.key st.tasks ≤ 1
      → AllTracked st
      → AllTracked (fetched t ph report st)
  fetched-AllTracked t (writing c) report st at one h = h
  fetched-AllTracked t fetching none st at one h =
      ended-AllTracked t threw st at one (λ no. absurd (true≢false (sym (ap is_done no)))) h
  fetched-AllTracked t fetching (some closed) st at one h = match (find_closed t.position_id closed)
    where
      match : (o : Option (ClosedTrade F)) → AllTracked (matched t o st)
      match none =
          ended-AllTracked t missed st at one (λ no. absurd (true≢false (sym (ap is_done no)))) h
      match (some c) = advanced-AllTracked t c st at one h

  -- The task of a key, under its own key.
  task_of_own :
      (key : String) (t : Task F) (st : Closes F T)
      → task_of key st.tasks ≡ some t
      → task_of t.key st.tasks ≡ some t
  task_of_own key t st at =
      subst (λ x. task_of x st.tasks ≡ some t) (sym (task_of-under_way key t st.tasks at).0) at

  single_task : (key : String) (st : Closes F T) → IsSingle st → under_way key st.tasks ≤ 1
  single_task key st h = omega (arith, (h key).single)

  fetched_task-AllTracked :
      (key : String) (o : Option (Task F)) (report : Option (List (ClosedTrade F)))
      (st : Closes F T)
      → task_of key st.tasks ≡ o
      → IsSingle st
      → AllTracked st
      → AllTracked (fetched_task o report st)
  fetched_task-AllTracked key none report st at single h = h
  fetched_task-AllTracked key (some t) report st at single h =
      fetched-AllTracked t t.phase report st (task_of_own key t st at) (single_task t.key st single)
        h

  primed_with-AllTracked :
      (s : SessionRef F) (rows : Option (List String)) (st : Closes F T)
      → AllTracked st
      → AllTracked (primed_with s rows st)
  primed_with-AllTracked s none st h = h
  primed_with-AllTracked s (some ids) st h = λ k there.
      seen-Tracked st.closed_seen st.pending st.tasks st.lost k (h k there) (close_keys s ids)

  finalized-AllTracked :
      (key : String) (table : T) (st : Closes F T)
      → AllTracked st
      → AllTracked (finalized key table st)
  finalized-AllTracked key table st h =
      drop_pending-AllTracked key (record st { closed_seen = key ∷ st.closed_seen; table = table })
        (elem_here key key st.closed_seen (str_eq_refl key))
        (λ k there.
          seen-Tracked st.closed_seen st.pending st.tasks st.lost k (h k there) (key ∷ []))

module _ {F : Type 0} ⦃num : JsNumber F⦄ {T : Type 0} ⦃table : TradeTable F T⦄ where
  written-AllTracked :
      (t : Task F) (ph : Phase F) (ok : Bool) (st : Closes F T)
      → task_of t.key st.tasks ≡ some t
      → under_way t.key st.tasks ≤ 1
      → AllTracked st
      → AllTracked (written t ph ok st)
  written-AllTracked t fetching ok st at one h = h
  written-AllTracked t (writing c) false st at one h =
      ended-AllTracked t threw st at one (λ no. absurd (true≢false (sym (ap is_done no)))) h
  written-AllTracked t (writing c) true st at one h =
      let rows = write_closed (context t.session.account) c st.table in
      ended-AllTracked t done (announced t.key (finalized t.key rows st)) at one
        (λ e. elem_here t.key t.key st.closed_seen (str_eq_refl t.key))
        (finalized-AllTracked t.key rows st h)

  written_task-AllTracked :
      (key : String) (o : Option (Task F)) (ok : Bool) (st : Closes F T)
      → task_of key st.tasks ≡ o
      → IsSingle st
      → AllTracked st
      → AllTracked (written_task o ok st)
  written_task-AllTracked key none ok st at single h = h
  written_task-AllTracked key (some t) ok st at single h =
      written-AllTracked t t.phase ok st (task_of_own key t st at) (single_task t.key st single) h

  filled_at-AllTracked :
      (i : ℕ) (o : Option (Fill F)) (ok : Bool) (st : Closes F T)
      → AllTracked st
      → AllTracked (filled_at i o ok st)
  filled_at-AllTracked i none ok st h = h
  filled_at-AllTracked i (some f) ok st h = trades f.trades ok
    where
      trades : (cs : List (ClosedTrade F)) (ok : Bool) → AllTracked (filled i f.session cs ok st)
      trades [] ok = h
      trades (c ∷ cs) false = h
      trades (c ∷ cs) true =
          finalized-AllTracked (close_key f.session c.position_id)
            (write_closed (context f.session.account) c st.table) st h

  handle-AllTracked :
      (e : Event F) (st : Closes F T) → IsSingle st → AllTracked st → AllTracked (handle e st)
  unfolding retry_pending_closes prime_closed_seen
  handle-AllTracked (starts s) st single h = h
  handle-AllTracked (authorizes id token) st single h =
      authorized-AllTracked id token (get id st.sessions) st h
  handle-AllTracked (stops s) st single h = stop_session-AllTracked s st h
  handle-AllTracked (closes s position_id) st single h = top_up_close-AllTracked s position_id st h
  handle-AllTracked ticks st single h = retries_begun-AllTracked st.pass st h
  handle-AllTracked reconciles st single h = reconciled-AllTracked st.pass st h
  handle-AllTracked (answers key report) st single h =
      fetched_task-AllTracked key (task_of key st.tasks) report st refl single h
  handle-AllTracked (writes key ok) st single h =
      written_task-AllTracked key (task_of key st.tasks) ok st refl single h
  handle-AllTracked (primes s rows) st single h =
      if_either AllTracked (elem s.account.trading_account_id st.primed) st _ h
        (primed_with-AllTracked s rows st h)
  handle-AllTracked (backfills s trades) st single h = h
  handle-AllTracked (fills i ok) st single h = filled_at-AllTracked i (get_elem? st.fills i) ok st h

  handle_all-AllTracked :
      (es : List (Event F)) (st : Closes F T)
      → IsSingle st
      → AllTracked st
      → AllTracked (handle_all es st)
  handle_all-AllTracked [] st single h = h
  handle_all-AllTracked (e ∷ es) st single h =
      handle_all-AllTracked es (handle e st) (handle-IsSingle e st single)
        (handle-AllTracked e st single h)

  -- However live closes, retries, backfills, replaced sessions, the answers of the report and the ends of
  -- writes interleave, every live close that was reported is finalized, or waits for a retry, or is being
  -- finalized, or was let go in one of three ways: its finalize threw, its session was stopped or replaced, or
  -- its retries ran out.
  pub handle_all-IsTracked :
      (es : List (Event F)) (t : T) (key : String)
      → elem key (handle_all es (no_closes t)).reported ≡ true
      → IsTracked (handle_all es (no_closes t)) key
  handle_all-IsTracked es t =
      handle_all-AllTracked es (no_closes t) (no_closes-IsSingle t)
        (λ k there. absurd (true≢false (sym there)))
