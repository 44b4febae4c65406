-- ===== src/Tradelocker/Manager/Closes/Retries.antt =====
-- The retries of src/tradelocker/connection-manager.service.ts, and how a finalize under way goes on.
use tradetrack_api.Prelude.{
  ◌||◌, not, String, Option, none, some, List, [], ◌∷◌, get, elem, remove, if◌then◌else◌,
}
use tradetrack_api.Tradelocker.Types.{ClosedTrade}
use tradetrack_api.Tradelocker.Manager.Closes.{
  Pending, Result, Origin, Phase, Task, Pass, Closes, has_token, close_key, find_closed,
  without_task, is_current, drop_pending, lose, claim, topped_up, bumped, done, missed, threw,
  live_close, retry, fetching, writing, idle, retrying, past,
}

-- The loop goes on with the next entry, or waits for a finalize.
pub data Turn (A : Type 0) : Type 0 where
  goes_on : A → Turn A
  waits : A → Turn A

module _ {F T : Type 0} where
  abbrev pub claimed : String → Pending F → Option Result × Closes F T → Turn (Closes F T)
  claimed key p (none, st) = waits st
  claimed key p (some done, st) = goes_on st
  claimed key p (some missed, st) = goes_on (bumped key p st)
  claimed key p (some threw, st) = goes_on (bumped key p st)

  -- One turn of `retryPendingCloses`.
  abbrev pub turn : String → Pending F → List (String × Pending F) → Closes F T → Turn (Closes F T)
  turn key p rest st =
      if is_current p.session st
      then (if elem key st.finalizing
            || not (has_token (get p.session.account.trading_account_id st.sessions))
          then goes_on st
          else claimed key p
              (claim (close_key p.session p.position_id) p.session p.position_id (retry p rest) st))
      else goes_on (lose key (drop_pending key st))

  abbrev pub retry_from : List (String × Pending F) → Closes F T → Closes F T
  retry_from [] st = record st { pass = past }
  retry_from ((key, p) ∷ rest) st = elim (turn key p rest st) [
    | goes_on next ↦ retry_from rest next
    | waits next ↦ next
  ]

  -- The start of `reconcile`: it does nothing while another is under way.
  abbrev pub retries_begun : Pass → Closes F T → Closes F T
  retries_begun idle st = retry_from st.pending (record st { pass = retrying })
  retries_begun _ st = st

  unfoldable pub retry_pending_closes : Closes F T → Closes F T
  retry_pending_closes st = retries_begun st.pass st

  -- What follows a finalize that waited. A retry that threw is caught, and counts as one that missed.
  abbrev pub resumed : Task F → Origin F → Result → Closes F T → Closes F T
  resumed t live_close result st = topped_up t.key t.session t.position_id (some result) st
  resumed t (retry p rest) done st = retry_from rest st
  resumed t (retry p rest) missed st = retry_from rest (bumped t.key p st)
  resumed t (retry p rest) threw st = retry_from rest (bumped t.key p st)

  -- The `finally` of `finalizeClose`.
  abbrev pub released : String → Closes F T → Closes F T
  released key st = record st {
    finalizing = remove key st.finalizing;
    tasks = without_task key st.tasks;
  }

  abbrev pub ended : Task F → Result → Closes F T → Closes F T
  ended t result st = resumed t t.origin result (released t.key st)

  -- The report's answer: `none` where a request is rejected.
  abbrev pub matched : Task F → Option (ClosedTrade F) → Closes F T → Closes F T
  matched t none st = ended t missed st
  matched t (some c) st = record st {
    tasks = record t { phase = writing c } ∷ without_task t.key st.tasks;
  }

  abbrev pub fetched : Task F → Phase F → Option (List (ClosedTrade F)) → Closes F T → Closes F T
  fetched t (writing c) report st = st
  fetched t fetching none st = ended t threw st
  fetched t fetching (some closed) st = matched t (find_closed t.position_id closed) st

  abbrev pub fetched_task :
      Option (Task F) → Option (List (ClosedTrade F)) → Closes F T → Closes F T
  fetched_task none report st = st
  fetched_task (some t) report st = fetched t t.phase report st
