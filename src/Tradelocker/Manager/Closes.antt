-- ===== src/Tradelocker/Manager/Closes.antt =====
-- How src/tradelocker/connection-manager.service.ts finalizes closes: the live closes it tops up, the
-- retries of a reconcile tick and the backfills, which interleave at their awaits. What the report
-- answers, and whether a write succeeds, comes with the event that ends the await.
pub mod Retries
pub mod Events
pub mod Effects
pub mod Single
pub mod Tracked
pub mod Followed
pub mod Ended
pub mod Told
pub mod Reported
pub mod GivenUp
pub mod Once
use tradetrack_api.Prelude.{
  ℕ, ◌+◌, ◌==◌, leb, Bool, true, false, ◌||◌, not, String, str_eq, concat, Option, none, some, List,
  [], ◌∷◌, is_some, get, set, delete, elem, remove, if◌then◌else◌,
}
use tradetrack_api.Tradelocker.Types.{AccountContext, ClosedTrade}
use tradetrack_api.Tradelocker.Manager.Accounts.{ManagedAccount}

abbrev pub close_topup_max_retries : ℕ
close_topup_max_retries = 12

-- A session object: its account, and a number that tells the objects of one account apart.
pub record SessionRef (F : Type 0) : Type 0 where
  pub account : ManagedAccount F
  pub serial : ℕ

-- What `sessions` holds for an account id.
pub record Live : Type 0 where
  pub serial : ℕ
  pub token : Option String

-- An entry of `pendingCloses`; `ref` tells the objects apart that one key has one after the other.
pub record Pending (F : Type 0) : Type 0 where
  pub ref : ℕ
  pub session : SessionRef F
  pub position_id : String
  pub attempts : ℕ

-- How a finalize ends: it returns true or false, or throws.
pub data Result : Type 0 where
  done missed threw : Result

-- Who waits for a finalize: a live close, or the retries, with the rest of their snapshot.
pub data Origin (F : Type 0) : Type 0 where
  live_close : Origin F
  retry : Pending F → List (String × Pending F) → Origin F

-- A finalize under way waits for the report, or for its write.
pub data Phase (F : Type 0) : Type 0 where
  fetching : Phase F
  writing : ClosedTrade F → Phase F

pub record Task (F : Type 0) : Type 0 where
  pub key : String
  pub session : SessionRef F
  pub position_id : String
  pub origin : Origin F
  pub phase : Phase F

-- A backfill under way: the first trade is being written.
pub record Fill (F : Type 0) : Type 0 where
  pub session : SessionRef F
  pub trades : List (ClosedTrade F)

-- Where the reconcile pass is: between two, in its retries, or past them.
pub data Pass : Type 0 where
  idle retrying past : Pass

-- `notified` lists the closes that were announced, `lost` those that the code stops tracking: a close
-- whose finalize threw, one given up, one whose session is gone. `reported` lists the live closes.
pub record Closes (F T : Type 0) : Type 0 where
  pub sessions : List (String × Live)
  pub pending : List (String × Pending F)
  pub finalizing : List String
  pub closed_seen : List String
  pub primed : List String
  pub tasks : List (Task F)
  pub fills : List (Fill F)
  pub pass : Pass
  pub next_ref : ℕ
  pub table : T
  pub notified : List String
  pub reported : List String
  pub lost : List String

abbrev pub has_token : Option Live → Bool
has_token none = false
has_token (some l) = is_some l.token

module _ {F : Type 0} where
  abbrev pub close_key : SessionRef F → String → String
  close_key s position_id = concat s.account.trading_account_id (concat ":" position_id)

  abbrev pub context : ManagedAccount F → AccountContext F
  context a = record {
    user_id = a.user_id;
    trading_account_id = a.trading_account_id;
    nominal = a.nominal;
  }

  abbrev pub is_session : SessionRef F → Option Live → Bool
  is_session s none = false
  is_session s (some l) = l.serial == s.serial

  -- `closed.find((c) => c.positionId === positionId)`.
  abbrev pub find_closed : String → List (ClosedTrade F) → Option (ClosedTrade F)
  find_closed position_id [] = none
  find_closed position_id (c ∷ cs) =
      if str_eq c.position_id position_id then some c else find_closed position_id cs

  abbrev pub task_of : String → List (Task F) → Option (Task F)
  task_of key [] = none
  task_of key (t ∷ ts) = if str_eq t.key key then some t else task_of key ts

  abbrev pub without_task : String → List (Task F) → List (Task F)
  without_task key [] = []
  without_task key (t ∷ ts) =
      if str_eq t.key key then without_task key ts else t ∷ without_task key ts

  abbrev pub is_ref : ℕ → Option (Pending F) → Bool
  is_ref ref none = false
  is_ref ref (some p) = p.ref == ref

module _ {F T : Type 0} where
  abbrev pub is_current : SessionRef F → Closes F T → Bool
  is_current s st = is_session s (get s.account.trading_account_id st.sessions)

  abbrev pub drop_pending : String → Closes F T → Closes F T
  drop_pending key st = record st { pending = delete key st.pending }

  abbrev pub lose : String → Closes F T → Closes F T
  lose key st = record st { lost = key ∷ st.lost }

  -- The start of `finalizeClose`, up to its first wait; where it ends at once, its result. A session
  -- that is gone claims the position and releases it with no other code between.
  abbrev pub claim :
      String → SessionRef F → String → Origin F → Closes F T → Option Result × Closes F T
  claim key s position_id origin st =
      if elem key st.closed_seen
      then (some done, drop_pending key st)
      else if elem key st.finalizing
      then (some missed, st)
      else if is_current s st
      then (
        none,
        record st {
          finalizing = key ∷ st.finalizing;
          tasks =
              record {
                key = key;
                session = s;
                position_id = position_id;
                origin = origin;
                phase = fetching;
              }
              ∷ st.tasks;
        },
      )
      else (some missed, st)

  -- `topUpClose` once its finalize has ended.
  abbrev pub topped_up : String → SessionRef F → String → Option Result → Closes F T → Closes F T
  topped_up key s position_id none st = st
  topped_up key s position_id (some done) st = st
  topped_up key s position_id (some missed) st =
      if is_some (get key st.pending) then st else record st {
        pending =
            set key
              (record { ref = st.next_ref; session = s; position_id = position_id; attempts = 0 })
              st.pending;
        next_ref = st.next_ref + 1;
      }
  topped_up key s position_id (some threw) st = lose key st

  -- `handleClose`.
  unfoldable pub top_up_close : SessionRef F → String → Closes F T → Closes F T
  top_up_close s position_id st =
      let key = close_key s position_id in
      let (result, next) = claim key s position_id live_close st in
      topped_up key s position_id result (record next { reported = key ∷ next.reported })

  -- `pending.attempts += 1`, which the map shows where it still holds this object, and the giving up.
  abbrev pub counted : String → Pending F → Closes F T → Closes F T
  counted key p st =
      if is_ref p.ref (get key st.pending)
      then record st { pending = set key (record p { attempts = p.attempts + 1 }) st.pending }
      else st

  abbrev pub bumped : String → Pending F → Closes F T → Closes F T
  bumped key p st =
      let next = counted key p st in
      if leb close_topup_max_retries (p.attempts + 1)
      then lose key (drop_pending key next)
      else next
