-- ===== src/Tradelocker/Manager/Closes/Single.antt =====
-- The steps of a finalize (src/tradelocker/connection-manager.service.ts), by how often they announce
-- a close.
use tradetrack_api.Prelude.{
  ◌+◌, ◌≤◌, ◌≡◌, refl, subst, ◌||◌, not, leb, String, Option, none, some, List, [], ◌∷◌, ◌++◌, ◌⊎◌,
  inl, inr, Bool-cases, get, elem, is_some, if_either,
}
use tradetrack_api.Tradelocker.Types.{ClosedTrade}
use tradetrack_api.Tradelocker.Manager.Closes.{
  SessionRef, Pending, Result, done, missed, threw, Origin, live_close, retry, Phase, fetching,
  writing, Task, Closes, close_key, has_token, task_of, find_closed, is_ref, is_current, claim,
  topped_up, counted, bumped, close_topup_max_retries,
}
use tradetrack_api.Tradelocker.Manager.Closes.Retries.{
  Turn, goes_on, waits, claimed, turn, retry_from, resumed, released, ended, matched, fetched,
  fetched_task,
}
use tradetrack_api.Tradelocker.Manager.Closes.Events.{close_keys, primed_with}
use tradetrack_api.Tradelocker.Manager.Closes.Effects.{
  under_way, AllOnce, task_of-here, seen-AllOnce, claim-AllOnce, release-AllOnce, advance-AllOnce,
}

pub Turn-cases : {A : Type 0} (t : Turn A) → ((a : A) × (t ≡ goes_on a)) ⊎ ((a : A) × (t ≡ waits a))
Turn-cases (goes_on a) = inl (a, refl)
Turn-cases (waits a) = inr (a, refl)

module _ {F T : Type 0} where
  abbrev pub IsSingle : Closes F T → Type 0
  IsSingle st = AllOnce st.tasks st.finalizing st.closed_seen st.notified

  pub topped_up-IsSingle :
      (key : String) (s : SessionRef F) (position_id : String) (o : Option Result) (st : Closes F T)
      → IsSingle st
      → IsSingle (topped_up key s position_id o st)
  topped_up-IsSingle key s position_id none st h = h
  topped_up-IsSingle key s position_id (some done) st h = h
  topped_up-IsSingle key s position_id (some missed) st h =
      if_either IsSingle (is_some (get key st.pending)) st _ h h
  topped_up-IsSingle key s position_id (some threw) st h = h

  pub claim-IsSingle :
      (key : String) (s : SessionRef F) (position_id : String) (origin : Origin F) (st : Closes F T)
      → IsSingle st
      → IsSingle (claim key s position_id origin st).1
  claim-IsSingle key s position_id origin st h = elim (Bool-cases (elem key st.closed_seen)) [
    | inl e ↦ rw (e) h
    | inr e ↦ elim (Bool-cases (elem key st.finalizing)) [
      | inl f ↦ rw (e) (rw (f) h)
      | inr f ↦ elim (Bool-cases (is_current s st)) [
        | inl g ↦ rw (e) (
            rw (f)
              (rw (g) (claim-AllOnce st.tasks st.finalizing st.closed_seen st.notified _ e f h)))
        | inr g ↦ rw (e) (rw (f) (rw (g) h))
      ]
    ]
  ]

  counted-IsSingle :
      (key : String) (p : Pending F) (st : Closes F T) → IsSingle st → IsSingle (counted key p st)
  counted-IsSingle key p st h = if_either IsSingle (is_ref p.ref (get key st.pending)) _ st h h

  pub bumped-IsSingle :
      (key : String) (p : Pending F) (st : Closes F T) → IsSingle st → IsSingle (bumped key p st)
  bumped-IsSingle key p st h =
      let next = counted-IsSingle key p st h in
      if_either IsSingle (leb close_topup_max_retries (p.attempts + 1)) _ _ next next

  abbrev TurnSingle : Turn (Closes F T) → Type 0
  TurnSingle (goes_on st) = IsSingle st
  TurnSingle (waits st) = IsSingle st

  claimed-TurnSingle :
      (key : String) (p : Pending F) (o : Option Result) (st : Closes F T)
      → IsSingle st
      → TurnSingle (claimed key p (o, st))
  claimed-TurnSingle key p none st h = h
  claimed-TurnSingle key p (some done) st h = h
  claimed-TurnSingle key p (some missed) st h = bumped-IsSingle key p st h
  claimed-TurnSingle key p (some threw) st h = bumped-IsSingle key p st h

  turn-TurnSingle :
      (key : String) (p : Pending F) (rest : List (String × Pending F)) (st : Closes F T)
      → IsSingle st
      → TurnSingle (turn key p rest st)
  turn-TurnSingle key p rest st h =
      let here = close_key p.session p.position_id in
      let start = claim here p.session p.position_id (retry p rest) st in
      if_either TurnSingle (is_current p.session st) _ _
        (if_either TurnSingle
          (elem key st.finalizing
            || not (has_token (get p.session.account.trading_account_id st.sessions)))
          _ _ h
          (claimed-TurnSingle key p start.0 start.1
            (claim-IsSingle here p.session p.position_id (retry p rest) st h)))
        h

  pub retry_from-IsSingle :
      (m : List (String × Pending F)) (st : Closes F T) → IsSingle st → IsSingle (retry_from m st)
  retry_from-IsSingle [] st h = h
  retry_from-IsSingle ((key, p) ∷ rest) st h = elim (Turn-cases (turn key p rest st)) [
    | inl (next, e) ↦
        rw (e, retry_from)
          (retry_from-IsSingle rest next (subst TurnSingle e (turn-TurnSingle key p rest st h)))
    | inr (next, e) ↦ rw (e, retry_from) (subst TurnSingle e (turn-TurnSingle key p rest st h))
  ]

  pub resumed-IsSingle :
      (t : Task F) (o : Origin F) (r : Result) (st : Closes F T)
      → IsSingle st
      → IsSingle (resumed t o r st)
  resumed-IsSingle t live_close r st h =
      topped_up-IsSingle t.key t.session t.position_id (some r) st h
  resumed-IsSingle t (retry p rest) done st h = retry_from-IsSingle rest st h
  resumed-IsSingle t (retry p rest) missed st h =
      retry_from-IsSingle rest _ (bumped-IsSingle t.key p st h)
  resumed-IsSingle t (retry p rest) threw st h =
      retry_from-IsSingle rest _ (bumped-IsSingle t.key p st h)

  pub ended-IsSingle :
      (t : Task F) (r : Result) (st : Closes F T) → IsSingle st → IsSingle (ended t r st)
  ended-IsSingle t r st h =
      resumed-IsSingle t t.origin r (released t.key st)
        (release-AllOnce st.tasks st.finalizing st.closed_seen st.notified t.key h)

  fetched-IsSingle :
      (t : Task F) (ph : Phase F) (report : Option (List (ClosedTrade F))) (st : Closes F T)
      → 1 ≤ under_way t.key st.tasks
      → IsSingle st
      → IsSingle (fetched t ph report st)
  fetched-IsSingle t (writing c) report st here h = h
  fetched-IsSingle t fetching none st here h = ended-IsSingle t threw st h
  fetched-IsSingle t fetching (some closed) st here h = match (find_closed t.position_id closed)
    where
      match : (o : Option (ClosedTrade F)) → IsSingle (matched t o st)
      match none = ended-IsSingle t missed st h
      match (some c) =
          advance-AllOnce st.tasks st.finalizing st.closed_seen st.notified
            (record t { phase = writing c }) here h

  pub fetched_task-IsSingle :
      (key : String) (o : Option (Task F)) (report : Option (List (ClosedTrade F)))
      (st : Closes F T)
      → task_of key st.tasks ≡ o
      → IsSingle st
      → IsSingle (fetched_task o report st)
  fetched_task-IsSingle key none report st e h = h
  fetched_task-IsSingle key (some t) report st e h =
      fetched-IsSingle t t.phase report st (task_of-here key t st.tasks e) h

  pub seen-IsSingle :
      (keys : List String) (st : Closes F T)
      → IsSingle st
      → AllOnce st.tasks st.finalizing (keys ++ st.closed_seen) st.notified
  seen-IsSingle keys st h = seen-AllOnce st.tasks st.finalizing st.closed_seen st.notified keys h

  pub primed_with-IsSingle :
      (s : SessionRef F) (rows : Option (List String)) (st : Closes F T)
      → IsSingle st
      → IsSingle (primed_with s rows st)
  primed_with-IsSingle s none st h = h
  primed_with-IsSingle s (some ids) st h = seen-IsSingle (close_keys s ids) st h
