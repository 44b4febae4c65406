-- ===== src/Tradelocker/Manager/Closes/Ended.antt =====
-- What the end of a finalize (src/tradelocker/connection-manager.service.ts) leaves of the closes.
use mathlib.Core.Bool.{true≢false}
use tradetrack_api.Prelude.{
  ◌≤◌, ◌≡◌, refl, sym, subst, true, false, ◌||◌, not, String, Option, none, some, List, [], ◌∷◌,
  inl, inr, Bool-cases, get, elem, if_either, or_right, ap, ◌∙◌, str_eq, str_eq_iff, ◌&&◌,
}
use tradetrack_api.Tradelocker.Types.{ClosedTrade}
use tradetrack_api.Tradelocker.Manager.Closes.{
  Pending, Result, done, missed, threw, Origin, live_close, retry, writing, Task, Closes, close_key,
  has_token, task_of, is_current, claim, without_task,
}
use tradetrack_api.Tradelocker.Manager.Closes.Retries.{
  Turn, goes_on, waits, claimed, turn, retry_from, resumed, released, ended, matched,
}
use tradetrack_api.Tradelocker.Manager.Closes.Effects.{under_way}
use tradetrack_api.Tradelocker.Manager.Closes.Single.{Turn-cases}
use tradetrack_api.Tradelocker.Manager.Closes.Tracked.{
  is_live, live_task, Tracked, without_task-live, task_of-live,
}
use tradetrack_api.Tradelocker.Manager.Closes.Followed.{
  IsTracked, AllTracked, AllBut, given_up-AllTracked, bumped-AllTracked, topped_up-AllTracked,
  claim-AllTracked,
}

module _ {F T : Type 0} where
  abbrev TurnTracked : Turn (Closes F T) → Type 0
  TurnTracked (goes_on st) = AllTracked st
  TurnTracked (waits st) = AllTracked st

  claimed-TurnTracked :
      (key : String) (p : Pending F) (o : Option Result) (st : Closes F T)
      → AllTracked st
      → TurnTracked (claimed key p (o, st))
  claimed-TurnTracked key p none st h = h
  claimed-TurnTracked key p (some done) st h = h
  claimed-TurnTracked key p (some missed) st h = bumped-AllTracked key p st h
  claimed-TurnTracked key p (some threw) st h = bumped-AllTracked key p st h

  turn-TurnTracked :
      (key : String) (p : Pending F) (rest : List (String × Pending F)) (st : Closes F T)
      → AllTracked st
      → TurnTracked (turn key p rest st)
  turn-TurnTracked key p rest st h =
      let here = close_key p.session p.position_id in
      let start = claim here p.session p.position_id (retry p rest) st in
      if_either TurnTracked (is_current p.session st) _ _
        (if_either TurnTracked
          (elem key st.finalizing
            || not (has_token (get p.session.account.trading_account_id st.sessions)))
          _ _ h
          (claimed-TurnTracked key p start.0 start.1
            (claim-AllTracked here p.session p.position_id (retry p rest) st h)))
        (given_up-AllTracked key st h)

  pub retry_from-AllTracked :
      (m : List (String × Pending F)) (st : Closes F T)
      → AllTracked st
      → AllTracked (retry_from m st)
  retry_from-AllTracked [] st h = h
  retry_from-AllTracked ((key, p) ∷ rest) st h = elim (Turn-cases (turn key p rest st)) [
    | inl (next, e) ↦
        rw (e, retry_from)
          (retry_from-AllTracked rest next (subst TurnTracked e (turn-TurnTracked key p rest st h)))
    | inr (next, e) ↦ rw (e, retry_from) (subst TurnTracked e (turn-TurnTracked key p rest st h))
  ]

  -- The finalize of a position is released: the others are followed as they were.
  released-other :
      (id : String) (st : Closes F T) (k : String)
      → str_eq id k ≡ false
      → IsTracked st k
      → IsTracked (released id st) k
  released-other id st k e (inl f) = inl f
  released-other id st k e (inr (inl f)) = inr (inl f)
  released-other id st k e (inr (inr (inl f))) =
      inr (inr (inl (without_task-live id k st.tasks e ∙ f)))
  released-other id st k e (inr (inr (inr f))) = inr (inr (inr f))

  -- A finalize that no live close waits for does not count.
  released-same :
      (t : Task F) (st : Closes F T)
      → task_of t.key st.tasks ≡ some t
      → under_way t.key st.tasks ≤ 1
      → is_live t.origin ≡ false
      → IsTracked st t.key
      → IsTracked (released t.key st) t.key
  released-same t st at one dead (inl f) = inl f
  released-same t st at one dead (inr (inl f)) = inr (inl f)
  released-same t st at one dead (inr (inr (inl f))) =
      absurd (true≢false (sym (task_of-live t.key t st.tasks at one f) ∙ dead))
  released-same t st at one dead (inr (inr (inr f))) = inr (inr (inr f))

  released-AllBut : (id : String) (st : Closes F T) → AllTracked st → AllBut id (released id st)
  released-AllBut id st h k e there = released-other id st k e (h k there)

  released-AllTracked :
      (t : Task F) (st : Closes F T)
      → task_of t.key st.tasks ≡ some t
      → under_way t.key st.tasks ≤ 1
      → is_live t.origin ≡ false
      → AllTracked st
      → AllTracked (released t.key st)
  released-AllTracked t st at one dead h k there = elim (Bool-cases (str_eq t.key k)) [
    | inr e ↦ released-other t.key st k e (h k there)
    | inl e ↦
        let same = (str_eq_iff t.key k).0 e in
        subst (IsTracked (released t.key st)) same (
          released-same t st at one dead
            (h t.key (subst (λ x. elem x st.reported ≡ true) (sym same) there)))
  ]

  resumed-AllTracked :
      (t : Task F) (o : Origin F) (r : Result) (st : Closes F T)
      → t.origin ≡ o
      → task_of t.key st.tasks ≡ some t
      → under_way t.key st.tasks ≤ 1
      → (r ≡ done → elem t.key st.closed_seen ≡ true)
      → AllTracked st
      → AllTracked (resumed t o r (released t.key st))
  resumed-AllTracked t live_close r st e at one seen h =
      topped_up-AllTracked t.key t.session t.position_id r (released t.key st)
        (released-AllBut t.key st h) seen
  resumed-AllTracked t (retry p rest) done st e at one seen h =
      retry_from-AllTracked rest _ (released-AllTracked t st at one (ap is_live e) h)
  resumed-AllTracked t (retry p rest) missed st e at one seen h =
      retry_from-AllTracked rest _
        (bumped-AllTracked t.key p _ (released-AllTracked t st at one (ap is_live e) h))
  resumed-AllTracked t (retry p rest) threw st e at one seen h =
      retry_from-AllTracked rest _
        (bumped-AllTracked t.key p _ (released-AllTracked t st at one (ap is_live e) h))

  pub ended-AllTracked :
      (t : Task F) (r : Result) (st : Closes F T)
      → task_of t.key st.tasks ≡ some t
      → under_way t.key st.tasks ≤ 1
      → (r ≡ done → elem t.key st.closed_seen ≡ true)
      → AllTracked st
      → AllTracked (ended t r st)
  ended-AllTracked t r st at one seen h = resumed-AllTracked t t.origin r st refl at one seen h

  -- A finalize goes on to its write.
  pub advanced-AllTracked :
      (t : Task F) (c : ClosedTrade F) (st : Closes F T)
      → task_of t.key st.tasks ≡ some t
      → under_way t.key st.tasks ≤ 1
      → AllTracked st
      → AllTracked (matched t (some c) st)
  advanced-AllTracked t c st at one h k there = elim (Bool-cases (str_eq t.key k)) [
    | inr e ↦ later (released-other t.key st k e (h k there))
    | inl e ↦ here e (h k there)
  ]
    where
      next : Task F
      next = record t { phase = writing c }

      later :
          IsTracked (released t.key st) k
          → Tracked st.closed_seen st.pending (next ∷ without_task t.key st.tasks) st.lost k
      later (inl f) = inl f
      later (inr (inl f)) = inr (inl f)
      later (inr (inr (inl f))) =
          inr (inr (inl (or_right (str_eq t.key k && is_live t.origin) _ f)))
      later (inr (inr (inr f))) = inr (inr (inr f))

      here :
          str_eq t.key k ≡ true
          → IsTracked st k
          → Tracked st.closed_seen st.pending (next ∷ without_task t.key st.tasks) st.lost k
      here e (inl f) = inl f
      here e (inr (inl f)) = inr (inl f)
      here e (inr (inr (inr f))) = inr (inr (inr f))
      here e (inr (inr (inl f))) =
          let same = (str_eq_iff t.key k).0 e in
          let live =
            task_of-live t.key t st.tasks at one
              (subst (λ x. live_task x st.tasks ≡ true) (sym same) f) in
          inr (inr (inl (rw (e, live) refl)))
