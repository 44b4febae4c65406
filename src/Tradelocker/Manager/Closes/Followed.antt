-- ===== src/Tradelocker/Manager/Closes/Followed.antt =====
-- What finalizes and retries (src/tradelocker/connection-manager.service.ts) do with the closes that
-- the manager was told of.
use tradetrack_api.Prelude.{
  ◌+◌, ◌≡◌, refl, subst, true, false, leb, String, some, List, [], ◌∷◌, inl, inr, Bool-cases, get,
  elem, is_some, if_true, if_false, if_either, get-set_cases, set, or_right, ap, ◌∙◌, str_eq,
  str_eq_iff, ◌&&◌,
}
use tradetrack_api.Tradelocker.Manager.Closes.{
  SessionRef, Pending, Result, done, missed, threw, Origin, fetching, Task, Closes, is_ref,
  is_current, drop_pending, lose, claim, topped_up, counted, bumped, close_topup_max_retries,
}
use tradetrack_api.Tradelocker.Manager.Closes.Tracked.{
  is_live, Tracked, elem_here, lose-Tracked, drop-Tracked, set-Tracked,
}

module _ {F T : Type 0} where
  abbrev pub IsTracked : Closes F T → String → Type 0
  IsTracked st k = Tracked st.closed_seen st.pending st.tasks st.lost k

  abbrev pub AllTracked : Closes F T → Type 0
  AllTracked st = (k : String) → elem k st.reported ≡ true → IsTracked st k

  -- All positions but one.
  abbrev pub AllBut : String → Closes F T → Type 0
  AllBut key st = (k : String) → str_eq key k ≡ false → elem k st.reported ≡ true → IsTracked st k

  pub but : (key : String) (st : Closes F T) → AllTracked st → AllBut key st
  but key st h k other there = h k there

  pub all_of :
      (key : String) (st : Closes F T)
      → AllBut key st
      → ((k : String) → str_eq key k ≡ true → IsTracked st k)
      → AllTracked st
  all_of key st h own k there = elim (Bool-cases (str_eq key k)) [
    | inl e ↦ own k e
    | inr e ↦ h k e there
  ]

  -- A pending close that is given up, or dropped once it is finalized.
  pub given_up-AllTracked :
      (key : String) (st : Closes F T) → AllTracked st → AllTracked (lose key (drop_pending key st))
  given_up-AllTracked key st h k there =
      let more = lose-Tracked st.closed_seen st.pending st.tasks st.lost k (h k there) (key ∷ []) in
      drop-Tracked st.closed_seen st.pending st.tasks (key ∷ st.lost) k more key
        (λ e. inr (inr (inr (elem_here key k st.lost e))))

  pub drop_pending-AllTracked :
      (key : String) (st : Closes F T)
      → elem key st.closed_seen ≡ true
      → AllTracked st
      → AllTracked (drop_pending key st)
  drop_pending-AllTracked key st seen h k there =
      drop-Tracked st.closed_seen st.pending st.tasks st.lost k (h k there) key
        (λ e. inl (subst (λ x. elem x st.closed_seen ≡ true) ((str_eq_iff key k).0 e) seen))

  counted-AllTracked :
      (key : String) (p : Pending F) (st : Closes F T)
      → AllTracked st
      → AllTracked (counted key p st)
  counted-AllTracked key p st h =
      let more : Pending F = record p { attempts = p.attempts + 1 } in
      if_either AllTracked (is_ref p.ref (get key st.pending))
        (record st { pending = set key more st.pending }) st
        (λ k there. set-Tracked st.closed_seen st.pending st.tasks st.lost k (h k there) key more) h

  pub bumped-AllTracked :
      (key : String) (p : Pending F) (st : Closes F T)
      → AllTracked st
      → AllTracked (bumped key p st)
  bumped-AllTracked key p st h =
      let next = counted-AllTracked key p st h in
      if_either AllTracked (leb close_topup_max_retries (p.attempts + 1))
        (lose key (drop_pending key (counted key p st))) (counted key p st)
        (given_up-AllTracked key (counted key p st) next) next

  -- A finalize that did not write leaves its close pending, or let go.
  pub topped_up-AllTracked :
      (key : String) (s : SessionRef F) (position_id : String) (r : Result) (st : Closes F T)
      → AllBut key st
      → (r ≡ done → elem key st.closed_seen ≡ true)
      → AllTracked (topped_up key s position_id (some r) st)
  topped_up-AllTracked key s position_id done st h seen =
      all_of key st h (λ k e.
        inl (subst (λ x. elem x st.closed_seen ≡ true) ((str_eq_iff key k).0 e) (seen refl)))
  topped_up-AllTracked key s position_id threw st h seen =
      all_of key (lose key st)
        (λ k e there.
          lose-Tracked st.closed_seen st.pending st.tasks st.lost k (h k e there) (key ∷ []))
        (λ k e. inr (inr (inr (elem_here key k st.lost e))))
  topped_up-AllTracked key s position_id missed st h seen =
      elim (Bool-cases (is_some (get key st.pending))) [
        | inl has ↦ if_true AllTracked (is_some (get key st.pending)) st _ has (
            all_of key st h (λ k e.
              inr (
                inl (subst (λ x. is_some (get x st.pending) ≡ true) ((str_eq_iff key k).0 e) has))))
        | inr has ↦ if_false AllTracked (is_some (get key st.pending)) st (added next) has (
            all_of key (added next)
              (λ k e there.
                set-Tracked st.closed_seen st.pending st.tasks st.lost k (h k e there) key next)
              (λ k e. inr (
                inl (
                  ap is_some {y = some next} (get-set_cases k key next st.pending ∙ rw (e) refl)))))
      ]
    where
      next : Pending F
      next = record { ref = st.next_ref; session = s; position_id = position_id; attempts = 0 }

      added : Pending F → Closes F T
      added p = record st { pending = set key p st.pending; next_ref = st.next_ref + 1 }

  pub more_tasks :
      (st : Closes F T) (t : Task F) (fin : List String)
      → AllTracked st
      → AllTracked (record st { finalizing = fin; tasks = t ∷ st.tasks })
  more_tasks st t fin h k there = elim (h k there) [
    | inl e ↦ inl e
    | inr (inl e) ↦ inr (inl e)
    | inr (inr (inl e)) ↦ inr (inr (inl (or_right (str_eq t.key k && is_live t.origin) _ e)))
    | inr (inr (inr e)) ↦ inr (inr (inr e))
  ]

  pub claim-AllTracked :
      (key : String) (s : SessionRef F) (position_id : String) (origin : Origin F) (st : Closes F T)
      → AllTracked st
      → AllTracked (claim key s position_id origin st).1
  claim-AllTracked key s position_id origin st h = elim (Bool-cases (elem key st.closed_seen)) [
    | inl e ↦ rw (e) (drop_pending-AllTracked key st e h)
    | inr e ↦ elim (Bool-cases (elem key st.finalizing)) [
      | inl f ↦ rw (e) (rw (f) h)
      | inr f ↦ elim (Bool-cases (is_current s st)) [
        | inl g ↦ rw (e) (
            rw (f) (
              rw (g) (
                more_tasks st
                  (record {
                    key = key;
                    session = s;
                    position_id = position_id;
                    origin = origin;
                    phase = fetching;
                  })
                  (key ∷ st.finalizing) h)))
        | inr g ↦ rw (e) (rw (f) (rw (g) h))
      ]
    ]
  ]
