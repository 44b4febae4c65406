-- ===== src/Tradelocker/Manager/Closes/Told.antt =====
-- What a live close and a stopped session (src/tradelocker/connection-manager.service.ts) leave of the
-- closes.
use mathlib.Core.Bool.{true≢false}
use tradetrack_api.Prelude.{
  delete, ◌≡◌, refl, sym, subst, Bool, true, false, ◌||◌, String, some, List, [], ◌∷◌, ◌++◌, ◌⊎◌,
  inl, inr, Bool-cases, get, elem, is_some, if_either, or_right, ap, str_eq, str_eq_iff,
}
use tradetrack_api.Tradelocker.Manager.Closes.{
  SessionRef, Pending, Result, done, missed, live_close, fetching, Task, Closes, close_key,
  is_current, drop_pending, topped_up, top_up_close,
}
use tradetrack_api.Tradelocker.Manager.Closes.Events.{stop_session}
use tradetrack_api.Tradelocker.Manager.Closes.Tracked.{elem_here, lose-Tracked}
use tradetrack_api.Tradelocker.Manager.Closes.Followed.{
  IsTracked, AllTracked, AllBut, all_of, drop_pending-AllTracked, topped_up-AllTracked, more_tasks,
}
use tradetrack_api.Tradelocker.Manager.Closes.Tracked.{append-elem_left}
use tradetrack_api.Tradelocker.Manager.Closes.Events.{of_session, other_pending, pending_keys}

abbrev pub is_done : Result → Bool
is_done done = true
is_done _ = false

stopped_pending :
    {F : Type 0} (s : SessionRef F) (k : String) (m : List (String × Pending F))
    → is_some (get k m) ≡ true
    → (is_some (get k (other_pending s m)) ≡ true) ⊎ (elem k (pending_keys s m) ≡ true)
stopped_pending s k [] e = inl e
stopped_pending s k ((key, p) ∷ m) e = elim (Bool-cases (of_session s p)) [
  | inl f ↦ elim (Bool-cases (str_eq key k)) [
    | inl g ↦ inr (rw (f) (elem_here key k (pending_keys s m) g))
    | inr g ↦ elim (stopped_pending s k m (rw (g) at e)) [
      | inl l ↦ inl (rw (f) l)
      | inr r ↦ inr (rw (f) (or_right (str_eq key k) _ r))
    ]
  ]
  | inr f ↦ elim (Bool-cases (str_eq key k)) [
    | inl g ↦ inl (rw (f) (rw (g) refl))
    | inr g ↦ elim (stopped_pending s k m (rw (g) at e)) [
      | inl l ↦ inl (rw (f) (rw (g) l))
      | inr r ↦ inr (rw (f) r)
    ]
  ]
]

module _ {F T : Type 0} where
  pub top_up_close-AllTracked :
      (s : SessionRef F) (position_id : String) (st : Closes F T)
      → AllTracked st
      → AllTracked (top_up_close s position_id st)
  unfolding top_up_close
  top_up_close-AllTracked s position_id st h = elim (Bool-cases (elem key st.closed_seen)) [
    | inl e ↦ rw (e) (
        with_key (drop_pending key st) (drop_pending-AllTracked key st e h)
          (λ k same. inl (subst (λ x. elem x st.closed_seen ≡ true) ((str_eq_iff key k).0 same) e)))
    | inr e ↦ elim (Bool-cases (elem key st.finalizing)) [
      | inl f ↦ rw (e) (rw (f) (missed_one st h))
      | inr f ↦ elim (Bool-cases (is_current s st)) [
        | inr g ↦ rw (e) (rw (f) (rw (g) (missed_one st h)))
        | inl g ↦
            rw (e)
              (rw (f) (rw (g) (with_key begun (more_tasks st task (key ∷ st.finalizing) h) own)))
      ]
    ]
  ]
    where
      key : String
      key = close_key s position_id

      told : Closes F T → Closes F T
      told next = record next { reported = key ∷ next.reported }

      others : (next : Closes F T) → AllTracked next → AllBut key (told next)
      others next n k other there = n k (not_here (str_eq key k) (elem k next.reported) other there)
        where
          not_here : (a b : Bool) → a ≡ false → (a || b) ≡ true → b ≡ true
          not_here true b e f = absurd (true≢false e)
          not_here false b e f = f

      with_key :
          (next : Closes F T)
          → AllTracked next
          → ((k : String) → str_eq key k ≡ true → IsTracked next k)
          → AllTracked (told next)
      with_key next n own = all_of key (told next) (others next n) own

      missed_one :
          (next : Closes F T)
          → AllTracked next
          → AllTracked (topped_up key s position_id (some missed) (told next))
      missed_one next n =
          topped_up-AllTracked key s position_id missed (told next) (others next n)
            (λ no. absurd (true≢false (sym (ap is_done no))))

      task : Task F
      task = record {
        key = key;
        session = s;
        position_id = position_id;
        origin = live_close;
        phase = fetching;
      }

      begun : Closes F T
      begun = record st { finalizing = key ∷ st.finalizing; tasks = task ∷ st.tasks }

      own : (k : String) → str_eq key k ≡ true → IsTracked begun k
      own k same = inr (inr (inl (rw (same) refl)))

  pub stop_session-AllTracked :
      (s : SessionRef F) (st : Closes F T) → AllTracked st → AllTracked (stop_session s st)
  unfolding stop_session
  stop_session-AllTracked s st h =
      if_either AllTracked (is_current s st) gone st
        (λ k there. elim (h k there) [
          | inl f ↦ inl f
          | inr (inl f) ↦ elim (stopped_pending s k st.pending f) [
            | inl l ↦ inr (inl l)
            | inr r ↦ inr (inr (inr (append-elem_left k (pending_keys s st.pending) st.lost r)))
          ]
          | inr (inr (inl f)) ↦ inr (inr (inl f))
          | inr (inr (inr f)) ↦
              lose-Tracked st.closed_seen (other_pending s st.pending) st.tasks st.lost k
                (inr (inr (inr f))) (pending_keys s st.pending)
        ])
        h
    where
      gone : Closes F T
      gone = record st {
        sessions = delete s.account.trading_account_id st.sessions;
        pending = other_pending s st.pending;
        lost = pending_keys s st.pending ++ st.lost;
      }
