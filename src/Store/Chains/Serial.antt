-- ===== src/Store/Chains/Serial.antt =====
-- The order in which the tasks of a `serialize` chain take effect.
use tradetrack_api.Prelude.{
  ℕ, suc, ◌+◌, ◌==◌, ==→eq, ◌≡◌, refl, sym, ap, ◌∙◌, subst, Bool, true, false, String, str_eq,
  Option, none, some, List, [], ◌∷◌, length, inl, inr, Bool-cases, Option-cases, if_either, arith,
}
use tradetrack_api.Store.Chains.{
  Task, Phase, waiting, holding, settled, cleaned, Call, Lane, set_phase, is_cleaned, is_ready,
  serialize, call_of, without_tail, started, ended, cleaned_up, Event, called, starts, ends, cleans,
  happen, happen_all,
}
use tradetrack_api.Store.Chains.Order.{
  replayed, replay, all_cleaned, before, Follows, Began, length-set_phase,
}
use tradetrack_api.Store.Chains.Focus.{Focus, focus, ready, IsInOrder, moved}

module _ {A V : Type 0} where
  started-IsInOrder :
      (id : ℕ) (c : Call A V) (v : V) (p : Phase A) (lane : Lane A V)
      → call_of id lane.calls ≡ some c
      → c.phase ≡ p
      → IsInOrder v lane
      → IsInOrder v (started id c p lane)
  unfolding Focus
  started-IsInOrder id c v (holding a) lane at e h = h
  started-IsInOrder id c v (settled done) lane at e h = h
  started-IsInOrder id c v (cleaned done) lane at e h = h
  started-IsInOrder id c v waiting lane at e h = elim (Bool-cases (is_ready c.after lane.calls)) [
    | inr busy ↦ rw (busy) h
    | inl idle ↦
        let open_call = ap (λ x. is_cleaned (some x)) e in
        let (follows, began, row, turn) = focus id c v lane.calls at open_call h.0 in
        let same = h.2 ∙ row ∙ ap (λ x. replayed x c.task (replay (before id lane.calls) v)) e in
        rw (idle) (
          moved id c v lane.value (holding (c.task.read lane.value)) lane at open_call h
            (ready id c v lane.calls c.after at h.0 follows idle, ap c.task.read same) same)
  ]

  ended-IsInOrder :
      (id : ℕ) (done : Bool) (c : Call A V) (v : V) (p : Phase A) (lane : Lane A V)
      → call_of id lane.calls ≡ some c
      → c.phase ≡ p
      → IsInOrder v lane
      → IsInOrder v (ended id done c p lane)
  unfolding Focus
  ended-IsInOrder id true c v waiting lane at e h = h
  ended-IsInOrder id true c v (settled d) lane at e h = h
  ended-IsInOrder id true c v (cleaned d) lane at e h = h
  ended-IsInOrder id false c v waiting lane at e h = h
  ended-IsInOrder id false c v (settled d) lane at e h = h
  ended-IsInOrder id false c v (cleaned d) lane at e h = h
  ended-IsInOrder id true c v (holding a) lane at e h =
      let open_call = ap (λ x. is_cleaned (some x)) e in
      let (follows, began, row, turn) = focus id c v lane.calls at open_call h.0 in
      let same = h.2 ∙ row ∙ ap (λ x. replayed x c.task (replay (before id lane.calls) v)) e in
      let began' =
        subst
          (λ x.
            Began x c.task (all_cleaned (before id lane.calls)) (replay (before id lane.calls) v))
          e began in
      moved id c v _ (settled true) lane at open_call h began'.0 (
        ap (λ x. c.task.write x lane.value) began'.1
        ∙ ap (c.task.write (c.task.read (replay (before id lane.calls) v))) same)
  ended-IsInOrder id false c v (holding a) lane at e h =
      let open_call = ap (λ x. is_cleaned (some x)) e in
      let (follows, began, row, turn) = focus id c v lane.calls at open_call h.0 in
      let same = h.2 ∙ row ∙ ap (λ x. replayed x c.task (replay (before id lane.calls) v)) e in
      let began' =
        subst
          (λ x.
            Began x c.task (all_cleaned (before id lane.calls)) (replay (before id lane.calls) v))
          e began in
      moved id c v lane.value (settled false) lane at open_call h began'.0 same

  -- Once the last call is cleaned up, all are.
  last_cleaned :
      (id : ℕ) (done : Bool) (c : Call A V) (cs : List (Call A V))
      → call_of id cs ≡ some c
      → id + 1 ≡ length cs
      → all_cleaned (before id cs) ≡ true
      → all_cleaned (set_phase id (cleaned done) cs) ≡ true
  last_cleaned id done c [] at e h = refl
  last_cleaned id done c (d ∷ cs) at e h =
      let here = same (length cs) e in rw (here) (rw (here) at h)
    where
      same : (n : ℕ) → id + 1 ≡ suc n → (n == id) ≡ true
      same n h = ground arith

  without_tail-Follows :
      (id : ℕ) (done : Bool) (c : Call A V) (o : Option ℕ) (cs : List (Call A V))
      → call_of id cs ≡ some c
      → all_cleaned (before id cs) ≡ true
      → Follows o (set_phase id (cleaned done) cs)
      → Follows (without_tail id o) (set_phase id (cleaned done) cs)
  without_tail-Follows id done c none cs at idle h = h
  without_tail-Follows id done c (some t) cs at idle h = elim (Bool-cases (t == id)) [
    | inr e ↦ rw (e) h
    | inl e ↦ rw (e) (
        last_cleaned id done c cs at
          (ap (λ x. x + 1) (sym (==→eq t id e)) ∙ h ∙ length-set_phase id (cleaned done) cs) idle)
  ]

  keep_done :
      (done : Bool) (task : Task A V) (v : V)
      → replayed (settled done) task v ≡ replayed (cleaned done) task v
  keep_done true task v = refl
  keep_done false task v = refl

  cleaned_up-IsInOrder :
      (id : ℕ) (c : Call A V) (v : V) (p : Phase A) (lane : Lane A V)
      → call_of id lane.calls ≡ some c
      → c.phase ≡ p
      → IsInOrder v lane
      → IsInOrder v (cleaned_up id p lane)
  unfolding Focus
  cleaned_up-IsInOrder id c v waiting lane at e h = h
  cleaned_up-IsInOrder id c v (holding a) lane at e h = h
  cleaned_up-IsInOrder id c v (cleaned done) lane at e h = h
  cleaned_up-IsInOrder id c v (settled done) lane at e h =
      let open_call = ap (λ x. is_cleaned (some x)) e in
      let (follows, began, row, turn) = focus id c v lane.calls at open_call h.0 in
      let first = replay (before id lane.calls) v in
      let same = h.2 ∙ row ∙ ap (λ x. replayed x c.task first) e ∙ keep_done done c.task first in
      let idle = subst (λ x. Began x c.task (all_cleaned (before id lane.calls)) first) e began in
      let (serial', tail', row') =
        moved id c v lane.value (cleaned done) lane at open_call h idle same in
      (serial', without_tail-Follows id done c lane.chain lane.calls at idle tail', row')

  happen-IsInOrder :
      (e : Event A V) (v : V) (lane : Lane A V) → IsInOrder v lane → IsInOrder v (happen e lane)
  unfolding serialize
  happen-IsInOrder (called task) v lane (serial, tail, row) = ((serial, tail, tt), omega arith, row)
  happen-IsInOrder (starts id) v lane h = elim (Option-cases (call_of id lane.calls)) [
    | inl e ↦ rw (e) h
    | inr (c, e) ↦ rw (e) (started-IsInOrder id c v c.phase lane e refl h)
  ]
  happen-IsInOrder (ends id done) v lane h = elim (Option-cases (call_of id lane.calls)) [
    | inl e ↦ rw (e) h
    | inr (c, e) ↦ rw (e) (ended-IsInOrder id done c v c.phase lane e refl h)
  ]
  happen-IsInOrder (cleans id) v lane h = elim (Option-cases (call_of id lane.calls)) [
    | inl e ↦ rw (e) h
    | inr (c, e) ↦ rw (e) (cleaned_up-IsInOrder id c v c.phase lane e refl h)
  ]

  happen_all-IsInOrder :
      (es : List (String × Event A V)) (v : String → V) (k : String)
      → IsInOrder (v k) (happen_all es v k)
  happen_all-IsInOrder [] v k = (tt, refl, refl)
  happen_all-IsInOrder ((j, e) ∷ es) v k =
      if_either (IsInOrder (v k)) (str_eq j k) _ _
        (happen-IsInOrder e (v k) _ (happen_all-IsInOrder es v k)) (happen_all-IsInOrder es v k)

  -- However the reads and writes of the calls interleave, and whichever of the tasks are rejected, the row of
  -- every key is at every moment what the tasks that wrote it give when they run one after the other in
  -- the order in which they were called, each reading and writing in one go.
  pub happen_all-replay :
      (es : List (String × Event A V)) (v : String → V) (k : String)
      → (happen_all es v k).value ≡ replay (happen_all es v k).calls (v k)
  happen_all-replay es v k = (happen_all-IsInOrder es v k).2
