-- ===== src/Store/Chains/Focus.antt =====
-- A step of one call of a `serialize` chain.
use mathlib.Core.Option
use mathlib.Core.Bool.{true≢false}
use tradetrack_api.Prelude.{
  ℕ, suc, ◌+◌, ◌==◌, ==→eq, ◌≤◌, ◌≡◌, refl, sym, ap, ◌∙◌, subst, true, false, ◌&&◌, Option, none,
  some, List, [], ◌∷◌, length, inl, inr, Bool-cases, arith, if◌then◌else◌,
}
use tradetrack_api.Store.Chains.{
  Phase, waiting, holding, settled, cleaned, Call, Lane, phase_of, set_phase, is_cleaned, is_ready,
  call_of,
}
use tradetrack_api.Store.Chains.Order.{
  replayed, replay, all_cleaned, before, Follows, Began, IsSerial, length-set_phase, uncleaned,
  call_of-before, call_of-bound, not_begun,
}

module _ {A V : Type 0} where
  -- One call of the list, which is not cleaned up: the row is as it left it, and it may go on.
  unfoldable pub Focus : ℕ → Call A V → V → List (Call A V) → Type 0
  Focus id c v cs =
      (Follows c.after (before id cs))
      × Began c.phase c.task (all_cleaned (before id cs)) (replay (before id cs) v)
      × (replay cs v ≡ replayed c.phase c.task (replay (before id cs) v))
      × ((p : Phase A)
          → Began p c.task (all_cleaned (before id cs)) (replay (before id cs) v)
          → IsSerial v (set_phase id p cs)
            × (replay (set_phase id p cs) v ≡ replayed p c.task (replay (before id cs) v)))

  Follows-length :
      (o : Option ℕ) (cs ds : List (Call A V))
      → all_cleaned cs ≡ false
      → length ds ≡ length cs
      → Follows o cs
      → Follows o ds
  Follows-length none cs ds idle e h = absurd (true≢false (sym h ∙ idle))
  Follows-length (some id) cs ds idle e h = h ∙ sym e

  pub focus :
      (id : ℕ) (c : Call A V) (v : V) (cs : List (Call A V))
      → call_of id cs ≡ some c
      → is_cleaned (some c.phase) ≡ false
      → IsSerial v cs
      → Focus id c v cs
  unfolding Focus
  focus id c v [] at h serial = absurd (Option.none-ne-some c at)
  focus id c v (d ∷ cs) at h (serial, follows, began) = elim (Bool-cases (length cs == id)) [
    | inl e ↦
        let same = Option.some-injective d c (rw (e) at at) in
        rw (e) (
          subst (λ x. Follows x.after cs) same follows,
          subst (λ x. Began x.phase x.task (all_cleaned cs) (replay cs v)) same began,
          ap (λ x. replayed x.phase x.task (replay cs v)) same,
          λ p now. (
            (
              serial,
              follows,
              subst (λ x. Began p x.task (all_cleaned cs) (replay cs v)) (sym same) now,
            ),
            ap (λ x. replayed p x.task (replay cs v)) same,
          ),
        )
    | inr e ↦
        let (follows', began', row, turn) = focus id c v cs (rw (e) at at) h serial in
        let busy = uncleaned id c cs (rw (e) at at) h in
        let idle = not_begun d.phase d.task (all_cleaned cs) (replay cs v) began busy in
        rw (e) (
          follows',
          began',
          ap (λ x. replayed x d.task (replay cs v)) idle ∙ row,
          λ p now.
              let (serial', row') = turn p now in
              (
                (
                  serial',
                  Follows-length d.after cs (set_phase id p cs) busy (length-set_phase id p cs)
                      follows,
                  subst
                      (λ x.
                        Began x d.task (all_cleaned (set_phase id p cs))
                          (replay (set_phase id p cs) v))
                      (sym idle) tt,
                ),
                ap (λ x. replayed x d.task (replay (set_phase id p cs) v)) idle ∙ row',
              ),
        )
  ]

  phase_of-before :
      (id j : ℕ) (c : Call A V) (cs : List (Call A V))
      → call_of id cs ≡ some c
      → j + 1 ≤ id
      → phase_of j cs ≡ phase_of j (before id cs)
  phase_of-before id j c [] at lt = absurd (Option.none-ne-some c at)
  phase_of-before id j c (d ∷ cs) at lt = elim (Bool-cases (length cs == id)) [
    | inl e ↦ rw (e) (rw (other (length cs) (omega (arith, ==→eq (length cs) id e))) refl)
    | inr e ↦
        let found = call_of-bound id c cs (rw (e) at at) in
        rw (e) (
          rw (other (length cs) (omega (arith, found)))
            (phase_of-before id j c cs (rw (e) at at) lt))
  ]
    where
      other : (n : ℕ) → j + 1 ≤ n → (n == j) ≡ false
      other n h = ground arith

  latest_cleaned :
      (v : V) (j : ℕ) (cs : List (Call A V))
      → IsSerial v cs
      → j + 1 ≡ length cs
      → is_cleaned (phase_of j cs) ≡ true
      → all_cleaned cs ≡ true
  latest_cleaned v j [] serial e h = refl
  latest_cleaned v j (d ∷ cs) (serial, follows, began) e h =
      let here =
        subst (λ b. is_cleaned (if b then some d.phase else phase_of j cs) ≡ true)
          (same (length cs) e) h in
      began_cleaned d.phase began here
    where
      same : (n : ℕ) → j + 1 ≡ suc n → (n == j) ≡ true
      same n h = ground arith

      began_cleaned :
          (p : Phase A)
          → Began p d.task (all_cleaned cs) (replay cs v)
          → is_cleaned (some p) ≡ true
          → (is_cleaned (some p) && all_cleaned cs) ≡ true
      began_cleaned waiting b h = absurd (true≢false (sym h))
      began_cleaned (holding a) b h = absurd (true≢false (sym h))
      began_cleaned (settled done) b h = absurd (true≢false (sym h))
      began_cleaned (cleaned done) b h = b

  before-IsSerial :
      (id : ℕ) (v : V) (cs : List (Call A V)) → IsSerial v cs → IsSerial v (before id cs)
  before-IsSerial id v [] h = tt
  before-IsSerial id v (d ∷ cs) (h, follows, began) = elim (Bool-cases (length cs == id)) [
    | inl e ↦ rw (e) h
    | inr e ↦ rw (e) (before-IsSerial id v cs h)
  ]

  -- A call whose predecessor has settled starts when all before it are cleaned up.
  pub ready :
      (id : ℕ) (c : Call A V) (v : V) (cs : List (Call A V)) (o : Option ℕ)
      → call_of id cs ≡ some c
      → IsSerial v cs
      → Follows o (before id cs)
      → is_ready o cs ≡ true
      → all_cleaned (before id cs) ≡ true
  ready id c v cs none at serial follows h = follows
  ready id c v cs (some j) at serial follows h =
      latest_cleaned v j (before id cs) (before-IsSerial id v cs serial) follows (
        sym (
          ap is_cleaned
            (phase_of-before id j c cs at (omega (arith, follows, call_of-before id c cs at))))
        ∙ h)

  -- The lane is in order, and its row is what the tasks left.
  abbrev pub IsInOrder : V → Lane A V → Type 0
  IsInOrder v lane =
      IsSerial v lane.calls × Follows lane.chain lane.calls × (lane.value ≡ replay lane.calls v)

  -- A step of one call that is not cleaned up, which keeps the map's entry.
  pub moved :
      (id : ℕ) (c : Call A V) (v w : V) (p : Phase A) (lane : Lane A V)
      → call_of id lane.calls ≡ some c
      → is_cleaned (some c.phase) ≡ false
      → IsInOrder v lane
      → Began p c.task (all_cleaned (before id lane.calls)) (replay (before id lane.calls) v)
      → w ≡ replayed p c.task (replay (before id lane.calls) v)
      → IsInOrder v (record lane { calls = set_phase id p lane.calls; value = w })
  unfolding Focus
  moved id c v w p lane at h (serial, tail, row) now e =
      let (follows, began, row', turn) = focus id c v lane.calls at h serial in
      let (serial', row'') = turn p now in
      (
        serial',
        Follows-length lane.chain lane.calls (set_phase id p lane.calls)
            (uncleaned id c lane.calls at h) (length-set_phase id p lane.calls) tail,
        e ∙ sym row'',
      )
