-- ===== src/Candles/Lanes/Complete.antt =====
-- `mapWithConcurrency` (src/candles/ingest-worker.service.ts) gives what a plain map gives.
use mathlib.Core.Option
use mathlib.Core.Bool.{true≢false}
use tradetrack_api.Prelude.{
  ℕ, suc, ◌+◌, ◌-◌, ◌==◌, min, ◌≤◌, ◌<◌, ◌≡◌, sym, ap, ◌∙◌, subst, false, some, List, ◌⊎◌, inl, inr,
  Bool-cases, length, get_elem?, ltb, arith, ltb→lt, ltb-false→le, ==→eq, ==_refl,
}
use tradetrack_api.Candles.Lanes.{waiting, Lanes, next_lane, start, resume, Run, no_step, one_more}
use tradetrack_api.Candles.Lanes.Places.{
  is_waiting, waiting_lanes, taken, not_taken, same_index, HasLane, put_at-same, put_at-other,
  put_at-waiting, first_lanes-waiting, first_lanes-at, no_lane,
}

module _ {A R : Type 0} (fn : A → R) (items : List A) (limit : ℕ) where
  -- Each index is done, still to be taken, or waited for; no lane returns while items are left; and
  -- each step leaves one item less.
  record IsUnderWay (n : ℕ) (s : Lanes R) : Type 0 where
    accounted :
        (k : ℕ)
        → k < length items
        → (s.out k ≡ Option.map fn (get_elem? items k)) ⊎ (s.next ≤ k) ⊎ HasLane k s.lanes
    busy : (length items ≤ s.next) ⊎ (waiting_lanes s.lanes ≡ min limit (length items))
    remaining : (length items - s.next) + waiting_lanes s.lanes + n ≡ length items

  start-IsUnderWay : IsUnderWay 0 (start fn items limit)
  unfolding start
  start-IsUnderWay = record {
    accounted = λ k h. elim (Bool-cases (ltb k (min limit (length items)))) [
      | inl e ↦ inr (
          inr (
            k,
            first_lanes-at (min limit (length items)) 0 k (ltb→lt k _ e)
                ∙ ap (λ x. some (waiting x)) (omega arith),
          ))
      | inr e ↦ inr (inl (ltb-false→le k _ e))
    ];
    busy = inr (first_lanes-waiting (min limit (length items)) 0);
    remaining = omega (arith, first_lanes-waiting (min limit (length items)) 0);
  }

  -- The lane that goes on takes the next index, if there is one.
  next_lane-taken :
      (j i : ℕ) (s : Lanes R)
      → get_elem? s.lanes j ≡ some (waiting i)
      → s.next < length items
      → HasLane s.next (resume fn items j i s).lanes
  unfolding resume
  next_lane-taken j i s at h = (
    j,
    put_at-same j (next_lane (length items) s.next) (waiting i) s.lanes at
        ∙ ap some (taken s.next (length items) h),
  )

  kept_lane :
      (k j i : ℕ) (s : Lanes R)
      → get_elem? s.lanes j ≡ some (waiting i)
      → k == i ≡ false
      → HasLane k s.lanes
      → HasLane k (resume fn items j i s).lanes
  unfolding resume
  kept_lane k j i s at ne (j', at') = elim (Bool-cases (j == j')) [
    | inl same ↦ absurd (
        true≢false (
          sym (==_refl i)
          ∙ ap (λ x. x == i)
              (same_index i k (sym at ∙ ap (get_elem? s.lanes) (==→eq j j' same) ∙ at'))
          ∙ ne))
    | inr other ↦ (j', put_at-other j j' _ s.lanes other ∙ at')
  ]

  resume-accounted :
      (n j i : ℕ) (s : Lanes R)
      → IsUnderWay n s
      → get_elem? s.lanes j ≡ some (waiting i)
      → (k : ℕ) → k < length items
      → ((resume fn items j i s).out k ≡ Option.map fn (get_elem? items k))
        ⊎ ((resume fn items j i s).next ≤ k)
        ⊎ HasLane k (resume fn items j i s).lanes
  unfolding resume
  resume-accounted n j i s h at k small = elim (Bool-cases (k == i)) [
    | inl e ↦ inl (rw (e) (ap (λ x. Option.map fn (get_elem? items x)) (sym (==→eq k i e))))
    | inr ne ↦ elim (h.accounted k small) [
      | inl known ↦ inl (rw (ne) known)
      | inr (inr lane) ↦ inr (inr (kept_lane k j i s at ne lane))
      | inr (inl later) ↦ elim (Bool-cases (s.next == k)) [
        | inl now ↦ inr (
            inr (
              subst (λ x. HasLane x (resume fn items j i s).lanes) (==→eq s.next k now)
                (next_lane-taken j i s at
                  (subst (λ x. x < length items) (sym (==→eq s.next k now)) small))))
        | inr not_now ↦ inr (inl (ground arith))
      ]
    ]
  ]

  resume-IsUnderWay :
      (n j i : ℕ) (s : Lanes R)
      → IsUnderWay n s
      → get_elem? s.lanes j ≡ some (waiting i)
      → IsUnderWay (suc n) (resume fn items j i s)
  unfolding resume
  resume-IsUnderWay n j i s h at =
      let count = put_at-waiting j i (next_lane (length items) s.next) s.lanes at in
      elim (Bool-cases (ltb s.next (length items))) [
        | inl more ↦
            let same = ap is_waiting (taken s.next (length items) (ltb→lt s.next _ more)) in
            record {
              accounted = resume-accounted n j i s h at;
              busy = elim h.busy [
                | inl past ↦ inl (omega arith)
                | inr all ↦ inr (omega (arith, count, same, all))
              ];
              remaining =
                  omega (arith, count, same, h.remaining, ltb→lt s.next (length items) more);
            }
        | inr none_left ↦
            let gone =
              ap is_waiting (not_taken s.next (length items) (ltb-false→le s.next _ none_left)) in
            record {
              accounted = resume-accounted n j i s h at;
              busy = inl (omega (arith, ltb-false→le s.next (length items) none_left));
              remaining =
                  omega
                    (arith, count, gone, h.remaining, ltb-false→le s.next (length items) none_left);
            }
      ]

  Run-IsUnderWay : (n : ℕ) (s : Lanes R) → Run fn items (start fn items limit) n s → IsUnderWay n s
  Run-IsUnderWay n s no_step = start-IsUnderWay
  Run-IsUnderWay n s (one_more m u j i before at) =
      resume-IsUnderWay m j i u (Run-IsUnderWay m u before) at

  -- With at least one lane, and in whatever order the lanes go on, there are never more steps than
  -- items; and once no lane waits there have been as many steps as items, and the place of each item
  -- holds what `fn` gives for it.
  pub resume_complete :
      (n : ℕ) (s : Lanes R)
      → 1 ≤ limit
      → Run fn items (start fn items limit) n s
      → (n ≤ length items)
        × (waiting_lanes s.lanes ≡ 0
            → (n ≡ length items)
              × ((k : ℕ) → k < length items → s.out k ≡ Option.map fn (get_elem? items k)))
  resume_complete n s positive run =
      let h = Run-IsUnderWay n s run in
      (
        omega (arith, h.remaining),
        λ idle.
            let past = elim h.busy as (λ _. length items ≤ s.next) [
              | inl past ↦ past
              | inr all ↦ omega (arith, all, idle)
            ] in
            (
              omega (arith, h.remaining, idle, past),
              λ k small. elim (h.accounted k small) [
                | inl known ↦ known
                | inr (inl later) ↦ absurd (omega (arith, past, later, small))
                | inr (inr lane) ↦ absurd (no_lane k s.lanes idle lane)
              ],
            ),
      )
