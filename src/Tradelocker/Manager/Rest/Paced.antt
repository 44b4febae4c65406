-- ===== src/Tradelocker/Manager/Rest/Paced.antt =====
-- How far apart the pacer of src/tradelocker/connection-manager.service.ts lets its calls through.
use tradetrack_api.Prelude.{
  ℕ, zero, suc, ◌+◌, ◌*◌, max, ltb, ltb→lt, ltb-false→le, ◌≤◌, ◌<◌, subst, List, [], ◌∷◌, inl, inr,
  Bool-cases, length, num_at, arith,
}
use tradetrack_api.Tradelocker.Manager.Rest.{Turn, pace, grants, create_pacer, rest_min_interval_ms}

pace-last : (gap last now late : ℕ) → last + gap ≤ pace gap last now late
unfolding pace
pace-last gap last now late = elim (Bool-cases (ltb now (last + gap))) [
  | inl e ↦ rw (e) (omega (arith, ltb→lt now (last + gap) e))
  | inr e ↦ rw (e) (ltb-false→le now (last + gap) e)
]

grants-last :
    (gap last k : ℕ) (ts : List Turn)
    → k + 1 ≤ length (grants gap last ts)
    → last + suc k * gap ≤ num_at (grants gap last ts) k
unfolding grants
grants-last gap last k [] h = omega (arith, h)
grants-last gap last zero (t ∷ ts) h = omega (arith, pace-last gap last (max t.made_at last) t.late)
grants-last gap last (suc k) (t ∷ ts) h =
    let granted = pace gap last (max t.made_at last) t.late in
    grind (
      arith,
      pace-last gap last (max t.made_at last) t.late,
      grants-last gap granted k ts (omega (arith, h)),
    )

grants-apart :
    (gap last i k : ℕ) (ts : List Turn)
    → i + k + 1 ≤ length (grants gap last ts)
    → num_at (grants gap last ts) i + k * gap ≤ num_at (grants gap last ts) (i + k)
unfolding grants
grants-apart gap last i k [] h = omega (arith, h)
grants-apart gap last zero zero (t ∷ ts) h = omega arith
grants-apart gap last zero (suc k) (t ∷ ts) h =
    subst
      (λ j. num_at (grants gap last (t ∷ ts)) 0 + suc k * gap ≤ num_at (grants gap last (t ∷ ts)) j)
      {x = suc k} (omega arith)
      (grants-last gap (pace gap last (max t.made_at last) t.late) k ts (omega (arith, h)))
grants-apart gap last (suc i) k (t ∷ ts) h =
    subst
      (λ j.
        num_at (grants gap last (t ∷ ts)) (suc i) + k * gap ≤ num_at (grants gap last (t ∷ ts)) j)
      {x = suc (i + k)} (omega arith)
      (grants-apart gap (pace gap last (max t.made_at last) t.late) i k ts (omega (arith, h)))

-- Whenever the calls of the manager's pacer are made, and however late its timers fire, of any six calls in
-- a row the last is let through more than ten seconds after the first: ten seconds never see more than
-- five of the requests for closed trades.
pub create_pacer_apart :
    (ts : List Turn) (i : ℕ)
    → i + 6 ≤ length (create_pacer rest_min_interval_ms ts)
    → num_at (create_pacer rest_min_interval_ms ts) i + 10000
      < num_at (create_pacer rest_min_interval_ms ts) (i + 5)
create_pacer_apart ts i h =
    omega (arith, grants-apart rest_min_interval_ms 0 i 5 ts (omega (arith, h)))
