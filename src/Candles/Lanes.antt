-- ===== src/Candles/Lanes.antt =====
-- src/candles/ingest-worker.service.ts: `mapWithConcurrency`. Each lane takes the next index and waits
-- for `fn` of that item; which of the waiting lanes goes on first is open. `fn` gives a value for
-- each item: a rejection is not modelled.
pub mod Places
pub mod Complete
use mathlib.Core.Option
use tradetrack_api.Prelude.{
  ℕ, zero, suc, ◌+◌, ◌==◌, min, ◌≡◌, Option, none, some, List, [], ◌∷◌, length, get_elem?, ltb,
  if◌then◌else◌,
}

-- A lane waits for the item of an index, or has returned.
pub data Lane : Type 0 where
  waiting : ℕ → Lane
  returned : Lane

pub record Lanes (R : Type 0) : Type 0 where
  pub next : ℕ
  pub out : ℕ → Option R
  pub lanes : List Lane

abbrev pub put_at {ℓ} : {A : Type ℓ} → ℕ → A → List A → List A
put_at i a [] = []
put_at zero a (x ∷ xs) = a ∷ xs
put_at (suc i) a (x ∷ xs) = x ∷ put_at i a xs

-- `next++` and the test: what the lane does next.
abbrev pub next_lane : ℕ → ℕ → Lane
next_lane count next = if ltb next count then waiting next else returned

abbrev pub stored {ℓ} : {R : Type ℓ} → ℕ → Option R → (ℕ → Option R) → ℕ → Option R
stored i r out k = if k == i then r else out k

-- The lanes `from`, `from + 1`, … before any item is there.
abbrev pub first_lanes : ℕ → ℕ → List Lane
first_lanes zero from = []
first_lanes (suc m) from = waiting from ∷ first_lanes m (suc from)

module _ {A R : Type 0} (fn : A → R) (items : List A) where
  unfoldable pub start : ℕ → Lanes R
  start limit = record {
    next = min limit (length items);
    out = λ k. none;
    lanes = first_lanes (min limit (length items)) 0;
  }

  -- Lane `j` goes on with the item of index `i`.
  unfoldable pub resume : ℕ → ℕ → Lanes R → Lanes R
  resume j i s = record {
    next = s.next + 1;
    out = stored i (Option.map fn (get_elem? items i)) s.out;
    lanes = put_at j (next_lane (length items) s.next) s.lanes;
  }

  -- One lane after another goes on, in any order; the number counts the steps.
  pub data Run (s : Lanes R) : ℕ → Lanes R → Type 0 where
    no_step : Run s 0 s
    one_more :
        (n : ℕ) (u : Lanes R) (j i : ℕ)
        → Run s n u
        → get_elem? u.lanes j ≡ some (waiting i)
        → Run s (suc n) (resume j i u)
