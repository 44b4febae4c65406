-- ===== src/Candles/Lanes/Places.antt =====
-- The lanes of `mapWithConcurrency` (src/candles/ingest-worker.service.ts) by their places.
use mathlib.Core.Option
use mathlib.Core.Bool.{true≢false}
use tradetrack_api.Prelude.{
  ℕ, zero, suc, ◌+◌, ◌==◌, ◌≤◌, ◌<◌, ◌≡◌, refl, ap, ◌∙◌, false, Option, some, List, [], ◌∷◌,
  get_elem?, arith, lt→ltb, le→ltb-false,
}
use tradetrack_api.Candles.Lanes.{Lane, waiting, returned, put_at, next_lane, first_lanes}

abbrev pub is_waiting : Lane → ℕ
is_waiting (waiting i) = 1
is_waiting returned = 0

-- How many lanes wait.
abbrev pub waiting_lanes : List Lane → ℕ
waiting_lanes [] = 0
waiting_lanes (l ∷ ls) = is_waiting l + waiting_lanes ls

pub taken : (next count : ℕ) → next < count → next_lane count next ≡ waiting next
taken next count h = rw (lt→ltb next count h) refl

pub not_taken : (next count : ℕ) → count ≤ next → next_lane count next ≡ returned
not_taken next count h = rw (le→ltb-false next count h) refl

abbrev pub index_of : Option Lane → ℕ
index_of (some (waiting i)) = i
index_of _ = 0

pub same_index : (i k : ℕ) → some (waiting i) ≡ some (waiting k) → i ≡ k
same_index i k e = ap index_of e

abbrev pub HasLane : ℕ → List Lane → Type 0
HasLane k ls = (j : ℕ) × (get_elem? ls j ≡ some (waiting k))

pub put_at-same {ℓ} :
    {A : Type ℓ} (j : ℕ) (a b : A) (xs : List A)
    → get_elem? xs j ≡ some b
    → get_elem? (put_at j a xs) j ≡ some a
put_at-same j a b [] e = absurd (Option.none-ne-some b e)
put_at-same zero a b (x ∷ xs) e = refl
put_at-same (suc j) a b (x ∷ xs) e = put_at-same j a b xs e

pub put_at-other {ℓ} :
    {A : Type ℓ} (j i : ℕ) (a : A) (xs : List A)
    → j == i ≡ false
    → get_elem? (put_at j a xs) i ≡ get_elem? xs i
put_at-other j i a [] ne = refl
put_at-other zero zero a (x ∷ xs) ne = absurd (true≢false ne)
put_at-other zero (suc i) a (x ∷ xs) ne = refl
put_at-other (suc j) zero a (x ∷ xs) ne = refl
put_at-other (suc j) (suc i) a (x ∷ xs) ne = put_at-other j i a xs (ground arith)

-- One waiting lane is replaced.
pub put_at-waiting :
    (j i : ℕ) (l : Lane) (ls : List Lane)
    → get_elem? ls j ≡ some (waiting i)
    → waiting_lanes (put_at j l ls) + 1 ≡ waiting_lanes ls + is_waiting l
put_at-waiting j i l [] e = absurd (Option.none-ne-some (waiting i) e)
put_at-waiting zero i l (x ∷ ls) e =
    omega (arith, ap is_waiting (Option.some-injective x (waiting i) e))
put_at-waiting (suc j) i l (x ∷ ls) e = omega (arith, put_at-waiting j i l ls e)

pub first_lanes-waiting : (m from : ℕ) → waiting_lanes (first_lanes m from) ≡ m
first_lanes-waiting zero from = refl
first_lanes-waiting (suc m) from = omega (arith, first_lanes-waiting m (suc from))

-- Lane `k` waits for the index `from + k`.
pub first_lanes-at :
    (m from k : ℕ) → k < m → get_elem? (first_lanes m from) k ≡ some (waiting (from + k))
first_lanes-at zero from k h = absurd (omega arith)
first_lanes-at (suc m) from zero h = ap (λ x. some (waiting x)) (omega arith)
first_lanes-at (suc m) from (suc k) h =
    first_lanes-at m (suc from) k (omega arith) ∙ ap (λ x. some (waiting x)) (omega arith)

pub no_lane : (k : ℕ) (ls : List Lane) → waiting_lanes ls ≡ 0 → HasLane k ls → ⊥
no_lane k [] e (j, at) = Option.none-ne-some (waiting k) at
no_lane k (l ∷ ls) e (zero, at) =
    omega (arith, ap is_waiting (Option.some-injective l (waiting k) at))
no_lane k (l ∷ ls) e (suc j, at) = no_lane k ls (omega arith) (j, at)
