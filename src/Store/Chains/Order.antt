-- ===== src/Store/Chains/Order.antt =====
-- The order in which the calls of a `serialize` chain begin.
use mathlib.Core.Option
use mathlib.Core.Bool.{true≢false}
use tradetrack_api.Prelude.{
  ℕ, suc, ◌+◌, ◌==◌, ==→eq, ◌≤◌, ◌≡◌, refl, sym, ap, ◌∙◌, Bool, true, false, ◌&&◌, Option, none,
  some, List, [], ◌∷◌, length, inl, inr, Bool-cases, arith, if◌then◌else◌,
}
use tradetrack_api.Store.Chains.{
  Task, Phase, waiting, holding, settled, cleaned, Call, set_phase, is_cleaned, call_of,
}

and_left : (a b : Bool) → a ≡ false → (a && b) ≡ false
and_left a b e = rw (e) refl

and_right : (a b : Bool) → b ≡ false → (a && b) ≡ false
and_right true b e = e
and_right false b e = refl

module _ {A V : Type 0} where
  -- What a task does in one go, where it was not rejected.
  abbrev pub replayed : Phase A → Task A V → V → V
  replayed (settled true) task v = task.write (task.read v) v
  replayed (cleaned true) task v = task.write (task.read v) v
  replayed _ task v = v

  -- The row once the tasks that wrote it ran in the order of their calls, each in one go.
  abbrev pub replay : List (Call A V) → V → V
  replay [] v = v
  replay (c ∷ cs) v = replayed c.phase c.task (replay cs v)

  abbrev pub all_cleaned : List (Call A V) → Bool
  all_cleaned [] = true
  all_cleaned (c ∷ cs) = is_cleaned (some c.phase) && all_cleaned cs

  -- The calls made before the one with a number.
  abbrev pub before : ℕ → List (Call A V) → List (Call A V)
  before id [] = []
  before id (c ∷ cs) = if length cs == id then cs else before id cs

  -- A call waits for the one before it, or came when all were cleaned up.
  abbrev pub Follows : Option ℕ → List (Call A V) → Type 0
  Follows none cs = all_cleaned cs ≡ true
  Follows (some id) cs = id + 1 ≡ length cs

  -- A task that has begun did so when all before it were cleaned up, and read what they left.
  abbrev pub Began : Phase A → Task A V → Bool → V → Type 0
  Began waiting task idle v = Unit {0}
  Began (holding a) task idle v = (idle ≡ true) × (a ≡ task.read v)
  Began (settled done) task idle v = idle ≡ true
  Began (cleaned done) task idle v = idle ≡ true

  abbrev pub IsSerial : V → List (Call A V) → Type 0
  IsSerial v [] = Unit {0}
  IsSerial v (c ∷ cs) =
      IsSerial v cs × Follows c.after cs × Began c.phase c.task (all_cleaned cs) (replay cs v)

  pub length-set_phase :
      (id : ℕ) (p : Phase A) (cs : List (Call A V)) → length (set_phase id p cs) ≡ length cs
  length-set_phase id p [] = refl
  length-set_phase id p (c ∷ cs) = elim (Bool-cases (length cs == id)) [
    | inl e ↦ rw (e) refl
    | inr e ↦ rw (e) (ap suc (length-set_phase id p cs))
  ]

  -- A call that is not cleaned up.
  pub uncleaned :
      (id : ℕ) (c : Call A V) (cs : List (Call A V))
      → call_of id cs ≡ some c
      → is_cleaned (some c.phase) ≡ false
      → all_cleaned cs ≡ false
  uncleaned id c [] at h = absurd (Option.none-ne-some c at)
  uncleaned id c (d ∷ cs) at h = elim (Bool-cases (length cs == id)) [
    | inl e ↦
        and_left (is_cleaned (some d.phase)) (all_cleaned cs)
          (ap (λ x. is_cleaned (some x.phase)) (Option.some-injective d c (rw (e) at at)) ∙ h)
    | inr e ↦
        and_right (is_cleaned (some d.phase)) (all_cleaned cs) (uncleaned id c cs (rw (e) at at) h)
  ]

  pub call_of-before :
      (id : ℕ) (c : Call A V) (cs : List (Call A V))
      → call_of id cs ≡ some c
      → length (before id cs) ≡ id
  call_of-before id c [] at = absurd (Option.none-ne-some c at)
  call_of-before id c (d ∷ cs) at = elim (Bool-cases (length cs == id)) [
    | inl e ↦ rw (e) (==→eq (length cs) id e)
    | inr e ↦ rw (e) (call_of-before id c cs (rw (e) at at))
  ]

  pub call_of-bound :
      (id : ℕ) (c : Call A V) (cs : List (Call A V)) → call_of id cs ≡ some c → id + 1 ≤ length cs
  call_of-bound id c [] at = absurd (Option.none-ne-some c at)
  call_of-bound id c (d ∷ cs) at = elim (Bool-cases (length cs == id)) [
    | inl e ↦ omega (arith, ==→eq (length cs) id e)
    | inr e ↦ omega (arith, call_of-bound id c cs (rw (e) at at))
  ]

  -- Where one before it is not cleaned up, a call has not begun.
  pub not_begun :
      (p : Phase A) (task : Task A V) (idle : Bool) (v : V)
      → Began p task idle v
      → idle ≡ false
      → p ≡ waiting
  not_begun waiting task idle v h e = refl
  not_begun (holding a) task idle v h e = absurd (true≢false (sym h.0 ∙ e))
  not_begun (settled done) task idle v h e = absurd (true≢false (sym h ∙ e))
  not_begun (cleaned done) task idle v h e = absurd (true≢false (sym h ∙ e))
