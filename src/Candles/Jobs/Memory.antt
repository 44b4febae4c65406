-- ===== src/Candles/Jobs/Memory.antt =====
-- A queue that holds at most one job, as one concrete choice of the parameter `JobTable`.
use mathlib.Core.Option
use tradetrack_api.Prelude.{
  ℕ, ◌≡◌, refl, sym, ap, ◌∙◌, subst, ◌≤◌, Bool, true, false, Option, none, some, if◌then◌else◌, inl,
  inr, Bool-cases, arith, value_or,
}
use tradetrack_api.Candles.Jobs.{
  Job, JobKey, JobTable, same_job, matches, same_job_refl, same_job→eq,
}

abbrev pub Slot : Type 0
Slot = Option Job

abbrev pub slot_row : Slot → JobKey → Option Job
slot_row none k = none
slot_row (some r) k = if same_job r.key k then some r else none

abbrev pub slot_first : Slot → (Job → Bool) → Option Job
slot_first none test = none
slot_first (some r) test = if test r then some r else none

abbrev pub slot_set : ℕ → (Job → Bool) → (Job → Job) → Job → Job
slot_set now test update r = if test r then record (update r) { updated_at = now } else r

abbrev pub slot_update : Slot → ℕ → JobKey → (Job → Bool) → (Job → Job) → Slot
slot_update none now k test update = none
slot_update (some r) now k test update =
    if same_job r.key k then some (slot_set now test update r) else some r

some_if-inv : (b : Bool) (x r : Job) → (if b then some x else none) ≡ some r → (b ≡ true) × (x ≡ r)
some_if-inv true x r e = (refl, ap (value_or x) e)
some_if-inv false x r e = absurd (Option.none-ne-some r e)

none_if-inv : (b : Bool) (x : Job) → (if b then some x else none) ≡ none → b ≡ false
none_if-inv true x e = absurd (Option.none-ne-some x (sym e))
none_if-inv false x e = refl

slot_row_self : (x : Job) → slot_row (some x) x.key ≡ some x
slot_row_self x = rw (same_job_refl x.key)

slot_set-key :
    (now : ℕ) (test : Job → Bool) (update : Job → Job) (x : Job)
    → ((r : Job) → (update r).key ≡ r.key)
    → (slot_set now test update x).key ≡ x.key
slot_set-key now test update x keeps = elim (Bool-cases (test x)) [
  | inl e ↦ rw (e) (keeps x)
  | inr e ↦ rw (e) refl
]

-- A row at another key than the one that is set.
slot_row_other :
    (x y : Job) (k j : JobKey)
    → same_job k j ≡ false
    → y.key ≡ x.key
    → slot_row (if same_job x.key k then some y else some x) j ≡ slot_row (some x) j
slot_row_other x y k j ne same = elim (Bool-cases (same_job x.key k)) [
  | inl e ↦
      let off : same_job x.key j ≡ false = rw (same_job→eq x.key k e) ne in rw (e, same, off) refl
  | inr e ↦ rw (e) refl
]

-- The row at the key that is set.
slot_row_at :
    (x y : Job) (k : JobKey)
    → y.key ≡ x.key
    → slot_row (if same_job x.key k then some y else some x) k
      ≡ (if same_job x.key k then some y else none)
slot_row_at x y k same = elim (Bool-cases (same_job x.key k)) [
  | inl e ↦ rw (e, same, e) refl
  | inr e ↦ rw (e, e) refl
]

pub slot_first-some :
    (t : Slot) (test : Job → Bool) (r : Job)
    → slot_first t test ≡ some r
    → (slot_row t r.key ≡ some r)
      × (test r ≡ true)
      × ((k : JobKey) (s : Job)
          → slot_row t k ≡ some s
          → test s ≡ true
          → r.created_at ≤ s.created_at)
slot_first-some none test r e = absurd (Option.none-ne-some r e)
slot_first-some (some x) test r e =
    let (holds, same) = some_if-inv (test x) x r e in
    subst
      (λ r.
        (slot_row (some x) r.key ≡ some r)
        × (test r ≡ true)
        × ((k : JobKey) (s : Job)
            → slot_row (some x) k ≡ some s
            → test s ≡ true
            → r.created_at ≤ s.created_at))
      same
      (
        slot_row_self x,
        holds,
        λ k s at h.
            subst (λ z. x.created_at ≤ z.created_at) (some_if-inv (same_job x.key k) x s at).1
              (omega arith),
      )

pub slot_first-none :
    (t : Slot) (test : Job → Bool)
    → slot_first t test ≡ none
    → (k : JobKey) (s : Job) → slot_row t k ≡ some s
    → test s ≡ false
slot_first-none none test e k s at = absurd (Option.none-ne-some s at)
slot_first-none (some x) test e k s at =
    subst (λ z. test z ≡ false) (some_if-inv (same_job x.key k) x s at).1 (none_if-inv (test x) x e)

option_map_if :
    (b : Bool) (f : Job → Job) (x : Job)
    → (if b then some (f x) else none) ≡ Option.map f (if b then some x else none)
option_map_if true f x = refl
option_map_if false f x = refl

none_if : (b : Bool) (o : Option Job) → o ≡ (if b then o else o)
none_if true o = refl
none_if false o = refl

pub slot_row-update :
    (t : Slot) (now : ℕ) (k j : JobKey) (test : Job → Bool) (update : Job → Job)
    → ((r : Job) → (update r).key ≡ r.key)
    → slot_row (slot_update t now k test update) j ≡ (
        if same_job k j
        then Option.map
            (λ r. if test r then record (update r) { updated_at = now } else r)
            (slot_row t k)
        else slot_row t j)
slot_row-update none now k j test update keeps = none_if (same_job k j) none
slot_row-update (some x) now k j test update keeps =
    let y = slot_set now test update x in
    let same : y.key ≡ x.key = slot_set-key now test update x keeps in
    elim (Bool-cases (same_job k j)) [
      | inl e ↦
          subst
            (λ i.
              slot_row (slot_update (some x) now k test update) i
              ≡ Option.map (slot_set now test update) (slot_row (some x) k))
            (same_job→eq k j e)
            (slot_row_at x y k same ∙ option_map_if (same_job x.key k) (slot_set now test update) x)
          ∙ rw (e) refl
      | inr e ↦ slot_row_other x y k j e same ∙ rw (e) refl
    ]

instance abbrev pub slot_table : JobTable Slot
slot_table = record {
  row = slot_row;
  find_first = slot_first;
  update_many =
      λ t now k test update. (slot_update t now k test update, matches test (slot_row t k));
  find_first-some = slot_first-some;
  find_first-none = slot_first-none;
  row-update_many = slot_row-update;
  count-update_many = λ t now k test update. refl;
}
