-- ===== src/Tradelocker/Manager/Closes/Effects.antt =====
-- What the closes of src/tradelocker/connection-manager.service.ts keep of each position: how often it
-- is announced, and how many finalizes of it are under way.
use mathlib.Core.Option
use mathlib.Core.Bool.{true≢false}
use tradetrack_api.Prelude.{
  ℕ, ◌+◌, ◌≤◌, ◌≡◌, refl, sym, ap, ◌∙◌, subst, Bool, true, false, ◌||◌, String, str_eq, str_eq_iff,
  some, List, [], ◌∷◌, ◌++◌, inl, inr, Bool-cases, elem, remove, times, elem-remove_other, arith,
  if◌then◌else◌,
}
use tradetrack_api.Tradelocker.Manager.Closes.{Task, task_of, without_task}

or_false_right : (a b : Bool) → (a || b) ≡ false → b ≡ false
or_false_right true b e = absurd (true≢false e)
or_false_right false b e = e

pub append-absent :
    (k : String) (ks ls : List String) → elem k (ks ++ ls) ≡ false → elem k ls ≡ false
append-absent k [] ls e = e
append-absent k (j ∷ ks) ls e = append-absent k ks ls (or_false_right (str_eq j k) _ e)

module _ {F : Type 0} where
  abbrev pub under_way : String → List (Task F) → ℕ
  under_way key [] = 0
  under_way key (t ∷ ts) = (if str_eq t.key key then 1 else 0) + under_way key ts

  -- A position is announced or being finalized at most once in all, is announced only once it is
  -- finalized, and is being finalized only while it is claimed.
  pub record IsOnce (tasks : List (Task F)) (finalizing seen notified : List String) (key : String)
      : Type 0 where
    pub single : times key notified + under_way key tasks ≤ 1
    pub unseen : elem key seen ≡ false → times key notified ≡ 0
    pub unclaimed : elem key finalizing ≡ false → under_way key tasks ≡ 0

  -- Of every position.
  abbrev pub AllOnce : List (Task F) → List String → List String → List String → Type 0
  AllOnce tasks finalizing seen notified =
      (key : String) → IsOnce tasks finalizing seen notified key

  without_task-same : (key : String) (ts : List (Task F)) → under_way key (without_task key ts) ≡ 0
  without_task-same key [] = refl
  without_task-same key (t ∷ ts) = elim (Bool-cases (str_eq t.key key)) [
    | inl e ↦ rw (e) (without_task-same key ts)
    | inr e ↦ rw (e) (rw (e) (omega (arith, without_task-same key ts)))
  ]

  without_task-other :
      (key k : String) (ts : List (Task F))
      → str_eq key k ≡ false
      → under_way k (without_task key ts) ≡ under_way k ts
  without_task-other key k [] e = refl
  without_task-other key k (t ∷ ts) e = elim (Bool-cases (str_eq t.key key)) [
    | inl f ↦ rw (f) (
        rw (ap (λ x. str_eq x k) ((str_eq_iff t.key key).0 f) ∙ e)
          (omega (arith, without_task-other key k ts e)))
    | inr f ↦
        rw (f) (ap (λ n. (if str_eq t.key k then 1 else 0) + n) (without_task-other key k ts e))
  ]

  pub task_of-under_way :
      (key : String) (t : Task F) (ts : List (Task F))
      → task_of key ts ≡ some t
      → (t.key ≡ key) × (1 ≤ under_way key ts)
  task_of-under_way key t [] e = absurd (Option.none-ne-some t e)
  task_of-under_way key t (u ∷ ts) e = elim (Bool-cases (str_eq u.key key)) [
    | inl f ↦ (
      sym (ap (λ x. x.key) (Option.some-injective u t (rw (f) at e))) ∙ (str_eq_iff u.key key).0 f,
      rw (f) (omega arith),
    )
    | inr f ↦
        let (same, more) = task_of-under_way key t ts (rw (f) at e) in (same, omega (arith, more))
  ]

  pub task_of-here :
      (key : String) (t : Task F) (ts : List (Task F))
      → task_of key ts ≡ some t
      → 1 ≤ under_way t.key ts
  task_of-here key t ts e =
      let (same, here) = task_of-under_way key t ts e in
      subst (λ x. 1 ≤ under_way x ts) (sym same) here

  module _ (tasks : List (Task F)) (finalizing seen notified : List String) where
    pub seen-AllOnce :
        (keys : List String)
        → AllOnce tasks finalizing seen notified
        → AllOnce tasks finalizing (keys ++ seen) notified
    seen-AllOnce keys h key = record {
      single = (h key).single;
      unseen = λ e. (h key).unseen (append-absent key keys seen e);
      unclaimed = (h key).unclaimed;
    }

    -- A position that is neither finalized nor claimed is claimed.
    pub claim-AllOnce :
        (t : Task F)
        → elem t.key seen ≡ false
        → elem t.key finalizing ≡ false
        → AllOnce tasks finalizing seen notified
        → AllOnce (t ∷ tasks) (t.key ∷ finalizing) seen notified
    claim-AllOnce t fresh free h key = elim (Bool-cases (str_eq t.key key)) [
      | inl e ↦
          let same = (str_eq_iff t.key key).0 e in
          let none_yet = (h key).unseen (subst (λ x. elem x seen ≡ false) same fresh) in
          let no_task = (h key).unclaimed (subst (λ x. elem x finalizing ≡ false) same free) in
          record {
            single = rw (e) (omega (arith, none_yet, no_task));
            unseen = (h key).unseen;
            unclaimed = λ f. absurd (true≢false (rw (e) at f));
          }
      | inr e ↦ record {
        single = rw (e) (omega (arith, (h key).single));
        unseen = (h key).unseen;
        unclaimed =
            λ f. rw (e) (omega (arith, (h key).unclaimed (or_false_right (str_eq t.key key) _ f)));
      }
    ]

    -- A finalize ends without a write.
    pub release-AllOnce :
        (id : String)
        → AllOnce tasks finalizing seen notified
        → AllOnce (without_task id tasks) (remove id finalizing) seen notified
    release-AllOnce id h key = elim (Bool-cases (str_eq id key)) [
      | inl e ↦
          let gone =
            subst (λ x. under_way x (without_task id tasks) ≡ 0) ((str_eq_iff id key).0 e)
              (without_task-same id tasks) in
          record {
            single = omega (arith, gone, (h key).single);
            unseen = (h key).unseen;
            unclaimed = λ f. gone;
          }
      | inr e ↦
          let same = without_task-other id key tasks e in
          record {
            single = omega (arith, same, (h key).single);
            unseen = (h key).unseen;
            unclaimed =
                λ f. same ∙ (h key).unclaimed (sym (elem-remove_other id key finalizing e) ∙ f);
          }
    ]

    -- A finalize under way ends with its write, and announces the close.
    pub announce-AllOnce :
        (id : String)
        → 1 ≤ under_way id tasks
        → AllOnce tasks finalizing seen notified
        → AllOnce (without_task id tasks) (remove id finalizing) (id ∷ seen) (id ∷ notified)
    announce-AllOnce id here h key = elim (Bool-cases (str_eq id key)) [
      | inl e ↦
          let same = (str_eq_iff id key).0 e in
          let gone =
            subst (λ x. under_way x (without_task id tasks) ≡ 0) same
              (without_task-same id tasks) in
          let there = subst (λ x. 1 ≤ under_way x tasks) same here in
          record {
            single = rw (e) (omega (arith, gone, there, (h key).single));
            unseen = λ f. absurd (true≢false (rw (e) at f));
            unclaimed = λ f. gone;
          }
      | inr e ↦
          let same = without_task-other id key tasks e in
          record {
            single = rw (e) (omega (arith, same, (h key).single));
            unseen =
                λ f. rw (e) (omega (arith, (h key).unseen (or_false_right (str_eq id key) _ f)));
            unclaimed =
                λ f. same ∙ (h key).unclaimed (sym (elem-remove_other id key finalizing e) ∙ f);
          }
    ]

    -- A finalize under way goes on to its write.
    pub advance-AllOnce :
        (t : Task F)
        → 1 ≤ under_way t.key tasks
        → AllOnce tasks finalizing seen notified
        → AllOnce (t ∷ without_task t.key tasks) finalizing seen notified
    advance-AllOnce t here h key = elim (Bool-cases (str_eq t.key key)) [
      | inl e ↦
          let same = (str_eq_iff t.key key).0 e in
          let gone =
            subst (λ x. under_way x (without_task t.key tasks) ≡ 0) same
              (without_task-same t.key tasks) in
          let there = subst (λ x. 1 ≤ under_way x tasks) same here in
          record {
            single = rw (e) (omega (arith, gone, there, (h key).single));
            unseen = (h key).unseen;
            unclaimed = λ f. rw (e) (omega (arith, there, (h key).unclaimed f));
          }
      | inr e ↦
          let same = without_task-other t.key key tasks e in
          record {
            single = rw (e) (omega (arith, same, (h key).single));
            unseen = (h key).unseen;
            unclaimed = λ f. rw (e) (omega (arith, same, (h key).unclaimed f));
          }
    ]
