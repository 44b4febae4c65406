-- ===== src/Tradelocker/Manager/Closes/Tracked.antt =====
-- How src/tradelocker/connection-manager.service.ts keeps track of the live closes it was told of.
use mathlib.Core.Option
use mathlib.Core.Bool.{true≢false}
use tradetrack_api.Prelude.{
  ◌+◌, ◌≤◌, ◌≡◌, refl, sym, ap, ◌∙◌, Bool, true, false, ◌&&◌, ◌||◌, String, str_eq, str_eq_iff,
  some, List, [], ◌∷◌, ◌++◌, inl, inr, ◌⊎◌, Bool-cases, get, set, delete, elem, is_some,
  get-set_cases, get-delete_cases, or_right, arith,
}
use tradetrack_api.Tradelocker.Manager.Closes.{
  Pending, Origin, live_close, retry, Task, task_of, without_task,
}
use tradetrack_api.Tradelocker.Manager.Closes.Effects.{under_way}

pub append-elem : (k : String) (ks ls : List String) → elem k ls ≡ true → elem k (ks ++ ls) ≡ true
append-elem k [] ls e = e
append-elem k (j ∷ ks) ls e = or_right (str_eq j k) _ (append-elem k ks ls e)

pub append-elem_left :
    (k : String) (ks ls : List String) → elem k ks ≡ true → elem k (ks ++ ls) ≡ true
append-elem_left k [] ls e = absurd (true≢false (sym e))
append-elem_left k (j ∷ ks) ls e =
    either (str_eq j k) (elem k ks) (elem k (ks ++ ls)) e (append-elem_left k ks ls)
  where
    either : (a b c : Bool) → (a || b) ≡ true → (b ≡ true → c ≡ true) → (a || c) ≡ true
    either true b c h f = refl
    either false b c h f = f h

pub elem_here : (key k : String) (ks : List String) → str_eq key k ≡ true → elem k (key ∷ ks) ≡ true
elem_here key k ks e = rw (e) refl

first : (a b : Bool) → b ≡ false → (a || b) ≡ true → a ≡ true
first true b e h = refl
first false b e h = sym e ∙ h

module _ {F : Type 0} where
  abbrev pub is_live : Origin F → Bool
  is_live live_close = true
  is_live (retry p rest) = false

  -- A live close of the position is being finalized.
  abbrev pub live_task : String → List (Task F) → Bool
  live_task key [] = false
  live_task key (t ∷ ts) = str_eq t.key key && is_live t.origin || live_task key ts

  -- A close is finalized, waits for a retry, is being finalized, or is one that the code let go.
  abbrev pub Tracked :
      List String → List (String × Pending F) → List (Task F) → List String → String → Type 0
  Tracked seen pending tasks lost key =
      (elem key seen ≡ true)
      ⊎ ((is_some (get key pending) ≡ true)
          ⊎ ((live_task key tasks ≡ true) ⊎ (elem key lost ≡ true)))

  under_way_more :
      (key : String) (t : Task F) (ts : List (Task F))
      → str_eq t.key key ≡ true
      → under_way key (t ∷ ts) ≡ 1 + under_way key ts
  under_way_more key t ts f = rw (f) refl

  under_way_same :
      (key : String) (t : Task F) (ts : List (Task F))
      → str_eq t.key key ≡ false
      → under_way key (t ∷ ts) ≡ under_way key ts
  under_way_same key t ts f = rw (f) (omega arith)

  no_task : (key : String) (ts : List (Task F)) → under_way key ts ≡ 0 → live_task key ts ≡ false
  no_task key [] e = refl
  no_task key (t ∷ ts) e = elim (Bool-cases (str_eq t.key key)) [
    | inl f ↦
        let more = under_way_more key t ts f in let no : ⊥ = omega (arith, more, e) in absurd no
    | inr f ↦ rw (f) (no_task key ts (sym (under_way_same key t ts f) ∙ e))
  ]

  pub without_task-live :
      (key k : String) (ts : List (Task F))
      → str_eq key k ≡ false
      → live_task k (without_task key ts) ≡ live_task k ts
  without_task-live key k [] e = refl
  without_task-live key k (t ∷ ts) e = elim (Bool-cases (str_eq t.key key)) [
    | inl f ↦
        rw (f) (
          rw (ap (λ x. str_eq x k) ((str_eq_iff t.key key).0 f) ∙ e) (without_task-live key k ts e))
    | inr f ↦
        rw (f) (ap (λ b. str_eq t.key k && is_live t.origin || b) (without_task-live key k ts e))
  ]

  -- Where one finalize of a position is under way, it is the one that tells.
  pub task_of-live :
      (key : String) (t : Task F) (ts : List (Task F))
      → task_of key ts ≡ some t
      → under_way key ts ≤ 1
      → live_task key ts ≡ true
      → is_live t.origin ≡ true
  task_of-live key t [] e one live = absurd (Option.none-ne-some t e)
  task_of-live key t (u ∷ ts) e one live = elim (Bool-cases (str_eq u.key key)) [
    | inl f ↦
        let more = under_way_more key u ts f in
        let rest = no_task key ts (omega (arith, more, one)) in
        ap (λ x. is_live x.origin) (sym (Option.some-injective u t (rw (f) at e)))
        ∙ first (is_live u.origin) (live_task key ts) rest (rw (f) at live)
    | inr f ↦
        let same = under_way_same key u ts f in
        task_of-live key t ts (rw (f) at e) (omega (arith, same, one)) (rw (f) at live)
  ]

  module _ (seen : List String) (pending : List (String × Pending F)) (tasks : List (Task F))
      (lost : List String) (k : String) (h : Tracked seen pending tasks lost k) where
    pub seen-Tracked : (keys : List String) → Tracked (keys ++ seen) pending tasks lost k
    seen-Tracked keys = elim h [ inl e ↦ inl (append-elem k keys seen e) | inr r ↦ inr r ]

    pub lose-Tracked : (keys : List String) → Tracked seen pending tasks (keys ++ lost) k
    lose-Tracked keys = elim h [
      | inl e ↦ inl e
      | inr (inl e) ↦ inr (inl e)
      | inr (inr (inl e)) ↦ inr (inr (inl e))
      | inr (inr (inr e)) ↦ inr (inr (inr (append-elem k keys lost e)))
    ]

    -- A pending close that is dropped is still followed where it is so in another way.
    pub drop-Tracked :
        (key : String)
        → (str_eq key k ≡ true → Tracked seen (delete key pending) tasks lost k)
        → Tracked seen (delete key pending) tasks lost k
    drop-Tracked key other = elim (Bool-cases (str_eq key k)) [
      | inl f ↦ other f
      | inr f ↦ elim h [
        | inl e ↦ inl e
        | inr (inl e) ↦ inr (inl (ap is_some (get-delete_cases k key pending ∙ rw (f) refl) ∙ e))
        | inr (inr r) ↦ inr (inr r)
      ]
    ]

    pub set-Tracked : (key : String) (p : Pending F) → Tracked seen (set key p pending) tasks lost k
    set-Tracked key p = elim (Bool-cases (str_eq key k)) [
      | inl f ↦ inr (inl (ap is_some {y = some p} (get-set_cases k key p pending ∙ rw (f) refl)))
      | inr f ↦ elim h [
        | inl e ↦ inl e
        | inr (inl e) ↦ inr (inl (ap is_some (get-set_cases k key p pending ∙ rw (f) refl) ∙ e))
        | inr (inr r) ↦ inr (inr r)
      ]
    ]
