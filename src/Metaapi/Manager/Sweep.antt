-- ===== src/Metaapi/Manager/Sweep.antt =====
-- The sessions after the sweep of `reconcile` (src/metaapi/connection-manager.service.ts).
use mathlib.Core.Bool.{true≢false}
use mathlib.Core.Option
use tradetrack_api.Prelude.{
  ◌≡◌, refl, sym, ap, ◌∙◌, subst, false, String, str_eq, Option, none, some, List, [], ◌∷◌, ◌⊎◌,
  inl, inr, Bool-cases, Option-cases, get, elem, delete, str_eq_iff, get-delete,
}
use tradetrack_api.Metaapi.Manager.Accounts.{Reply, gave, threw}
use tradetrack_api.Metaapi.Manager.Cloud.{MetaApi, truthy}
use tradetrack_api.Metaapi.Manager.World.{Session, World, close_live}
use tradetrack_api.Metaapi.Manager.Reconcile.{
  Swept, swept, broken, destroy_remembered, after_close, sweep_one, and_on, sweep,
}

get-delete-none :
    {A : Type 0} (k id : String) (m : List (String × A))
    → get k m ≡ none
    → get k (delete id m) ≡ none
get-delete-none k id [] e = refl
get-delete-none k id ((j, a) ∷ m) e = elim (Bool-cases (str_eq j k)) [
  | inl f ↦ absurd (Option.none-ne-some a (sym (rw (f) at e)))
  | inr f ↦ elim (Bool-cases (str_eq j id)) [
    | inl g ↦ rw (g) (get-delete-none k id m (rw (f) at e))
    | inr g ↦ rw (g) (rw (f) (get-delete-none k id m (rw (f) at e)))
  ]
]

module _ {T C : Type 0} ⦃api : MetaApi C⦄ where
  -- If the sweep ends without an exception, the account has no session.
  abbrev Forgets : String → Swept T C → Type 0
  Forgets k (swept w) = get k w.sessions ≡ none
  Forgets k (broken w) = Unit {0}

  destroy_remembered-sessions :
      (o : Option String) (w : World T C) → (destroy_remembered o w).sessions ≡ w.sessions
  destroy_remembered-sessions none w = refl
  destroy_remembered-sessions (some id) w = refl

  after_close-Forgets :
      (k : String) (s : Session) (w : World T C) (x : Reply Unit × C)
      → get k w.sessions ≡ none
      → Forgets k (after_close s w x)
  after_close-Forgets k s w (threw e, c) h = tt
  after_close-Forgets k s w (gave u, c) h =
      ap (get k)
        (destroy_remembered-sessions (truthy s.meta_api_account_id) (record w { cloud = c }))
      ∙ h

  and_on-Forgets :
      (k : String) (x : Swept T C) (rest : World T C → Swept T C)
      → Forgets k x
      → ((w : World T C) → get k w.sessions ≡ none → Forgets k (rest w))
      → Forgets k (and_on x rest)
  and_on-Forgets k (swept w) rest h go = go w h
  and_on-Forgets k (broken w) rest h go = tt

  and_on-always :
      (k : String) (x : Swept T C) (rest : World T C → Swept T C)
      → ((w : World T C) → Forgets k (rest w))
      → Forgets k (and_on x rest)
  and_on-always k (swept w) rest go = go w
  and_on-always k (broken w) rest go = tt

  sweep_one-Forgets :
      (k id : String) (s : Session) (w : World T C)
      → get k w.sessions ≡ none
      → Forgets k (sweep_one id s w)
  sweep_one-Forgets k id s w h =
      after_close-Forgets k s (record w { sessions = delete id w.sessions })
        (close_live s.live w.cloud) (get-delete-none k id w.sessions h)

  sweep_one-forgotten : (id : String) (s : Session) (w : World T C) → Forgets id (sweep_one id s w)
  sweep_one-forgotten id s w =
      after_close-Forgets id s (record w { sessions = delete id w.sessions })
        (close_live s.live w.cloud) (get-delete id w.sessions)

  sweep-keeps :
      (k : String) (seen : List String) (ss : List (String × Session)) (w : World T C)
      → get k w.sessions ≡ none
      → Forgets k (sweep seen ss w)
  unfolding sweep
  sweep-keeps k seen [] w h = h
  sweep-keeps k seen ((id, s) ∷ ss) w h = elim (Bool-cases (elem id seen)) [
    | inl e ↦ rw (e) (sweep-keeps k seen ss w h)
    | inr e ↦ rw (e) (
        and_on-Forgets k (sweep_one id s w) (sweep seen ss) (sweep_one-Forgets k id s w h)
          (sweep-keeps k seen ss))
  ]

  sweep_drops :
      (k : String) (seen : List String) (ss : List (String × Session)) (w : World T C) (s : Session)
      → elem k seen ≡ false
      → get k ss ≡ some s
      → Forgets k (sweep seen ss w)
  unfolding sweep
  sweep_drops k seen [] w s out at = absurd (Option.none-ne-some s at)
  sweep_drops k seen ((id, r) ∷ ss) w s out at = elim (Bool-cases (elem id seen)) [
    | inl e ↦ rw (e) (
        sweep_drops k seen ss w s out (elim (Bool-cases (str_eq id k)) [
          | inl same ↦
              absurd (true≢false (sym e ∙ ap (λ x. elem x seen) ((str_eq_iff id k).0 same) ∙ out))
          | inr other ↦ rw (other) at at
        ]))
    | inr e ↦ elim (Bool-cases (str_eq id k)) [
      | inl same ↦ rw (e) (
          and_on-Forgets k (sweep_one id r w) (sweep seen ss)
            (subst (λ x. Forgets x (sweep_one id r w)) ((str_eq_iff id k).0 same)
              (sweep_one-forgotten id r w))
            (sweep-keeps k seen ss))
      | inr other ↦ rw (e) (
          and_on-always k (sweep_one id r w) (sweep seen ss)
            (λ u. sweep_drops k seen ss u s out (rw (other) at at)))
    ]
  ]

  -- After a sweep that no exception ends, an account that the selection no longer contains has no
  -- session, whether or not the destruction of its cloud account succeeded.
  pub sweep-Forgets :
      (k : String) (seen : List String) (w after : World T C)
      → elem k seen ≡ false
      → sweep seen w.sessions w ≡ swept after
      → get k after.sessions ≡ none
  sweep-Forgets k seen w after out done =
      subst (Forgets k) done (forgotten (Option-cases (get k w.sessions)))
    where
      forgotten :
          (get k w.sessions ≡ none) ⊎ ((s : Session) × (get k w.sessions ≡ some s))
          → Forgets k (sweep seen w.sessions w)
      forgotten (inl none_there) = sweep-keeps k seen w.sessions w none_there
      forgotten (inr (s, at)) = sweep_drops k seen w.sessions w s out at
