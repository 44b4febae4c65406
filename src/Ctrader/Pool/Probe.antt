-- ===== src/Ctrader/Pool/Probe.antt =====
-- What a reconcile tick (src/ctrader/ctrader-connection-manager.ts) does after one whose load failed.
use tradetrack_api.Prelude.{
  ℕ, ==_refl, ◌≡◌, refl, ap, ◌∙◌, Bool, true, false, none, some, List, ◌⊎◌, inl, inr, Bool-cases,
  if◌then◌else◌,
}
use tradetrack_api.Number.{JsNumber}
use tradetrack_api.Ctrader.Types.{PoolAccount}
use tradetrack_api.Ctrader.Pool.{Pool}
use tradetrack_api.Ctrader.Pool.Reconcile.{same_probe, probed, reconcile}

same_probe_self : (q : ℕ × ℕ) → same_probe q (some q) ≡ true
same_probe_self (c, u) = rw (==_refl c, ==_refl u) refl

if_true_eq : {A : Type 0} (b : Bool) (x y : A) → b ≡ true → (if b then x else y) ≡ x
if_true_eq true x y e = refl
if_true_eq false x y e = ap (λ b. if b then x else y) e

if_false_eq : {A : Type 0} (b : Bool) (x y : A) → b ≡ false → (if b then x else y) ≡ y
if_false_eq true x y e = ap (λ b. if b then x else y) e
if_false_eq false x y e = refl

module _ {F : Type 0} ⦃num : JsNumber F⦄ where
  probed-recorded :
      (q : ℕ × ℕ) (fresh : List (PoolAccount F)) (p : Pool F)
      → same_probe q p.last_probe ≡ true
      → probed (some fresh) p (some q) ≡ p
  probed-recorded q fresh p e = if_true_eq (same_probe q p.last_probe) p _ e

  probed-failed : (q : ℕ × ℕ) (p : Pool F) → same_probe q (probed none p (some q)).last_probe ≡ true
  probed-failed q p = elim (Bool-cases (same_probe q p.last_probe)) [
    | inl e ↦ ap (λ x. same_probe q x.last_probe) (if_true_eq (same_probe q p.last_probe) p _ e) ∙ e
    | inr e ↦
        ap (λ x. same_probe q x.last_probe) (if_false_eq (same_probe q p.last_probe) p _ e)
        ∙ same_probe_self q
  ]

  -- Nothing is done by a tick of a manager that is stopped or that has recorded the probe.
  reconcile-recorded :
      (q : ℕ × ℕ) (fresh : List (PoolAccount F)) (u : Pool F)
      → (u.stopped ≡ true) ⊎ (same_probe q u.last_probe ≡ true)
      → reconcile (some q) (some fresh) u ≡ u
  unfolding reconcile
  reconcile-recorded q fresh u (inl e) = if_true_eq u.stopped u _ e
  reconcile-recorded q fresh u (inr e) = elim (Bool-cases u.stopped) [
    | inl f ↦ if_true_eq u.stopped u _ f
    | inr f ↦ if_false_eq u.stopped u _ f ∙ probed-recorded q fresh u e
  ]

  recorded_after :
      (q : ℕ × ℕ) (p : Pool F)
      → let u = reconcile (some q) none p in (u.stopped ≡ true) ⊎ (same_probe q u.last_probe ≡ true)
  unfolding reconcile
  recorded_after q p = elim (Bool-cases p.stopped) [
    | inl e ↦ inl (ap (λ x. x.stopped) (if_true_eq p.stopped p (probed none p (some q)) e) ∙ e)
    | inr e ↦ inr (
        ap (λ x. same_probe q x.last_probe) (if_false_eq p.stopped p (probed none p (some q)) e)
        ∙ probed-failed q p)
  ]

  -- If the accounts could not be loaded in a tick, a later tick changes nothing, although it could load
  -- them, as long as its probe gives the same count and the same time of the last update.
  pub reconcile-missed :
      (q : ℕ × ℕ) (fresh : List (PoolAccount F)) (p : Pool F)
      → reconcile (some q) (some fresh) (reconcile (some q) none p) ≡ reconcile (some q) none p
  reconcile-missed q fresh p =
      reconcile-recorded q fresh (reconcile (some q) none p) (recorded_after q p)
