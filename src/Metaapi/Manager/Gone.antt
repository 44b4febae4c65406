-- ===== src/Metaapi/Manager/Gone.antt =====
-- What the answer of `destroyCloudAccount` (src/metaapi/connection-manager.service.ts) says.
use tradetrack_api.Prelude.{◌≡◌, refl, sym, true, false, String, inl, inr, Bool-cases}
use mathlib.Core.Bool.{true≢false}
use tradetrack_api.Metaapi.Client.{
  ErrorKind, fatal_account, global_auth, not_found, transient, Caught, classify_meta_api_error,
}
use tradetrack_api.Metaapi.Manager.Constants.{is_live}
use tradetrack_api.Metaapi.Manager.Accounts.{Reply, gave, threw}
use tradetrack_api.Metaapi.Manager.Cloud.{
  CloudAccount, MetaApi, and_then, is_not_found, undeployed, undeploy_and_remove, probed,
  after_error, judged, destroy_cloud_account,
}

is_not_found-eq : (k : ErrorKind) → is_not_found k ≡ true → k ≡ not_found
is_not_found-eq not_found e = refl
is_not_found-eq fatal_account e = absurd (true≢false (sym e))
is_not_found-eq global_auth e = absurd (true≢false (sym e))
is_not_found-eq transient e = absurd (true≢false (sym e))

module _ {C : Type 0} ⦃api : MetaApi C⦄ where
  open api use {
    present, get_account, undeploy, remove_account, get_account-absent, undeploy-absent,
    remove_account-done, remove_account-absent,
  }

  -- Where the calls end with the account deleted, or with a 404.
  abbrev IsGone : String → Reply Unit × C → Type 0
  IsGone id (gave u, c) = present c id ≡ false
  IsGone id (threw e, c) = classify_meta_api_error e ≡ not_found → present c id ≡ false

  IsGone-removed :
      (id : String) (c : C) (x : Reply Unit × C) → remove_account c id ≡ x → IsGone id x
  IsGone-removed id c (gave u, c') e = remove_account-done c c' id e
  IsGone-removed id c (threw f, c') e = λ k. remove_account-absent c c' id f e k

  IsGone-undeployed :
      (id : String) (c : C) (x : Reply Unit × C)
      → ((f : Caught) (c' : C) → x ≡ (threw f, c') → IsGone id x)
      → IsGone id (and_then x (λ u c2. remove_account c2 id))
  IsGone-undeployed id c (gave u, c') h = IsGone-removed id c' (remove_account c' id) refl
  IsGone-undeployed id c (threw f, c') h = h f c' refl

  IsGone-undeploy :
      (id : String) (c : C) (x : Reply Unit × C)
      → undeploy c id ≡ x
      → IsGone id (and_then x (λ u c2. remove_account c2 id))
  IsGone-undeploy id c (gave u, c') e = IsGone-removed id c' (remove_account c' id) refl
  IsGone-undeploy id c (threw f, c') e = λ k. undeploy-absent c c' id f e k

  IsGone-found :
      (id : String) (c : C) (x : Reply CloudAccount × C)
      → get_account c id ≡ x
      → IsGone id
          (and_then x (λ a c1. and_then (undeployed id a c1) (λ u c2. remove_account c2 id)))
  IsGone-found id c (threw f, c') e = λ k. get_account-absent c c' id f e k
  IsGone-found id c (gave a, c') e = elim (Bool-cases (is_live a.state)) [
    | inl live ↦ rw (live) (IsGone-undeploy id c' (undeploy c' id) refl)
    | inr at_rest ↦ rw (at_rest) (IsGone-removed id c' (remove_account c' id) refl)
  ]

  probed-gone :
      (id : String) (c : C) (x : Reply CloudAccount × C)
      → get_account c id ≡ x
      → (probed x).0 ≡ true
      → present (probed x).1 id ≡ false
  probed-gone id c (gave a, c') e stopped = absurd (true≢false (sym stopped))
  probed-gone id c (threw f, c') e stopped =
      get_account-absent c c' id f e (is_not_found-eq (classify_meta_api_error f) stopped)

  after_error-gone :
      (id : String) (k : ErrorKind) (c : C)
      → (k ≡ not_found → present c id ≡ false)
      → (after_error id k c).0 ≡ true
      → present (after_error id k c).1 id ≡ false
  after_error-gone id not_found c h stopped = h refl
  after_error-gone id global_auth c h stopped = absurd (true≢false (sym stopped))
  after_error-gone id fatal_account c h stopped = probed-gone id c (get_account c id) refl stopped
  after_error-gone id transient c h stopped = probed-gone id c (get_account c id) refl stopped

  judged-gone :
      (id : String) (x : Reply Unit × C)
      → IsGone id x
      → (judged id x).0 ≡ true
      → present (judged id x).1 id ≡ false
  judged-gone id (gave u, c) g stopped = g
  judged-gone id (threw f, c) g stopped =
      after_error-gone id (classify_meta_api_error f) c g stopped

  -- Whatever the calls of the SDK do, `destroyCloudAccount` answers true only if the cloud account no
  -- longer exists when it answers.
  pub destroy_cloud_account-gone :
      (id : String) (c : C)
      → (destroy_cloud_account id c).0 ≡ true
      → present (destroy_cloud_account id c).1 id ≡ false
  unfolding destroy_cloud_account
  destroy_cloud_account-gone id c stopped =
      judged-gone id (undeploy_and_remove id c) (IsGone-found id c (get_account c id) refl) stopped
