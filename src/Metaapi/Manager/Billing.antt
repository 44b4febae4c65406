-- ===== src/Metaapi/Manager/Billing.antt =====
-- Cloud accounts that src/metaapi/connection-manager.service.ts may still be billed for, and the rows.
use mathlib.Core.Option
use tradetrack_api.Prelude.{
  ◌≡◌, refl, sym, ap, ◌∙◌, Bool, true, false, ℕ, ◌+◌, String, Option, none, some, List, set, ◌⊎◌,
  inl, inr, Bool-cases,
}
use tradetrack_api.Metaapi.Client.{
  ErrorKind, fatal_account, global_auth, not_found, transient, Caught, classify_meta_api_error,
}
use tradetrack_api.Metaapi.Manager.Constants.{connect_failed_message}
use tradetrack_api.Metaapi.Manager.Accounts.{
  Reply, gave, threw, Json, AccountRow, ManagedAccount, AccountTable,
}
use tradetrack_api.Metaapi.Manager.Cloud.{MetaApi, truthy, destroy_cloud_account}
use tradetrack_api.Metaapi.Manager.Gone.{destroy_cloud_account-gone}
use tradetrack_api.Metaapi.Manager.World.{World, with_table, update_row}
use tradetrack_api.Metaapi.Manager.Failure.{
  after_destroy, destroy_first, deactivate, exhausted, attempts_of, deactivation, given_up,
  error_message, forget_id, forget_backoff, give_up, on_not_found, on_transient, failed_with,
  handle_failure,
}

module _ {T C : Type 0} where
  with_table-cloud : (w : World T C) (r : Reply T) → (with_table w r).cloud ≡ w.cloud
  with_table-cloud w (gave t) = refl
  with_table-cloud w (threw e) = refl

module _ {T C : Type 0} ⦃api : MetaApi C⦄ where
  open api use {present}

  -- The rows are as before, or the account, if there is one, does not exist any more.
  abbrev pub IsSafe : Option String → T → World T C → Type 0
  IsSafe owned t w = (w.table ≡ t) ⊎ ((id : String) → owned ≡ some id → present w.cloud id ≡ false)

  abbrev pub KeepsCloud : (World T C → World T C) → Type 0
  KeepsCloud rest = (w : World T C) → (rest w).cloud ≡ w.cloud

  after_destroy-IsSafe :
      (id : String) (rest : World T C → World T C)
      → KeepsCloud rest
      → (w : World T C) (x : Bool × C) → (x.0 ≡ true → present x.1 id ≡ false)
      → IsSafe (some id) w.table (after_destroy rest w x)
  after_destroy-IsSafe id rest keeps w (false, c) gone = inl refl
  after_destroy-IsSafe id rest keeps w (true, c) gone = inr (λ j e.
      ap (λ d. present d j) (keeps (record w { cloud = c }))
      ∙ ap (present c) (sym (Option.some-injective id j e))
      ∙ gone refl)

  pub destroy_first-IsSafe :
      (owned : Option String) (rest : World T C → World T C)
      → KeepsCloud rest
      → (w : World T C) → IsSafe owned w.table (destroy_first owned rest w)
  destroy_first-IsSafe none rest keeps w = inr (λ id e. absurd (Option.none-ne-some id e))
  destroy_first-IsSafe (some id) rest keeps w =
      after_destroy-IsSafe id rest keeps w (destroy_cloud_account id w.cloud)
        (destroy_cloud_account-gone id w.cloud)

module _ {F C : Type 0} ⦃api : MetaApi C⦄ where
  open api use {present}

  -- If the error is a 404, the account is gone.
  abbrev pub MeansAbsent : ManagedAccount F → Caught → C → Type 0
  MeansAbsent account e c =
      classify_meta_api_error e ≡ not_found
      → (id : String) → truthy account.meta_api_account_id ≡ some id
      → present c id ≡ false

module _ {F T C : Type 0} ⦃accounts : AccountTable F T⦄ ⦃api : MetaApi C⦄ where
  open api use {present}

  update_row-cloud :
      (id : String) (change : AccountRow F → AccountRow F) (w : World T C)
      → (update_row id change w).cloud ≡ w.cloud
  update_row-cloud id change w = with_table-cloud w (accounts.update w.table id change)

  pub deactivate-cloud :
      (account : ManagedAccount F) (patch : List (String × Json)) (w : World T C)
      → (deactivate account patch w).cloud ≡ w.cloud
  deactivate-cloud account patch w =
      update_row-cloud account.trading_account_id (deactivation account patch) w

  left_alone :
      (account : ManagedAccount F) (rest : World T C → World T C)
      → KeepsCloud rest
      → (w : World T C)
      → ((id : String) → truthy account.meta_api_account_id ≡ some id → present w.cloud id ≡ false)
      → IsSafe (truthy account.meta_api_account_id) w.table (rest w)
  left_alone account rest keeps w h = inr (λ id o. ap (λ d. present d id) (keeps w) ∙ h id o)

  on_not_found-IsSafe :
      (account : ManagedAccount F) (w : World T C)
      → ((id : String) → truthy account.meta_api_account_id ≡ some id → present w.cloud id ≡ false)
      → IsSafe (truthy account.meta_api_account_id) w.table (on_not_found account w)
  on_not_found-IsSafe account w h =
      elim (Bool-cases (exhausted account (attempts_of account w.backoff))) [
        | inl e ↦ rw (e) (
            left_alone account
              (λ u. deactivate account (given_up connect_failed_message) (forget_backoff account u))
              (λ u.
                deactivate-cloud account (given_up connect_failed_message)
                  (forget_backoff account u))
              w h)
        | inr e ↦ rw (e) (
            left_alone account (update_row account.trading_account_id (forget_id {F = F}))
              (update_row-cloud account.trading_account_id (forget_id {F = F})) w h)
      ]

  give_up-IsSafe :
      (account : ManagedAccount F) (w : World T C)
      → IsSafe (truthy account.meta_api_account_id) w.table (give_up account w)
  give_up-IsSafe account w =
      destroy_first-IsSafe (truthy account.meta_api_account_id) _
        (λ u. deactivate-cloud account (given_up connect_failed_message) (forget_backoff account u))
        w

  on_transient-IsSafe :
      (account : ManagedAccount F) (attempts : ℕ) (w : World T C)
      → IsSafe (truthy account.meta_api_account_id) w.table (on_transient account attempts w)
  on_transient-IsSafe account attempts w = elim (Bool-cases (exhausted account attempts)) [
    | inl e ↦ rw (e) (give_up-IsSafe account w)
    | inr e ↦ rw (e) (inl refl)
  ]

  failed_with-IsSafe :
      (account : ManagedAccount F) (message : Option String) (k : ErrorKind) (w : World T C)
      → (k ≡ not_found
          → (id : String) → truthy account.meta_api_account_id ≡ some id
          → present w.cloud id ≡ false)
      → IsSafe (truthy account.meta_api_account_id) w.table (failed_with account message k w)
  failed_with-IsSafe account message global_auth w h = inl refl
  failed_with-IsSafe account message not_found w h = on_not_found-IsSafe account w (h refl)
  failed_with-IsSafe account message transient w h =
      on_transient-IsSafe account (attempts_of account w.backoff + 1) (record w {
        backoff = set account.trading_account_id (attempts_of account w.backoff + 1) w.backoff;
      })
  failed_with-IsSafe account message fatal_account w h =
      destroy_first-IsSafe (truthy account.meta_api_account_id) _
        (deactivate-cloud account (given_up (error_message message))) w

  -- The failure of an attempt to connect, of any kind, leaves every row as it is, or else the cloud
  -- account that the attempt knew of does not exist any more, provided that a 404 is only thrown when
  -- that is so.
  pub handle_failure-IsSafe :
      (account : ManagedAccount F) (message : Option String) (e : Caught) (w : World T C)
      → MeansAbsent account e w.cloud
      → IsSafe (truthy account.meta_api_account_id) w.table (handle_failure account message e w)
  unfolding handle_failure
  handle_failure-IsSafe account message e w h =
      failed_with-IsSafe account message (classify_meta_api_error e) w h
