-- ===== src/Metaapi/Manager/Observed.antt =====
-- What `handleFailure` (src/metaapi/connection-manager.service.ts) does not touch: any view of the
-- state that leaves out the rows, the cloud, the counts of attempts and the timers.
use tradetrack_api.Prelude.{
  ℕ, ◌+◌, ◌≡◌, refl, ◌∙◌, Bool, true, false, String, Option, none, some, List, inl, inr, Bool-cases,
}
use tradetrack_api.Metaapi.Client.{
  ErrorKind, fatal_account, global_auth, not_found, transient, Caught, classify_meta_api_error,
}
use tradetrack_api.Metaapi.Manager.Constants.{connect_failed_message}
use tradetrack_api.Metaapi.Manager.Accounts.{
  Reply, gave, threw, Json, AccountRow, ManagedAccount, AccountTable,
}
use tradetrack_api.Metaapi.Manager.Cloud.{MetaApi, truthy, destroy_cloud_account}
use tradetrack_api.Metaapi.Manager.World.{World, with_table, update_row}
use tradetrack_api.Metaapi.Manager.Failure.{
  error_message, given_up, forget_id, attempts_of, exhausted, after_destroy, destroy_first,
  deactivate, forget_backoff, on_not_found, give_up, on_fatal, failed_with, handle_failure,
}

-- A view without the rows, the cloud and the counts.
pub record View (B T C : Type 0) : Type 0 where
  pub view : World T C → B
  pub view_table : (w : World T C) (t : T) → view (record w { table = t }) ≡ view w
  pub view_cloud : (w : World T C) (c : C) → view (record w { cloud = c }) ≡ view w
  pub view_backoff :
      (w : World T C) (m : List (String × ℕ)) → view (record w { backoff = m }) ≡ view w

module _ {B T C : Type 0} (v : View B T C) where
  with_table-view : (w : World T C) (r : Reply T) → v.view (with_table w r) ≡ v.view w
  with_table-view w (gave t) = v.view_table w t
  with_table-view w (threw e) = refl

module _ {B T C : Type 0} ⦃api : MetaApi C⦄ (v : View B T C) where
  after_destroy-view :
      (rest : World T C → World T C)
      → ((u : World T C) → v.view (rest u) ≡ v.view u)
      → (w : World T C) (x : Bool × C) → v.view (after_destroy rest w x) ≡ v.view w
  after_destroy-view rest keeps w (true, c) = keeps (record w { cloud = c }) ∙ v.view_cloud w c
  after_destroy-view rest keeps w (false, c) = v.view_cloud w c

  destroy_first-view :
      (o : Option String) (rest : World T C → World T C)
      → ((u : World T C) → v.view (rest u) ≡ v.view u)
      → (w : World T C) → v.view (destroy_first o rest w) ≡ v.view w
  destroy_first-view none rest keeps w = keeps w
  destroy_first-view (some id) rest keeps w =
      after_destroy-view rest keeps w (destroy_cloud_account id w.cloud)

module _ {F B T C : Type 0} ⦃accounts : AccountTable F T⦄ ⦃api : MetaApi C⦄ (v : View B T C) where
  update_row-view :
      (id : String) (change : AccountRow F → AccountRow F) (w : World T C)
      → v.view (update_row id change w) ≡ v.view w
  update_row-view id change w = with_table-view v w (accounts.update w.table id change)

  abandoned-view :
      (account : ManagedAccount F) (patch : List (String × Json)) (w : World T C)
      → v.view (deactivate account patch (forget_backoff account w)) ≡ v.view w
  abandoned-view account patch w =
      update_row-view account.trading_account_id _ (forget_backoff account w) ∙ v.view_backoff w _

  pub on_not_found-view :
      (account : ManagedAccount F) (w : World T C) → v.view (on_not_found account w) ≡ v.view w
  on_not_found-view account w =
      elim (Bool-cases (exhausted account (attempts_of account w.backoff))) [
        | inl e ↦ rw (e) (abandoned-view account (given_up connect_failed_message) w)
        | inr e ↦ rw (e) (update_row-view account.trading_account_id (forget_id {F = F}) w)
      ]

  pub give_up-view :
      (account : ManagedAccount F) (w : World T C) → v.view (give_up account w) ≡ v.view w
  give_up-view account w =
      destroy_first-view v (truthy account.meta_api_account_id)
        (λ u. deactivate account (given_up connect_failed_message) (forget_backoff account u))
        (abandoned-view account (given_up connect_failed_message)) w

  pub on_fatal-view :
      (account : ManagedAccount F) (message : Option String) (w : World T C)
      → v.view (on_fatal account message w) ≡ v.view w
  on_fatal-view account message w =
      destroy_first-view v (truthy account.meta_api_account_id)
        (deactivate account (given_up (error_message message)))
        (update_row-view account.trading_account_id _) w

  -- A view that leaves out the timers too is never changed.
  failed_with-view :
      ((w : World T C) (rs : List (String × ℕ)) → v.view (record w { retries = rs }) ≡ v.view w)
      → (account : ManagedAccount F) (message : Option String) (k : ErrorKind) (w : World T C)
      → v.view (failed_with account message k w) ≡ v.view w
  failed_with-view timers account message global_auth w = refl
  failed_with-view timers account message not_found w = on_not_found-view account w
  failed_with-view timers account message fatal_account w = on_fatal-view account message w
  failed_with-view timers account message transient w =
      elim (Bool-cases (exhausted account (attempts_of account w.backoff + 1))) [
        | inl e ↦ rw (e) (give_up-view account _ ∙ v.view_backoff w _)
        | inr e ↦ rw (e) (timers _ _ ∙ v.view_backoff w _)
      ]

  pub handle_failure-view :
      ((w : World T C) (rs : List (String × ℕ)) → v.view (record w { retries = rs }) ≡ v.view w)
      → (account : ManagedAccount F) (message : Option String) (e : Caught) (w : World T C)
      → v.view (handle_failure account message e w) ≡ v.view w
  unfolding handle_failure
  handle_failure-view timers account message e w =
      failed_with-view timers account message (classify_meta_api_error e) w
