-- ===== src/Metaapi/Manager/Retries.antt =====
-- The retries of src/metaapi/connection-manager.service.ts: their delays, and when they end.
use native.Mathlib.Nat.{one-le-pow}
use tradetrack_api.Prelude.{
  ℕ, ◌+◌, ◌-◌, ◌≤◌, refl, sym, subst, String, Option, List, All, set, inl, inr, Bool-cases, arith,
}
use tradetrack_api.Metaapi.Client.{
  ErrorKind, fatal_account, global_auth, not_found, transient, Caught, classify_meta_api_error,
}
use tradetrack_api.Metaapi.Manager.Constants.{reconnect_base_delay_ms, reconnect_max_delay_ms}
use tradetrack_api.Metaapi.Manager.Accounts.{ManagedAccount, AccountTable}
use tradetrack_api.Metaapi.Manager.Cloud.{MetaApi}
use tradetrack_api.Metaapi.Manager.World.{World}
use tradetrack_api.Metaapi.Manager.Observed.{View, on_not_found-view, give_up-view, on_fatal-view}
use tradetrack_api.Metaapi.Manager.Failure.{
  retry_delay, attempts_of, exhausted, on_transient, failed_with, handle_failure,
}

-- A retry waits for one second at least and for one minute at most.
abbrev pub IsInBounds : String × ℕ → Type 0
IsInBounds p = (reconnect_base_delay_ms ≤ p.1) × (p.1 ≤ reconnect_max_delay_ms)

retry_delay-le : (n : ℕ) → 1000 ≤ retry_delay n
retry_delay-le n = omega (arith, one-le-pow (n - 1) 2 (omega arith))

retry_delay-IsInBounds : (id : String) (n : ℕ) → IsInBounds (id, retry_delay n)
retry_delay-IsInBounds id n = (retry_delay-le n, omega arith)

-- The timers do not depend on the rows, the cloud or the counts.
abbrev timers : (T C : Type 0) → View (List (String × ℕ)) T C
timers T C = record {
  view = λ w. w.retries;
  view_table = λ w t. refl;
  view_cloud = λ w c. refl;
  view_backoff = λ w m. refl;
}

module _ {F T C : Type 0} ⦃accounts : AccountTable F T⦄ ⦃api : MetaApi C⦄ where
  on_transient-retries :
      (account : ManagedAccount F) (n : ℕ) (w : World T C)
      → All IsInBounds w.retries
      → All IsInBounds (on_transient account n w).retries
  on_transient-retries account n w h = elim (Bool-cases (exhausted account n)) [
    | inl e ↦ rw (e) (subst (All IsInBounds) (sym (give_up-view (timers T C) account w)) h)
    | inr e ↦ rw (e) (retry_delay-IsInBounds account.trading_account_id n, h)
  ]

  failed_with-retries :
      (account : ManagedAccount F) (message : Option String) (k : ErrorKind) (w : World T C)
      → All IsInBounds w.retries
      → All IsInBounds (failed_with account message k w).retries
  failed_with-retries account message global_auth w h = h
  failed_with-retries account message not_found w h =
      subst (All IsInBounds) (sym (on_not_found-view (timers T C) account w)) h
  failed_with-retries account message fatal_account w h =
      subst (All IsInBounds) (sym (on_fatal-view (timers T C) account message w)) h
  failed_with-retries account message transient w h =
      on_transient-retries account (attempts_of account w.backoff + 1)
        (record w {
          backoff = set account.trading_account_id (attempts_of account w.backoff + 1) w.backoff;
        })
        h

  -- If every retry that was set waits for one second to one minute, so does every one that is set
  -- after a failure, however many attempts there were.
  pub handle_failure-IsInBounds :
      (account : ManagedAccount F) (message : Option String) (e : Caught) (w : World T C)
      → All IsInBounds w.retries
      → All IsInBounds (handle_failure account message e w).retries
  unfolding handle_failure
  handle_failure-IsInBounds account message e w h =
      failed_with-retries account message (classify_meta_api_error e) w h
