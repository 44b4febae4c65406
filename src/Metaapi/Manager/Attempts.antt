-- ===== src/Metaapi/Manager/Attempts.antt =====
-- The end of the initial connect (src/metaapi/connection-manager.service.ts, CONNECT_MAX_ATTEMPTS).
use tradetrack_api.Prelude.{
  get-set, ℕ, ◌+◌, ◌≡◌, refl, sym, ap, ◌∙◌, ◌⊎◌, ◌++◌, true, false, String, Option, List, [], ◌∷◌,
  All, set, leb, inl, inr, Bool-cases, value_or, arith, ◌<◌, le→leb,
}
use tradetrack_api.Metaapi.Client.{
  ErrorKind, transient, global_auth, Caught, classify_meta_api_error,
}
use tradetrack_api.Metaapi.Manager.Constants.{connecting}
use tradetrack_api.Metaapi.Manager.Accounts.{ManagedAccount, AccountTable, has_text}
use tradetrack_api.Metaapi.Manager.Cloud.{MetaApi}
use tradetrack_api.Metaapi.Manager.World.{World}
use tradetrack_api.Metaapi.Manager.Failure.{
  attempts_of, give_up, on_transient, failed_with, handle_failure,
}

below : (n : ℕ) → n < 8 → leb 8 n ≡ false
below n h = ground arith

-- A transient error, or a rejected token of the service.
abbrev pub IsPassing : Option String × Caught → Type 0
IsPassing p =
    (classify_meta_api_error p.1 ≡ transient) ⊎ (classify_meta_api_error p.1 ≡ global_auth)

abbrev counts : ErrorKind → ℕ
counts transient = 1
counts _ = 0

-- How many of the errors are transient.
abbrev pub transients : List (Option String × Caught) → ℕ
transients [] = 0
transients ((message, e) ∷ es) = counts (classify_meta_api_error e) + transients es

module _ {F T C : Type 0} ⦃accounts : AccountTable F T⦄ ⦃api : MetaApi C⦄ where
  -- `handleFailure` for one error after the other, each with its message; the attempts themselves are not
  -- part of it.
  abbrev pub failures : ManagedAccount F → List (Option String × Caught) → World T C → World T C
  failures account [] w = w
  failures account ((message, e) ∷ es) w = failures account es (handle_failure account message e w)

  abbrev counted : ManagedAccount F → World T C → World T C
  counted account w = record w {
    backoff = set account.trading_account_id (attempts_of account w.backoff + 1) w.backoff;
  }

  handle_failure-transient :
      (account : ManagedAccount F) (message : Option String) (e : Caught) (w : World T C)
      → classify_meta_api_error e ≡ transient
      → handle_failure account message e w
        ≡ on_transient account (attempts_of account w.backoff + 1) (counted account w)
  unfolding handle_failure
  handle_failure-transient account message e w h = ap (λ k. failed_with account message k w) h

  -- Below the limit only the count and the timers change.
  abbrev retried : ManagedAccount F → World T C → World T C
  retried account w = on_transient account (attempts_of account w.backoff + 1) (counted account w)

  abbrev IsRetried : ManagedAccount F → World T C → World T C → Type 0
  IsRetried account w v =
      (v.table ≡ w.table)
      × (v.cloud ≡ w.cloud)
      × (attempts_of account v.backoff ≡ attempts_of account w.backoff + 1)

  retried_lem :
      (account : ManagedAccount F) (w : World T C)
      → attempts_of account w.backoff + 1 < 8
      → IsRetried account w (retried account w)
  retried_lem account w h = elim (Bool-cases (has_text account.status connecting)) [
    | inl e ↦
        rw (e, below (attempts_of account w.backoff + 1) h)
          (refl, refl, ap (value_or 0) (get-set account.trading_account_id _ w.backoff))
    | inr e ↦ rw (e) (refl, refl, ap (value_or 0) (get-set account.trading_account_id _ w.backoff))
  ]

  failures-transient :
      (account : ManagedAccount F) (message : Option String) (e : Caught)
      (es : List (Option String × Caught)) (w : World T C)
      → classify_meta_api_error e ≡ transient
      → failures account ((message, e) ∷ es) w ≡ failures account es (retried account w)
  failures-transient account message e es w h =
      ap (failures account es) (handle_failure-transient account message e w h)

  -- A rejected token of the service is passed over.
  failures-global_auth :
      (account : ManagedAccount F) (message : Option String) (e : Caught)
      (es : List (Option String × Caught)) (w : World T C)
      → classify_meta_api_error e ≡ global_auth
      → failures account ((message, e) ∷ es) w ≡ failures account es w
  unfolding handle_failure
  failures-global_auth account message e es w h =
      ap (λ k. failures account es (failed_with account message k w)) h

  -- An account that is still connecting and for which `handleFailure` is called with transient errors
  -- and rejected tokens of the service, in any order, is given up by the call with the transient error
  -- that makes the count of attempts eight: rejected tokens do not count. The calls before it change
  -- neither the rows nor the cloud.
  pub failures-give_up :
      (account : ManagedAccount F) (es : List (Option String × Caught)) (message : Option String)
      (e : Caught) (w : World T C)
      → has_text account.status connecting ≡ true
      → All IsPassing es
      → classify_meta_api_error e ≡ transient
      → attempts_of account w.backoff + transients es + 1 ≡ 8
      → (u : World T C) × (u.table ≡ w.table)
        × (u.cloud ≡ w.cloud)
        × (failures account (es ++ (message, e) ∷ []) w ≡ give_up account u)
  failures-give_up account [] message e w connect passing last count = (
    counted account w,
    refl,
    refl,
    handle_failure-transient account message e w last
        ∙ rw (connect, le→leb 8 (attempts_of account w.backoff + 1) (omega arith)) refl,
  )
  failures-give_up account ((m, f) ∷ es) message e w connect (inl t, ts) last count =
      let one : attempts_of account w.backoff + (1 + transients es) + 1 ≡ 8 =
        ap (λ k. attempts_of account w.backoff + (counts k + transients es) + 1) (sym t) ∙ count in
      let (table, cloud, next) = retried_lem account w (omega (arith, one)) in
      let (u, same_table, same_cloud, done) =
        failures-give_up account es message e (retried account w) connect ts last
          (rw (next) (omega (arith, one))) in
      (
        u,
        same_table ∙ table,
        same_cloud ∙ cloud,
        failures-transient account m f (es ++ (message, e) ∷ []) w t ∙ done,
      )
  failures-give_up account ((m, f) ∷ es) message e w connect (inr t, ts) last count =
      let still : attempts_of account w.backoff + (0 + transients es) + 1 ≡ 8 =
        ap (λ k. attempts_of account w.backoff + (counts k + transients es) + 1) (sym t) ∙ count in
      let (u, same_table, same_cloud, done) =
        failures-give_up account es message e w connect ts last (omega (arith, still)) in
      (
        u,
        same_table,
        same_cloud,
        failures-global_auth account m f (es ++ (message, e) ∷ []) w t ∙ done,
      )
