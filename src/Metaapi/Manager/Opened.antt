-- ===== src/Metaapi/Manager/Opened.antt =====
-- How an undisturbed `open` (src/metaapi/connection-manager.service.ts) ends.
use mathlib.Core.Option
use tradetrack_api.Metaapi.Manager.Constants.{is_undeployed}
use tradetrack_api.Prelude.{
  elem-remove, get-set, get-delete, ℕ, ◌+◌, ◌≡◌, refl, sym, ap, ◌∙◌, Bool, true, false, String,
  str_eq_refl, Option, none, some, inl, inr, Bool-cases, get, elem, if◌then◌else◌,
}
use tradetrack_api.Metaapi.Client.{Caught}
use tradetrack_api.Metaapi.Manager.Accounts.{
  Reply, gave, threw, AccountRow, ManagedAccount, AccountTable,
}
use tradetrack_api.Metaapi.Manager.Cloud.{CloudAccount, MetaApi, truthy}
use tradetrack_api.Metaapi.Manager.World.{Session, World}
use tradetrack_api.Metaapi.Manager.Observed.{View, handle_failure-view}
use tradetrack_api.Metaapi.Manager.Ensured.{ensure_by-IsHeld}
use tradetrack_api.Metaapi.Manager.Held.{
  IsUndisturbed, IsHeld, IsSettled, await-IsHeld, abandon-held, remember-IsHeld,
}
use tradetrack_api.Metaapi.Manager.Ensure.{
  close_call, connect_rpc_call, sync_rpc_call, backfill_call, connect_stream_call, sync_stream_call,
  update_call, deploy_call, wait_call, Await, before, after, Setting, await, stored, ensure_account,
}
use tradetrack_api.Metaapi.Manager.Open.{
  abandon, remember_account_id, closed_if, close_one, caught, tried, activation, installed,
  with_stream, with_rpc, deployed, bring_up, claimed, attempted, open_account,
}

module _ {F T C : Type 0} ⦃accounts : AccountTable F T⦄ ⦃api : MetaApi C⦄ (on : Setting F T C)
    (account : ManagedAccount F) (quiet : IsUndisturbed on account.trading_account_id) where
  -- The session of the account, which `handleFailure` does not touch.
  abbrev session_view : String → View (Option Session) T C
  session_view id = record {
    view = λ w. get id w.sessions;
    view_table = λ w t. refl;
    view_cloud = λ w c. refl;
    view_backoff = λ w m. refl;
  }

  closed_if-sessions :
      (b : Bool) (close : C → Reply Unit × C) (w : World T C)
      → get account.trading_account_id (closed_if on b close w).sessions
        ≡ get account.trading_account_id w.sessions
  closed_if-sessions false close w = refl
  closed_if-sessions true close w =
      quiet.keeps_session (after close_call) _ ∙ quiet.keeps_session (before close_call) w

  abbrev resolved_as : Option String → ManagedAccount F
  resolved_as o = record account { meta_api_account_id = o }

  caught-IsSettled :
      (generation : ℕ) (o : Option String) (rpc stream : Bool) (e : Caught) (w : World T C)
      → IsSettled F account.trading_account_id generation (caught on (resolved_as o) rpc stream e w)
  caught-IsSettled generation o rpc stream e w = inl (
      handle_failure-view (session_view account.trading_account_id) (λ u rs. refl) (resolved_as o)
        (on.message_of e) e _
      ∙ closed_if-sessions rpc (close_one api.close_rpc o) _
      ∙ closed_if-sessions stream (close_one api.close_stream o) _
      ∙ get-delete account.trading_account_id w.sessions)

  -- One call more: it holds the slot, and the rest settles.
  tried-IsSettled :
      {A : Type 0} (generation : ℕ) (o : Option String) (rpc stream : Bool)
      (x : Reply A × World T C) (rest : A → World T C → World T C)
      → IsHeld account.trading_account_id generation x.1
      → ((a : A) (w : World T C)
          → IsHeld account.trading_account_id generation w
          → IsSettled F account.trading_account_id generation (rest a w))
      → IsSettled F account.trading_account_id generation
          (tried on (resolved_as o) rpc stream x rest)
  tried-IsSettled generation o rpc stream (threw e, w) rest held go =
      caught-IsSettled generation o rpc stream e w
  tried-IsSettled generation o rpc stream (gave a, w) rest held go = go a w held

  -- A call on the cloud, by an attempt that knows the account by `o`.
  called :
      {A : Type 0} (generation : ℕ) (o : Option String) (rpc stream : Bool) (k : Await)
      (call : C → Reply A × C) (rest : A → World T C → World T C) (w : World T C)
      → IsHeld account.trading_account_id generation w
      → ((a : A) (u : World T C)
          → IsHeld account.trading_account_id generation u
          → IsSettled F account.trading_account_id generation (rest a u))
      → IsSettled F account.trading_account_id generation
          (tried on (resolved_as o) rpc stream (await on k call w) rest)
  called generation o rpc stream k call rest w held go =
      tried-IsSettled generation o rpc stream (await on k call w) rest
        (await-IsHeld on account.trading_account_id quiet generation k call w held) go

  -- Where the attempt is not abandoned, it goes on.
  gate :
      (generation : ℕ) (left right w : World T C)
      → IsHeld account.trading_account_id generation w
      → IsSettled F account.trading_account_id generation right
      → IsSettled F account.trading_account_id generation
          (if abandon account.trading_account_id generation w then left else right)
  gate generation left right w held go =
      rw (abandon-held on account.trading_account_id quiet generation w held) go

  -- What the update leaves in the row.
  activated_row :
      (cloud_id : String) (o : Option (AccountRow F)) (r : AccountRow F)
      → Option.map (activation on (resolved_as (some cloud_id)) cloud_id) o ≡ some r
      → (r.terminal_integration_status ≡ none) × (r.terminal_account_id ≡ some cloud_id)
  activated_row cloud_id none r e = absurd (Option.none-ne-some r e)
  activated_row cloud_id (some r0) r e =
      let same = sym (Option.some-injective _ _ e) in
      (ap (λ x. x.terminal_integration_status) same, ap (λ x. x.terminal_account_id) same)

  updated-IsSettled :
      (generation : ℕ) (cloud_id : String) (w : World T C) (x : Reply T)
      → get account.trading_account_id w.sessions
        ≡ some (record {
          generation = generation;
          meta_api_account_id = some cloud_id;
          live = some cloud_id;
        })
      → get account.trading_account_id w.backoff ≡ none
      → accounts.update w.table account.trading_account_id
          (activation on (resolved_as (some cloud_id)) cloud_id)
        ≡ x
      → IsSettled F account.trading_account_id generation (
          tried on
            (resolved_as (some cloud_id))
            true
            true
            (stored {F = F} on update_call w x)
            (λ u w'. w'))
  updated-IsSettled generation cloud_id w (threw e) session count done =
      caught-IsSettled generation (some cloud_id) true true e _
  updated-IsSettled generation cloud_id w (gave t) session count done = inr (
    cloud_id,
    (
      quiet.keeps_session (after update_call) _ ∙ session,
      quiet.keeps_backoff (after update_call) _ ∙ count,
      λ r at. activated_row cloud_id (accounts.row w.table account.trading_account_id) r (
          sym (
            accounts.row-update w.table t account.trading_account_id account.trading_account_id
              (activation on (resolved_as (some cloud_id)) cloud_id) (λ x. refl) done
            ∙ rw (str_eq_refl account.trading_account_id) refl)
          ∙ sym (quiet.keeps_row (after update_call) _)
          ∙ at),
    ),
  )

  installed-IsSettled :
      (generation : ℕ) (a : CloudAccount) (w : World T C)
      → IsSettled F account.trading_account_id generation
          (installed on (resolved_as (some a.id)) generation a w)
  installed-IsSettled generation a w =
      updated-IsSettled generation a.id _ _
        (quiet.keeps_session (before update_call) _
          ∙ get-set account.trading_account_id _ w.sessions)
        (quiet.keeps_backoff (before update_call) _
          ∙ get-delete account.trading_account_id w.backoff)
        refl

  with_stream-IsSettled :
      (generation : ℕ) (a : CloudAccount) (w : World T C)
      → IsHeld account.trading_account_id generation w
      → IsSettled F account.trading_account_id generation
          (with_stream on (resolved_as (some a.id)) generation a w)
  with_stream-IsSettled generation a w held =
      called generation (some a.id) true true connect_stream_call (λ c. api.connect_stream c a.id) _
        w held
        (λ u w1 held1.
          called generation (some a.id) true true sync_stream_call
            (λ c. api.synchronize_stream c a.id) _ w1 held1
            (λ v w2 held2. gate generation _ _ w2 held2 (installed-IsSettled generation a w2)))

  with_rpc-IsSettled :
      (generation : ℕ) (a : CloudAccount) (w : World T C)
      → IsHeld account.trading_account_id generation w
      → IsSettled F account.trading_account_id generation
          (with_rpc on (resolved_as (some a.id)) generation a w)
  with_rpc-IsSettled generation a w held =
      called generation (some a.id) true false connect_rpc_call (λ c. api.connect_rpc c a.id) _ w
        held
        (λ u w1 held1.
          called generation (some a.id) true false sync_rpc_call (λ c. api.synchronize_rpc c a.id) _
            w1 held1
            (λ v w2 held2.
              called generation (some a.id) true false backfill_call
                (on.backfill (resolved_as (some a.id))) _ w2 held2
                (λ z w3 held3.
                  gate generation _ _ w3 held3 (with_stream-IsSettled generation a w3 held3))))

  bring_up-IsSettled :
      (generation : ℕ) (a : CloudAccount) (w : World T C)
      → IsHeld account.trading_account_id generation w
      → IsSettled F account.trading_account_id generation
          (bring_up on (resolved_as (some a.id)) generation a w)
  bring_up-IsSettled generation a w held =
      tried-IsSettled generation (some a.id) false false (deployed on a w) _ (deployed-IsHeld)
        (λ u w1 held1.
          called generation (some a.id) false false wait_call (λ c. api.wait_connected c a.id) _ w1
            held1
            (λ v w2 held2. gate generation _ _ w2 held2 (with_rpc-IsSettled generation a w2 held2)))
    where
      deployed-IsHeld : IsHeld account.trading_account_id generation (deployed on a w).1
      deployed-IsHeld = elim (Bool-cases (is_undeployed a.state)) [
        | inl e ↦ rw (e) (
            await-IsHeld on account.trading_account_id quiet generation deploy_call
              (λ c. api.deploy c a.id) w held)
        | inr e ↦ rw (e) held
      ]

  attempted-IsSettled :
      (generation : ℕ) (w : World T C)
      → IsHeld account.trading_account_id generation w
      → IsSettled F account.trading_account_id generation (attempted on account generation w)
  unfolding ensure_account
  attempted-IsSettled generation w held =
      tried-IsSettled generation account.meta_api_account_id false false
        (ensure_account on account w) _
        (ensure_by-IsHeld on account quiet generation (truthy account.meta_api_account_id) w held)
        (λ a u held'.
          let known = remember-IsHeld on account.trading_account_id quiet generation a.id u held' in
          let u' = remember_account_id account.trading_account_id generation a.id u in
          gate generation _ _ u' known (bring_up-IsSettled generation a u' known))

  -- Say that no attempt of the account is under way, that the service is not shutting down, and that,
  -- whenever the attempt awaits a call, the rest of the service leaves alone the session of the
  -- account, its count of attempts and its row, and goes on running. Then the attempt ends with the
  -- account free for the next attempt, and either without a session for it, or with a streaming one of
  -- this attempt, no failed attempts on record, and a row, if there is one, whose status is null and
  -- whose cloud account is the one that streams.
  pub open_account-IsSettled :
      (w : World T C)
      → elem account.trading_account_id w.opening ≡ false
      → w.stopped ≡ false
      → (elem account.trading_account_id (open_account on account w).opening ≡ false)
        × IsSettled F account.trading_account_id (w.generation + 1) (open_account on account w)
  unfolding open_account
  open_account-IsSettled w free running = rw (free) (
    elem-remove account.trading_account_id
        (attempted on account (w.generation + 1) (claimed on account w)).opening,
    attempted-IsSettled (w.generation + 1) (claimed on account w)
        (_, running, get-set account.trading_account_id _ w.sessions, refl),
  )
