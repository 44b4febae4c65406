-- ===== src/Metaapi/Manager/Held.antt =====
-- What holds while an attempt of `open` (src/metaapi/connection-manager.service.ts) keeps its slot.
use tradetrack_api.Prelude.{
  get-set, ℕ, ◌==◌, ==_refl, ◌≡◌, refl, sym, ap, ◌∙◌, subst, false, String, none, some, ◌||◌, ◌⊎◌,
  inl, inr, Bool-cases, get,
}
use tradetrack_api.Metaapi.Manager.Accounts.{Reply, gave, threw, AccountRow, AccountTable}
use tradetrack_api.Metaapi.Manager.World.{Session, World}
use tradetrack_api.Metaapi.Manager.Ensure.{
  Await, Moment, before, after, Setting, await, stored, await_update,
}
use tradetrack_api.Metaapi.Manager.Open.{
  is_other, with_account_id, is_stale, abandon, remember_account_id,
}

module _ {T C : Type 0} where
  -- The slot is held by this generation.
  abbrev pub IsHeld : String → ℕ → World T C → Type 0
  IsHeld id generation w =
      (s : Session) × (w.stopped ≡ false)
      × (get id w.sessions ≡ some s)
      × (s.generation ≡ generation)

module _ {F T C : Type 0} ⦃accounts : AccountTable F T⦄ where
  open accounts use {row}

  -- Whatever else the service does meanwhile leaves alone the session of the account, its count of
  -- attempts and its row, and does not shut the service down.
  pub record IsUndisturbed (on : Setting F T C) (id : String) : Type 0 where
    pub keeps_session :
        (m : Moment) (w : World T C) → get id (on.others m w).sessions ≡ get id w.sessions
    pub keeps_backoff :
        (m : Moment) (w : World T C) → get id (on.others m w).backoff ≡ get id w.backoff
    pub keeps_row : (m : Moment) (w : World T C) → row (on.others m w).table id ≡ row w.table id
    pub keeps_running : (m : Moment) (w : World T C) → (on.others m w).stopped ≡ w.stopped

module _ (F : Type 0) {T C : Type 0} ⦃accounts : AccountTable F T⦄ where
  open accounts use {row}

  -- The account streams, and its row says so.
  abbrev pub IsStreaming : String → ℕ → String → World T C → Type 0
  IsStreaming id generation cloud_id w =
      (get id w.sessions
        ≡ some (record {
          generation = generation;
          meta_api_account_id = some cloud_id;
          live = some cloud_id;
        }))
      × (get id w.backoff ≡ none)
      × ((r : AccountRow F)
          → row w.table id ≡ some r
          → (r.terminal_integration_status ≡ none) × (r.terminal_account_id ≡ some cloud_id))

  abbrev pub IsSettled : String → ℕ → World T C → Type 0
  IsSettled id generation w =
      (get id w.sessions ≡ none) ⊎ ((cloud_id : String) × IsStreaming id generation cloud_id w)

module _ {F T C : Type 0} ⦃accounts : AccountTable F T⦄ (on : Setting F T C) (id : String)
    (quiet : IsUndisturbed on id) where
  others-IsHeld :
      (generation : ℕ) (m : Moment) (w : World T C)
      → IsHeld id generation w
      → IsHeld id generation (on.others m w)
  others-IsHeld generation m w (s, running, at, mine) =
      (s, quiet.keeps_running m w ∙ running, quiet.keeps_session m w ∙ at, mine)

  pub await-IsHeld :
      {A : Type 0} (generation : ℕ) (k : Await) (call : C → Reply A × C) (w : World T C)
      → IsHeld id generation w
      → IsHeld id generation (await on k call w).1
  await-IsHeld generation k call w h =
      others-IsHeld generation (after k) _ (others-IsHeld generation (before k) w h)

  stored-IsHeld :
      (generation : ℕ) (k : Await) (w : World T C) (r : Reply T)
      → IsHeld id generation w
      → IsHeld id generation (stored {F = F} on k w r).1
  stored-IsHeld generation k w (gave t) h =
      others-IsHeld generation (after k) (record w { table = t }) h
  stored-IsHeld generation k w (threw e) h = others-IsHeld generation (after k) w h

  pub await_update-IsHeld :
      (generation : ℕ) (k : Await) (j : String) (change : AccountRow F → AccountRow F)
      (w : World T C)
      → IsHeld id generation w
      → IsHeld id generation (await_update on k j change w).1
  await_update-IsHeld generation k j change w h =
      stored-IsHeld generation k _ _ (others-IsHeld generation (before k) w h)

  pub abandon-held :
      (generation : ℕ) (w : World T C) → IsHeld id generation w → abandon id generation w ≡ false
  abandon-held generation w (s, running, at, mine) =
      ap (λ b. b || is_stale id generation w) running
      ∙ ap (is_other generation) at
      ∙ rw (mine, ==_refl generation) refl

  with_account_id-IsHeld :
      (generation : ℕ) (cloud_id : String) (w : World T C) (s : Session)
      → IsHeld id generation w
      → s.generation ≡ generation
      → IsHeld id generation (with_account_id id generation cloud_id w (some s))
  with_account_id-IsHeld generation cloud_id w s (s', running, at, mine') mine =
      elim (Bool-cases (s.generation == generation)) [
        | inl e ↦ rw (e) (
          record s { meta_api_account_id = some cloud_id },
          running,
          get-set id _ w.sessions,
          mine,
        )
        | inr e ↦ rw (e) (s', running, at, mine')
      ]

  pub remember-IsHeld :
      (generation : ℕ) (cloud_id : String) (w : World T C)
      → IsHeld id generation w
      → IsHeld id generation (remember_account_id id generation cloud_id w)
  remember-IsHeld generation cloud_id w (s, running, at, mine) =
      subst (λ o. IsHeld id generation (with_account_id id generation cloud_id w o)) (sym at)
        (with_account_id-IsHeld generation cloud_id w s (s, running, at, mine) mine)
