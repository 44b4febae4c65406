-- ===== src/Metaapi/Listener/Replay.antt =====
-- The callbacks while the SDK replays the history of deals (src/metaapi/sync-listener.ts).
use mathlib.Core.Option
use tradetrack_api.Prelude.{
  ◌≡◌, refl, ap, ◌∙◌, subst, String, str_eq, Bool, true, false, Option, none, some, is_some,
  field_of, List, [], ◌∷◌, ℕ, Bool-cases, inl, inr, if◌then◌else◌,
}
use tradetrack_api.Number.{JsNumber}
use tradetrack_api.Store.{
  Trade, TradeKey, TradeTable, OpenData, same_key, upserted, is_open, refresh_open,
}
use tradetrack_api.Store.Keys.{same_key→eq}
use tradetrack_api.Store.Settle.{
  find_unique-upsert_self, find_unique-upsert_ne, find_unique-update_many_self,
  find_unique-update_many_ne,
}
use tradetrack_api.Metaapi.Writer.{
  where_key, open_data, float_row, float_at, write_position, write_unrealized,
}
use tradetrack_api.Metaapi.Listener.{
  Position, Listener, Callback, deals_synchronized, positions_replaced, position_updated,
  position_removed, deal_added, Deps, open_position, write_open, write_all_open, write_floating,
  on_deal, handle, handle_all,
}

module _ {F : Type 0} where
  -- No callback of these says that the history is complete.
  abbrev pub IsReplay : List (Callback F) → Type 0
  IsReplay [] = Unit {0}
  IsReplay (deals_synchronized ∷ cs) = ⊥
  IsReplay (positions_replaced ps ∷ cs) = IsReplay cs
  IsReplay (position_updated p ∷ cs) = IsReplay cs
  IsReplay (position_removed id ∷ cs) = IsReplay cs
  IsReplay (deal_added d ∷ cs) = IsReplay cs

  abbrev pub exit_of : Option (Trade F) → Option ℕ
  exit_of row = field_of row (λ r. r.exit_date)

  refresh-exit :
      (create : Trade F) (o : OpenData F)
      → create.exit_date ≡ none
      → (row : Option (Trade F))
      → exit_of (some (upserted create (refresh_open o) row)) ≡ exit_of row
  refresh-exit create o e none = e
  refresh-exit create o e (some r) = refl

  update-exit :
      (update : Trade F → Trade F)
      → ((r : Trade F) → (update r).exit_date ≡ r.exit_date)
      → (row : Option (Trade F))
      → exit_of (Option.map (λ r. if is_open r then update r else r) row) ≡ exit_of row
  update-exit update same none = refl
  update-exit update same (some r) = elim (Bool-cases (is_some r.exit_date)) [
    | inl e ↦ rw (e) refl
    | inr e ↦ rw (e) (same r)
  ]

skipped {ℓ} : {A : Type ℓ} (b : Bool) (x t : A) → b ≡ false → (if b then x else t) ≡ t
skipped b x t e = rw (e) refl

left_if {ℓ} : {A : Type ℓ} (b : Bool) (x t : A) → x ≡ t → (if b then t else x) ≡ t
left_if true x t e = refl
left_if false x t e = e

module _ {F T : Type 0} ⦃num : JsNumber F⦄ ⦃table : TradeTable F T⦄ (key : TradeKey) where
  open table use {find_unique, upsert, update_many}

  upsert-exit :
      (t : T) (k : TradeKey) (create : Trade F) (o : OpenData F)
      → create.exit_date ≡ none
      → exit_of (find_unique (upsert t k create (refresh_open o)) key) ≡ exit_of (find_unique t key)
  upsert-exit t k create o e = elim (Bool-cases (same_key k key)) [
    | inl same ↦
        subst
          (λ j.
            exit_of (find_unique (upsert t k create (refresh_open o)) j)
            ≡ exit_of (find_unique t j))
          (same_key→eq k key same)
          (ap exit_of (find_unique-upsert_self t k create (refresh_open o))
            ∙ refresh-exit create o e (find_unique t k))
    | inr other ↦ ap exit_of (find_unique-upsert_ne t k key create (refresh_open o) other)
  ]

  update_many-exit :
      (t : T) (k : TradeKey) (update : Trade F → Trade F)
      → ((r : Trade F) → (update r).exit_date ≡ r.exit_date)
      → exit_of (find_unique (update_many t k is_open update) key) ≡ exit_of (find_unique t key)
  update_many-exit t k update same = elim (Bool-cases (same_key k key)) [
    | inl e ↦
        subst
          (λ j.
            exit_of (find_unique (update_many t k is_open update) j) ≡ exit_of (find_unique t j))
          (same_key→eq k key e)
          (ap exit_of (find_unique-update_many_self t k is_open update)
            ∙ update-exit update same (find_unique t k))
    | inr other ↦ ap exit_of (find_unique-update_many_ne t k key is_open update other)
  ]

  module _ (deps : Deps F) where
    write_open-exit :
        (p : Position F) (t : T)
        → exit_of (find_unique (write_open deps p t) key) ≡ exit_of (find_unique t key)
    unfolding write_open write_position
    write_open-exit p t = upsert-exit t _ _ (open_data (open_position p)) refl

    write_all_open-exit :
        (ps : List (Position F)) (t : T)
        → exit_of (find_unique (write_all_open deps ps t) key) ≡ exit_of (find_unique t key)
    write_all_open-exit [] t = refl
    write_all_open-exit (p ∷ ps) t =
        write_all_open-exit ps (write_open deps p t) ∙ write_open-exit p t

    float_at-exit :
        (id : String) (x : F) (t : T) (existing : Option (Trade F))
        → exit_of (find_unique (float_at deps.ctx id x t existing) key)
          ≡ exit_of (find_unique t key)
    unfolding float_row
    float_at-exit id x t none = refl
    float_at-exit id x t (some r) = elim (Bool-cases (is_some r.exit_date)) [
      | inl e ↦ rw (e) refl
      | inr e ↦ rw (e) (update_many-exit t _ _ (λ r. refl))
    ]

    write_floating-exit :
        (id : String) (x : Option F) (t : T)
        → exit_of (find_unique (write_floating deps id x t) key) ≡ exit_of (find_unique t key)
    unfolding write_unrealized
    write_floating-exit id none t = refl
    write_floating-exit id (some x) t =
        float_at-exit id x t (find_unique t (where_key deps.ctx.user_id id))

    on_deal-replay :
        (l : Listener) (id : Option String) (t : T)
        → l.deals_synchronized ≡ false
        → on_deal deps l id t ≡ t
    on_deal-replay l none t off = refl
    on_deal-replay l (some id) t off =
        left_if (str_eq id "") _ t (skipped l.deals_synchronized _ t off)

    -- Until the SDK says that the history of deals is complete, no callback changes the exit date of
    -- any row: the stream creates and refreshes open rows only.
    pub handle_all-replay :
        (cs : List (Callback F)) (l : Listener) (t : T)
        → l.deals_synchronized ≡ false
        → IsReplay cs
        → exit_of (find_unique (handle_all deps cs (l, t)).1 key) ≡ exit_of (find_unique t key)
    unfolding handle_all handle
    handle_all-replay [] l t off r = refl
    handle_all-replay (deals_synchronized ∷ cs) l t off r = absurd r
    handle_all-replay (positions_replaced ps ∷ cs) l t off r =
        handle_all-replay cs _ (write_all_open deps ps t) off r ∙ write_all_open-exit ps t
    handle_all-replay (position_updated p ∷ cs) l t off r =
        handle_all-replay cs _
          (write_floating deps p.position_id p.unrealized_profit (write_open deps p t)) off r
        ∙ write_floating-exit p.position_id p.unrealized_profit (write_open deps p t)
        ∙ write_open-exit p t
    handle_all-replay (position_removed id ∷ cs) l t off r =
        handle_all-replay cs _ _ off r
        ∙ ap (λ x. exit_of (find_unique x key)) (skipped l.deals_synchronized _ t off)
    handle_all-replay (deal_added d ∷ cs) l t off r =
        handle_all-replay cs l _ off r
        ∙ ap (λ x. exit_of (find_unique x key))
            (left_if (str_eq d.deal_type "DEAL_TYPE_BALANCE") _ t
              (on_deal-replay l d.position_id t off))
