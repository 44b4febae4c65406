-- ===== src/Metaapi/Writer/Frame.antt =====
-- A write about one position, and the other rows of the table
-- (src/metaapi/trade-writer.service.ts).
use tradetrack_api.Prelude.{
  ◌≡◌, ◌≢◌, refl, false, ℕ, String, Option, none, some, is_some, Bool-cases, inl, inr, ◌⊎◌, sym,
}
use tradetrack_api.Number.{JsNumber}
use tradetrack_api.Store.{TradeTable, TradeKey, Trade, same_key}
use tradetrack_api.Store.Keys.{same_key-user, same_key-id, concat-ne}
use tradetrack_api.Store.Settle.{find_unique-upsert_ne, find_unique-update_many_ne}
use tradetrack_api.Metaapi.Types.{AccountContext, AggregatedPosition, position_key_prefix}
use tradetrack_api.Metaapi.Writer.{where_key, write_at, float_at, write_position, write_unrealized}

where_key-ne :
    {F : Type 0} (ctx : AccountContext F) (user id id' : String)
    → (user ≢ ctx.user_id) ⊎ (id' ≢ id)
    → same_key (where_key ctx.user_id id) (where_key user id') ≡ false
where_key-ne ctx user id id' (inl ne) =
    same_key-user (where_key ctx.user_id id) (where_key user id') (λ e. ne (sym e))
where_key-ne ctx user id id' (inr ne) =
    same_key-id (where_key ctx.user_id id) (where_key user id')
      (concat-ne position_key_prefix id id' (λ e. ne (sym e)))

module _ {F T : Type 0} ⦃num : JsNumber F⦄ ⦃table : TradeTable F T⦄ (ctx : AccountContext F) where
  open table use {find_unique}

  write_at-frame :
      (p : AggregatedPosition F) (risk : F) (t : T) (exit_date : Option ℕ) (j : TradeKey)
      → same_key (where_key ctx.user_id p.position_id) j ≡ false
      → find_unique (write_at ctx p risk t exit_date) j ≡ find_unique t j
  write_at-frame p risk t none j ne = find_unique-upsert_ne t _ j _ _ ne
  write_at-frame p risk t (some e) j ne = find_unique-upsert_ne t _ j _ _ ne

  float_at-frame :
      (id : String) (x : F) (t : T) (existing : Option (Trade F)) (j : TradeKey)
      → same_key (where_key ctx.user_id id) j ≡ false
      → find_unique (float_at ctx id x t existing) j ≡ find_unique t j
  float_at-frame id x t none j ne = refl
  float_at-frame id x t (some r) j ne = elim (Bool-cases (is_some r.exit_date)) [
    | inl e ↦ rw e refl
    | inr e ↦ rw e (find_unique-update_many_ne t _ j _ _ ne)
  ]

  -- Neither a position nor a floating figure written for one position changes the row of another
  -- position, or of another user.
  pub find_unique-other_position :
      (p : AggregatedPosition F) (x : F) (user id : String) (t : T)
      → (user ≢ ctx.user_id) ⊎ (id ≢ p.position_id)
      → (find_unique (write_position ctx p t) (where_key user id)
          ≡ find_unique t (where_key user id))
        × (find_unique (write_unrealized ctx p.position_id x t) (where_key user id)
            ≡ find_unique t (where_key user id))
  unfolding write_position write_unrealized
  find_unique-other_position p x user id t other =
      let ne = where_key-ne ctx user p.position_id id other in
      (
        write_at-frame p _ t p.exit_date (where_key user id) ne,
        float_at-frame p.position_id x t _ (where_key user id) ne,
      )
