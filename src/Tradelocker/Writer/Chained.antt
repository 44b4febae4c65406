-- ===== src/Tradelocker/Writer/Chained.antt =====
-- The writes of a position (src/tradelocker/trade-writer.service.ts) on the chain of its key.
use mathlib.Core.Option
use tradetrack_api.Prelude.{
  ◌≡◌, refl, sym, ap, ◌∙◌, subst, true, false, String, Option, none, some, List, [], ◌∷◌, is_some,
  inl, inr, Bool-cases, if◌then◌else◌,
}
use tradetrack_api.Number.{JsNumber}
use tradetrack_api.Trades.{default_imported_risk_percentage}
use tradetrack_api.Store.{
  TradeTable, Trade, create_open, refresh_open, upserted, is_open, kept_risk,
}
use tradetrack_api.Store.Settle.{find_unique-upsert_self, find_unique-update_many_self}
use tradetrack_api.Store.Chains.{
  Task, Phase, waiting, holding, settled, cleaned, Call, Event, happen_all,
}
use tradetrack_api.Store.Chains.Order.{replayed, replay}
use tradetrack_api.Store.Chains.Serial.{happen_all-replay}
use tradetrack_api.Tradelocker.Types.{AccountContext, OpenTrade, ClosedTrade}
use tradetrack_api.Tradelocker.Writer.{
  where_key, open_data, close_data, create_closed, update_closed, float_row, float_at, write_open,
  write_closed, write_unrealized,
}

-- `recordOpen`, `recordClosed` and `recordUnrealized`.
pub data Write (F : Type 0) : Type 0 where
  opens : OpenTrade F → Write F
  closes : ClosedTrade F → Write F
  floats : F → Write F

module _ {F : Type 0} ⦃num : JsNumber F⦄ (ctx : AccountContext F) (id : String) where
  -- The write is about the position.
  abbrev pub IsAbout : Write F → Type 0
  IsAbout (opens o) = o.position_id ≡ id
  IsAbout (closes c) = c.position_id ≡ id
  IsAbout (floats x) = Unit {0}

  abbrev floated : F → Option (Trade F) → Option (Trade F) → Option (Trade F)
  floated x none row = row
  floated x (some existing) row =
      if is_some existing.exit_date
      then row
      else Option.map (λ r. if is_open r then float_row ctx x (kept_risk (some existing)) r else r)
          row

  -- The two calls of a write on the row of its position: what it reads, and what it writes then.
  abbrev pub row_task : Write F → Task (Option (Trade F)) (Option (Trade F))
  row_task (opens o) = record {
    read = λ row. row;
    write = λ existing row. some (
        upserted
          (create_open (where_key ctx.user_id id) ctx.trading_account_id
            default_imported_risk_percentage (open_data o))
          (refresh_open (open_data o)) row);
  }
  row_task (closes c) = record {
    read = λ row. row;
    write = λ existing row.
        let d = close_data ctx c (kept_risk existing) in
        some (upserted (create_closed ctx c d) (update_closed ctx c d) row);
  }
  row_task (floats x) = record { read = λ row. row; write = λ existing row. floated x existing row }

  -- The calls of a chain are those of the writes, latest first.
  abbrev pub AreTasks : List (Call (Option (Trade F)) (Option (Trade F))) → List (Write F) → Type 0
  AreTasks [] [] = Unit {0}
  AreTasks [] (w ∷ ws) = ⊥
  AreTasks (c ∷ cs) [] = ⊥
  AreTasks (c ∷ cs) (w ∷ ws) = (c.task ≡ row_task w) × IsAbout w × AreTasks cs ws

  module _ {T : Type 0} ⦃table : TradeTable F T⦄ where
    open table use {find_unique}

    abbrev pub write : Write F → T → T
    write (opens o) t = write_open ctx o t
    write (closes c) t = write_closed ctx c t
    write (floats x) t = write_unrealized ctx id x t

    float_at-row :
        (x : F) (t : T) (existing : Option (Trade F))
        → find_unique (float_at ctx id x t existing) (where_key ctx.user_id id)
          ≡ floated x existing (find_unique t (where_key ctx.user_id id))
    float_at-row x t none = refl
    float_at-row x t (some e) = elim (Bool-cases (is_some e.exit_date)) [
      | inl f ↦ rw (f) refl
      | inr f ↦ rw (f) (
          find_unique-update_many_self t (where_key ctx.user_id id) is_open
            (float_row ctx x (kept_risk (some e))))
    ]

    -- A write of the position does to its row what its task does in one go.
    write-row :
        (w : Write F) (t : T)
        → IsAbout w
        → let row = find_unique t (where_key ctx.user_id id) in
          find_unique (write w t) (where_key ctx.user_id id)
          ≡ (row_task w).write ((row_task w).read row) row
    unfolding write_open write_closed write_unrealized
    write-row (opens o) t same =
        subst
          (λ x.
            find_unique (write_open ctx (record o { position_id = x }) t) (where_key ctx.user_id id)
            ≡ (row_task (opens o)).write (find_unique t (where_key ctx.user_id id))
                (find_unique t (where_key ctx.user_id id)))
          (sym same) (find_unique-upsert_self t (where_key ctx.user_id id) _ _)
    write-row (closes c) t same =
        subst
          (λ x.
            let row = find_unique t (where_key ctx.user_id x) in
            let d = close_data ctx c (kept_risk row) in
            find_unique (write_closed ctx c t) (where_key ctx.user_id x)
            ≡ some (upserted (create_closed ctx c d) (update_closed ctx c d) row))
          same (find_unique-upsert_self t (where_key ctx.user_id c.position_id) _ _)
    write-row (floats x) t same = float_at-row x t (find_unique t (where_key ctx.user_id id))

    abbrev pub done : Phase (Option (Trade F)) → Write F → T → T
    done (settled true) w t = write w t
    done (cleaned true) w t = write w t
    done _ w t = t

    -- The table once the writes that were done are made one after the other.
    abbrev pub in_turn : List (Call (Option (Trade F)) (Option (Trade F))) → List (Write F) → T → T
    in_turn (c ∷ cs) (w ∷ ws) t = done c.phase w (in_turn cs ws t)
    in_turn _ _ t = t

    done-row :
        (p : Phase (Option (Trade F))) (w : Write F) (t : T)
        → IsAbout w
        → find_unique (done p w t) (where_key ctx.user_id id)
          ≡ replayed p (row_task w) (find_unique t (where_key ctx.user_id id))
    done-row waiting w t about = refl
    done-row (holding a) w t about = refl
    done-row (settled true) w t about = write-row w t about
    done-row (settled false) w t about = refl
    done-row (cleaned true) w t about = write-row w t about
    done-row (cleaned false) w t about = refl

    in_turn-row :
        (cs : List (Call (Option (Trade F)) (Option (Trade F)))) (ws : List (Write F)) (t : T)
        → AreTasks cs ws
        → find_unique (in_turn cs ws t) (where_key ctx.user_id id)
          ≡ replay cs (find_unique t (where_key ctx.user_id id))
    in_turn-row [] [] t h = refl
    in_turn-row [] (w ∷ ws) t h = absurd h
    in_turn-row (c ∷ cs) [] t h = absurd h
    in_turn-row (c ∷ cs) (w ∷ ws) t (same, about, h) =
        done-row c.phase w (in_turn cs ws t) about
        ∙ ap (replayed c.phase (row_task w)) (in_turn-row cs ws t h)
        ∙ ap (λ k. replayed c.phase k (replay cs (find_unique t (where_key ctx.user_id id))))
            (sym same)

    -- Where the calls of the chain of a position are writes of it, and however their reads and writes
    -- interleave, the row that the chain leaves is the one that the table has once the writes that were not
    -- rejected are made whole, one after the other, in the order in which they were called.
    pub happen_all-in_turn :
        (es : List (String × Event (Option (Trade F)) (Option (Trade F)))) (key : String)
        (ws : List (Write F)) (t : T)
        → AreTasks (happen_all es (λ k. find_unique t (where_key ctx.user_id id)) key).calls ws
        → let lane = happen_all es (λ k. find_unique t (where_key ctx.user_id id)) key in
          lane.value ≡ find_unique (in_turn lane.calls ws t) (where_key ctx.user_id id)
    happen_all-in_turn es key ws t h =
        let row = find_unique t (where_key ctx.user_id id) in
        happen_all-replay es (λ k. row) key
        ∙ sym (in_turn-row (happen_all es (λ k. row) key).calls ws t h)
