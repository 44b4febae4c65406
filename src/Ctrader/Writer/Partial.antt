-- ===== src/Ctrader/Writer/Partial.antt =====
-- Partial closes and the money columns of a row (src/ctrader/ctrader-trade-writer.ts, applyClose).
use tradetrack_api.Prelude.{
  ◌≡◌, refl, ap, ◌∙◌, String, ℕ, Option, none, some, List, [], ◌∷◌, field_of, value_or,
  if◌then◌else◌,
}
use tradetrack_api.Number.{JsNumber}
use tradetrack_api.Trades.{round_money, default_imported_risk_percentage}
use tradetrack_api.Store.{
  TradeTable, TradeKey, Trade, OpenData, CloseData, create_open, refresh_open, set_close, upserted,
  create_close,
}
use tradetrack_api.Store.Settle.{find_unique-upsert_self}
use tradetrack_api.Ctrader.Types.{PoolAccount}
use tradetrack_api.Ctrader.Writer.{where_key, Close, applied, close_data, upsert_open, apply_close}

-- What live events do to the row of one position.
pub data Event (F : Type 0) : Type 0 where
  opens : OpenData F → Event F
  closes : Close F → Event F

pub record Totals (F : Type 0) : Type 0 where
  pub gross_profit : Option F
  pub commission : Option F
  pub swap : Option F

module _ {F : Type 0} where
  abbrev pub totals : Option (Trade F) → Totals F
  totals row = record {
    gross_profit = field_of row (λ r. r.gross_profit);
    commission = field_of row (λ r. r.commission);
    swap = field_of row (λ r. r.swap);
  }

  refresh-totals :
      (create : Trade F) (o : OpenData F)
      → totals (some create) ≡ record { gross_profit = none; commission = none; swap = none }
      → (row : Option (Trade F)) → totals (some (upserted create (refresh_open o) row)) ≡ totals row
  refresh-totals create o e none = e
  refresh-totals create o e (some r) = refl

  pub set-totals :
      (key : TradeKey) (account : String) (quantity : F) (entry_date : ℕ) (d : CloseData F)
      (row : Option (Trade F))
      → totals
          (some (upserted (create_close key account quantity entry_date d) (set_close key d) row))
        ≡ record {
          gross_profit = some d.gross_profit;
          commission = some d.commission;
          swap = some d.swap;
        }
  set-totals key account quantity entry_date d none = refl
  set-totals key account quantity entry_date d (some r) = refl

  set-row :
      (key : TradeKey) (account : String) (quantity : F) (entry_date : ℕ) (d : CloseData F)
      (row : Option (Trade F))
      → let r = upserted (create_close key account quantity entry_date d) (set_close key d) row in
        (r.exit_date ≡ d.exit_date) × (r.pnl ≡ some d.pnl)
  set-row key account quantity entry_date d none = (refl, refl)
  set-row key account quantity entry_date d (some r) = (refl, refl)

module _ {F : Type 0} ⦃num : JsNumber F⦄ where
  -- The net figure of three money columns, 0 for a missing one.
  abbrev pub net : Totals F → F
  net s =
      let column = value_or (num.of_nat 0) in
      round_money (num.add (num.add (column s.gross_profit) (column s.commission)) (column s.swap))

  -- A column, 0 where it is missing, and an amount, in cents.
  abbrev pub booked_on : Option F → F → F
  booked_on old amount = round_money (num.add (value_or (num.of_nat 0) old) amount)

  abbrev pub add_close : Totals F → Close F → Totals F
  add_close s c = record {
    gross_profit = some (booked_on s.gross_profit c.gross_profit);
    commission = some (booked_on s.commission c.commission);
    swap = some (booked_on s.swap c.swap);
  }

  -- The closing deals alone, in order.
  abbrev pub booked : List (Event F) → Totals F → Totals F
  booked [] s = s
  booked (opens o ∷ es) s = booked es s
  booked (closes c ∷ es) s = booked es (add_close s c)

  module _ {T : Type 0} ⦃table : TradeTable F T⦄ (account : PoolAccount F)
      (position_id : String) where
    open table use {find_unique}

    unfoldable pub run : List (Event F) → T → T
    run [] t = t
    run (opens o ∷ es) t = run es (upsert_open account position_id o t)
    run (closes c ∷ es) t = run es (apply_close account position_id c t)

    upsert_open-totals :
        (o : OpenData F) (t : T)
        → let key = where_key account.user_id position_id in
          totals (find_unique (upsert_open account position_id o t) key)
          ≡ totals (find_unique t key)
    unfolding upsert_open
    upsert_open-totals o t =
        let key = where_key account.user_id position_id in
        let row = create_open key account.trading_account_id default_imported_risk_percentage o in
        ap totals (find_unique-upsert_self t key row (refresh_open o))
        ∙ refresh-totals row o refl (find_unique t key)

    pub apply_close-totals :
        (c : Close F) (t : T)
        → let key = where_key account.user_id position_id in
          totals (find_unique (apply_close account position_id c t) key)
          ≡ add_close (totals (find_unique t key)) c
    unfolding apply_close close_data
    apply_close-totals c t =
        let key = where_key account.user_id position_id in
        let d = applied account c (find_unique t key) in
        ap totals (
          find_unique-upsert_self t key
            (create_close key account.trading_account_id c.quantity c.entry_date d)
            (set_close key d))
        ∙ set-totals key account.trading_account_id c.quantity c.entry_date d (find_unique t key)

    -- Over any run of live opens and closing deals of one position, from any table, the money columns
    -- are the row's old ones with the amounts of the closing deals added, one after the other, each sum rounded
    -- to cents; opens change nothing.
    pub totals-run :
        (es : List (Event F)) (t : T)
        → let key = where_key account.user_id position_id in
          totals (find_unique (run es t) key) ≡ booked es (totals (find_unique t key))
    unfolding run
    totals-run [] t = refl
    totals-run (opens o ∷ es) t =
        totals-run es (upsert_open account position_id o t)
        ∙ ap (booked es) (upsert_open-totals o t)
    totals-run (closes c ∷ es) t =
        totals-run es (apply_close account position_id c t)
        ∙ ap (booked es) (apply_close-totals c t)

    -- After a closing deal the row is closed exactly if that deal closed the position fully, whatever
    -- stood there; its net figure is the rounded sum of its money columns.
    pub apply_close-row :
        (c : Close F) (t : T)
        → let row =
            find_unique
              (apply_close account position_id c t)
              (where_key account.user_id position_id) in
          (field_of row (λ r. r.exit_date) ≡ (if c.fully_closed then some c.exit_date else none))
          × (field_of row (λ r. r.pnl)
              ≡ some (
                  net
                    (add_close (totals (find_unique t (where_key account.user_id position_id))) c)))
    unfolding apply_close close_data
    apply_close-row c t =
        let key = where_key account.user_id position_id in
        let d = applied account c (find_unique t key) in
        let stored =
          find_unique-upsert_self t key
            (create_close key account.trading_account_id c.quantity c.entry_date d)
            (set_close key d) in
        let (e, f) =
          set-row key account.trading_account_id c.quantity c.entry_date d (find_unique t key) in
        (
          ap (λ row. field_of row (λ r. r.exit_date)) stored ∙ e,
          ap (λ row. field_of row (λ r. r.pnl)) stored ∙ f,
        )
