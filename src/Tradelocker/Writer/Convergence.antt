-- ===== src/Tradelocker/Writer/Convergence.antt =====
-- A finalized position, and what may reach its row later
-- (src/tradelocker/trade-writer.service.ts).
use mathlib.Core.Option
use tradetrack_api.Prelude.{
  ◌≡◌, refl, sym, ◌∙◌, subst, true, Option, none, some, List, [], ◌∷◌, inl, inr, is_some,
  Bool-cases,
}
use tradetrack_api.Number.{JsNumber}
use tradetrack_api.Trades.{default_imported_risk_percentage}
use tradetrack_api.Store.{TradeTable, Trade, create_open, refresh_open}
use tradetrack_api.Store.Settle
use tradetrack_api.Store.Settle.{IsSettled, Closing, Realized, realized, realized-create_close}
use tradetrack_api.Tradelocker.Types.{AccountContext, OpenTrade, ClosedTrade}
use tradetrack_api.Tradelocker.Writer.{
  where_key, open_data, close_data, create_closed, update_closed, float_at, write_open,
  write_closed, write_unrealized,
}

-- What may reach the row of a finalized position: stream messages, floating figures (the row read
-- now, or read before other writes of the table), and the same report row once more.
pub data Later (F : Type 0) : Type 0 where
  opens : OpenTrade F → Later F
  floats : F → Later F
  floats_late : Option (Trade F) → F → Later F
  finalizes : Later F

module _ {F : Type 0} ⦃num : JsNumber F⦄ (ctx : AccountContext F) (c : ClosedTrade F) where
  keeps : (risk : F) → (close_data ctx c risk).risk_percentage ≡ risk
  unfolding close_data
  keeps risk = refl

  closes : (risk : F) → is_some (close_data ctx c risk).exit_date ≡ true
  unfolding close_data
  closes risk = refl

  abbrev closing : Closing F
  closing = record {
    key = where_key ctx.user_id c.position_id;
    close_data = close_data ctx c;
    create = create_closed ctx c;
    update = update_closed ctx c;
    created =
        realized-create_close (where_key ctx.user_id c.position_id) ctx.trading_account_id
          c.quantity c.entry_date;
    updated = λ d r. refl;
    keeps = keeps;
    closes = closes;
  }

  -- Every message that opens is about the position of `c`.
  abbrev pub AreAbout : List (Later F) → Type 0
  AreAbout [] = Unit {0}
  AreAbout (opens o ∷ es) = (o.position_id ≡ c.position_id) × AreAbout es
  AreAbout (floats x ∷ es) = AreAbout es
  AreAbout (floats_late r x ∷ es) = AreAbout es
  AreAbout (finalizes ∷ es) = AreAbout es

  module _ {T : Type 0} ⦃table : TradeTable F T⦄ where
    open table use {find_unique, upsert}

    unfoldable pub run : List (Later F) → T → T
    run [] t = t
    run (opens o ∷ es) t = run es (write_open ctx o t)
    run (floats x ∷ es) t = run es (write_unrealized ctx c.position_id x t)
    run (floats_late r x ∷ es) t = run es (float_at ctx c.position_id x t r)
    run (finalizes ∷ es) t = run es (write_closed ctx c t)

    write_open-IsSettled :
        (o : OpenTrade F) (v : Realized F) (t : T)
        → o.position_id ≡ c.position_id
        → IsSettled closing v t
        → IsSettled closing v (write_open ctx o t)
    unfolding write_open
    write_open-IsSettled o v t same s =
        subst
          (λ id.
            IsSettled closing v
              (upsert t (where_key ctx.user_id id) row (refresh_open (open_data o))))
          (sym same) (Settle.refresh-IsSettled closing v t row (open_data o) s)
      where
        row : Trade F
        row =
            create_open (where_key ctx.user_id o.position_id) ctx.trading_account_id
              default_imported_risk_percentage (open_data o)

    float_at-IsSettled :
        (x : F) (v : Realized F) (t : T) (existing : Option (Trade F))
        → is_some v.exit_date ≡ true
        → IsSettled closing v t
        → IsSettled closing v (float_at ctx c.position_id x t existing)
    float_at-IsSettled x v t none h s = s
    float_at-IsSettled x v t (some r) h s = elim (Bool-cases (is_some r.exit_date)) [
      | inl e ↦ rw e s
      | inr e ↦ rw e (Settle.update_many-IsSettled closing v t _ h s)
    ]

    run-IsSettled :
        (es : List (Later F)) (v : Realized F) (t : T)
        → AreAbout es
        → is_some v.exit_date ≡ true
        → IsSettled closing v t
        → IsSettled closing v (run es t)
    unfolding run write_unrealized write_closed
    run-IsSettled [] v t a h s = s
    run-IsSettled (opens o ∷ es) v t a h s =
        run-IsSettled es v (write_open ctx o t) a.1 h (write_open-IsSettled o v t a.0 s)
    run-IsSettled (floats x ∷ es) v t a h s =
        run-IsSettled es v (write_unrealized ctx c.position_id x t) a h
          (float_at-IsSettled x v t (find_unique t (where_key ctx.user_id c.position_id)) h s)
    run-IsSettled (floats_late r x ∷ es) v t a h s =
        run-IsSettled es v (float_at ctx c.position_id x t r) a h (float_at-IsSettled x v t r h s)
    run-IsSettled (finalizes ∷ es) v t a h s =
        run-IsSettled es v (write_closed ctx c t) a h (Settle.write_close-IsSettled closing v t s)

    -- From any state of the table: once the report row `c` is written, the realized columns of its
    -- row stay as they are through any later opens, floating figures and repeats of `c`.
    pub run-write_closed :
        (es : List (Later F)) (t : T)
        → AreAbout es
        → let key = where_key ctx.user_id c.position_id in
          Option.map realized (find_unique (run es (write_closed ctx c t)) key)
          ≡ Option.map realized (find_unique (write_closed ctx c t) key)
    unfolding write_closed
    run-write_closed es t about =
        let (v, s, h) = Settle.write_close_settles closing t in
        Settle.IsSettled-realized closing v _ (run-IsSettled es v (write_closed ctx c t) about h s)
        ∙ sym (Settle.IsSettled-realized closing v _ s)
