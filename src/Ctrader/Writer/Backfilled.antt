-- ===== src/Ctrader/Writer/Backfilled.antt =====
-- A backfilled close, and the backfills and live closing deals that follow it
-- (src/ctrader/ctrader-trade-writer.ts).
use mathlib.Core.Option
use tradetrack_api.Prelude.{
  ◌≡◌, refl, sym, ap, ◌∙◌, subst, true, false, ℕ, some, List, [], ◌∷◌, ◌⊎◌, inl, inr, is_some,
}
use tradetrack_api.Number.{JsNumber}
use tradetrack_api.Trades.{round_money, default_imported_risk_percentage}
use tradetrack_api.Store.{
  TradeTable, Trade, create_open, refresh_open, create_close, set_close, kept_risk,
}
use tradetrack_api.Store.Settle
use tradetrack_api.Store.Settle.{IsSettled, Closing, Realized, realized, realized-create_close}
use tradetrack_api.Ctrader.Types.{PoolAccount}
use tradetrack_api.Ctrader.Writer.{
  where_key, Close, BackfillPosition, backfill_data, backfill_open, upsert_open, write_backfill,
  apply_close,
}
use tradetrack_api.Ctrader.Writer.Partial.{totals, add_close, apply_close-totals, set-totals}

module _ {F : Type 0} ⦃num : JsNumber F⦄ where
  -- An amount that is booked twice, once by the backfill and once by the live deal.
  abbrev pub twice : F → F
  twice x = round_money (num.add (round_money x) x)

module _ {F : Type 0} ⦃num : JsNumber F⦄ (account : PoolAccount F) (p : BackfillPosition F) (e : ℕ)
    (exits : p.exit_date ≡ some e) where
  keeps : (risk : F) → (backfill_data account p risk).risk_percentage ≡ risk
  unfolding backfill_data
  keeps risk = refl

  closes : (risk : F) → is_some (backfill_data account p risk).exit_date ≡ true
  unfolding backfill_data
  closes risk = ap is_some exits

  abbrev closing : Closing F
  closing = record {
    key = where_key account.user_id p.position_id;
    close_data = backfill_data account p;
    create =
        create_close (where_key account.user_id p.position_id) account.trading_account_id p.quantity
          p.entry_date;
    update = set_close (where_key account.user_id p.position_id);
    created =
        realized-create_close (where_key account.user_id p.position_id) account.trading_account_id
          p.quantity p.entry_date;
    updated = λ d r. refl;
    keeps = keeps;
    closes = closes;
  }

  -- Another backfill of the position: an open snapshot of it, or the same closed position.
  abbrev pub Repeats : BackfillPosition F → Type 0
  Repeats q = (q.position_id ≡ p.position_id) × ((q.fully_closed ≡ false) ⊎ (q ≡ p))

  abbrev pub AllRepeat : List (BackfillPosition F) → Type 0
  AllRepeat [] = Unit {0}
  AllRepeat (q ∷ qs) = Repeats q × AllRepeat qs

  module _ {T : Type 0} ⦃table : TradeTable F T⦄ (whole : p.fully_closed ≡ true) where
    open table use {find_unique, upsert}

    write_backfill-closed : (t : T) → write_backfill account p t ≡ Settle.write_close closing t
    unfolding write_backfill
    write_backfill-closed t = rw (whole, write_backfill)

    upsert_open-IsSettled :
        (q : BackfillPosition F) (v : Realized F) (t : T)
        → q.position_id ≡ p.position_id
        → IsSettled closing v t
        → IsSettled closing v (upsert_open account q.position_id (backfill_open q) t)
    unfolding upsert_open
    upsert_open-IsSettled q v t same s =
        subst
          (λ id.
            IsSettled closing v
              (upsert t (where_key account.user_id id) row (refresh_open (backfill_open q))))
          (sym same) (Settle.refresh-IsSettled closing v t row (backfill_open q) s)
      where
        row : Trade F
        row =
            create_open (where_key account.user_id q.position_id) account.trading_account_id
              default_imported_risk_percentage (backfill_open q)

    open_snapshot :
        (q : BackfillPosition F) (t : T)
        → q.fully_closed ≡ false
        → write_backfill account q t ≡ upsert_open account q.position_id (backfill_open q) t
    unfolding write_backfill
    open_snapshot q t part = rw (part, write_backfill)

    write_backfill-IsSettled :
        (q : BackfillPosition F) (v : Realized F) (t : T)
        → Repeats q
        → IsSettled closing v t
        → IsSettled closing v (write_backfill account q t)
    write_backfill-IsSettled q v t (same, inl part) s =
        subst (IsSettled closing v) (sym (open_snapshot q t part))
          (upsert_open-IsSettled q v t same s)
    write_backfill-IsSettled q v t (same, inr again) s =
        subst (λ x. IsSettled closing v (write_backfill account x t)) (sym again)
          (subst (IsSettled closing v) (sym (write_backfill-closed t))
            (Settle.write_close-IsSettled closing v t s))

    unfoldable pub run : List (BackfillPosition F) → T → T
    run [] t = t
    run (q ∷ qs) t = run qs (write_backfill account q t)

    run-IsSettled :
        (qs : List (BackfillPosition F)) (v : Realized F) (t : T)
        → AllRepeat qs
        → IsSettled closing v t
        → IsSettled closing v (run qs t)
    unfolding run
    run-IsSettled [] v t a s = s
    run-IsSettled (q ∷ qs) v t a s =
        run-IsSettled qs v (write_backfill account q t) a.1 (write_backfill-IsSettled q v t a.0 s)

    -- Once a fully closed position is backfilled, further backfills of it, open snapshots and repeats
    -- alike, leave the realized columns of its row as they are.
    pub run-write_backfill :
        (qs : List (BackfillPosition F)) (t : T)
        → AllRepeat qs
        → let key = where_key account.user_id p.position_id in
          Option.map realized (find_unique (run qs (write_backfill account p t)) key)
          ≡ Option.map realized (find_unique (write_backfill account p t) key)
    run-write_backfill qs t repeats =
        let (v, s, h) = Settle.write_close_settles closing t in
        let settled = subst (IsSettled closing v) (sym (write_backfill-closed t)) s in
        Settle.IsSettled-realized closing v _
          (run-IsSettled qs v (write_backfill account p t) repeats settled)
        ∙ sym (Settle.IsSettled-realized closing v _ settled)

    backfilled-totals :
        (t : T)
        → totals
            (find_unique (write_backfill account p t) (where_key account.user_id p.position_id))
          ≡ record {
            gross_profit = some (round_money p.gross_profit);
            commission = some (round_money p.commission);
            swap = some (round_money p.swap);
          }
    unfolding write_backfill backfill_data
    backfilled-totals t =
        let key = where_key account.user_id p.position_id in
        let d = backfill_data account p (kept_risk (find_unique t key)) in
        let create = create_close key account.trading_account_id p.quantity p.entry_date in
        rw (whole, write_backfill)
          (ap totals (Settle.find_unique-upsert_self t key (create d) (set_close key d))
            ∙ set-totals key account.trading_account_id p.quantity p.entry_date d
                (find_unique t key))

    -- Where one deal closed a position fully, and it arrives live after the backfill of the closed position,
    -- it is not recognized: its profit, its commission and its swap each stand in the row twice.
    pub apply_close-write_backfill :
        (c : Close F) (t : T)
        → c.gross_profit ≡ p.gross_profit
        → c.commission ≡ p.commission
        → c.swap ≡ p.swap
        → totals (
            find_unique
              (apply_close account p.position_id c (write_backfill account p t))
              (where_key account.user_id p.position_id))
          ≡ record {
            gross_profit = some (twice p.gross_profit);
            commission = some (twice p.commission);
            swap = some (twice p.swap);
          }
    apply_close-write_backfill c t profit commission swap =
        apply_close-totals account p.position_id c (write_backfill account p t)
        ∙ ap (λ s. add_close s c) (backfilled-totals t)
        ∙ rw (profit, commission, swap) refl
