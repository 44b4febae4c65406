-- ===== src/Metaapi/Writer/Convergence.antt =====
-- What the writes of one position come to, in whatever order and however often they arrive
-- (src/metaapi/trade-writer.service.ts).
use mathlib.Core.Option
use tradetrack_api.Prelude.{
  ℕ, ◌≡◌, refl, sym, ap, ◌∙◌, subst, true, String, Option, none, some, List, [], ◌∷◌, ◌⊎◌, inl, inr,
  is_some, Bool-cases,
}
use tradetrack_api.Number.{JsNumber}
use tradetrack_api.Store.{TradeTable, Trade, kept_risk, create_open, refresh_open}
use tradetrack_api.Store.Settle
use tradetrack_api.Store.Settle.{IsSettled, Closing, Realized, realized, realized-create_close}
use tradetrack_api.Metaapi.Types.{AccountContext, AggregatedPosition}
use tradetrack_api.Metaapi.Writer.{
  where_key, open_data, close_data, create_closed, update_closed, write_at, float_at,
  write_position, write_unrealized,
}

-- The writes that reach the row of one position.
pub data Write (F : Type 0) : Type 0 where
  position : AggregatedPosition F → Write F
  unrealized : F → Write F
  -- A floating figure whose `existing` was read earlier, before other writes of the table.
  unrealized_late : Option (Trade F) → F → Write F

module _ {F : Type 0} where
  -- A write about the position of `p` that, if it closes it, is the close `p` itself.
  abbrev pub Agrees : AggregatedPosition F → Write F → Type 0
  Agrees p (position q) = (q.position_id ≡ p.position_id) × ((q.exit_date ≡ none) ⊎ (q ≡ p))
  Agrees p (unrealized x) = Unit {0}
  Agrees p (unrealized_late existing x) = Unit {0}

  abbrev pub AllAgree : AggregatedPosition F → List (Write F) → Type 0
  AllAgree p [] = Unit {0}
  AllAgree p (w ∷ ws) = Agrees p w × AllAgree p ws

module _ {F : Type 0} ⦃num : JsNumber F⦄ (ctx : AccountContext F) (p : AggregatedPosition F)
    (e : ℕ) where
  keeps : (risk : F) → (close_data ctx p e risk).risk_percentage ≡ risk
  unfolding close_data
  keeps risk = refl

  closes : (risk : F) → is_some (close_data ctx p e risk).exit_date ≡ true
  unfolding close_data
  closes risk = refl

  abbrev closing : Closing F
  closing = record {
    key = where_key ctx.user_id p.position_id;
    close_data = close_data ctx p e;
    create = create_closed ctx p;
    update = update_closed ctx p;
    created =
        realized-create_close (where_key ctx.user_id p.position_id) ctx.trading_account_id
          p.quantity p.entry_date;
    updated = λ d r. refl;
    keeps = keeps;
    closes = closes;
  }

module _ {F T : Type 0} ⦃num : JsNumber F⦄ ⦃table : TradeTable F T⦄ (ctx : AccountContext F) where
  open table use {find_unique, upsert}

  unfoldable pub apply : String → Write F → T → T
  apply id (position p) t = write_position ctx p t
  apply id (unrealized x) t = write_unrealized ctx id x t
  apply id (unrealized_late existing x) t = float_at ctx id x t existing

  unfoldable pub run : String → List (Write F) → T → T
  run id [] t = t
  run id (w ∷ ws) t = run id ws (apply id w t)

  module _ (p : AggregatedPosition F) (e : ℕ) (exits : p.exit_date ≡ some e) where
    write_position-closes :
        (t : T) → write_position ctx p t ≡ Settle.write_close (closing ctx p e) t
    unfolding write_position
    write_position-closes t = ap (write_at ctx p _ t) exits

    refresh-IsSettled :
        (q : AggregatedPosition F) (v : Realized F) (t : T)
        → q.position_id ≡ p.position_id
        → q.exit_date ≡ none
        → IsSettled (closing ctx p e) v t
        → IsSettled (closing ctx p e) v (write_position ctx q t)
    unfolding write_position
    refresh-IsSettled q v t same none_yet s =
        subst (λ x. IsSettled (closing ctx p e) v (write_at ctx q risk t x)) (sym none_yet)
          (subst
            (λ id.
              IsSettled (closing ctx p e) v
                (upsert t (where_key ctx.user_id id) row (refresh_open (open_data q))))
            (sym same) (Settle.refresh-IsSettled (closing ctx p e) v t row (open_data q) s))
      where
        risk : F
        risk = kept_risk (find_unique t (where_key ctx.user_id q.position_id))

        row : Trade F
        row =
            create_open (where_key ctx.user_id q.position_id) ctx.trading_account_id risk
              (open_data q)

    float-IsSettled :
        (x : F) (v : Realized F) (t : T) (existing : Option (Trade F))
        → is_some v.exit_date ≡ true
        → IsSettled (closing ctx p e) v t
        → IsSettled (closing ctx p e) v (float_at ctx p.position_id x t existing)
    float-IsSettled x v t none c s = s
    float-IsSettled x v t (some r) c s = elim (Bool-cases (is_some r.exit_date)) [
      | inl e' ↦ rw e' s
      | inr e' ↦ rw e' (Settle.update_many-IsSettled (closing ctx p e) v t _ c s)
    ]

    apply-IsSettled :
        (w : Write F) (v : Realized F) (t : T)
        → Agrees p w
        → is_some v.exit_date ≡ true
        → IsSettled (closing ctx p e) v t
        → IsSettled (closing ctx p e) v (apply p.position_id w t)
    unfolding apply write_unrealized
    apply-IsSettled (position q) v t (same, inl none_yet) c s =
        refresh-IsSettled q v t same none_yet s
    apply-IsSettled (position q) v t (same, inr e') c s =
        subst (λ x. IsSettled (closing ctx p e) v (write_position ctx x t)) (sym e')
          (subst (IsSettled (closing ctx p e) v) (sym (write_position-closes t))
            (Settle.write_close-IsSettled (closing ctx p e) v t s))
    apply-IsSettled (unrealized x) v t a c s =
        float-IsSettled x v t (find_unique t (where_key ctx.user_id p.position_id)) c s
    apply-IsSettled (unrealized_late existing x) v t a c s = float-IsSettled x v t existing c s

    run-IsSettled :
        (ws : List (Write F)) (v : Realized F) (t : T)
        → AllAgree p ws
        → is_some v.exit_date ≡ true
        → IsSettled (closing ctx p e) v t
        → IsSettled (closing ctx p e) v (run p.position_id ws t)
    unfolding run
    run-IsSettled [] v t a c s = s
    run-IsSettled (w ∷ ws) v t a c s =
        run-IsSettled ws v (apply p.position_id w t) a.1 c (apply-IsSettled w v t a.0 c s)

    -- Once the close `p` is written, the realized columns of its row stay as they are: neither
    -- stale opens, floating figures nor repeats of the same close change them.
    pub run-write_position :
        (ws : List (Write F)) (t : T)
        → AllAgree p ws
        → let key = where_key ctx.user_id p.position_id in
          Option.map realized (find_unique (run p.position_id ws (write_position ctx p t)) key)
          ≡ Option.map realized (find_unique (write_position ctx p t) key)
    run-write_position ws t agree =
        let (v, s, c) = Settle.write_close_settles (closing ctx p e) t in
        let settled = subst (IsSettled (closing ctx p e) v) (sym (write_position-closes t)) s in
        Settle.IsSettled-realized (closing ctx p e) v _
          (run-IsSettled ws v (write_position ctx p t) agree c settled)
        ∙ sym (Settle.IsSettled-realized (closing ctx p e) v _ settled)
