-- ===== src/Store/Settle.antt =====
-- What the writers of the `Trade` table share: the realized columns of a row, a close, and the writes
-- that may follow it (updates of src/*/trade-writer.service.ts and src/ctrader/ctrader-trade-writer.ts).
use mathlib.Core.Option
use tradetrack_api.Prelude.{
  ℕ, ◌≡◌, refl, ap, ◌∙◌, subst, value_or, Bool, true, false, String, Option, none, some, arith,
  is_some, if◌then◌else◌,
}
use tradetrack_api.Number.{JsNumber}
use mathlib.Core.Path.{ap₂}
use tradetrack_api.Trades.{TradeResult, default_imported_risk_percentage}
use tradetrack_api.Store.{
  Trade, TradeKey, TradeTable, OpenData, CloseData, same_key, same_key_refl, upserted, is_open,
  kept_risk, unless_undefined, refresh_open, create_close,
}

-- The columns that only a close (or a floating figure) sets.
pub record Realized (F : Type 0) : Type 0 where
  pub exit_date : Option ℕ
  pub profit : Option F
  pub gross_profit : Option F
  pub commission : Option F
  pub swap : Option F
  pub pnl : Option F
  pub profit_percentage : Option F
  pub rr : Option F
  pub result : Option TradeResult
  pub risk_percentage : Option F

module _ {F : Type 0} where
  abbrev pub realized : Trade F → Realized F
  realized r = record {
    exit_date = r.exit_date;
    profit = r.profit;
    gross_profit = r.gross_profit;
    commission = r.commission;
    swap = r.swap;
    pnl = r.pnl;
    profit_percentage = r.profit_percentage;
    rr = r.rr;
    result = r.result;
    risk_percentage = r.risk_percentage;
  }

unless_undefined_idem {ℓ} :
    {A : Type ℓ} (a b : Option A) → unless_undefined a (unless_undefined a b) ≡ unless_undefined a b
unless_undefined_idem none b = refl
unless_undefined_idem (some a) b = refl

module _ {F T : Type 0} ⦃table : TradeTable F T⦄ where
  open table use {find_unique, upsert, update_many, find_unique-upsert, find_unique-update_many}

  pub find_unique-upsert_self :
      (t : T) (k : TradeKey) (create : Trade F) (update : Trade F → Trade F)
      → find_unique (upsert t k create update) k ≡ some (upserted create update (find_unique t k))
  find_unique-upsert_self t k create update =
      rw (find_unique-upsert t k k create update, same_key_refl k)

  pub find_unique-update_many_self :
      (t : T) (k : TradeKey) (test : Trade F → Bool) (update : Trade F → Trade F)
      → find_unique (update_many t k test update) k
        ≡ Option.map (λ r. if test r then update r else r) (find_unique t k)
  find_unique-update_many_self t k test update =
      rw (find_unique-update_many t k k test update, same_key_refl k)

  pub find_unique-upsert_ne :
      (t : T) (k j : TradeKey) (create : Trade F) (update : Trade F → Trade F)
      → same_key k j ≡ false
      → find_unique (upsert t k create update) j ≡ find_unique t j
  find_unique-upsert_ne t k j create update ne = rw (find_unique-upsert t k j create update, ne)

  pub find_unique-update_many_ne :
      (t : T) (k j : TradeKey) (test : Trade F → Bool) (update : Trade F → Trade F)
      → same_key k j ≡ false
      → find_unique (update_many t k test update) j ≡ find_unique t j
  find_unique-update_many_ne t k j test update ne =
      rw (find_unique-update_many t k j test update, ne)

-- The columns of a row that holds the close `d`, over what the row held before.
module _ {F : Type 0} where
  abbrev pub settled : CloseData F → Option F → Option F → Realized F
  settled d pct rr = record {
    exit_date = d.exit_date;
    profit = some d.profit;
    gross_profit = some d.gross_profit;
    commission = some d.commission;
    swap = some d.swap;
    pnl = some d.pnl;
    profit_percentage = unless_undefined d.profit_percentage pct;
    rr = unless_undefined d.rr rr;
    result = d.result;
    risk_percentage = some d.risk_percentage;
  }

unless_undefined-none {ℓ} : {A : Type ℓ} (a : Option A) → a ≡ unless_undefined a none
unless_undefined-none none = refl
unless_undefined-none (some a) = refl

pub realized-create_close :
    {F : Type 0} (key : TradeKey) (account : String) (quantity : F) (entry_date : ℕ)
    (d : CloseData F)
    → realized (create_close key account quantity entry_date d) ≡ settled d none none
realized-create_close key account quantity entry_date d =
    ap₂ (λ x y. record (settled d none none) { profit_percentage = x; rr = y })
      (unless_undefined-none d.profit_percentage) (unless_undefined-none d.rr)

-- A close as a writer performs it: its `data` depends on the risk that the row keeps, and goes to
-- the row of `key` by `create` or `update`.
pub record Closing (F : Type 0) : Type 0 where
  pub key : TradeKey
  pub close_data : F → CloseData F
  pub create : CloseData F → Trade F
  pub update : CloseData F → Trade F → Trade F
  pub created : (d : CloseData F) → realized (create d) ≡ settled d none none
  pub updated :
      (d : CloseData F) (r : Trade F) → realized (update d r) ≡ settled d r.profit_percentage r.rr
  pub keeps : (risk : F) → (close_data risk).risk_percentage ≡ risk
  pub closes : (risk : F) → is_some (close_data risk).exit_date ≡ true

module _ {F T : Type 0} ⦃num : JsNumber F⦄ ⦃table : TradeTable F T⦄ (closing : Closing F) where
  open closing use {key, close_data, create, update, created, updated, keeps, closes}
  open table use {find_unique, upsert, update_many}

  abbrev pub write_close : T → T
  write_close t =
      let d = close_data (kept_risk (find_unique t key)) in upsert t key (create d) (update d)

  -- The key's row holds the close, and its realized columns are `v`.
  pub record IsSettled (v : Realized F) (t : T) : Type 0 where
    row : Trade F
    found : find_unique t key ≡ some row
    same : realized row ≡ v
    risk : F
    risked : row.risk_percentage ≡ some risk
    fixed : settled (close_data risk) row.profit_percentage row.rr ≡ v

  pub refresh-IsSettled :
      (v : Realized F) (t : T) (c : Trade F) (o : OpenData F)
      → IsSettled v t
      → IsSettled v (upsert t key c (refresh_open o))
  refresh-IsSettled v t c o s = record {
    row = refresh_open o s.row;
    found =
        find_unique-upsert_self t key c (refresh_open o)
        ∙ ap (λ x. some (upserted c (refresh_open o) x)) s.found;
    same = s.same;
    risk = s.risk;
    risked = s.risked;
    fixed = s.fixed;
  }

  -- A row written by the close `d` at the risk that the table keeps.
  IsSettled-intro :
      (t : T) (row : Trade F) (pct rr : Option F) (risk : F)
      → find_unique t key ≡ some row
      → realized row ≡ settled (close_data risk) pct rr
      → IsSettled (settled (close_data risk) pct rr) t
  IsSettled-intro t row pct rr risk found same = record {
    row = row;
    found = found;
    same = same;
    risk = risk;
    risked = ap (λ (v : Realized F). v.risk_percentage) same ∙ ap some (keeps risk);
    fixed =
        ap₂ (settled (close_data risk)) (ap (λ (v : Realized F). v.profit_percentage) same)
          (ap (λ (v : Realized F). v.rr) same)
        ∙ ap₂ (λ x y. record (settled (close_data risk) pct rr) { profit_percentage = x; rr = y })
            (unless_undefined_idem (close_data risk).profit_percentage pct)
            (unless_undefined_idem (close_data risk).rr rr);
  }

  -- The close settles the row, from any state of the table.
  pub write_close_settles :
      (t : T) → (v : Realized F) × IsSettled v (write_close t) × (is_some v.exit_date ≡ true)
  write_close_settles t = settles (find_unique t key) refl
    where
      settles :
          (o : Option (Trade F))
          → find_unique t key ≡ o
          → (v : Realized F) × IsSettled v (write_close t) × (is_some v.exit_date ≡ true)
      settles none e =
          let risk = kept_risk (find_unique t key) in
          let d = close_data risk in
          (
            settled d none none,
            IsSettled-intro (write_close t) (create d) none none risk
                (find_unique-upsert_self t key (create d) (update d)
                  ∙ ap (λ x. some (upserted (create d) (update d) x)) e)
                (created d),
            closes risk,
          )
      settles (some r) e =
          let risk = kept_risk (find_unique t key) in
          let d = close_data risk in
          (
            settled d r.profit_percentage r.rr,
            IsSettled-intro (write_close t) (update d r) r.profit_percentage r.rr risk
                (find_unique-upsert_self t key (create d) (update d)
                  ∙ ap (λ x. some (upserted (create d) (update d) x)) e)
                (updated d r),
            closes risk,
          )

  -- A repeat of the close changes nothing.
  pub write_close-IsSettled : (v : Realized F) (t : T) → IsSettled v t → IsSettled v (write_close t)
  write_close-IsSettled v t s =
      subst (λ x. IsSettled x (write_close t)) again
        (IsSettled-intro (write_close t) (update d s.row) s.row.profit_percentage s.row.rr
          (kept_risk (find_unique t key))
          (find_unique-upsert_self t key (create d) (update d)
            ∙ ap (λ x. some (upserted (create d) (update d) x)) s.found)
          (updated d s.row))
    where
      d : CloseData F
      d = close_data (kept_risk (find_unique t key))

      same_risk : kept_risk (find_unique t key) ≡ s.risk
      same_risk = ap kept_risk s.found ∙ ap (value_or default_imported_risk_percentage) s.risked

      again : settled d s.row.profit_percentage s.row.rr ≡ v
      again = ap (λ x. settled (close_data x) s.row.profit_percentage s.row.rr) same_risk ∙ s.fixed

  -- A write that is guarded by `exitDate: null` does not reach the row.
  pub update_many-IsSettled :
      (v : Realized F) (t : T) (u : Trade F → Trade F)
      → is_some v.exit_date ≡ true
      → IsSettled v t
      → IsSettled v (update_many t key is_open u)
  update_many-IsSettled v t u closed s = record {
    row = s.row;
    found =
        find_unique-update_many_self t key is_open u
        ∙ ap (Option.map (λ r. if is_open r then u r else r)) s.found
        ∙ guarded;
    same = s.same;
    risk = s.risk;
    risked = s.risked;
    fixed = s.fixed;
  }
    where
      is_closed : is_some s.row.exit_date ≡ true
      is_closed = ap (λ (x : Realized F). is_some x.exit_date) s.same ∙ closed

      guarded : some (if is_open s.row then u s.row else s.row) ≡ some s.row
      guarded = ground (arith, is_closed)

  pub IsSettled-realized :
      (v : Realized F) (t : T) → IsSettled v t → Option.map realized (find_unique t key) ≡ some v
  IsSettled-realized v t s = ap (Option.map realized) s.found ∙ ap some s.same
