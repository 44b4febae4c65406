-- ===== src/Store.antt =====
-- The `Trade` table as the writers use it (prisma/schema.prisma: model Trade). The database is a
-- parameter: `TradeTable` lists the calls made on Prisma's `trade` delegate, with what the Prisma
-- documentation says of each. A query that rejects ends the write before it changes anything.
pub mod Memory
pub mod Settle
pub mod Chains
pub mod Keys
use mathlib.Core.Option
use tradetrack_api.Prelude.{
  ℕ, ◌≡◌, refl, Bool, true, false, ◌&&◌, String, str_eq, str_eq_refl, str_eq_iff, Option, none,
  some, List, [], value_or, is_some, not, if◌then◌else◌,
}
use tradetrack_api.Number.{JsNumber}
use tradetrack_api.Trades.{
  TradeResult, RrParams, compute_trade_rr, default_imported_risk_percentage,
}

-- The columns that the writers name, and `notes` for those that only the user edits.
pub record Trade (F : Type 0) : Type 0 where
  pub symbol : String
  pub trade_type : String
  pub quantity : F
  pub entry_date : ℕ
  pub exit_date : Option ℕ
  pub profit : Option F
  pub gross_profit : Option F
  pub commission : Option F
  pub swap : Option F
  pub pnl : Option F
  pub profit_percentage : Option F
  pub rr : Option F
  pub result : Option TradeResult
  pub risk_percentage : Option F
  pub from_terminal : Bool
  pub terminal_name : Option String
  pub terminal_trade_id : Option String
  pub user_id : String
  pub trading_account_id : Option String
  pub tags : List String
  pub notes : Option String

-- `userId_terminalName_terminalTradeId`, the unique key by which every writer finds its row.
pub record TradeKey : Type 0 where
  pub user_id : String
  pub terminal_name : String
  pub terminal_trade_id : String

abbrev pub same_key : TradeKey → TradeKey → Bool
same_key a b =
    str_eq a.user_id b.user_id
    && str_eq a.terminal_name b.terminal_name
    && str_eq a.terminal_trade_id b.terminal_trade_id

pub same_key_refl : (k : TradeKey) → same_key k k ≡ true
same_key_refl k =
    rw (str_eq_refl k.user_id, str_eq_refl k.terminal_name, str_eq_refl k.terminal_trade_id)

abbrev pub upserted {ℓ} : {A : Type ℓ} → A → (A → A) → Option A → A
upserted create update none = create
upserted create update (some row) = update row

pub record TradeTable (F T : Type 0) : Type 0 where
  pub find_unique : T → TradeKey → Option (Trade F)
  pub upsert : T → TradeKey → Trade F → (Trade F → Trade F) → T
  -- `updateMany` whose `where` names the key and a condition on the row.
  pub update_many : T → TradeKey → (Trade F → Bool) → (Trade F → Trade F) → T
  pub find_unique-upsert :
      (t : T) (k j : TradeKey) (create : Trade F) (update : Trade F → Trade F)
      → find_unique (upsert t k create update) j ≡ (
          if same_key k j then some (upserted create update (find_unique t k)) else find_unique t j)
  pub find_unique-update_many :
      (t : T) (k j : TradeKey) (test : Trade F → Bool) (update : Trade F → Trade F)
      → find_unique (update_many t k test update) j ≡ (
          if same_key k j
          then Option.map (λ r. if test r then update r else r) (find_unique t k)
          else find_unique t j)

-- A field that is `undefined` leaves the column alone.
abbrev pub unless_undefined {ℓ} : {A : Type ℓ} → Option A → Option A → Option A
unless_undefined none old = old
unless_undefined (some a) old = some a

module _ {F : Type 0} where
  -- `exitDate: null` in a `where`.
  abbrev pub is_open : Trade F → Bool
  is_open r = not (is_some r.exit_date)

  -- `existing?.riskPercentage ?? DEFAULT_IMPORTED_RISK_PERCENTAGE`
  abbrev pub kept_risk : ⦃num : JsNumber F⦄ → Option (Trade F) → F
  kept_risk none = default_imported_risk_percentage
  kept_risk (some r) = value_or default_imported_risk_percentage r.risk_percentage

  -- `computeTradeRr` as every writer calls it.
  abbrev pub rr_of : ⦃num : JsNumber F⦄ → F → Option F → F → F → Option F
  rr_of money pct nominal risk = compute_trade_rr (record {
    profit_money = some money;
    profit_percentage = pct;
    nominal = some nominal;
    risk_percentage = some risk;
  })

-- What a writer sets when it opens a position or refreshes an open one.
pub record OpenData (F : Type 0) : Type 0 where
  pub symbol : String
  pub trade_type : String
  pub quantity : F
  pub entry_date : ℕ

-- The `data` object of a close; `quantity` and `entryDate` are passed beside it.
pub record CloseData (F : Type 0) : Type 0 where
  pub symbol : String
  pub trade_type : String
  pub exit_date : Option ℕ
  pub profit : F
  pub gross_profit : F
  pub commission : F
  pub swap : F
  pub pnl : F
  pub profit_percentage : Option F
  pub rr : Option F
  pub result : Option TradeResult
  pub risk_percentage : F

module _ {F : Type 0} where
  abbrev pub create_open : TradeKey → String → F → OpenData F → Trade F
  create_open key account risk o = record {
    symbol = o.symbol;
    trade_type = o.trade_type;
    quantity = o.quantity;
    entry_date = o.entry_date;
    exit_date = none;
    profit = none;
    gross_profit = none;
    commission = none;
    swap = none;
    pnl = none;
    profit_percentage = none;
    rr = none;
    result = none;
    risk_percentage = some risk;
    from_terminal = true;
    terminal_name = some key.terminal_name;
    terminal_trade_id = some key.terminal_trade_id;
    user_id = key.user_id;
    trading_account_id = some account;
    tags = [];
    notes = none;
  }

  abbrev pub refresh_open : OpenData F → Trade F → Trade F
  refresh_open o r = record r {
    symbol = o.symbol;
    trade_type = o.trade_type;
    quantity = o.quantity;
    entry_date = o.entry_date;
  }

  abbrev pub create_close : TradeKey → String → F → ℕ → CloseData F → Trade F
  create_close key account quantity entry_date d = record {
    symbol = d.symbol;
    trade_type = d.trade_type;
    quantity = quantity;
    entry_date = entry_date;
    exit_date = d.exit_date;
    profit = some d.profit;
    gross_profit = some d.gross_profit;
    commission = some d.commission;
    swap = some d.swap;
    pnl = some d.pnl;
    profit_percentage = d.profit_percentage;
    rr = d.rr;
    result = d.result;
    risk_percentage = some d.risk_percentage;
    from_terminal = true;
    terminal_name = some key.terminal_name;
    terminal_trade_id = some key.terminal_trade_id;
    user_id = key.user_id;
    trading_account_id = some account;
    tags = [];
    notes = none;
  }

  abbrev pub set_close : TradeKey → CloseData F → Trade F → Trade F
  set_close key d r = record r {
    symbol = d.symbol;
    trade_type = d.trade_type;
    exit_date = d.exit_date;
    profit = some d.profit;
    gross_profit = some d.gross_profit;
    commission = some d.commission;
    swap = some d.swap;
    pnl = some d.pnl;
    profit_percentage = unless_undefined d.profit_percentage r.profit_percentage;
    rr = unless_undefined d.rr r.rr;
    result = d.result;
    risk_percentage = some d.risk_percentage;
    from_terminal = true;
    terminal_name = some key.terminal_name;
    terminal_trade_id = some key.terminal_trade_id;
  }
