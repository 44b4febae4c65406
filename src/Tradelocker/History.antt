-- ===== src/Tradelocker/History.antt =====
-- src/tradelocker/history.ts: the report of closed trades, row by row and page by page. The server
-- is a parameter: what it answers to the n-th request, at a cursor. Rows come as the schema parses
-- them (none for a row that it refuses).
pub mod Requests
pub mod Rows
use tradetrack_api.Prelude.{
  ℕ, zero, suc, ◌+◌, String, concat, str_eq, Bool, true, false, not, ◌&&◌, ◌||◌, Option, none, some,
  value_or, List, [], ◌∷◌, ◌++◌, if◌then◌else◌,
}
use tradetrack_api.Number.{JsNumber}
use tradetrack_api.Trades.{le}
use tradetrack_api.Tradelocker.Types.{TradeSide, buy, sell, ClosedTrade}

abbrev pub history_max_pages : ℕ
history_max_pages = 10

abbrev pub history_ratelimit_retries : ℕ
history_ratelimit_retries = 2

-- A number that arrives as a text or as a number.
pub data Numeric (F : Type 0) : Type 0 where
  text : String → Numeric F
  number : F → Numeric F

pub record Row (F : Type 0) : Type 0 where
  pub position_id : String
  pub instrument : Option String
  pub position_side : Option String
  pub open_amount : Option (Numeric F)
  pub close_amount : Option (Numeric F)
  pub open_milliseconds : Option (Numeric F)
  pub close_milliseconds : Option (Numeric F)
  pub profit : Option (Numeric F)
  pub net_profit : Option (Numeric F)
  pub commission : Option (Numeric F)
  pub swap : Option (Numeric F)

-- A reply: HTTP 429, another failure, or a page; `rows` is absent for an unknown envelope.
pub record Page (F : Type 0) : Type 0 where
  pub rows : Option (List (Option (Row F)))
  -- A cursor that is not empty.
  pub next : Option String

pub data Reply (F : Type 0) : Type 0 where
  too_many_requests : Reply F
  failure : Reply F
  page : Page F → Reply F

-- What the walk gives, and the number of requests sent so far.
pub data History (F : Type 0) : Type 0 where
  fetched : List (ClosedTrade F) → ℕ → History F
  thrown : ℕ → History F

-- What a page leads to: the end, or the trades so far, the requests sent and the next cursor.
pub data Step (F : Type 0) : Type 0 where
  stop : History F → Step F
  go_on : List (ClosedTrade F) → ℕ → Option String → Step F

module _ {F : Type 0} where
  abbrev pub requests : History F → ℕ
  requests (fetched ts n) = n
  requests (thrown n) = n

  abbrev pub trades : History F → List (ClosedTrade F)
  trades (fetched ts n) = ts
  trades (thrown n) = []

  -- `params.untilPositionId && trade.positionId === params.untilPositionId`, of any of the trades
  abbrev pub hits : Option String → List (ClosedTrade F) → Bool
  hits none ts = false
  hits (some id) [] = false
  hits (some id) (c ∷ cs) = not (str_eq id "") && str_eq c.position_id id || hits (some id) cs

  abbrev pub turned :
      Option String → List (ClosedTrade F) → List (ClosedTrade F) → ℕ → Option String → Step F
  turned until out found n none = stop (fetched (out ++ found) n)
  turned until out found n (some cursor) =
      if hits until found
      then stop (fetched (out ++ found) n)
      else go_on (out ++ found) n (some cursor)

  -- `getPage` with retries left: the reply, and the requests sent.
  unfoldable pub get_page : (ℕ → Option String → Reply F) → ℕ → ℕ → Option String → Reply F × ℕ
  get_page server zero n cursor = (server n cursor, n + 1)
  get_page server (suc left) n cursor =
      let again = get_page server left (n + 1) cursor in
      elim (server n cursor) [
        | too_many_requests ↦ again
        | failure ↦ (failure, n + 1)
        | page p ↦ (page p, n + 1)
      ]

module _ {F : Type 0} ⦃num : JsNumber F⦄ (to_upper_case : String → String) where
  open num use {of_nat, lt, eq, is_finite, to_ms}

  abbrev finite_or_zero : F → F
  finite_or_zero x = if is_finite x then x else of_nat 0

  unfoldable pub parse_number : Option (Numeric F) → F
  parse_number none = of_nat 0
  parse_number (some (text s)) = finite_or_zero (num.of_string s)
  parse_number (some (number x)) = finite_or_zero x

  abbrev pub quantity_of : F → F → F
  quantity_of open_amount close_amount =
      if lt (of_nat 0) open_amount && lt (of_nat 0) close_amount
      then num.min open_amount close_amount
      else if eq close_amount (of_nat 0) || not (eq close_amount close_amount)
      then open_amount
      else close_amount

  abbrev pub realized_row : Row F → F → F → ClosedTrade F
  realized_row row open_ms close_ms = record {
    position_id = row.position_id;
    symbol = value_or (concat "INSTRUMENT_" row.position_id) row.instrument;
    side = if str_eq (to_upper_case (value_or "" row.position_side)) "SELL" then sell else buy;
    quantity = quantity_of (parse_number row.open_amount) (parse_number row.close_amount);
    entry_date = if lt (of_nat 0) open_ms then to_ms open_ms else to_ms close_ms;
    exit_date = to_ms close_ms;
    gross_profit = parse_number row.profit;
    commission = parse_number row.commission;
    swap = parse_number row.swap;
    net_profit = elim row.net_profit [ none ↦ none | some x ↦ some (parse_number (some x)) ];
  }

  -- A row with no position id or no close time is no trade.
  unfoldable pub to_closed_trade : Row F → Option (ClosedTrade F)
  to_closed_trade row =
      let close_ms = parse_number row.close_milliseconds in
      if str_eq row.position_id "" || le close_ms (of_nat 0)
      then none
      else some (realized_row row (parse_number row.open_milliseconds) close_ms)

  abbrev pub add_trade : Option (ClosedTrade F) → List (ClosedTrade F) → List (ClosedTrade F)
  add_trade none ts = ts
  add_trade (some c) ts = c ∷ ts

  -- The trades of a page; a row that the schema refuses is passed over.
  unfoldable pub page_trades : List (Option (Row F)) → List (ClosedTrade F)
  page_trades [] = []
  page_trades (none ∷ rows) = page_trades rows
  page_trades (some row ∷ rows) = add_trade (to_closed_trade row) (page_trades rows)

  module _ (until : Option String) where
    abbrev pub read_rows :
        List (ClosedTrade F) → Option (List (Option (Row F))) → Option String → ℕ → Step F
    read_rows out none next n = stop (thrown n)
    read_rows out (some rows) next n = turned until out (page_trades rows) n next

    abbrev pub step : List (ClosedTrade F) → Reply F × ℕ → Step F
    step out (too_many_requests, n) = stop (thrown n)
    step out (failure, n) = stop (thrown n)
    step out (page p, n) = read_rows out p.rows p.next n

    module _ (server : ℕ → Option String → Reply F) where
      -- The loop over the pages: `pages` are left, `n` requests were sent.
      unfoldable pub walk : ℕ → ℕ → Option String → List (ClosedTrade F) → History F
      walk zero n cursor out = fetched out n
      walk (suc pages) n cursor out =
          elim (step out (get_page server history_ratelimit_retries n cursor)) [
            | stop h ↦ h
            | go_on out' n' next ↦ walk pages n' next out'
          ]

      unfoldable pub fetch_closed_trades : ℕ → History F
      fetch_closed_trades max_pages = walk max_pages 0 none []
