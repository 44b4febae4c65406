-- ===== src/Tests/Report.antt =====
-- The report of closed trades at a concrete server.
use tradetrack_api.Prelude.{ℕ, zero, ◌*◌, ◌≤◌, String, Option, refl, none, some, [], ◌∷◌, All}
use tradetrack_api.Number.Fixed.{ℤ, pos, fixed_number}
use tradetrack_api.Tradelocker.History.{
  number, Row, Reply, too_many_requests, page, requests, trades, fetch_closed_trades,
}
use tradetrack_api.Tradelocker.History.Requests.{fetch_closed_trades-requests}
use tradetrack_api.Tradelocker.History.Rows.{IsServed, IsRealized, fetch_closed_trades-IsRealized}

abbrev closed_row : Row ℤ
closed_row = record {
  position_id = "8";
  instrument = some "XAUUSD";
  position_side = some "SELL";
  open_amount = some (number (pos 10000));
  close_amount = some (number (pos 10000));
  open_milliseconds = some (number (pos 10000000));
  close_milliseconds = some (number (pos 20000000));
  profit = some (number (pos 500000));
  net_profit = none;
  commission = none;
  swap = none;
}

-- The first request is refused for now; then each page holds a trade, a row without a close time
-- and a malformed row, and leads to another page.
abbrev busy_server : ℕ → Option String → Reply ℤ
busy_server zero cursor = too_many_requests
busy_server _ cursor = page (record {
  rows =
      some (some closed_row ∷ some (record closed_row { close_milliseconds = none }) ∷ none ∷ []);
  next = some "more";
})

fetch_closed_trades-requests_example :
    requests (fetch_closed_trades (λ s. s) (some "9") busy_server 2) ≤ 2 * 3
fetch_closed_trades-requests_example =
    fetch_closed_trades-requests (λ s. s) (some "9") busy_server 2

fetch_closed_trades-IsRealized_example :
    All
      (IsRealized (IsServed busy_server))
      (trades (fetch_closed_trades (λ s. s) (some "9") busy_server 2))
fetch_closed_trades-IsRealized_example =
    fetch_closed_trades-IsRealized (λ s. s) refl (some "9") busy_server 2
