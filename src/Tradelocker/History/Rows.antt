-- ===== src/Tradelocker/History/Rows.antt =====
-- What every trade of the report has (src/tradelocker/history.ts, toClosedTrade).
use mathlib.Core.Option
use mathlib.Core.Bool.{true≢false}
use tradetrack_api.Prelude.{
  ℕ, zero, suc, ◌+◌, ◌≡◌, refl, sym, ◌∙◌, subst, ap, In, or_right, ◌⊎◌, String, str_eq, Bool, true,
  false, ◌||◌, Option, none, some, value_or, List, [], ◌∷◌, arith, Bool-cases, Option-cases, inl,
  inr, All, All-append, if◌then◌else◌,
}
use tradetrack_api.Number.{JsNumber}
use tradetrack_api.Trades.{le}
use tradetrack_api.Tradelocker.Types.{ClosedTrade}
use tradetrack_api.Tradelocker.History.{
  Reply, too_many_requests, failure, page, Page, Row, Numeric, text, number, Step, stop, go_on,
  trades, hits, turned, get_page, parse_number, to_closed_trade, page_trades, read_rows, step, walk,
  fetch_closed_trades, history_ratelimit_retries,
}
use tradetrack_api.Tradelocker.History.Requests.{Reply-cases, Step-cases}

both_false : (a b : Bool) → (a || b) ≡ false → (a ≡ false) × (b ≡ false)
both_false a b e = ground arith

module _ {F : Type 0} where
  -- The row stands in a page that the server gave.
  abbrev pub IsServed : (ℕ → Option String → Reply F) → Row F → Type 0
  IsServed server row =
      (n : ℕ) × (cursor : Option String) × (p : Page F) × (rows : List (Option (Row F))) × (server n
          cursor
        ≡ page p)
      × (p.rows ≡ some rows)
      × In (some row) rows

  get_page-page :
      (server : ℕ → Option String → Reply F) (left n : ℕ) (cursor : Option String) (p : Page F)
      → (get_page server left n cursor).0 ≡ page p
      → (m : ℕ) × (server m cursor ≡ page p)
  unfolding get_page
  get_page-page server zero n cursor p e = (n, e)
  get_page-page server (suc left) n cursor p e = elim (Reply-cases (server n cursor)) [
    | inl f ↦ get_page-page server left (n + 1) cursor p (rw (f, get_page) at e)
    | inr (inl f) ↦ absurd (failure_not_page p (rw (f, get_page) at e))
    | inr (inr (q, f)) ↦ (n, f ∙ rw (f, get_page) at e)
  ]
    where
      is_page : Reply F → Bool
      is_page (page q) = true
      is_page _ = false

      failure_not_page : (p : Page F) → failure ≡ page p → ⊥
      failure_not_page p e = true≢false (sym (ap is_page e))

module _ {F : Type 0} ⦃num : JsNumber F⦄ where
  -- The number that a field gives, as a number or as the text of one.
  abbrev pub Gives : Option (Numeric F) → F → Type 0
  Gives field x =
      (field ≡ some (number x)) ⊎ ((s : String) × (field ≡ some (text s)) × (x ≡ num.of_string s))

  -- The trade is that of a served row: it has the row's position id, which is not empty, and the row's
  -- close time, which is finite and above zero.
  abbrev pub IsRealized : (Row F → Type 0) → ClosedTrade F → Type 0
  IsRealized Served c =
      (row : Row F) × Served row
      × (c.position_id ≡ row.position_id)
      × (str_eq row.position_id "" ≡ false)
      × ((ms : F) × Gives row.close_milliseconds ms
          × (num.is_finite ms ≡ true)
          × (le ms (num.of_nat 0) ≡ false)
          × (c.exit_date ≡ num.to_ms ms))

  abbrev StepRealized : (Row F → Type 0) → Step F → Type 0
  StepRealized Served (stop h) = All (IsRealized Served) (trades h)
  StepRealized Served (go_on out n next) = All (IsRealized Served) out

  eq-le : (x y : F) → num.eq x y ≡ true → le x y ≡ true
  eq-le x y e = or_right (num.lt x y) (num.eq x y) e

  some_if-inv :
      (b : Bool) (x c : ClosedTrade F)
      → (if b then none else some x) ≡ some c
      → (b ≡ false) × (x ≡ c)
  some_if-inv true x c e = absurd (Option.none-ne-some c e)
  some_if-inv false x c e = (refl, ap (value_or x) e)

  turned-StepRealized :
      (Served : Row F → Type 0) (until : Option String) (out found : List (ClosedTrade F)) (n : ℕ)
      (next : Option String)
      → All (IsRealized Served) out
      → All (IsRealized Served) found
      → StepRealized Served (turned until out found n next)
  turned-StepRealized Served until out found n none a b =
      All-append (IsRealized Served) out found a b
  turned-StepRealized Served until out found n (some cursor) a b =
      elim (Bool-cases (hits until found)) [
        | inl e ↦ rw (e) (All-append (IsRealized Served) out found a b)
        | inr e ↦ rw (e) (All-append (IsRealized Served) out found a b)
      ]

module _ {F : Type 0} ⦃num : JsNumber F⦄ (to_upper_case : String → String)
    (zero_same : num.eq (num.of_nat 0) (num.of_nat 0) ≡ true) where
  -- A finite number is kept, and any other is 0, which is not above zero.
  finite_late :
      (x : F)
      → let y = if num.is_finite x then x else num.of_nat 0 in
        le y (num.of_nat 0) ≡ false → (num.is_finite x ≡ true) × (y ≡ x)
  finite_late x late = elim (Bool-cases (num.is_finite x)) [
    | inl e ↦ (e, rw (e) refl)
    | inr e ↦
        absurd (true≢false (sym (eq-le (num.of_nat 0) (num.of_nat 0) zero_same) ∙ rw (e) at late))
  ]

  parse_number-Gives :
      (field : Option (Numeric F))
      → le (parse_number to_upper_case field) (num.of_nat 0) ≡ false
      → (ms : F) × Gives field ms
        × (num.is_finite ms ≡ true)
        × (parse_number to_upper_case field ≡ ms)
  unfolding parse_number
  parse_number-Gives none late =
      absurd (true≢false (sym (eq-le (num.of_nat 0) (num.of_nat 0) zero_same) ∙ late))
  parse_number-Gives (some (text s)) late =
      let (finite, same) = finite_late (num.of_string s) late in
      (num.of_string s, inr (s, refl, refl), finite, same)
  parse_number-Gives (some (number x)) late =
      let (finite, same) = finite_late x late in (x, inl refl, finite, same)

  to_closed_trade-IsRealized :
      (Served : Row F → Type 0) (row : Row F) (c : ClosedTrade F)
      → Served row
      → to_closed_trade to_upper_case row ≡ some c
      → IsRealized Served c
  unfolding to_closed_trade
  to_closed_trade-IsRealized Served row c served e =
      let ms = parse_number to_upper_case row.close_milliseconds in
      let (keeps, same) = some_if-inv (str_eq row.position_id "" || le ms (num.of_nat 0)) _ c e in
      let (named, late) = both_false (str_eq row.position_id "") (le ms (num.of_nat 0)) keeps in
      let (given, gives, finite, parsed) = parse_number-Gives row.close_milliseconds late in
      subst (IsRealized Served) same (
        row,
        served,
        refl,
        named,
        (
          given,
          gives,
          finite,
          subst (λ x. le x (num.of_nat 0) ≡ false) parsed late,
          ap num.to_ms parsed,
        ),
      )

  page_trades-IsRealized :
      (Served : Row F → Type 0) (rows : List (Option (Row F)))
      → ((row : Row F) → In (some row) rows → Served row)
      → All (IsRealized Served) (page_trades to_upper_case rows)
  unfolding page_trades
  page_trades-IsRealized Served [] served = tt
  page_trades-IsRealized Served (none ∷ rows) served =
      page_trades-IsRealized Served rows (λ row there. served row (inr there))
  page_trades-IsRealized Served (some row ∷ rows) served =
      let rest = page_trades-IsRealized Served rows (λ r there. served r (inr there)) in
      elim (Option-cases (to_closed_trade to_upper_case row)) [
        | inl e ↦ rw (e) rest
        | inr (c, e) ↦
            rw (e) (to_closed_trade-IsRealized Served row c (served row (inl refl)) e, rest)
      ]

  module _ (until : Option String) (server : ℕ → Option String → Reply F) where
    step-StepRealized :
        (out : List (ClosedTrade F)) (r : Reply F) (n : ℕ) (cursor : Option String)
        → ((p : Page F) → r ≡ page p → (m : ℕ) × (server m cursor ≡ page p))
        → All (IsRealized (IsServed server)) out
        → StepRealized (IsServed server) (step to_upper_case until out (r, n))
    step-StepRealized out too_many_requests n cursor from a = tt
    step-StepRealized out failure n cursor from a = tt
    step-StepRealized out (page p) n cursor from a = read p.rows refl
      where
        read :
            (rs : Option (List (Option (Row F))))
            → p.rows ≡ rs
            → StepRealized (IsServed server) (read_rows to_upper_case until out rs p.next n)
        read none e = tt
        read (some rs) e =
            let (m, at) = from p refl in
            turned-StepRealized (IsServed server) until out (page_trades to_upper_case rs) n p.next
              a
              (page_trades-IsRealized (IsServed server) rs
                (λ row there. (m, cursor, p, rs, at, e, there)))

    walk-IsRealized :
        (pages n : ℕ) (cursor : Option String) (out : List (ClosedTrade F))
        → All (IsRealized (IsServed server)) out
        → All
            (IsRealized (IsServed server))
            (trades (walk to_upper_case until server pages n cursor out))
    unfolding walk
    walk-IsRealized zero n cursor out a = a
    walk-IsRealized (suc pages) n cursor out a =
        let reply = get_page server history_ratelimit_retries n cursor in
        let next_step =
          step-StepRealized out reply.0 reply.1 cursor
            (get_page-page server history_ratelimit_retries n cursor) a in
        elim (Step-cases (step to_upper_case until out reply)) [
          | inl (h, e) ↦ rw (e, walk) (subst (StepRealized (IsServed server)) e next_step)
          | inr (out', n', next, e) ↦
              rw (e, walk)
                (walk-IsRealized pages n' next out'
                  (subst (StepRealized (IsServed server)) e next_step))
        ]

    -- Every trade that the walk gives is that of a row of a page that the server gave: it has the row's
    -- position id, which is not empty, and the row's close time, which is a finite number above zero. The
    -- one law of numbers used is that 0 equals 0.
    pub fetch_closed_trades-IsRealized :
        (max_pages : ℕ)
        → All
            (IsRealized (IsServed server))
            (trades (fetch_closed_trades to_upper_case until server max_pages))
    unfolding fetch_closed_trades
    fetch_closed_trades-IsRealized max_pages = walk-IsRealized max_pages 0 none [] tt
