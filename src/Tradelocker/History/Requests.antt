-- ===== src/Tradelocker/History/Requests.antt =====
-- How many requests the walk over the report sends (src/tradelocker/history.ts).
use tradetrack_api.Prelude.{
  ℕ, zero, suc, ◌+◌, ◌*◌, ◌≡◌, refl, sym, ap, ◌∙◌, ◌≤◌, String, Option, none, some, List, [], arith,
  Bool-cases, ◌⊎◌, inl, inr,
}
use tradetrack_api.Number.{JsNumber}
use tradetrack_api.Tradelocker.Types.{ClosedTrade}
use tradetrack_api.Tradelocker.History.{
  Reply, too_many_requests, failure, page, Page, Row, History, Step, stop, go_on, requests, hits,
  turned, get_page, read_rows, step, walk, fetch_closed_trades, history_ratelimit_retries,
}

module _ {F : Type 0} where
  pub Reply-cases :
      (r : Reply F) → (r ≡ too_many_requests) ⊎ ((r ≡ failure) ⊎ ((p : Page F) × (r ≡ page p)))
  Reply-cases too_many_requests = inl refl
  Reply-cases failure = inr (inl refl)
  Reply-cases (page p) = inr (inr (p, refl))

  pub Step-cases :
      (s : Step F)
      → ((h : History F) × (s ≡ stop h))
        ⊎ ((out : List (ClosedTrade F)) × (n : ℕ) × (next : Option String) × (s ≡ go_on out n next))
  Step-cases (stop h) = inl (h, refl)
  Step-cases (go_on out n next) = inr (out, n, next, refl)

  abbrev sent : Step F → ℕ
  sent (stop h) = requests h
  sent (go_on out n next) = n

  turned-sent :
      (until : Option String) (out found : List (ClosedTrade F)) (n : ℕ) (next : Option String)
      → sent (turned until out found n next) ≡ n
  turned-sent until out found n none = refl
  turned-sent until out found n (some cursor) = elim (Bool-cases (hits until found)) [
    | inl e ↦ rw (e) refl
    | inr e ↦ rw (e) refl
  ]

  get_page-requests :
      (server : ℕ → Option String → Reply F) (left n : ℕ) (cursor : Option String)
      → (get_page server left n cursor).1 ≤ n + left + 1
  unfolding get_page
  get_page-requests server zero n cursor = omega arith
  get_page-requests server (suc left) n cursor =
      let again = get_page-requests server left (n + 1) cursor in
      elim (Reply-cases (server n cursor)) [
        | inl e ↦ rw (e, get_page) (omega (arith, again))
        | inr (inl e) ↦ rw (e, get_page) (omega arith)
        | inr (inr (p, e)) ↦ rw (e, get_page) (omega arith)
      ]

module _ {F : Type 0} ⦃num : JsNumber F⦄ (to_upper_case : String → String)
    (until : Option String) where
  step-sent :
      (out : List (ClosedTrade F)) (r : Reply F) (n : ℕ)
      → sent (step to_upper_case until out (r, n)) ≡ n
  step-sent out too_many_requests n = refl
  step-sent out failure n = refl
  step-sent out (page p) n = rows p.rows
    where
      rows :
          (rs : Option (List (Option (Row F))))
          → sent (read_rows to_upper_case until out rs p.next n) ≡ n
      rows none = refl
      rows (some rs) = turned-sent until out _ n p.next

  walk-requests :
      (server : ℕ → Option String → Reply F) (pages n : ℕ) (cursor : Option String)
      (out : List (ClosedTrade F))
      → requests (walk to_upper_case until server pages n cursor out) ≤ n + pages * 3
  unfolding walk
  walk-requests server zero n cursor out = omega arith
  walk-requests server (suc pages) n cursor out =
      let reply = get_page server history_ratelimit_retries n cursor in
      let small = get_page-requests server history_ratelimit_retries n cursor in
      let same = step-sent out reply.0 reply.1 in
      elim (Step-cases (step to_upper_case until out reply)) [
        | inl (h, e) ↦
            let sends : requests h ≡ reply.1 = sym (ap sent e) ∙ same in
            rw (e, walk) (omega (arith, small, sends))
        | inr (out', n', next, e) ↦
            let sends : n' ≡ reply.1 = sym (ap sent e) ∙ same in
            rw (e, walk) (omega (arith, small, sends, walk-requests server pages n' next out'))
      ]

  -- Whatever the server answers, the walk ends after at most three requests for each page: the page
  -- and its two retries.
  pub fetch_closed_trades-requests :
      (server : ℕ → Option String → Reply F) (max_pages : ℕ)
      → requests (fetch_closed_trades to_upper_case until server max_pages) ≤ max_pages * 3
  unfolding fetch_closed_trades
  fetch_closed_trades-requests server max_pages =
      omega (arith, walk-requests server max_pages 0 none [])
