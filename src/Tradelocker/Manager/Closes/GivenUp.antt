-- ===== src/Tradelocker/Manager/Closes/GivenUp.antt =====
-- How long src/tradelocker/connection-manager.service.ts retries a close that the report never shows.
use tradetrack_api.Prelude.{
  ℕ, suc, ◌+◌, ==_refl, leb, ◌≤◌, ◌≡◌, refl, ap, ◌∙◌, true, false, String, str_eq_refl, none, some,
  List, [], ◌∷◌, elem, length, arith,
}
use tradetrack_api.Number.{JsNumber}
use tradetrack_api.Store.{TradeTable}
use tradetrack_api.Tradelocker.Types.{ClosedTrade}
use tradetrack_api.Tradelocker.Manager.Closes.{
  SessionRef, Pending, Task, retry, fetching, idle, retrying, past, task_of, Closes, bumped,
  close_key, find_closed, close_topup_max_retries,
}
use tradetrack_api.Tradelocker.Manager.Closes.Retries.{
  retry_pending_closes, released, matched, fetched_task, turn, goes_on, waits, retry_from,
}
use tradetrack_api.Tradelocker.Manager.Closes.Events.{
  ticks, reconciles, answers, handle_all, reconciled,
}

module _ {F T : Type 0} (s : SessionRef F) (position_id token : String) (ref : ℕ)
    (seen : List String) (table : T) where
  -- One close waits for its retry, after some attempts; nothing else is under way.
  abbrev pub waiting : ℕ → List String → Closes F T
  waiting attempts lost = record {
    sessions =
        (s.account.trading_account_id, record { serial = s.serial; token = some token }) ∷ [];
    pending =
        (
          close_key s position_id,
          record { ref = ref; session = s; position_id = position_id; attempts = attempts },
        )
        ∷ [];
    finalizing = [];
    closed_seen = seen;
    primed = [];
    tasks = [];
    fills = [];
    pass = idle;
    next_ref = ref + 1;
    table = table;
    notified = [];
    reported = close_key s position_id ∷ [];
    lost = lost;
  }

  abbrev pub given_up : List String → Closes F T
  given_up lost = record (waiting 0 lost) { pending = [] }

  abbrev key : String
  key = close_key s position_id

  abbrev pending_of : ℕ → Pending F
  pending_of attempts = record {
    ref = ref;
    session = s;
    position_id = position_id;
    attempts = attempts;
  }

  abbrev asked_task : ℕ → Task F
  asked_task attempts = record {
    key = key;
    session = s;
    position_id = position_id;
    origin = retry (pending_of attempts) [];
    phase = fetching;
  }

  -- The retry of the close waits for the report.
  abbrev asked : ℕ → List String → Closes F T
  asked attempts lost = record (waiting attempts lost) {
    finalizing = key ∷ [];
    tasks = asked_task attempts ∷ [];
    pass = retrying;
  }

  turn-asked :
      (attempts : ℕ) (lost : List String)
      → elem key seen ≡ false
      → turn key (pending_of attempts) [] (record (waiting attempts lost) { pass = retrying })
        ≡ waits (asked attempts lost)
  turn-asked attempts lost fresh =
      rw (str_eq_refl s.account.trading_account_id, ==_refl s.serial, fresh) refl

  ticks-asked :
      (attempts : ℕ) (lost : List String)
      → elem key seen ≡ false
      → retry_pending_closes (waiting attempts lost) ≡ asked attempts lost
  unfolding retry_pending_closes
  ticks-asked attempts lost fresh =
      ap (λ t. elim t [ goes_on next ↦ retry_from [] next | waits next ↦ next ])
        (turn-asked attempts lost fresh)

  released-waiting :
      (attempts : ℕ) (lost : List String)
      → released key (asked attempts lost) ≡ record (waiting attempts lost) { pass = retrying }
  released-waiting attempts lost = rw (str_eq_refl key) refl

  task_of-asked :
      (attempts : ℕ) → task_of key (asked_task attempts ∷ []) ≡ some (asked_task attempts)
  task_of-asked attempts = rw (str_eq_refl key) refl

  asked-ended :
      (report : List (ClosedTrade F)) (attempts : ℕ) (lost : List String)
      → find_closed position_id report ≡ none
      → fetched_task (task_of key (asked attempts lost).tasks) (some report) (asked attempts lost)
        ≡ record (bumped key
            (pending_of attempts)
            (record (waiting attempts lost) { pass = retrying })) { pass = past }
  asked-ended report attempts lost missing =
      ap (λ o. fetched_task o (some report) (asked attempts lost)) (task_of-asked attempts)
      ∙ ap (λ o. matched (asked_task attempts) o (asked attempts lost)) missing
      ∙ ap {A = Closes F T} (λ st. record (bumped key (pending_of attempts) st) { pass = past })
          (released-waiting attempts lost)

  bumped-waiting :
      (attempts : ℕ) (lost : List String)
      → leb close_topup_max_retries (attempts + 1) ≡ false
      → bumped key (pending_of attempts) (record (waiting attempts lost) { pass = retrying })
        ≡ record (waiting (attempts + 1) lost) { pass = retrying }
  bumped-waiting attempts lost few = rw (str_eq_refl key, ==_refl ref, few) refl

  bumped-given_up :
      (attempts : ℕ) (lost : List String)
      → leb close_topup_max_retries (attempts + 1) ≡ true
      → bumped key (pending_of attempts) (record (waiting attempts lost) { pass = retrying })
        ≡ record (given_up (key ∷ lost)) { pass = retrying }
  bumped-given_up attempts lost many =
      rw (str_eq_refl key, ==_refl ref, many) (rw (str_eq_refl key) refl)

module _ {F : Type 0} ⦃num : JsNumber F⦄ {T : Type 0} ⦃rows : TradeTable F T⦄ (s : SessionRef F)
    (position_id token : String) (ref : ℕ) (seen : List String) (table : T) where
  -- A reconcile pass in which the report has no row for the close.
  abbrev pub passed : List (ClosedTrade F) → Closes F T → Closes F T
  passed report st =
      handle_all (ticks ∷ answers (close_key s position_id) (some report) ∷ reconciles ∷ []) st

  passed-bumped :
      (report : List (ClosedTrade F)) (attempts : ℕ) (lost : List String) (st : Closes F T)
      → elem (close_key s position_id) seen ≡ false
      → find_closed position_id report ≡ none
      → bumped
          (close_key s position_id)
          (record { ref = ref; session = s; position_id = position_id; attempts = attempts })
          (record (waiting s position_id token ref seen table attempts lost) { pass = retrying })
        ≡ record st { pass = retrying }
      → passed report (waiting s position_id token ref seen table attempts lost)
        ≡ record st { pass = idle }
  passed-bumped report attempts lost st fresh missing after =
      let answered : Closes F T → Closes F T =
        λ st. handle_all (answers (close_key s position_id) (some report) ∷ reconciles ∷ []) st in
      ap answered (ticks-asked s position_id token ref seen table attempts lost fresh)
      ∙ ap {A = Closes F T} (λ st. reconciled st.pass st)
          (asked-ended s position_id token ref seen table report attempts lost missing)
      ∙ ap {A = Closes F T} (λ st. record st { pass = idle }) after

  -- The passes of some reports, one after the other.
  abbrev pub pass_all : List (List (ClosedTrade F)) → Closes F T → Closes F T
  pass_all [] st = st
  pass_all (report ∷ rest) st = pass_all rest (passed report st)

  abbrev pub AllMiss : List (List (ClosedTrade F)) → Type 0
  AllMiss [] = Unit {0}
  AllMiss (report ∷ rest) = (find_closed position_id report ≡ none) × AllMiss rest

  pass_all-waiting :
      (reports : List (List (ClosedTrade F))) (attempts : ℕ) (lost : List String)
      → elem (close_key s position_id) seen ≡ false
      → AllMiss reports
      → attempts + length reports ≤ 11
      → pass_all reports (waiting s position_id token ref seen table attempts lost)
        ≡ waiting s position_id token ref seen table (attempts + length reports) lost
  pass_all-waiting [] attempts lost fresh h le =
      ap (λ n. waiting s position_id token ref seen table n lost) (same attempts)
    where
      same : (n : ℕ) → n ≡ n + 0
      same n = omega arith
  pass_all-waiting (report ∷ rest) attempts lost fresh (h, hs) le =
      ap (pass_all rest) (
        passed-bumped report attempts lost
          (waiting s position_id token ref seen table (attempts + 1) lost) fresh h
          (bumped-waiting s position_id token ref seen table attempts lost
            (few attempts (length rest) le)))
      ∙ pass_all-waiting rest (attempts + 1) lost fresh hs (omega (arith, le))
      ∙ ap (λ n. waiting s position_id token ref seen table n lost) (same attempts (length rest))
    where
      few : (a n : ℕ) → a + suc n ≤ 11 → leb close_topup_max_retries (a + 1) ≡ false
      few a n h = ground arith

      same : (a n : ℕ) → a + 1 + n ≡ a + suc n
      same a n = omega arith

  -- Where a manager has one session, with a token, and one pending close of it, not seen before, and nothing
  -- else under way, and only reconcile passes run: through eleven passes whose report lacks the close it
  -- stays pending, with one more attempt for each, and the twelfth such pass gives it up.
  pub pass_all-given_up :
      (reports : List (List (ClosedTrade F))) (last : List (ClosedTrade F)) (lost : List String)
      → elem (close_key s position_id) seen ≡ false
      → AllMiss reports
      → length reports ≡ 11
      → find_closed position_id last ≡ none
      → (pass_all reports (waiting s position_id token ref seen table 0 lost)
          ≡ waiting s position_id token ref seen table 11 lost)
        × (passed last (pass_all reports (waiting s position_id token ref seen table 0 lost))
            ≡ given_up s position_id token ref seen table (close_key s position_id ∷ lost))
  pass_all-given_up reports last lost fresh h eleven missing =
      let until =
        pass_all-waiting reports 0 lost fresh h (omega (arith, eleven))
        ∙ ap (λ n. waiting s position_id token ref seen table n lost)
            (all (length reports) eleven) in
      (
        until,
        ap (passed last) until
            ∙ passed-bumped last 11 lost
                (given_up s position_id token ref seen table (close_key s position_id ∷ lost)) fresh
                missing (bumped-given_up s position_id token ref seen table 11 lost refl),
      )
    where
      all : (n : ℕ) → n ≡ 11 → 0 + n ≡ 11
      all n e = omega (arith, e)
