-- ===== src/Ctrader/Backfill/Safety.antt =====
-- A backfill and the positions that the broker reports as open
-- (src/ctrader/backfill.service.ts, run).
use mathlib.Core.List.{filter_map}
use tradetrack_api.Prelude.{
  ℕ, ◌≡◌, refl, sym, ap, ◌∙◌, subst, Bool, true, false, String, str_eq, str_eq_iff, Option, none,
  some, is_some, field_of, value_or, get, elem, All, All-append, All-filter_map, List, [], ◌∷◌, ◌⊎◌,
  inl, inr, Bool-cases, if◌then◌else◌,
}
use mathlib.Core.Option
use mathlib.Core.Bool.{true≢false}
use tradetrack_api.Number.{JsNumber}
use tradetrack_api.Trades.{default_imported_risk_percentage}
use tradetrack_api.Store.{
  Trade, TradeTable, OpenData, same_key, upserted, create_open, refresh_open,
}
use tradetrack_api.Store.Keys.{same_key-id, concat-ne}
use tradetrack_api.Store.Settle.{find_unique-upsert_self, find_unique-upsert_ne}
use tradetrack_api.Ctrader.Types.{PoolAccount}
use tradetrack_api.Ctrader.Writer.{
  BackfillPosition, where_key, backfill_open, upsert_open, backfill_closed, write_backfill,
}
use tradetrack_api.Ctrader.Deals.{
  NormalizedDeal, OpenPosition, RawPosition, RawDeal, closing_deals, first,
}
use tradetrack_api.Ctrader.Backfill.{
  open_by_id, reconstruct_closed, from_deals, from_open, map_open, planned, write_all, run,
}

-- A key that is missing differs from one that is there.
unlisted :
    {A : Type 0} (id : String) (m : List (String × A)) (k : String)
    → is_some (get id m) ≡ true
    → is_some (get k m) ≡ false
    → str_eq k id ≡ false
unlisted id m k known lacks = elim (Bool-cases (str_eq k id)) [
  | inl e ↦
      absurd
        (true≢false (sym known ∙ ap (λ i. is_some (get i m)) (sym ((str_eq_iff k id).0 e)) ∙ lacks))
  | inr e ↦ e
]

module _ {F : Type 0} where
  -- A position that is not the one of `id`, or that is written as an open one.
  abbrev Spares : String → BackfillPosition F → Type 0
  Spares id p = (str_eq p.position_id id ≡ false) ⊎ (p.fully_closed ≡ false)

  abbrev pub exit_of : Option (Trade F) → Option ℕ
  exit_of row = field_of row (λ r. r.exit_date)

  abbrev is_closed : Option (BackfillPosition F) → Bool
  is_closed none = false
  is_closed (some p) = p.fully_closed

  some_if-inv :
      (b : Bool) (x q : BackfillPosition F)
      → (if b then some x else none) ≡ some q
      → (b ≡ true) × (x ≡ q)
  some_if-inv true x q e = (refl, ap (value_or x) e)
  some_if-inv false x q e = absurd (Option.none-ne-some q e)

  refresh-exit_of :
      (create : Trade F) (o : OpenData F)
      → create.exit_date ≡ none
      → (row : Option (Trade F))
      → exit_of (some (upserted create (refresh_open o) row)) ≡ exit_of row
  refresh-exit_of create o e none = e
  refresh-exit_of create o e (some r) = refl

module _ {F : Type 0} ⦃num : JsNumber F⦄ (account : PoolAccount F) (id : String) where
  from_deals-Spares :
      (now : ℕ) (m : List (String × OpenPosition F)) (x : String × List (NormalizedDeal F))
      (q : BackfillPosition F)
      → is_some (get id m) ≡ true
      → from_deals account now (some m) x ≡ some q
      → Spares id q
  unfolding from_deals reconstruct_closed
  from_deals-Spares now m (k, deals) q known e = elim (Bool-cases (is_some (get k m))) [
    | inl has ↦ absurd (Option.none-ne-some q (rw has at e))
    | inr lacks ↦
        let (closes, same) =
          some_if-inv (is_some (first (closing_deals deals)))
            (reconstruct_closed account now k deals) q (rw lacks at e) in
        inl (ap (λ p. str_eq p.position_id id) (sym same) ∙ unlisted id m k known lacks)
  ]

  from_open-Spares :
      (now : ℕ) (handled : List String) (x : String × OpenPosition F) (q : BackfillPosition F)
      → from_open account now handled x ≡ some q
      → Spares id q
  unfolding from_open map_open
  from_open-Spares now handled (k, p) q e = elim (Bool-cases (elem k handled)) [
    | inl was ↦ absurd (Option.none-ne-some q (rw was at e))
    | inr was ↦ inr (ap (λ o. is_closed o) (sym (rw was at e)))
  ]

  planned-Spares :
      (now : ℕ) (m : List (String × OpenPosition F))
      (deals : List (String × List (NormalizedDeal F)))
      → is_some (get id m) ≡ true
      → All (Spares id) (planned account now (some m) deals)
  unfolding planned
  planned-Spares now m deals known =
      All-append (Spares id) (filter_map (from_deals account now (some m)) deals) _
        (All-filter_map (Spares id) (from_deals account now (some m))
          (λ x q e. from_deals-Spares now m x q known e) deals)
        (All-filter_map (Spares id) _ (λ x q e. from_open-Spares now _ x q e) m)

  other_key :
      (p : BackfillPosition F)
      → str_eq p.position_id id ≡ false
      → same_key (where_key account.user_id p.position_id) (where_key account.user_id id) ≡ false
  other_key p ne =
      same_key-id (where_key account.user_id p.position_id) (where_key account.user_id id) (
        concat-ne "ctrader_pos_" p.position_id id
          (λ e. true≢false (sym ((str_eq_iff p.position_id id).1 e) ∙ ne)))

  module _ {T : Type 0} ⦃table : TradeTable F T⦄ where
    open table use {find_unique}

    abbrev exit_at : T → Option ℕ
    exit_at t = exit_of (find_unique t (where_key account.user_id id))

    write_backfill-other :
        (p : BackfillPosition F) (t : T)
        → str_eq p.position_id id ≡ false
        → exit_at (write_backfill account p t) ≡ exit_at t
    unfolding write_backfill backfill_closed upsert_open
    write_backfill-other p t ne = elim (Bool-cases p.fully_closed) [
      | inl e ↦ rw e (
          ap (exit_of {F = F})
            (find_unique-upsert_ne t _ (where_key account.user_id id) _ _ (other_key p ne)))
      | inr e ↦ rw e (
          ap (exit_of {F = F})
            (find_unique-upsert_ne t _ (where_key account.user_id id) _ _ (other_key p ne)))
    ]

    write_backfill_self :
        (p : BackfillPosition F) (t : T)
        → p.position_id ≡ id
        → p.fully_closed ≡ false
        → exit_at (write_backfill account p t) ≡ exit_at t
    unfolding write_backfill upsert_open
    write_backfill_self p t same part =
        let key = where_key account.user_id p.position_id in
        let row =
          create_open key account.trading_account_id default_imported_risk_percentage
            (backfill_open p) in
        subst
          (λ i.
            exit_of (find_unique (write_backfill account p t) (where_key account.user_id i))
            ≡ exit_of (find_unique t (where_key account.user_id i)))
          same
          (rw part (
            ap (exit_of {F = F})
              (find_unique-upsert_self t key row (refresh_open (backfill_open p)))
            ∙ refresh-exit_of row (backfill_open p) refl (find_unique t key)))

    write_backfill-Spares :
        (p : BackfillPosition F) (t : T)
        → Spares id p
        → exit_at (write_backfill account p t) ≡ exit_at t
    write_backfill-Spares p t (inl ne) = write_backfill-other p t ne
    write_backfill-Spares p t (inr part) = elim (Bool-cases (str_eq p.position_id id)) [
      | inl e ↦ write_backfill_self p t ((str_eq_iff p.position_id id).0 e) part
      | inr e ↦ write_backfill-other p t e
    ]

    write_all-Spares :
        (refuses : BackfillPosition F → Bool) (ps : List (BackfillPosition F)) (t : T)
        → All (Spares id) ps
        → exit_at (write_all account refuses ps t).0 ≡ exit_at t
    unfolding write_all
    write_all-Spares refuses [] t a = refl
    write_all-Spares refuses (p ∷ ps) t a = elim (Bool-cases (refuses p)) [
      | inl e ↦ rw (e) (write_all-Spares refuses ps t a.1)
      | inr e ↦ rw (e) (
          write_all-Spares refuses ps (write_backfill account p t) a.1
          ∙ write_backfill-Spares p t a.0)
    ]

    -- Where the broker answers which positions are open and lists `id`, a backfill leaves the exit
    -- date of that position's row as it was (none if there was no row), whatever the deals say and
    -- whichever writes the database refuses.
    pub run-keeps_open :
        (now : ℕ) (ps : List (RawPosition F)) (deals : Option (List (RawDeal F)))
        (refuses : BackfillPosition F → Bool) (t : T)
        → is_some (get id (open_by_id ps [])) ≡ true
        → exit_of (
            find_unique
              (run account now (some ps) deals refuses t).0
              (where_key account.user_id id))
          ≡ exit_of (find_unique t (where_key account.user_id id))
    unfolding run
    run-keeps_open now ps deals refuses t known =
        write_all-Spares refuses _ t (planned-Spares now (open_by_id ps []) _ known)
