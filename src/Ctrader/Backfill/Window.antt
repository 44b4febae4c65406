-- ===== src/Ctrader/Backfill/Window.antt =====
-- A closed position whose opening deal is older than the window of the backfill
-- (src/ctrader/backfill.service.ts, reconstructClosed).
use tradetrack_api.Prelude.{
  ℕ, ◌≡◌, refl, ap, sym, subst, ◌∙◌, String, none, some, List, ◌∷◌, ◌⊎◌, inl, inr,
}
use tradetrack_api.Number.{JsNumber}
use tradetrack_api.Ctrader.Types.{PoolAccount}
use tradetrack_api.Ctrader.Writer.{BackfillPosition, symbol_name, volume_per_lot}
use tradetrack_api.Ctrader.Deals.{
  NormalizedDeal, closing_deals, open_deal, first, invert, sum_of, either_deal,
}
use tradetrack_api.Ctrader.Backfill.{rebuilt, reconstruct_closed}

invert-invert : (side : String) → (side ≡ "BUY") ⊎ (side ≡ "SELL") → invert (invert side) ≡ side
invert-invert side (inl e) = rw (e) refl
invert-invert side (inr e) = rw (e) refl

module _ {F : Type 0} ⦃num : JsNumber F⦄ where
  abbrev pub SameButEntry : BackfillPosition F → BackfillPosition F → Type 0
  SameButEntry cut whole =
      (cut.symbol ≡ whole.symbol)
      × (cut.direction ≡ whole.direction)
      × (cut.quantity ≡ whole.quantity)
      × (cut.exit_date ≡ whole.exit_date)
      × (cut.gross_profit ≡ whole.gross_profit)
      × (cut.commission ≡ whole.commission)
      × (cut.swap ≡ whole.swap)

  rebuilt-same :
      (account : PoolAccount F) (now : ℕ) (id : String) (o c : NormalizedDeal F)
      (closing : List (NormalizedDeal F))
      → first closing ≡ some c
      → (o.side ≡ "BUY") ⊎ (o.side ≡ "SELL")
      → c.side ≡ invert o.side
      → c.symbol_id ≡ o.symbol_id
      → sum_of (λ d. d.filled_volume) closing ≡ o.volume
      → SameButEntry (rebuilt account now id closing none) (rebuilt account now id closing (some o))
  rebuilt-same account now id o c closing closes known side same volume = (
    ap
          (λ x.
            symbol_name account
              (either_deal (num.of_nat 0) (λ d. d.symbol_id) (λ d. d.symbol_id) none x))
          closes
        ∙ ap (symbol_name account) same,
    ap (either_deal "BUY" (λ d. d.side) (λ d. invert d.side) none) closes
        ∙ ap invert side
        ∙ invert-invert o.side known,
    ap
          (λ x.
            num.div
              (either_deal (sum_of (λ d. d.filled_volume) closing) (λ d. d.volume)
                (λ d. sum_of (λ d. d.filled_volume) closing) none x)
              volume_per_lot)
          closes
        ∙ ap (λ x. num.div x volume_per_lot) volume,
    refl,
    refl,
    refl,
    refl,
  )

  -- If the closing deals are for the same symbol, on the other side, and close the whole volume, the
  -- position is rebuilt with the same symbol, direction, quantity, exit date and money whether or not
  -- its opening deal is in the window.
  pub reconstruct_closed-without_opening :
      (account : PoolAccount F) (now : ℕ) (id : String) (o c : NormalizedDeal F)
      (deals : List (NormalizedDeal F))
      → o.close ≡ none
      → open_deal deals ≡ none
      → first (closing_deals deals) ≡ some c
      → (o.side ≡ "BUY") ⊎ (o.side ≡ "SELL")
      → c.side ≡ invert o.side
      → c.symbol_id ≡ o.symbol_id
      → sum_of (λ d. d.filled_volume) (closing_deals deals) ≡ o.volume
      → SameButEntry
          (reconstruct_closed account now id deals)
          (reconstruct_closed account now id (o ∷ deals))
  unfolding reconstruct_closed
  reconstruct_closed-without_opening account now id o c deals opens none_open closes known side same
        volume =
      let own : open_deal (o ∷ deals) ≡ some o = rw (opens) refl in
      let rest : closing_deals (o ∷ deals) ≡ closing_deals deals = rw (opens) refl in
      subst
        (λ x.
          SameButEntry (reconstruct_closed account now id deals)
            (rebuilt account now id x (open_deal (o ∷ deals))))
        (sym rest)
        (subst
          (λ x.
            SameButEntry (rebuilt account now id (closing_deals deals) (open_deal deals))
              (rebuilt account now id (closing_deals deals) x))
          (sym own)
          (subst
            (λ x.
              SameButEntry (rebuilt account now id (closing_deals deals) x)
                (rebuilt account now id (closing_deals deals) (some o)))
            (sym none_open)
            (rebuilt-same account now id o c (closing_deals deals) closes known side same volume)))
