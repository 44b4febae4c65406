-- ===== src/Metaapi/Aggregator/Owned.antt =====
-- Aggregated positions against the set of open positions and the clamp
-- (src/metaapi/deal-aggregator.ts).
use mathlib.Core.Option
use mathlib.Core.List.{Perm}
use tradetrack_api.Prelude.{
  ℕ, ◌≡◌, ◌&&◌, ltb, String, Bool, true, false, Option, none, some, List, elem, str_eq,
}
use tradetrack_api.Number.{JsNumber}
use tradetrack_api.Metaapi.Types.{AggregatedPosition}
use tradetrack_api.Metaapi.Aggregator.Sorted.{select}
use tradetrack_api.Metaapi.Aggregator.Groups.{belongs}
use tradetrack_api.Metaapi.Aggregator.{Deal, booked_before, sum_of}

-- After the clamp, where there is one.
abbrev pub is_after : Option ℕ → ℕ → Bool
is_after none time = true
is_after (some clamp) time = ltb clamp time

module _ {F : Type 0} where
  -- The deals whose money a position is given.
  abbrev pub is_counted : String → Option ℕ → Deal F → Bool
  is_counted id clamp d = belongs id d && is_after clamp d.time

module _ {F : Type 0} ⦃num : JsNumber F⦄ where
  -- An open position has no exit date; an exit date is after the clamp; and the money adds up exactly
  -- the deals of the position that are after the clamp and no balance operations.
  abbrev pub IsOwned : List (Deal F) → List String → Option ℕ → AggregatedPosition F → Type 0
  IsOwned deals open_ids clamp p =
      (elem p.position_id open_ids ≡ true → p.exit_date ≡ none)
      × (booked_before clamp p.exit_date ≡ false)
      × (str_eq p.position_id "" ≡ false)
      × ((ds : List (Deal F)) × Perm ds (select (is_counted p.position_id clamp) deals)
          × (p.gross_profit ≡ sum_of (λ d. d.profit) ds)
          × (p.commission ≡ sum_of (λ d. d.commission) ds)
          × (p.swap ≡ sum_of (λ d. d.swap) ds))
