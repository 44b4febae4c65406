-- ===== src/Store/Memory.antt =====
-- A table in memory, as one concrete choice of the parameter `TradeTable`.
use mathlib.Core.Option
use tradetrack_api.Prelude.{refl, Option, none, some, if◌then◌else◌}
use tradetrack_api.Store.{Trade, TradeKey, TradeTable, same_key, upserted}

abbrev pub Memory : Type 0 → Type 0
Memory F = TradeKey → Option (Trade F)

module _ {F : Type 0} where
  abbrev pub empty : Memory F
  empty k = none

  instance abbrev pub memory_table : TradeTable F (Memory F)
  memory_table = record {
    find_unique = λ t k. t k;
    upsert =
        λ t k create update j. if same_key k j then some (upserted create update (t k)) else t j;
    update_many = λ t k test update j.
        if same_key k j then Option.map (λ r. if test r then update r else r) (t k) else t j;
    find_unique-upsert = λ t k j create update. refl;
    find_unique-update_many = λ t k j test update. refl;
  }
