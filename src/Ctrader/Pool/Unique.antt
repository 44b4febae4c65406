-- ===== src/Ctrader/Pool/Unique.antt =====
-- That `dedupeByCtid` (src/ctrader/ctrader-connection-manager.ts) keeps one account for each ctid.
use mathlib.Core.Option
use tradetrack_api.Prelude.{In, ◌≡◌, String, Option, some, List, [], ◌∷◌, ◌++◌, All, get, set}
use tradetrack_api.Number.{JsNumber}
use tradetrack_api.Ctrader.Types.{PoolAccount}
use tradetrack_api.Ctrader.Pool.Accounts.{key_of, group_of}

abbrev Groups : Type 0 → Type 0
Groups F = List (String × List (PoolAccount F))

module _ {F : Type 0} ⦃num : JsNumber F⦄ where
  -- Every group holds accounts of its key.
  abbrev HasKey : String → PoolAccount F → Type 0
  HasKey k a = key_of a ≡ k

  abbrev IsGroup : String × List (PoolAccount F) → Type 0
  IsGroup (k, list) = All (HasKey k) list

  -- The account stands in the group of its key.
  abbrev IsGrouped : PoolAccount F → Groups F → Type 0
  IsGrouped a m = (list : List (PoolAccount F)) × (get (key_of a) m ≡ some list) × In a list

  abbrev added : PoolAccount F → Groups F → Groups F
  added a m = set (key_of a) (group_of (get (key_of a) m) ++ a ∷ []) m
