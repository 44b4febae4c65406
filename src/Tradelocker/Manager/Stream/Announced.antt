-- ===== src/Tradelocker/Manager/Stream/Announced.antt =====
-- Which opens src/tradelocker/connection-manager.service.ts announces (handlePosition).
use tradetrack_api.Prelude.{
  ℕ, ◌+◌, Bool, ◌&&◌, String, str_eq, List, [], ◌∷◌, elem, times, if◌then◌else◌,
}
use tradetrack_api.Tradelocker.Types.{OpenTrade}
use tradetrack_api.Tradelocker.Manager.Stream.{Opens}

module _ {F : Type 0} where
  -- The writes of a position that will be announced.
  abbrev pub promised : String → List (OpenTrade F × Bool) → ℕ
  promised id [] = 0
  promised id ((o, notify) ∷ ws) =
      (if notify && str_eq o.position_id id then 1 else 0) + promised id ws

  -- How often a position is or will be announced, and 1 more where it was not seen yet.
  abbrev pub at_most : String → Opens F → ℕ
  at_most id s =
      times id s.notified + promised id s.writing + (if elem id s.seen_opens then 0 else 1)
