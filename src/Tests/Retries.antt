-- ===== src/Tests/Retries.antt =====
-- The retries of a TradeLocker close at concrete reports.
use tradetrack_api.Prelude.{◌≡◌, refl, List, [], ◌∷◌}
use tradetrack_api.Number.Fixed.{ℤ, pos, fixed_number}
use tradetrack_api.Store.Memory.{Memory, empty, memory_table}
use tradetrack_api.Tradelocker.Types.{ClosedTrade}
use tradetrack_api.Tradelocker.Manager.Accounts.{demo}
use tradetrack_api.Tradelocker.Manager.Closes.{SessionRef, Closes}
use tradetrack_api.Tradelocker.Manager.Closes.GivenUp.{
  waiting, given_up, passed, pass_all, pass_all-given_up,
}
use tradetrack_api.Tests.Data.{tradelocker_closed}

abbrev session : SessionRef ℤ
session = record {
  account = record {
    trading_account_id = "a2";
    user_id = "u1";
    nominal = pos 100000000;
    account_id = "1234";
    acc_num = "1";
    server = "OSP";
    environment = demo;
    email = "trader";
    password = "secret";
    signature = "1234:1:OSP:demo:trader";
  };
  serial = 0;
}

-- Reports that show another close, or none.
abbrev others : List (ClosedTrade ℤ)
others = tradelocker_closed ∷ []

abbrev eleven_reports : List (List (ClosedTrade ℤ))
eleven_reports = others ∷ [] ∷ others ∷ [] ∷ others ∷ [] ∷ others ∷ [] ∷ others ∷ [] ∷ others ∷ []

abbrev table : Memory ℤ
table = empty

abbrev pending : Closes ℤ (Memory ℤ)
pending = waiting session "9" "jwt" 0 ("a2:8" ∷ []) table 0 []

pass_all-given_up_example :
    (pass_all session "9" "jwt" 0 ("a2:8" ∷ []) table eleven_reports pending
      ≡ waiting session "9" "jwt" 0 ("a2:8" ∷ []) table 11 [])
    × (passed session "9" "jwt" 0
          ("a2:8" ∷ [])
          table
          others
          (pass_all session "9" "jwt" 0 ("a2:8" ∷ []) table eleven_reports pending)
        ≡ given_up session "9" "jwt" 0 ("a2:8" ∷ []) table ("a2:9" ∷ []))
pass_all-given_up_example =
    pass_all-given_up session "9" "jwt" 0 ("a2:8" ∷ []) table eleven_reports others [] refl
      (refl, (refl, (refl, (refl, (refl, (refl, (refl, (refl, (refl, (refl, (refl, tt)))))))))))
      refl refl
