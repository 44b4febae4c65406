-- ===== src/Tests/Chains.antt =====
-- The `serialize` chains at concrete calls.
use tradetrack_api.Prelude.{ℕ, ◌+◌, ◌*◌, ◌≡◌, refl, true, false, String, Option, List, [], ◌∷◌}
use tradetrack_api.Store.Chains.{Task, Event, called, starts, ends, cleans, serialize, happen_all}
use tradetrack_api.Number.Fixed.{ℤ, fixed_number}
use tradetrack_api.Store.{Trade}
use tradetrack_api.Store.Memory.{Memory, empty, memory_table}
use tradetrack_api.Tradelocker.Writer.{where_key}
use tradetrack_api.Tradelocker.Writer.Chained.{
  Write, opens, closes, row_task, AreTasks, in_turn, happen_all-in_turn,
}
use tradetrack_api.Tests.Data.{tradelocker_account, tradelocker_open, tradelocker_closed}
use tradetrack_api.Store.Chains.Order.{replay}
use tradetrack_api.Store.Chains.Serial.{happen_all-replay}

-- Tasks that add to what they read, and that double it.
abbrev adding : ℕ → Task ℕ ℕ
adding n = record { read = λ v. v; write = λ a v. a + n }

abbrev doubling : Task ℕ ℕ
doubling = record { read = λ v. v; write = λ a v. a * 2 }

-- Two calls of one key, the second started before the first is done, and a rejected one of another.
abbrev races : List (String × Event ℕ ℕ)
races =
    ("u:7", cleans 1)
    ∷ ("u:7", ends 1 true)
    ∷ ("u:7", starts 1)
    ∷ ("u:8", ends 0 false)
    ∷ ("u:7", cleans 0)
    ∷ ("u:7", ends 0 true)
    ∷ ("u:7", starts 1)
    ∷ ("u:8", starts 0)
    ∷ ("u:7", starts 0)
    ∷ ("u:7", called doubling)
    ∷ ("u:8", called doubling)
    ∷ ("u:7", called (adding 5))
    ∷ []

happen_all-replay_example :
    (happen_all races (λ k. 1) "u:7").value ≡ replay (happen_all races (λ k. 1) "u:7").calls 1
happen_all-replay_example = happen_all-replay races (λ k. 1) "u:7"

races-value : (happen_all races (λ k. 1) "u:7").value ≡ 12
unfolding serialize
races-value = refl

abbrev late_open : Write ℤ
late_open = opens tradelocker_open

abbrev final_close : Write ℤ
final_close = closes tradelocker_closed

abbrev Row : Type 0
Row = Option (Trade ℤ)

-- An open and the close of its position, called at once; the close is not started before the open is
-- written.
abbrev quick : List (String × Event Row Row)
quick =
    ("u1:8", ends 1 true)
    ∷ ("u1:8", starts 1)
    ∷ ("u1:8", cleans 0)
    ∷ ("u1:8", ends 0 true)
    ∷ ("u1:8", starts 1)
    ∷ ("u1:8", starts 0)
    ∷ ("u1:8", called (row_task tradelocker_account "8" final_close))
    ∷ ("u1:8", called (row_task tradelocker_account "8" late_open))
    ∷ []

abbrev no_table : Memory ℤ
no_table = empty

quick-AreTasks :
    AreTasks tradelocker_account "8"
      (happen_all quick (λ k. no_table (where_key "u1" "8")) "u1:8").calls
      (final_close ∷ late_open ∷ [])
unfolding serialize
quick-AreTasks = (refl, refl, (refl, refl, tt))

happen_all-in_turn_example :
    let lane = happen_all quick (λ k. no_table (where_key "u1" "8")) "u1:8" in
    lane.value
    ≡ in_turn tradelocker_account "8" lane.calls
        (final_close ∷ late_open ∷ [])
        no_table
        (where_key "u1" "8")
happen_all-in_turn_example =
    happen_all-in_turn tradelocker_account "8" quick "u1:8" (final_close ∷ late_open ∷ []) no_table
      quick-AreTasks
