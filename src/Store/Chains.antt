-- ===== src/Store/Chains.antt =====
-- The `serialize` chains of src/metaapi/trade-writer.service.ts,
-- src/tradelocker/trade-writer.service.ts and src/ctrader/trade-writer.service.ts: what the `chains`
-- map holds under each key, and the calls made with it.
pub mod Order
pub mod Focus
pub mod Serial
use tradetrack_api.Prelude.{
  ℕ, ◌==◌, Bool, true, false, String, str_eq, Option, none, some, List, [], ◌∷◌, length,
  if◌then◌else◌,
}

-- A task reads its row, and on what it read writes the row; the two are database calls of their own.
pub record Task (A V : Type 0) : Type 0 where
  pub read : V → A
  pub write : A → V → V

-- A call: not started, between its read and its write, settled, and settled with the tail's cleanup
-- run. A settled task wrote its row, or was rejected before it did.
pub data Phase (A : Type 0) : Type 0 where
  waiting : Phase A
  holding : A → Phase A
  settled : Bool → Phase A
  cleaned : Bool → Phase A

-- `previous.then(task)`: `after` is the tail it waits for, absent where the map had none. A promise
-- is named by the number of calls made before it with the same key.
pub record Call (A V : Type 0) : Type 0 where
  pub task : Task A V
  pub after : Option ℕ
  pub phase : Phase A

-- Under one key: the map's entry, the calls, latest first, and the row.
pub record Lane (A V : Type 0) : Type 0 where
  pub chain : Option ℕ
  pub calls : List (Call A V)
  pub value : V

abbrev pub without_tail : ℕ → Option ℕ → Option ℕ
without_tail id none = none
without_tail id (some tail) = if tail == id then none else some tail

abbrev pub is_cleaned : {A : Type 0} → Option (Phase A) → Bool
is_cleaned (some (cleaned done)) = true
is_cleaned _ = false

module _ {A V : Type 0} where
  abbrev pub phase_of : ℕ → List (Call A V) → Option (Phase A)
  phase_of id [] = none
  phase_of id (c ∷ cs) = if length cs == id then some c.phase else phase_of id cs

  abbrev pub set_phase : ℕ → Phase A → List (Call A V) → List (Call A V)
  set_phase id p [] = []
  set_phase id p (c ∷ cs) =
      if length cs == id then record c { phase = p } ∷ cs else c ∷ set_phase id p cs

  -- `Promise.resolve()`, or a tail that has settled.
  abbrev pub is_ready : Option ℕ → List (Call A V) → Bool
  is_ready none cs = true
  is_ready (some id) cs = is_cleaned (phase_of id cs)

  unfoldable pub serialize : Task A V → Lane A V → Lane A V
  serialize task lane = record lane {
    chain = some (length lane.calls);
    calls = record { task = task; after = lane.chain; phase = waiting } ∷ lane.calls;
  }

  -- The call with a number, if there is one.
  abbrev pub call_of : ℕ → List (Call A V) → Option (Call A V)
  call_of id [] = none
  call_of id (c ∷ cs) = if length cs == id then some c else call_of id cs

  abbrev pub started : ℕ → Call A V → Phase A → Lane A V → Lane A V
  started id c waiting lane =
      if is_ready c.after lane.calls
      then record lane { calls = set_phase id (holding (c.task.read lane.value)) lane.calls }
      else lane
  started id c _ lane = lane

  -- The task settles: with its write, or rejected.
  abbrev pub ended : ℕ → Bool → Call A V → Phase A → Lane A V → Lane A V
  ended id true c (holding a) lane = record lane {
    calls = set_phase id (settled true) lane.calls;
    value = c.task.write a lane.value;
  }
  ended id false c (holding a) lane = record lane {
    calls = set_phase id (settled false) lane.calls;
  }
  ended id done c _ lane = lane

  -- The `finally` of the tail: the map's entry is deleted where it is still this tail.
  abbrev pub cleaned_up : ℕ → Phase A → Lane A V → Lane A V
  cleaned_up id (settled done) lane = record lane {
    chain = without_tail id lane.chain;
    calls = set_phase id (cleaned done) lane.calls;
  }
  cleaned_up id _ lane = lane

-- What happens to the calls, in any order.
pub data Event (A V : Type 0) : Type 0 where
  called : Task A V → Event A V
  starts : ℕ → Event A V
  ends : ℕ → Bool → Event A V
  cleans : ℕ → Event A V

module _ {A V : Type 0} where
  abbrev pub started_call : ℕ → Lane A V → Option (Call A V) → Lane A V
  started_call id lane none = lane
  started_call id lane (some c) = started id c c.phase lane

  abbrev pub ended_call : ℕ → Bool → Lane A V → Option (Call A V) → Lane A V
  ended_call id done lane none = lane
  ended_call id done lane (some c) = ended id done c c.phase lane

  abbrev pub cleaned_call : ℕ → Lane A V → Option (Call A V) → Lane A V
  cleaned_call id lane none = lane
  cleaned_call id lane (some c) = cleaned_up id c.phase lane

  abbrev pub happen : Event A V → Lane A V → Lane A V
  happen (called task) lane = serialize task lane
  happen (starts id) lane = started_call id lane (call_of id lane.calls)
  happen (ends id done) lane = ended_call id done lane (call_of id lane.calls)
  happen (cleans id) lane = cleaned_call id lane (call_of id lane.calls)

  abbrev pub empty : V → Lane A V
  empty v = record { chain = none; calls = []; value = v }

  -- The lane of each key, after events that name their key.
  abbrev pub happen_all : List (String × Event A V) → (String → V) → String → Lane A V
  happen_all [] v k = empty (v k)
  happen_all ((j, e) ∷ es) v k =
      let lane = happen_all es v k in if str_eq j k then happen e lane else lane
