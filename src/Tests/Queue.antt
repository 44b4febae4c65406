-- ===== src/Tests/Queue.antt =====
-- The queue of the candle store at concrete jobs.
use mathlib.Core.Option
use tradetrack_api.Prelude.{
  ℕ, suc, inl, inr, Bool-cases, ◌+◌, ◌≡◌, refl, ◌≤◌, ◌<◌, false, none, some, List, [], ◌∷◌, arith,
  get_elem?,
}
use tradetrack_api.Number.Fixed.{ℤ, fixed_number}
use tradetrack_api.Candles.Archive.{Archive, no_such_key}
use tradetrack_api.Candles.Jobs.{pending, running, same_status, Job, JobKey, same_job}
use tradetrack_api.Candles.Jobs.Memory.{Slot, slot_table}
use tradetrack_api.Candles.Ingest.{ingest}
use tradetrack_api.Candles.Worker.{Chunk, written, ChunkTable, claim_next, claim_update, run_job}
use tradetrack_api.Candles.Worker.Drain.{Pass, drain}
use tradetrack_api.Candles.Worker.Covered.{Covers}
use tradetrack_api.Candles.Worker.Drained.{NoRepeat, IsExhausted, drain-ends}
use tradetrack_api.Candles.Lanes.{Lanes, start, resume, no_step, one_more}
use tradetrack_api.Candles.Lanes.Places.{waiting_lanes}
use tradetrack_api.Candles.Lanes.Complete.{resume_complete}
use tradetrack_api.Candles.Worker.Settle.{ending, final_status, final_attempts, run_job-settles}

-- A day of EURUSD that waits, and an archive without files.
abbrev day_key : JobKey
day_key = record { symbol = "EURUSD"; resolution = "1m"; bucket_start = 0 }

abbrev due : Job
due = record {
  key = day_key;
  status = pending;
  attempts = 0;
  last_error = none;
  created_at = 100;
  updated_at = 100;
}

abbrev no_files : Archive
no_files = record {
  get_object = λ key. no_such_key;
  decompress_file = λ bytes. none;
  text_of = λ n. "0";
}

instance abbrev chunk_list : ChunkTable ℤ (List (JobKey × Chunk ℤ))
chunk_list = record { upsert_chunk = λ s k c. written ((k, c) ∷ s) }

abbrev no_chunks : List (JobKey × Chunk ℤ)
no_chunks = []

abbrev queue : Slot
queue = some due

run_job-settles_example :
    (r after : Job) × (slot_table.row queue day_key ≡ some r)
    × (slot_table.row
          (run_job ℤ no_files 200000000
            (claim_update due)
            ((claim_next 1000 [] queue).0, no_chunks)).0
          day_key
        ≡ some after)
    × (let end = ending day_key no_chunks (ingest {F = ℤ} no_files 200000000 day_key) in
        (after.status ≡ final_status r.attempts end)
        × (after.attempts ≡ final_attempts r.attempts end)
        × (same_status after.status running ≡ false))
unfolding claim_next
run_job-settles_example =
    run_job-settles ℤ no_files 1000 200000000 [] queue no_chunks (claim_update due) refl

queue-Covers : Covers (day_key ∷ []) queue
queue-Covers k r at = elim (Bool-cases (same_job day_key k)) [
  | inl e ↦ rw (e) refl
  | inr e ↦ absurd (Option.none-ne-some r (rw (e) at at))
]

drain-ends_example :
    (q : Pass Slot (List (JobKey × Chunk ℤ))) × (drain ℤ no_files
        (λ n. 200000000 + n)
        2
        queue
        no_chunks
      ≡ some q)
    × NoRepeat q.seen
    × IsExhausted (λ n. 200000000 + n) q
drain-ends_example =
    drain-ends ℤ no_files (λ n. 200000000 + n) (day_key ∷ []) queue no_chunks queue-Covers

-- Two lanes over three items; the second lane is the first to go on.
abbrev items : List ℕ
items = 5 ∷ 6 ∷ 7 ∷ []

abbrev all_done : Lanes ℕ
all_done = resume suc items 0 0 (resume suc items 1 2 (resume suc items 1 1 (start suc items 2)))

resume_complete_example :
    (3 ≤ 3)
    × (waiting_lanes all_done.lanes ≡ 0
        → (◌≡◌ {A = ℕ} 3 3)
          × ((k : ℕ) → k < 3 → all_done.out k ≡ Option.map suc (get_elem? items k)))
unfolding start resume
resume_complete_example =
    resume_complete suc items 2 3 all_done (omega arith)
      (one_more 2 _ 0 0 (one_more 1 _ 1 2 (one_more 0 _ 1 1 no_step refl) refl) refl)
