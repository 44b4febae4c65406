-- ===== src/Candles/Jobs.antt =====
-- The `CandleIngestJob` rows (prisma/schema.prisma) as src/candles/ingest-worker.service.ts uses
-- them. The table is a parameter: the two calls that the worker makes, with what Prisma documents.
pub mod Memory
use mathlib.Core.Option
use tradetrack_api.Prelude.{
  ℕ, ◌≡◌, refl, ◌≤◌, ◌==◌, Bool, true, false, ◌&&◌, String, str_eq, str_eq_refl, Option, none, some,
  if◌then◌else◌, ==_refl, ==→eq, str_eq_iff, arith,
}

pub data Status : Type 0 where
  pending running done failed : Status

abbrev pub same_status : Status → Status → Bool
same_status pending pending = true
same_status running running = true
same_status done done = true
same_status failed failed = true
same_status _ _ = false

pub record JobKey : Type 0 where
  pub symbol : String
  pub resolution : String
  pub bucket_start : ℕ

abbrev pub same_job : JobKey → JobKey → Bool
same_job a b =
    str_eq a.symbol b.symbol
    && str_eq a.resolution b.resolution
    && (a.bucket_start == b.bucket_start)

pub same_job_refl : (k : JobKey) → same_job k k ≡ true
same_job_refl k = rw (str_eq_refl k.symbol, str_eq_refl k.resolution, ==_refl k.bucket_start)

pub same_job→eq : (a b : JobKey) → same_job a b ≡ true → a ≡ b
same_job→eq a b e =
    let parts : (str_eq a.symbol b.symbol ≡ true)
        × (str_eq a.resolution b.resolution ≡ true)
        × (a.bucket_start == b.bucket_start ≡ true) =
      ground arith in
    let symbol = (str_eq_iff a.symbol b.symbol).0 parts.0 in
    let resolution = (str_eq_iff a.resolution b.resolution).0 parts.1 in
    let start = ==→eq a.bucket_start b.bucket_start parts.2 in cc

pub record Job : Type 0 where
  pub key : JobKey
  pub status : Status
  pub attempts : ℕ
  pub last_error : Option String
  pub created_at : ℕ
  pub updated_at : ℕ

abbrev pub matches : (Job → Bool) → Option Job → ℕ
matches test none = 0
matches test (some r) = if test r then 1 else 0

pub record JobTable (T : Type 0) : Type 0 where
  -- The row of a primary key.
  pub row : T → JobKey → Option Job
  -- `findFirst` ordered by `createdAt`.
  pub find_first : T → (Job → Bool) → Option Job
  -- `updateMany` whose `where` names a whole key and a condition, at a time `now`: the rows after
  -- it, and the count. Prisma sets `updatedAt`. The law is about an update that keeps the key.
  pub update_many : T → ℕ → JobKey → (Job → Bool) → (Job → Job) → T × ℕ
  pub find_first-some :
      (t : T) (test : Job → Bool) (r : Job)
      → find_first t test ≡ some r
      → (row t r.key ≡ some r)
        × (test r ≡ true)
        × ((k : JobKey) (s : Job) → row t k ≡ some s → test s ≡ true → r.created_at ≤ s.created_at)
  pub find_first-none :
      (t : T) (test : Job → Bool)
      → find_first t test ≡ none
      → (k : JobKey) (s : Job) → row t k ≡ some s
      → test s ≡ false
  pub row-update_many :
      (t : T) (now : ℕ) (k j : JobKey) (test : Job → Bool) (update : Job → Job)
      → ((r : Job) → (update r).key ≡ r.key)
      → row (update_many t now k test update).0 j ≡ (
          if same_job k j
          then Option.map
              (λ r. if test r then record (update r) { updated_at = now } else r)
              (row t k)
          else row t j)
  pub count-update_many :
      (t : T) (now : ℕ) (k : JobKey) (test : Job → Bool) (update : Job → Job)
      → (update_many t now k test update).1 ≡ matches test (row t k)
