-- ===== src/Tests/Lifecycle.antt =====
-- The life cycle of a MetaApi account, with one row and the cloud in memory.
use mathlib.Core.Bool.{true≢false}
use mathlib.Core.Option
use tradetrack_api.Prelude.{
  ◌≡◌, refl, sym, ap, true, false, String, Option, none, some, List, [], ◌∷◌, ◌++◌, get, elem, inl,
  inr,
}
use tradetrack_api.Number.Fixed.{ℤ, pos}
use tradetrack_api.Metaapi.Client.{
  shape, unexpected, Caught, classify_meta_api_error, collect_codes,
}
use tradetrack_api.Metaapi.Manager.Accounts.{
  json_text, json_other, gave, AccountRow, ManagedAccount, AccountTable,
}
use tradetrack_api.Metaapi.Manager.Cloud.{CloudAccount, truthy, is_not_found, destroy_cloud_account}
use tradetrack_api.Metaapi.Manager.Gone.{destroy_cloud_account-gone}
use tradetrack_api.Metaapi.Manager.World.{World}
use tradetrack_api.Metaapi.Manager.Memory.{Rows, Accounts, memory_accounts, memory_cloud, put}
use tradetrack_api.Metaapi.Manager.Failure.{handle_failure, give_up, teardown}
use tradetrack_api.Metaapi.Manager.Billing.{IsSafe, handle_failure-IsSafe}
use tradetrack_api.Metaapi.Manager.Torn.{resolved, IsTornDown, teardown-IsTornDown}
use tradetrack_api.Metaapi.Manager.Attempts.{failures, failures-give_up}
use tradetrack_api.Metaapi.Manager.Ensure.{Moment, before, create_call, Setting, ensure_account}
use tradetrack_api.Metaapi.Manager.Open.{open_account}
use tradetrack_api.Metaapi.Manager.Held.{IsSettled}
use tradetrack_api.Metaapi.Manager.Opened.{open_account-IsSettled}
use tradetrack_api.Metaapi.Manager.Reconcile.{sweep}
use tradetrack_api.Metaapi.Manager.Sweep.{sweep-Forgets}

instance abbrev rows : AccountTable ℤ (Rows ℤ)
rows = memory_accounts "a1"

-- A row that the web app has just marked for MetaApi.
abbrev new_row : AccountRow ℤ
new_row = record {
  id = "a1";
  user_id = "u1";
  nominal = pos 100000000;
  terminal_type = "mt5";
  is_archived = false;
  auto_sync_enabled = true;
  terminal_account_id = none;
  terminal_server = some "Broker-Live";
  terminal_integration_status = some "connecting";
  terminal_sync_state =
      some (("syncMethod", json_text "metaapi") ∷ ("eaLastSeenAt", json_other "1") ∷ []);
  terminal_credentials = some (record { email = "12345"; encrypted_password = "x" });
  last_sync_at = none;
}

abbrev added_account : ManagedAccount ℤ
added_account = record {
  trading_account_id = "a1";
  user_id = "u1";
  nominal = pos 100000000;
  meta_api_account_id = none;
  login = "12345";
  password = "x";
  server = "Broker-Live";
  status = some "connecting";
  backfill_from = none;
  sync_state = ("syncMethod", json_text "metaapi") ∷ ("eaLastSeenAt", json_other "1") ∷ [];
}

abbrev known_account : ManagedAccount ℤ
known_account = record added_account { meta_api_account_id = some "tradetrack-a1" }

abbrev one_row : Rows ℤ
one_row = put "a1" (some new_row) (λ id. none)

abbrev deployed : Accounts
deployed =
    put "tradetrack-a1"
      (some (record { id = "tradetrack-a1"; name = "tradetrack-a1"; state = "DEPLOYED" }))
      (λ id. none)

abbrev world : Accounts → World (Rows ℤ) Accounts
world c = record {
  table = one_row;
  cloud = c;
  sessions = [];
  backoff = [];
  opening = [];
  generation = 0;
  stopped = false;
  retries = [];
}

destroy_cloud_account-gone_example :
    memory_cloud.present (destroy_cloud_account "tradetrack-a1" deployed).1 "tradetrack-a1" ≡ false
unfolding destroy_cloud_account
destroy_cloud_account-gone_example = destroy_cloud_account-gone "tradetrack-a1" deployed refl

teardown-IsTornDown_example :
    IsTornDown one_row
      (resolved known_account (truthy known_account.meta_api_account_id) deployed)
      (teardown known_account (world deployed))
teardown-IsTornDown_example = teardown-IsTornDown known_account (world deployed)

-- A refused password.
abbrev refused : Caught
refused = shape (record { status = none; code = some "E_AUTH"; error = none; details = [] })

handle_failure-IsSafe_example :
    IsSafe
      (some "tradetrack-a1")
      one_row
      (handle_failure known_account (some "refused") refused (world deployed))
unfolding classify_meta_api_error collect_codes
handle_failure-IsSafe_example =
    handle_failure-IsSafe known_account (some "refused") refused (world deployed)
      (λ e. absurd (true≢false (sym (ap is_not_found e))))

-- A rejected token of the service, and seven timeouts around it.
abbrev unauthorized : Caught
unauthorized = shape (record { status = some 401; code = none; error = none; details = [] })

abbrev timeouts : List (Option String × Caught)
timeouts =
    (none, unexpected)
    ∷ (none, unexpected)
    ∷ (none, unexpected)
    ∷ (none, unauthorized)
    ∷ (none, unexpected)
    ∷ (none, unexpected)
    ∷ (none, unexpected)
    ∷ (none, unexpected)
    ∷ []

failures-give_up_example :
    (u : World (Rows ℤ) Accounts) × (u.table ≡ one_row)
    × (u.cloud ≡ deployed)
    × (failures known_account (timeouts ++ (none, unexpected) ∷ []) (world deployed)
        ≡ give_up known_account u)
unfolding classify_meta_api_error
failures-give_up_example =
    failures-give_up known_account timeouts none unexpected (world deployed) refl
      (
        inl refl,
        (inl refl, (inl refl, (inr refl, (inl refl, (inl refl, (inl refl, (inl refl, tt))))))),
      )
      refl refl

abbrev quiet : Setting ℤ (Rows ℤ) Accounts
quiet = record {
  now = 1000;
  now_text = "2026-01-01T00:00:00.000Z";
  region = none;
  message_of = λ e. none;
  backfill = λ a c. (gave tt, c);
  others = λ m w. w;
}

open_account-IsSettled_example :
    (elem "a1" (open_account quiet added_account (world (λ id. none))).opening ≡ false)
    × IsSettled ℤ "a1" 1 (open_account quiet added_account (world (λ id. none)))
open_account-IsSettled_example =
    open_account-IsSettled quiet added_account
      (record {
        keeps_session = λ m w. refl;
        keeps_backoff = λ m w. refl;
        keeps_row = λ m w. refl;
        keeps_running = λ m w. refl;
      })
      (world (λ id. none)) refl refl

-- A session of an account that the selection has lost.
abbrev lost : World (Rows ℤ) Accounts
lost = record (world deployed) {
  sessions =
      (
        "a9",
        record {
          generation = 1;
          meta_api_account_id = some "tradetrack-a1";
          live = some "tradetrack-a1";
        },
      )
      ∷ [];
}

abbrev after_sweep : World (Rows ℤ) Accounts
after_sweep = record lost {
  sessions = [];
  cloud = (destroy_cloud_account "tradetrack-a1" deployed).1;
}

sweep-Forgets_example : get "a9" after_sweep.sessions ≡ none
unfolding sweep
sweep-Forgets_example = sweep-Forgets "a9" ("a1" ∷ []) lost after_sweep refl refl

-- A teardown that the service runs while `createAccount` is awaited: it finds no account by the name,
-- and hides the row; the account that is then created stays, and nothing holds a session for it.
abbrev teardown_meanwhile : Moment → World (Rows ℤ) Accounts → World (Rows ℤ) Accounts
teardown_meanwhile (before create_call) w = teardown added_account w
teardown_meanwhile _ w = w

abbrev raced : World (Rows ℤ) Accounts
raced =
    open_account (record quiet { others = teardown_meanwhile }) added_account (world (λ id. none))

status_of : Option (AccountRow ℤ) → Option String
status_of none = none
status_of (some r) = r.terminal_integration_status

state_of : Option CloudAccount → Option String
state_of none = none
state_of (some a) = some a.state

open_account-race :
    (status_of (raced.table "a1") ≡ some "deactivated")
    × (state_of (raced.cloud "tradetrack-a1") ≡ some "DEPLOYING")
    × (get "a1" raced.sessions ≡ none)
unfolding open_account ensure_account teardown destroy_cloud_account status_of state_of
open_account-race = (refl, refl, refl)
