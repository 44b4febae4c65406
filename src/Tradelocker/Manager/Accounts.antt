-- ===== src/Tradelocker/Manager/Accounts.antt =====
-- The accounts that src/tradelocker/connection-manager.service.ts manages, and the tokens of
-- src/tradelocker/client.ts that are matched to them. The database's `findMany`, `decrypt` of
-- src/crypto and JavaScript's functions on texts are parameters.
pub mod Loaded
use tradetrack_api.Prelude.{
  ℕ, ◌≡◌, Bool, true, false, ◌&&◌, ◌||◌, not, String, str_eq, concat, Option, none, some, List, [],
  ◌∷◌, value_or, elem, All, if◌then◌else◌,
}

pub data Environment : Type 0 where
  demo live : Environment

abbrev pub environment_text : Environment → String
environment_text demo = "demo"
environment_text live = "live"

-- `TRADELOCKER_STREAM_HOSTS` and `TRADELOCKER_AUTH_HOSTS`.
abbrev pub stream_host : Environment → String
stream_host demo = "wss://api.tradelocker.com"
stream_host live = "wss://api.tradelocker.com"

abbrev pub auth_host : Environment → String
auth_host demo = "https://demo.tradelocker.com"
auth_host live = "https://live.tradelocker.com"

pub record ManagedAccount (F : Type 0) : Type 0 where
  pub trading_account_id : String
  pub user_id : String
  pub nominal : F
  pub account_id : String
  pub acc_num : String
  pub server : String
  pub environment : Environment
  pub email : String
  pub password : String
  pub signature : String

pub record Credentials : Type 0 where
  pub email : String
  pub encrypted_password : String

-- The columns of `TradingAccount` that the manager reads.
pub record AccountRow (F : Type 0) : Type 0 where
  pub id : String
  pub user_id : String
  pub nominal : F
  pub terminal_type : String
  pub is_archived : Bool
  pub terminal_account_id : Option String
  pub terminal_acc_num : Option String
  pub terminal_server : Option String
  pub terminal_environment : Option String
  pub terminal_integration_status : Option String
  pub terminal_credentials : Option Credentials

-- The rows that a `where` selects all satisfy it.
pub record AccountRows (F T : Type 0) : Type 0 where
  pub find_many : T → (AccountRow F → Bool) → List (AccountRow F)
  pub find_many-All :
      (t : T) (test : AccountRow F → Bool) → All (λ r. test r ≡ true) (find_many t test)

abbrev pub has_text : Option String → String → Bool
has_text none s = false
has_text (some x) s = str_eq x s

-- A text that is there and is not empty.
abbrev pub truthy : Option String → Option String
truthy none = none
truthy (some s) = if str_eq s "" then none else some s

abbrev pub in_users : List String → String → Bool
in_users [] id = true
in_users (u ∷ us) id = elem id (u ∷ us)

abbrev pub is_stopped_status : Option String → Bool
is_stopped_status status = has_text status "deactivated" || has_text status "paused_inactive"

abbrev pub environment_of : Option String → Environment
environment_of text = if has_text text "live" then live else demo

abbrev pub signature_of : String → String → String → Environment → String → String
signature_of account_id acc_num server environment email = concat account_id (
    concat ":" (
      concat acc_num (
        concat ":"
          (concat server (concat ":" (concat (environment_text environment) (concat ":" email)))))))

-- `groupKey`: the accounts of a login.
unfoldable pub group_key : {F : Type 0} → ManagedAccount F → String
group_key a =
    concat (environment_text a.environment) (concat "::" (concat a.server (concat "::" a.email)))

abbrev pub trimmed : (String → String) → Option String → Option String
trimmed trim none = none
trimmed trim (some s) = truthy (some (trim s))

module _ {F : Type 0} where
  -- The `where` clause of `loadAccounts`.
  abbrev pub selected : List String → AccountRow F → Bool
  selected only_users r =
      str_eq r.terminal_type "tradelocker" && not r.is_archived && in_users only_users r.user_id

  abbrev pub account_of :
      AccountRow F → Credentials → String → String → String → String → ManagedAccount F
  account_of r c account_id server password acc_num =
      let environment = environment_of r.terminal_environment in
      record {
        trading_account_id = r.id;
        user_id = r.user_id;
        nominal = r.nominal;
        account_id = account_id;
        acc_num = acc_num;
        server = server;
        environment = environment;
        email = c.email;
        password = password;
        signature = signature_of account_id acc_num server environment c.email;
      }

module _ {F : Type 0} (decrypt : String → Option String) (trim : String → String) where
  abbrev pub with_acc_num :
      AccountRow F
      → Credentials
      → String
      → String
      → String
      → Option String
      → List (ManagedAccount F)
      → List (ManagedAccount F)
  with_acc_num r c account_id server password none accounts = accounts
  with_acc_num r c account_id server password (some acc_num) accounts =
      account_of r c account_id server password acc_num ∷ accounts

  -- A password that is not decrypted passes over the row.
  abbrev pub with_password :
      AccountRow F
      → Credentials
      → String
      → String
      → Option String
      → List (ManagedAccount F)
      → List (ManagedAccount F)
  with_password r c account_id server none accounts = accounts
  with_password r c account_id server (some password) accounts =
      with_acc_num r c account_id server password (trimmed trim r.terminal_acc_num) accounts

  abbrev pub with_identity :
      AccountRow F
      → Option Credentials
      → Option String
      → Option String
      → List (ManagedAccount F)
      → List (ManagedAccount F)
  with_identity r (some c) (some account_id) (some server) accounts =
      with_password r c account_id server (decrypt c.encrypted_password) accounts
  with_identity r _ _ _ accounts = accounts

  -- One row, before the accounts of the rows after it.
  abbrev pub load_row : AccountRow F → List (ManagedAccount F) → List (ManagedAccount F)
  load_row r accounts =
      if is_stopped_status r.terminal_integration_status
      then accounts
      else with_identity r r.terminal_credentials (truthy r.terminal_account_id)
          (truthy r.terminal_server) accounts

  abbrev pub load_rows : List (AccountRow F) → List (ManagedAccount F)
  load_rows [] = []
  load_rows (r ∷ rs) = load_row r (load_rows rs)

  -- `only_users` is the list that `TRADELOCKER_ONLY_USER_IDS` gives, empty where it is not set.
  unfoldable pub load_accounts :
      {T : Type 0} ⦃rows : AccountRows F T⦄ → List String → T → List (ManagedAccount F)
  load_accounts ⦃rows⦄ only_users t = load_rows (rows.find_many t (selected only_users))

pub record AccountToken : Type 0 where
  pub access_token : String
  pub account_id : String
  pub brand_id : String
  pub expires_at : Option ℕ
  pub host : Option String

-- `value.replace(/^[A-Za-z]+#/, '')`, `.replace(/^0+/, '')`, `.trim()` and `.toLowerCase()`.
pub record Texts : Type 0 where
  pub strip_prefix : String → String
  pub strip_zeros : String → String
  pub trim : String → String
  pub to_lower_case : String → String

module _ (texts : Texts) where
  open texts use {strip_prefix, strip_zeros}

  unfoldable pub normalize_account_id : String → String
  normalize_account_id value =
      if str_eq value ""
      then ""
      else texts.to_lower_case (texts.trim (strip_zeros (strip_prefix value)))

  abbrev pub filled : List String → List String
  filled [] = []
  filled (s ∷ ss) = if str_eq s "" then filled ss else s ∷ filled ss

  abbrev pub normalized : List String → List String
  normalized [] = []
  normalized (s ∷ ss) = normalize_account_id s ∷ normalized ss

  abbrev pub find_token : List String → List AccountToken → Option AccountToken
  find_token exact [] = none
  find_token exact (t ∷ ts) =
      if elem t.account_id exact || elem (normalize_account_id t.account_id) (normalized exact)
      then some t
      else find_token exact ts

  unfoldable pub match_token :
      {F : Type 0} → List AccountToken → ManagedAccount F → Option AccountToken
  match_token tokens account =
      find_token (filled (account.account_id ∷ account.acc_num ∷ [])) tokens
