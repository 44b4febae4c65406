-- ===== src/Metaapi/Manager/Accounts.antt =====
-- The `TradingAccount` rows as src/metaapi/connection-manager.service.ts reads and writes them. The
-- database is a parameter: the two calls made on Prisma's `tradingAccount` delegate.
use mathlib.Core.Option
use tradetrack_api.Prelude.{
  ℕ, ◌≡◌, Bool, true, false, ◌&&◌, ◌||◌, not, String, str_eq, Option, none, some, List, [], ◌∷◌,
  ◌++◌, get, set, elem, field_of, if◌then◌else◌,
}
use tradetrack_api.Metaapi.Client.{Caught}
use tradetrack_api.Metaapi.Manager.Constants.{connecting, disconnecting, sync_method}

-- What a promise settles to.
pub data Reply (A : Type 0) : Type 0 where
  gave : A → Reply A
  threw : Caught → Reply A

-- A value of the Json column; an array or an object is carried as its text.
pub data Json : Type 0 where
  json_null : Json
  json_text : String → Json
  json_other : String → Json

pub record Credentials : Type 0 where
  pub email : String
  pub encrypted_password : String

-- The columns that the manager names.
pub record AccountRow (F : Type 0) : Type 0 where
  pub id : String
  pub user_id : String
  pub nominal : F
  pub terminal_type : String
  pub is_archived : Bool
  pub auto_sync_enabled : Bool
  pub terminal_account_id : Option String
  pub terminal_server : Option String
  pub terminal_integration_status : Option String
  pub terminal_sync_state : Option (List (String × Json))
  pub terminal_credentials : Option Credentials
  pub last_sync_at : Option ℕ

pub record ManagedAccount (F : Type 0) : Type 0 where
  pub trading_account_id : String
  pub user_id : String
  pub nominal : F
  pub meta_api_account_id : Option String
  pub login : String
  pub password : String
  pub server : String
  pub status : Option String
  pub backfill_from : Option ℕ
  pub sync_state : List (String × Json)

-- An update names a whole row; it rejects, and changes nothing, where there is none or where the
-- database fails.
pub record AccountTable (F T : Type 0) : Type 0 where
  pub row : T → String → Option (AccountRow F)
  pub find_many : T → (AccountRow F → Bool) → List (AccountRow F)
  pub update : T → String → (AccountRow F → AccountRow F) → Reply T
  pub row-update :
      (t t' : T) (id j : String) (change : AccountRow F → AccountRow F)
      → ((r : AccountRow F) → (change r).id ≡ r.id)
      → update t id change ≡ gave t'
      → row t' j ≡ (if str_eq id j then Option.map change (row t id) else row t j)

abbrev pub has_text : Option String → String → Bool
has_text none s = false
has_text (some x) s = str_eq x s

-- `terminalSyncState: { path: ['syncMethod'], equals: SYNC_METHOD }`.
abbrev pub text_of : Option Json → Option String
text_of (some (json_text s)) = some s
text_of _ = none

abbrev pub marked : Option (List (String × Json)) → Bool
marked state = has_text (text_of (field_of state (get "syncMethod"))) sync_method

abbrev pub in_users : List String → String → Bool
in_users [] id = true
in_users (u ∷ us) id = elem id (u ∷ us)

-- `mergeSyncState`: the row's own entries, and over them those of the patch.
abbrev pub spread : List (String × Json) → List (String × Json) → List (String × Json)
spread state [] = state
spread state ((k, v) ∷ patch) = spread (set k v state) patch

abbrev pub manageable : Option String → Bool
manageable none = true
manageable (some s) = str_eq s connecting || str_eq s disconnecting

abbrev pub sync_entries : Option (List (String × Json)) → List (String × Json)
sync_entries none = []
sync_entries (some state) = state

module _ {F : Type 0} where
  -- The `where` clause of `loadAccounts`.
  abbrev pub selected : List String → AccountRow F → Bool
  selected only_users r =
      str_eq r.terminal_type "mt5"
      && marked r.terminal_sync_state
      && (not r.is_archived || has_text r.terminal_integration_status disconnecting)
      && in_users only_users r.user_id

  abbrev pub merge_sync_state :
      ManagedAccount F → List (String × Json) → Option (List (String × Json))
  merge_sync_state account patch = some (spread account.sync_state patch)

  abbrev pub joined :
      Option (List (ManagedAccount F))
      → Option (List (ManagedAccount F))
      → Option (List (ManagedAccount F))
  joined none rest = none
  joined (some xs) none = none
  joined (some xs) (some ys) = some (xs ++ ys)

  -- One row: `none` where decryption throws, an empty list where the row is skipped. `decrypt` is
  -- that of src/crypto, `parse_date` is `Date.parse`, absent where that is NaN.
  module _ (decrypt : String → Option String) (parse_date : String → Option ℕ) where
    abbrev pub managed :
        AccountRow F → Credentials → String → Option String → Option (List (ManagedAccount F))
    managed r c server none = none
    managed r c server (some password) = some (
        record {
          trading_account_id = r.id;
          user_id = r.user_id;
          nominal = r.nominal;
          meta_api_account_id = r.terminal_account_id;
          login = c.email;
          password = password;
          server = server;
          status = r.terminal_integration_status;
          backfill_from =
              field_of (text_of (get "backfillFrom" (sync_entries r.terminal_sync_state)))
                parse_date;
          sync_state = sync_entries r.terminal_sync_state;
        }
        ∷ [])

    abbrev pub with_credentials :
        AccountRow F → Option Credentials → Option String → Option (List (ManagedAccount F))
    with_credentials r none server = some []
    with_credentials r (some c) none = some []
    with_credentials r (some c) (some server) =
        if str_eq server "" then some [] else managed r c server (decrypt c.encrypted_password)

    abbrev pub load_row : AccountRow F → Option (List (ManagedAccount F))
    load_row r =
        if manageable r.terminal_integration_status
        then with_credentials r r.terminal_credentials r.terminal_server
        else some []

    abbrev pub load_rows : List (AccountRow F) → Option (List (ManagedAccount F))
    load_rows [] = some []
    load_rows (r ∷ rs) = joined (load_row r) (load_rows rs)

    unfoldable pub load_accounts :
        {T : Type 0} ⦃accounts : AccountTable F T⦄
        → List String
        → T
        → Option (List (ManagedAccount F))
    load_accounts ⦃accounts⦄ only_users t = load_rows (accounts.find_many t (selected only_users))
