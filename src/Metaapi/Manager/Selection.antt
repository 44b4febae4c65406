-- ===== src/Metaapi/Manager/Selection.antt =====
-- Which rows `loadAccounts` (src/metaapi/connection-manager.service.ts) manages, and the shared
-- `terminalSyncState`.
use mathlib.Core.Option
use mathlib.Core.List
use tradetrack_api.Prelude.{
  get-set_cases, ℕ, ◌≡◌, refl, ap, ◌∙◌, Bool, true, false, ◌&&◌, not, String, str_eq, Option, none,
  some, List, [], ◌∷◌, map, get, set, coalesce, is_some, if◌then◌else◌,
}
use tradetrack_api.Metaapi.Manager.Accounts.{
  Json, Credentials, AccountRow, ManagedAccount, manageable, spread,
}

-- The entry that a patch gives a key: the last one.
abbrev pub patched : String → List (String × Json) → Option Json
patched k [] = none
patched k ((j, v) ∷ p) = coalesce (patched k p) (if str_eq j k then some v else none)

coalesce_assoc {ℓ} :
    {A : Type ℓ} (a b c : Option A) → coalesce a (coalesce b c) ≡ coalesce (coalesce a b) c
coalesce_assoc none b c = refl
coalesce_assoc (some a) b c = refl

coalesce_if :
    (b : Bool) (v : Json) (o : Option Json)
    → (if b then some v else o) ≡ coalesce (if b then some v else none) o
coalesce_if true v o = refl
coalesce_if false v o = refl

-- Merging a patch into the shared column sets the keys of the patch and keeps every other entry.
pub spread-get :
    (k : String) (state patch : List (String × Json))
    → get k (spread state patch) ≡ coalesce (patched k patch) (get k state)
spread-get k state [] = refl
spread-get k state ((j, v) ∷ p) =
    spread-get k (set j v state) p
    ∙ ap (coalesce (patched k p))
        (get-set_cases k j v state ∙ coalesce_if (str_eq j k) v (get k state))
    ∙ coalesce_assoc (patched k p) _ (get k state)

abbrev pub has_server : Option String → Bool
has_server none = false
has_server (some s) = not (str_eq s "")

module _ {F : Type 0} where
  -- A row that the manager may act on.
  abbrev pub is_manageable : AccountRow F → Bool
  is_manageable r =
      manageable r.terminal_integration_status
      && is_some r.terminal_credentials
      && has_server r.terminal_server

  abbrev pub manageable_rows : List (AccountRow F) → List (AccountRow F)
  manageable_rows [] = []
  manageable_rows (r ∷ rs) = if is_manageable r then r ∷ manageable_rows rs else manageable_rows rs

  abbrev pub row_view : AccountRow F → String × Option String × Option String
  row_view r = (r.id, r.terminal_integration_status, r.terminal_account_id)

  abbrev pub account_view : ManagedAccount F → String × Option String × Option String
  account_view a = (a.trading_account_id, a.status, a.meta_api_account_id)

  -- The password that the row holds, if any, can be decrypted.
  abbrev pub IsReadable : (String → Option String) → AccountRow F → Type 0
  IsReadable decrypt r =
      (c : Credentials)
      → r.terminal_credentials ≡ some c
      → (password : String) × (decrypt c.encrypted_password ≡ some password)

  abbrev one_row : Bool → AccountRow F → List (String × Option String × Option String)
  one_row b r = if b then row_view r ∷ [] else []

  abbrev views :
      Option (List (ManagedAccount F)) → Option (List (String × Option String × Option String))
  views = Option.map (map account_view)

  module _ (decrypt : String → Option String) (parse_date : String → Option ℕ) where
    -- A row that must be read, where `guard` says whether it is manageable, can be.
    abbrev Readable : Bool → AccountRow F → Type 0
    Readable guard r = guard ≡ true → IsReadable decrypt r
