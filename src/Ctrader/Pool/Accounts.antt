-- ===== src/Ctrader/Pool/Accounts.antt =====
-- src/ctrader/ctrader-connection-manager.ts: the loaded accounts, their signature, and which of the
-- accounts that share a ctid is kept.
use tradetrack_api.Prelude.{
  ℕ, ◌&&◌, String, str_eq, concat, Option, none, some, List, [], ◌∷◌, map, get, ◌++◌, set, ltb,
  value_or, if◌then◌else◌,
}
use tradetrack_api.Number.{JsNumber}
use tradetrack_api.Ctrader.Types.{demo, live, PoolAccount}
use tradetrack_api.Ctrader.Pool.{environment_text, ctid_key}

abbrev pub joined : List String → String
joined [] = ""
joined (s ∷ []) = s
joined (s ∷ t ∷ rest) = concat s (concat "|" (joined (t ∷ rest)))

module _ {F : Type 0} where
  abbrev pub token_freshness : PoolAccount F → ℕ
  token_freshness a = value_or 0 a.expires_at

  abbrev pub fresher : PoolAccount F → PoolAccount F → PoolAccount F
  fresher a b = if ltb (token_freshness a) (token_freshness b) then b else a

  -- The head of the stable sort by falling freshness.
  abbrev pub winner : PoolAccount F → List (PoolAccount F) → PoolAccount F
  winner a [] = a
  winner a (b ∷ rest) = winner (fresher a b) rest

  abbrev pub keep : List (PoolAccount F) → List (PoolAccount F)
  keep [] = []
  keep (a ∷ rest) = winner a rest ∷ []

module _ {F : Type 0} ⦃num : JsNumber F⦄ where
  abbrev pub key_of : PoolAccount F → String
  key_of a = ctid_key (environment_text a.environment) a.ctid_trader_account_id

  abbrev pub group_of : Option (List (PoolAccount F)) → List (PoolAccount F)
  group_of none = []
  group_of (some list) = list

  -- `byCtid`: a `Map` of lists.
  abbrev pub by_ctid :
      List (PoolAccount F)
      → List (String × List (PoolAccount F))
      → List (String × List (PoolAccount F))
  by_ctid [] groups = groups
  by_ctid (a ∷ rest) groups =
      by_ctid rest (set (key_of a) (group_of (get (key_of a) groups) ++ a ∷ []) groups)

  abbrev pub kept_of : List (String × List (PoolAccount F)) → List (PoolAccount F)
  kept_of [] = []
  kept_of ((k, list) ∷ groups) = keep list ++ kept_of groups

  unfoldable pub dedupe_by_ctid : List (PoolAccount F) → List (PoolAccount F)
  dedupe_by_ctid accounts = kept_of (by_ctid accounts [])

  -- `computeSignature`
  abbrev pub insert_by_ctid : PoolAccount F → List (PoolAccount F) → List (PoolAccount F)
  insert_by_ctid a [] = a ∷ []
  insert_by_ctid a (b ∷ rest) =
      if num.lt b.ctid_trader_account_id a.ctid_trader_account_id
      then b ∷ insert_by_ctid a rest
      else a ∷ b ∷ rest

  abbrev pub sort_by_ctid : List (PoolAccount F) → List (PoolAccount F)
  sort_by_ctid [] = []
  sort_by_ctid (a ∷ rest) = insert_by_ctid a (sort_by_ctid rest)

  abbrev pub fingerprint : PoolAccount F → String
  fingerprint a =
      concat (num.to_string a.ctid_trader_account_id) (
        concat ":"
          (concat a.token_id (concat ":" (num.to_string (num.of_nat (token_freshness a))))))

  unfoldable pub compute_signature : List (PoolAccount F) → String
  compute_signature accounts = joined (map fingerprint (sort_by_ctid accounts))

-- A row of `CtraderToken` with its account, as `loadAccounts` selects it.
pub record TokenRow (F : Type 0) : Type 0 where
  pub id : String
  pub trading_account_id : String
  pub ctid_trader_account_id : String
  pub access_token : String
  pub refresh_token : String
  pub expires_at : Option ℕ
  pub environment : String
  pub trading_account : Option (String × F)

module _ {F : Type 0} ⦃num : JsNumber F⦄ (decrypt : String → Option String) where
  abbrev pub decrypted :
      TokenRow F → String × F → Option String → Option String → List (PoolAccount F)
  decrypted t (user_id, nominal) none refresh = []
  decrypted t (user_id, nominal) (some access) none = []
  decrypted t (user_id, nominal) (some access) (some refresh) =
      record {
        token_id = t.id;
        trading_account_id = t.trading_account_id;
        ctid_trader_account_id = num.of_string t.ctid_trader_account_id;
        access_token = access;
        refresh_token = refresh;
        expires_at = t.expires_at;
        environment = if str_eq t.environment "live" then live else demo;
        user_id = user_id;
        nominal = nominal;
        symbol_names = none;
      }
      ∷ []

  abbrev pub linked : TokenRow F → Option (String × F) → List (PoolAccount F)
  linked t none = []
  linked t (some owner) = decrypted t owner (decrypt t.access_token) (decrypt t.refresh_token)

  abbrev pub load_token : TokenRow F → List (PoolAccount F)
  load_token t =
      let ctid = num.of_string t.ctid_trader_account_id in
      if num.is_finite ctid && num.lt (num.of_nat 0) ctid then linked t t.trading_account else []

  abbrev pub load_accounts : List (TokenRow F) → List (PoolAccount F)
  load_accounts [] = []
  load_accounts (t ∷ rest) = load_token t ++ load_accounts rest
