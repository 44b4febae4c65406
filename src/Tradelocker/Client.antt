-- ===== src/Tradelocker/Client.antt =====
-- src/tradelocker/client.ts: the logins. HTTP, `JSON.parse` and the reading of a JWT are parameters: a
-- reply comes with its status, its text, and what the text parses to; a body `null`, whose fields throw,
-- counts as one that does not parse. `is_date` says whether a number is a time that `Date` can hold.
use tradetrack_api.Prelude.{
  ℕ, ◌==◌, ◌&&◌, ◌||◌, not, Bool, String, str_eq, Option, none, some, List, [], ◌∷◌, if◌then◌else◌,
}
use tradetrack_api.Number.{JsNumber}
use tradetrack_api.Trades.{le}
use tradetrack_api.Tradelocker.Manager.Accounts.{AccountToken}

-- 400, 401 and 403: the credentials or the account are rejected.
abbrev pub is_fatal_status : ℕ → Bool
is_fatal_status status = status == 400 || status == 401 || status == 403

-- `RawAccountToken`: an access token that is a text, the ids as their texts, the expiry as a number.
pub record RawAccountToken (F : Type 0) : Type 0 where
  pub access_token : Option String
  pub account_id : Option String
  pub brand_id : Option String
  pub expire_date : Option F

-- A body `{ data: rows }`, `{ data: { data: rows } }`, or another.
pub data Container (F : Type 0) : Type 0 where
  rows : List (RawAccountToken F) → Container F
  nested : Container F → Container F
  other : Container F

-- A reply that is not ok, one that is HTML, one that does not parse, or one that does.
pub data Body (B : Type 0) : Type 0 where
  refused : ℕ → Body B
  html : Body B
  invalid_json : Body B
  json : B → Body B

pub data Failure : Type 0 where
  auth_error : ℕ → Failure
  plain_error : Failure

pub data Login (A : Type 0) : Type 0 where
  issued : A → Login A
  failed : Failure → Login A

abbrev pub text_or_empty : Option String → String
text_or_empty none = ""
text_or_empty (some s) = s

module _ {F : Type 0} where
  abbrev pub inner_rows : Container F → List (RawAccountToken F)
  inner_rows (rows rs) = rs
  inner_rows _ = []

  abbrev pub token_rows : Container F → List (RawAccountToken F)
  token_rows (rows rs) = rs
  token_rows (nested c) = inner_rows c
  token_rows other = []

module _ {F : Type 0} ⦃num : JsNumber F⦄ (decode_jwt_host : String → Option String)
    (is_date : F → Bool) where
  open num use {of_nat, is_finite, to_ms}

  abbrev pub to_date : Option F → Option ℕ
  to_date none = none
  to_date (some ms) =
      if is_finite ms && not (le ms (of_nat 0)) && is_date ms then some (to_ms ms) else none

  abbrev pub account_token : RawAccountToken F → String → AccountToken
  account_token row access_token = record {
    access_token = access_token;
    account_id = text_or_empty row.account_id;
    brand_id = text_or_empty row.brand_id;
    expires_at = to_date row.expire_date;
    host = decode_jwt_host access_token;
  }

  abbrev pub kept_token : RawAccountToken F → Option String → List AccountToken → List AccountToken
  kept_token row none ts = ts
  kept_token row (some s) ts = if str_eq s "" then ts else account_token row s ∷ ts

  abbrev pub account_tokens : List (RawAccountToken F) → List AccountToken
  account_tokens [] = []
  account_tokens (row ∷ rs) = kept_token row row.access_token (account_tokens rs)

  unfoldable pub authenticate_accounts : Body (Container F) → Login (List AccountToken)
  authenticate_accounts (refused status) = failed (auth_error status)
  authenticate_accounts html = failed plain_error
  authenticate_accounts invalid_json = failed plain_error
  authenticate_accounts (json container) = issued (account_tokens (token_rows container))

-- The two places of a user's token, each where it is a text.
pub record UserBody : Type 0 where
  pub access_token : Option String
  pub data_access_token : Option String

abbrev pub user_token : UserBody → String
user_token body =
    if str_eq (text_or_empty body.access_token) ""
    then text_or_empty body.data_access_token
    else text_or_empty body.access_token

abbrev pub issued_token : String → Login String
issued_token token = if str_eq token "" then failed plain_error else issued token

unfoldable pub authenticate_user : Body UserBody → Login String
authenticate_user (refused status) = failed (auth_error status)
authenticate_user html = failed plain_error
authenticate_user invalid_json = failed plain_error
authenticate_user (json body) = issued_token (user_token body)
