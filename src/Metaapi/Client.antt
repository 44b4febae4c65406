-- ===== src/Metaapi/Client.antt =====
-- src/metaapi/client.ts: how an error of MetaApi is to be handled.
pub mod Fatal
use tradetrack_api.Prelude.{
  ℕ, ◌==◌, String, Bool, true, false, ◌||◌, Option, none, some, List, [], ◌∷◌, elem, if◌then◌else◌,
}

pub data ErrorKind : Type 0 where
  fatal_account global_auth not_found transient : ErrorKind

abbrev pub fatal_account_codes : List String
fatal_account_codes =
    "E_AUTH" ∷ "E_SRV_NOT_FOUND" ∷ "ERR_OTP_REQUIRED" ∷ "E_PASSWORD_CHANGE_REQUIRED"
    ∷ "E_TRADING_ACCOUNT_DISABLED" ∷ "E_SERVER_TIMEZONE" ∷ []

-- `details` holds the code of each detail, absent where it is no text; it is empty where the field is
-- no array.
pub record ErrorShape : Type 0 where
  pub status : Option ℕ
  pub code : Option String
  pub error : Option String
  pub details : List (Option String)

-- What was thrown: a value whose fields can be read, or one that throws when they are.
pub data Caught : Type 0 where
  shape : ErrorShape → Caught
  unexpected : Caught

abbrev pub texts : List (Option String) → List String
texts [] = []
texts (none ∷ cs) = texts cs
texts (some c ∷ cs) = c ∷ texts cs

unfoldable pub collect_codes : ErrorShape → List String
collect_codes s = texts (s.code ∷ s.error ∷ s.details)

abbrev pub has_status : ℕ → Option ℕ → Bool
has_status n none = false
has_status n (some m) = m == n

abbrev pub any_fatal : List String → Bool
any_fatal [] = false
any_fatal (c ∷ cs) = elem c fatal_account_codes || any_fatal cs

unfoldable pub classify_meta_api_error : Caught → ErrorKind
classify_meta_api_error unexpected = transient
classify_meta_api_error (shape s) =
    if has_status 401 s.status
    then global_auth
    else if has_status 404 s.status
    then not_found
    else if any_fatal (collect_codes s)
    then fatal_account
    else transient
