-- ===== src/Tradelocker/Manager/Rest.antt =====
-- src/tradelocker/connection-manager.service.ts: createPacer, and the user-level token of userAuth.
pub mod Paced
pub mod Shared
use tradetrack_api.Prelude.{
  ℕ, ◌+◌, ◌-◌, ◌*◌, max, ltb, Bool, String, Option, none, some, List, [], ◌∷◌, get, set, elem,
  remove, if◌then◌else◌,
}

abbrev pub rest_min_interval_ms : ℕ
rest_min_interval_ms = 2200

abbrev pub user_token_ttl_ms : ℕ
user_token_ttl_ms = 10 * 60000

-- A call of the pacer: when it is made, and how long after its delay the timer it may set fires.
pub record Turn : Type 0 where
  pub made_at : ℕ
  pub late : ℕ

-- One turn of the chain, begun at `now`: when it is over, which is the new `last`.
unfoldable pub pace : ℕ → ℕ → ℕ → ℕ → ℕ
pace min_interval_ms last now late =
    if ltb now (last + min_interval_ms) then now + (last + min_interval_ms - now) + late else now

-- When the calls made are let through: a turn begins once its call is made and the turn before is
-- over.
unfoldable pub grants : ℕ → ℕ → List Turn → List ℕ
grants min_interval_ms last [] = []
grants min_interval_ms last (t ∷ ts) =
    let granted = pace min_interval_ms last (max t.made_at last) t.late in
    granted ∷ grants min_interval_ms granted ts

-- `createPacer`: the calls of a pacer, from its making on.
abbrev pub create_pacer : ℕ → List Turn → List ℕ
create_pacer min_interval_ms ts = grants min_interval_ms 0 ts

pub record UserToken : Type 0 where
  pub token : String
  pub fetched_at : ℕ

-- `userTokens` and `userAuthInflight`; `logins` counts the requests sent.
pub record Tokens : Type 0 where
  pub user_tokens : List (String × UserToken)
  pub inflight : List String
  pub logins : List String

-- What a caller is given: the cached token, or the outcome of a login under way.
pub data Granted : Type 0 where
  cached : String → Granted
  promised : Granted

-- No usable token is cached: the caller joins the login that is under way, or sends one.
abbrev pub log_in : String → Tokens → Granted × Tokens
log_in key t =
    if elem key t.inflight
    then (promised, t)
    else (promised, record t { inflight = key ∷ t.inflight; logins = key ∷ t.logins })

abbrev pub cached_or : String → ℕ → Tokens → Option UserToken → Granted × Tokens
cached_or key now t none = log_in key t
cached_or key now t (some u) =
    if ltb (now - u.fetched_at) user_token_ttl_ms then (cached u.token, t) else log_in key t

unfoldable pub user_auth : String → ℕ → Tokens → Granted × Tokens
user_auth key now t = cached_or key now t (get key t.user_tokens)

-- The `then` and `finally` of a login.
abbrev pub login_cached : String → ℕ → Option String → Tokens → Tokens
login_cached key now none t = t
login_cached key now (some token) t = record t {
  user_tokens = set key (record { token = token; fetched_at = now }) t.user_tokens;
}

unfoldable pub login_settled : String → ℕ → Option String → Tokens → Tokens
login_settled key now reply t =
    let done = login_cached key now reply t in record done { inflight = remove key done.inflight }
