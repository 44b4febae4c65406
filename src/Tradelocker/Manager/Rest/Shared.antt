-- ===== src/Tradelocker/Manager/Rest/Shared.antt =====
-- The token requests that the accounts of a login share (src/tradelocker/connection-manager.service.ts,
-- userAuth).
use tradetrack_api.Prelude.{
  times, absent-times, remove-times, ℕ, ◌-◌, ltb, ◌≤◌, str_eq_iff, ◌≡◌, subst, Bool, true, false,
  String, str_eq, Option, none, some, List, [], ◌∷◌, inl, inr, Bool-cases, get, elem, arith,
  if_either, if◌then◌else◌,
}
use tradetrack_api.Tradelocker.Manager.Rest.{
  Tokens, UserToken, cached, user_token_ttl_ms, log_in, cached_or, user_auth, login_settled,
}

-- What happens to the tokens: a request needs one, a login under way settles.
pub data Event : Type 0 where
  needs : String → ℕ → Event
  settles : String → ℕ → Option String → Event

abbrev pub handle : Event → Tokens → Tokens
handle (needs key now) t = (user_auth key now t).1
handle (settles key now reply) t = if elem key t.inflight then login_settled key now reply t else t

abbrev pub handle_all : List Event → Tokens → Tokens
handle_all [] t = t
handle_all (e ∷ es) t = handle_all es (handle e t)

abbrev pub no_tokens : Tokens
no_tokens = record { user_tokens = []; inflight = []; logins = [] }

IsShared : Tokens → Type 0
IsShared t = (key : String) → times key t.inflight ≤ 1

log_in-IsShared : (key : String) (t : Tokens) → IsShared t → IsShared (log_in key t).1
unfolding IsShared
log_in-IsShared key t h k = elim (Bool-cases (elem key t.inflight)) [
  | inl e ↦ rw (e) (h k)
  | inr e ↦ rw (e) (elim (Bool-cases (str_eq key k)) [
    | inl f ↦ rw (f) (
        omega (
          arith,
          absent-times k t.inflight
              (subst (λ x. elem x t.inflight ≡ false) ((str_eq_iff key k).0 f) e),
        ))
    | inr f ↦ rw (f) (omega (arith, h k))
  ])
]

cached_or-IsShared :
    (key : String) (now : ℕ) (t : Tokens) (o : Option UserToken)
    → IsShared t
    → IsShared (cached_or key now t o).1
cached_or-IsShared key now t none h = log_in-IsShared key t h
cached_or-IsShared key now t (some u) h =
    ap_either (ltb (now - u.fetched_at) user_token_ttl_ms) h (log_in-IsShared key t h)
  where
    ap_either :
        (b : Bool)
        → IsShared t
        → IsShared (log_in key t).1
        → IsShared (if b then (cached u.token, t) else log_in key t).1
    ap_either true h k = h
    ap_either false h k = k

login_settled-IsShared :
    (key : String) (now : ℕ) (reply : Option String) (t : Tokens)
    → IsShared t
    → IsShared (login_settled key now reply t)
unfolding IsShared login_settled
login_settled-IsShared key now none t h k = omega (arith, h k, remove-times k key t.inflight)
login_settled-IsShared key now (some token) t h k =
    omega (arith, h k, remove-times k key t.inflight)

handle-IsShared : (e : Event) (t : Tokens) → IsShared t → IsShared (handle e t)
unfolding user_auth
handle-IsShared (needs key now) t h = cached_or-IsShared key now t (get key t.user_tokens) h
handle-IsShared (settles key now reply) t h =
    if_either IsShared (elem key t.inflight) _ t (login_settled-IsShared key now reply t h) h

handle_all-IsShared : (es : List Event) (t : Tokens) → IsShared t → IsShared (handle_all es t)
handle_all-IsShared [] t h = h
handle_all-IsShared (e ∷ es) t h = handle_all-IsShared es (handle e t) (handle-IsShared e t h)

-- However the requests and the settled logins follow one another, a login has at most one token request
-- under way.
pub user_auth_shared :
    (es : List Event) (key : String) → times key (handle_all es no_tokens).inflight ≤ 1
unfolding IsShared
user_auth_shared es = handle_all-IsShared es no_tokens (λ key. omega arith)
