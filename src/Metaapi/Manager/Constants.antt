-- ===== src/Metaapi/Manager/Constants.antt =====
-- src/metaapi/constants.ts: the constants of the life cycle of an account.
use tradetrack_api.Prelude.{ℕ, Bool, String, str_eq, concat, List, [], ◌∷◌, elem}

abbrev pub sync_method : String
sync_method = "metaapi"

-- `STATUS`; an absent status stands for an active account.
abbrev pub connecting : String
connecting = "connecting"

abbrev pub disconnecting : String
disconnecting = "disconnecting"

abbrev pub deactivated : String
deactivated = "deactivated"

abbrev pub reconnect_base_delay_ms : ℕ
reconnect_base_delay_ms = 1000

abbrev pub reconnect_max_delay_ms : ℕ
reconnect_max_delay_ms = 60000

abbrev pub connect_max_attempts : ℕ
connect_max_attempts = 8

abbrev pub connect_failed_message : String
connect_failed_message =
    "Could not connect to the broker. Check the account password (use the read-only investor password, not the EA sync token) and the server name, and make sure the account is active."

abbrev pub account_name_prefix : String
account_name_prefix = "tradetrack-"

abbrev pub account_name : String → String
account_name trading_account_id = concat account_name_prefix trading_account_id

abbrev pub state_undeployed : String
state_undeployed = "UNDEPLOYED"

abbrev pub live_states : List String
live_states = "DEPLOYED" ∷ "DEPLOYING" ∷ []

abbrev pub is_live : String → Bool
is_live state = elem state live_states

abbrev pub is_undeployed : String → Bool
is_undeployed state = str_eq state state_undeployed
