-- ===== src/Metaapi/Manager/Cloud.antt =====
-- src/metaapi/connection-manager.service.ts: creating, finding and deleting the cloud account. The
-- SDK is a parameter: the calls that the manager makes, with what MetaApi documents of each.
use tradetrack_api.Prelude.{
  ◌≡◌, Bool, true, false, String, str_eq, Option, none, some, List, [], ◌∷◌, if◌then◌else◌,
}
use tradetrack_api.Metaapi.Client.{
  ErrorKind, global_auth, not_found, Caught, classify_meta_api_error,
}
use tradetrack_api.Metaapi.Manager.Constants.{account_name, is_live}
use tradetrack_api.Metaapi.Manager.Accounts.{Reply, gave, threw}

pub record CloudAccount : Type 0 where
  pub id : String
  pub name : String
  pub state : String

-- What `createAccount` is called with.
pub record NewAccount : Type 0 where
  pub name : String
  pub login : String
  pub password : String
  pub server : String
  pub region : Option String

-- The cloud as the calls see and change it. `present` says whether an account exists, and so may be
-- running and billed. A reply of 404 means that it does not exist.
pub record MetaApi (C : Type 0) : Type 0 where
  pub present : C → String → Bool
  pub get_account : C → String → Reply CloudAccount × C
  pub find_accounts : C → String → Reply (List CloudAccount) × C
  pub create_account : C → NewAccount → Reply CloudAccount × C
  pub deploy : C → String → Reply Unit × C
  pub undeploy : C → String → Reply Unit × C
  pub remove_account : C → String → Reply Unit × C
  pub wait_connected : C → String → Reply Unit × C
  pub connect_rpc : C → String → Reply Unit × C
  pub synchronize_rpc : C → String → Reply Unit × C
  pub close_rpc : C → String → Reply Unit × C
  pub connect_stream : C → String → Reply Unit × C
  pub synchronize_stream : C → String → Reply Unit × C
  pub close_stream : C → String → Reply Unit × C
  pub get_account-absent :
      (c c' : C) (id : String) (e : Caught)
      → get_account c id ≡ (threw e, c')
      → classify_meta_api_error e ≡ not_found
      → present c' id ≡ false
  pub undeploy-absent :
      (c c' : C) (id : String) (e : Caught)
      → undeploy c id ≡ (threw e, c')
      → classify_meta_api_error e ≡ not_found
      → present c' id ≡ false
  pub remove_account-done :
      (c c' : C) (id : String) → remove_account c id ≡ (gave tt, c') → present c' id ≡ false
  pub remove_account-absent :
      (c c' : C) (id : String) (e : Caught)
      → remove_account c id ≡ (threw e, c')
      → classify_meta_api_error e ≡ not_found
      → present c' id ≡ false

-- `await` of a call, with the rest of the body: an exception skips the rest.
abbrev pub and_then : {C A B : Type 0} → Reply A × C → (A → C → Reply B × C) → Reply B × C
and_then (gave a, c) rest = rest a c
and_then (threw e, c) rest = (threw e, c)

abbrev pub is_not_found : ErrorKind → Bool
is_not_found not_found = true
is_not_found _ = false

abbrev pub named : String → List CloudAccount → Option CloudAccount
named wanted [] = none
named wanted (a ∷ rest) = if str_eq a.name wanted then some a else named wanted rest

-- The truth of `string | null`: an empty text counts as absent.
abbrev pub truthy : Option String → Option String
truthy none = none
truthy (some s) = if str_eq s "" then none else some s

module _ {C : Type 0} ⦃api : MetaApi C⦄ where
  open api use {get_account, find_accounts, create_account, undeploy, remove_account}

  -- The body of the `try` of `destroyCloudAccount`.
  abbrev pub undeployed : String → CloudAccount → C → Reply Unit × C
  undeployed id a c = if is_live a.state then undeploy c id else (gave tt, c)

  abbrev pub undeploy_and_remove : String → C → Reply Unit × C
  undeploy_and_remove id c =
      and_then (get_account c id)
        (λ a c1. and_then (undeployed id a c1) (λ u c2. remove_account c2 id))

  -- The second lookup, after an error of another kind.
  abbrev pub probed : Reply CloudAccount × C → Bool × C
  probed (gave a, c) = (false, c)
  probed (threw e, c) = (is_not_found (classify_meta_api_error e), c)

  abbrev pub after_error : String → ErrorKind → C → Bool × C
  after_error id not_found c = (true, c)
  after_error id global_auth c = (false, c)
  after_error id _ c = probed (get_account c id)

  abbrev pub judged : String → Reply Unit × C → Bool × C
  judged id (gave u, c) = (true, c)
  judged id (threw e, c) = after_error id (classify_meta_api_error e) c

  unfoldable pub destroy_cloud_account : String → C → Bool × C
  destroy_cloud_account id c = judged id (undeploy_and_remove id c)

  -- `findByName`: the search is by text, the match by the whole name.
  abbrev pub find_by_name : String → C → Reply (Option CloudAccount) × C
  find_by_name trading_account_id c =
      and_then (find_accounts c (account_name trading_account_id))
        (λ found c1. (gave (named (account_name trading_account_id) found), c1))
