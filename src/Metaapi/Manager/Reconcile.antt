-- ===== src/Metaapi/Manager/Reconcile.antt =====
-- src/metaapi/connection-manager.service.ts: `reconcile`, with the start and the end of the service. A
-- pass takes the sessions one after the other, then the accounts; `open` and `teardown` are run to
-- their ends in the order in which the pass starts them.
use tradetrack_api.Prelude.{
  ℕ, Bool, true, false, String, str_eq, Option, none, some, List, [], ◌∷◌, map, get, elem, is_some,
  delete, if◌then◌else◌,
}
use tradetrack_api.Metaapi.Manager.Constants.{disconnecting}
use tradetrack_api.Metaapi.Manager.Accounts.{
  Reply, gave, threw, ManagedAccount, AccountTable, has_text, load_accounts,
}
use tradetrack_api.Metaapi.Manager.Cloud.{MetaApi, truthy, destroy_cloud_account}
use tradetrack_api.Metaapi.Manager.World.{Session, World, close_live}
use tradetrack_api.Metaapi.Manager.Failure.{teardown}
use tradetrack_api.Metaapi.Manager.Ensure.{Setting}
use tradetrack_api.Metaapi.Manager.Open.{open_account}

-- `onApplicationBootstrap`: whether the service starts, by the two variables of the environment.
abbrev pub bootstraps : Option String → Option String → Bool
bootstraps enabled none = false
bootstraps none (some token) = false
bootstraps (some enabled) (some token) =
    if str_eq enabled "true" then is_some (truthy (some token)) else false

-- How the loop over the sessions ends: an exception ends the pass.
pub data Swept (T C : Type 0) : Type 0 where
  swept broken : World T C → Swept T C

-- Every session is closed; whether none of them throws.
abbrev pub close_next : {C : Type 0} → (C → Bool × C) → Reply Unit × C → Bool × C
close_next rest (gave u, c) = rest c
close_next rest (threw e, c) = (false, (rest c).1)

abbrev pub close_all : {C : Type 0} ⦃api : MetaApi C⦄ → List (String × Session) → C → Bool × C
close_all [] c = (true, c)
close_all ((id, s) ∷ ss) c = close_next (close_all ss) (close_live s.live c)

module _ {T C : Type 0} ⦃api : MetaApi C⦄ where
  -- `onModuleDestroy`: the sessions are forgotten if every `close` succeeds.
  abbrev pub shut_down : World T C → World T C
  shut_down w =
      let (all_closed, c) = close_all w.sessions w.cloud in
      record w {
        stopped = true;
        retries = [];
        cloud = c;
        sessions = if all_closed then [] else w.sessions;
      }

  -- A session that is not to be kept: its cloud account is destroyed too, if it has one. The answer
  -- is not looked at.
  abbrev pub destroy_remembered : Option String → World T C → World T C
  destroy_remembered none w = w
  destroy_remembered (some id) w = record w { cloud = (destroy_cloud_account id w.cloud).1 }

  abbrev pub after_close : Session → World T C → Reply Unit × C → Swept T C
  after_close s w (threw e, c) = broken (record w { cloud = c })
  after_close s w (gave u, c) =
      swept (destroy_remembered (truthy s.meta_api_account_id) (record w { cloud = c }))

  abbrev pub sweep_one : String → Session → World T C → Swept T C
  sweep_one id s w =
      after_close s (record w { sessions = delete id w.sessions }) (close_live s.live w.cloud)

  abbrev pub and_on : Swept T C → (World T C → Swept T C) → Swept T C
  and_on (swept w) rest = rest w
  and_on (broken w) rest = broken w

  unfoldable pub sweep : List String → List (String × Session) → World T C → Swept T C
  sweep seen [] w = swept w
  sweep seen ((id, s) ∷ ss) w =
      if elem id seen then sweep seen ss w else and_on (sweep_one id s w) (sweep seen ss)

module _ {F T C : Type 0} ⦃accounts : AccountTable F T⦄ ⦃api : MetaApi C⦄ (on : Setting F T C) where
  abbrev pub launch : ManagedAccount F → World T C → World T C
  launch account w =
      if has_text account.status disconnecting
      then teardown account w
      else if is_some (get account.trading_account_id w.sessions)
      then w
      else open_account on account w

  abbrev pub launch_all : List (ManagedAccount F) → World T C → World T C
  launch_all [] w = w
  launch_all (a ∷ rest) w = if w.stopped then w else launch_all rest (launch a w)

  abbrev pub launched : List (ManagedAccount F) → Swept T C → World T C
  launched managed (broken w) = w
  launched managed (swept w) = launch_all managed w

  abbrev pub reconciled : World T C → Option (List (ManagedAccount F)) → World T C
  reconciled w none = w
  reconciled w (some managed) =
      launched managed (sweep (map (λ a. a.trading_account_id) managed) w.sessions w)

  unfoldable pub reconcile :
      (String → Option String) → (String → Option ℕ) → List String → World T C → World T C
  reconcile decrypt parse_date only_users w =
      if w.stopped then w else reconciled w (load_accounts decrypt parse_date only_users w.table)
