-- ===== src/Metaapi/Manager/Memory.antt =====
-- Accounts in memory, as concrete choices of the parameters `AccountTable` and `MetaApi`.
use mathlib.Core.Bool.{true≢false}
use mathlib.Core.Option
use tradetrack_api.Prelude.{
  ◌≡◌, refl, sym, ap, ◌∙◌, Bool, true, false, String, str_eq, str_eq_refl, Option, none, some, List,
  [], ◌∷◌, is_some, if◌then◌else◌,
}
use tradetrack_api.Metaapi.Client.{shape, Caught}
use tradetrack_api.Metaapi.Manager.Accounts.{Reply, gave, threw, AccountRow, AccountTable}
use tradetrack_api.Metaapi.Manager.Cloud.{CloudAccount, NewAccount, MetaApi}

-- The reply where nothing is found.
abbrev pub missing : Caught
missing = shape (record { status = some 404; code = none; error = none; details = [] })

abbrev pub Rows : Type 0 → Type 0
Rows F = String → Option (AccountRow F)

abbrev pub put : {A : Type 0} → String → Option A → (String → Option A) → String → Option A
put id o t j = if str_eq id j then o else t j

abbrev is_gave : {A : Type 0} → Reply A → Bool
is_gave (gave a) = true
is_gave (threw e) = false

abbrev value_of : {A : Type 0} → A → Reply A → A
value_of d (gave a) = a
value_of d (threw e) = d

module _ {F : Type 0} where
  abbrev changed :
      Rows F → String → (AccountRow F → AccountRow F) → Option (AccountRow F) → Reply (Rows F)
  changed t id change none = threw missing
  changed t id change (some r) = gave (put id (some (change r)) t)

  pub changed-row :
      (t t' : Rows F) (id j : String) (change : AccountRow F → AccountRow F)
      (o : Option (AccountRow F))
      → changed t id change o ≡ gave t'
      → t' j ≡ (if str_eq id j then Option.map change o else t j)
  changed-row t t' id j change none e = absurd (true≢false (sym (ap is_gave e)))
  changed-row t t' id j change (some r) e = ap (λ r. value_of t r j) (sym e)

  -- At most one row, which a query finds by the id `only`.
  abbrev found : (AccountRow F → Bool) → Option (AccountRow F) → List (AccountRow F)
  found test none = []
  found test (some r) = if test r then r ∷ [] else []

  abbrev pub memory_accounts : String → AccountTable F (Rows F)
  memory_accounts only = record {
    row = λ t id. t id;
    find_many = λ t test. found test (t only);
    update = λ t id change. changed t id change (t id);
    row-update = λ t t' id j change keeps e. changed-row t t' id j change (t id) e;
  }

-- The cloud: accounts by their id, which is their name.
abbrev pub Accounts : Type 0
Accounts = String → Option CloudAccount

abbrev get_one : String → Accounts → Option CloudAccount → Reply CloudAccount × Accounts
get_one id c none = (threw missing, c)
get_one id c (some a) = (gave a, c)

abbrev change_one :
    String
    → (CloudAccount → Option CloudAccount)
    → Accounts
    → Option CloudAccount
    → Reply Unit × Accounts
change_one id change c none = (threw missing, c)
change_one id change c (some a) = (gave tt, put id (change a) c)

abbrev list_of : Option CloudAccount → List CloudAccount
list_of none = []
list_of (some a) = a ∷ []

abbrev created : NewAccount → CloudAccount
created a = record { id = a.name; name = a.name; state = "DEPLOYING" }

pub get_one-absent :
    (c c' : Accounts) (id : String) (e : Caught) (o : Option CloudAccount)
    → c id ≡ o
    → get_one id c o ≡ (threw e, c')
    → is_some (c' id) ≡ false
get_one-absent c c' id e none at h = ap (λ x. is_some (x.1 id)) (sym h) ∙ ap is_some at
get_one-absent c c' id e (some a) at h = absurd (true≢false (ap (λ x. is_gave x.0) h))

pub change_one-absent :
    (c c' : Accounts) (id : String) (e : Caught) (change : CloudAccount → Option CloudAccount)
    (o : Option CloudAccount)
    → c id ≡ o
    → change_one id change c o ≡ (threw e, c')
    → is_some (c' id) ≡ false
change_one-absent c c' id e change none at h = ap (λ x. is_some (x.1 id)) (sym h) ∙ ap is_some at
change_one-absent c c' id e change (some a) at h = absurd (true≢false (ap (λ x. is_gave x.0) h))

pub remove_one-done :
    (c c' : Accounts) (id : String) (o : Option CloudAccount)
    → change_one id (λ a. none) c o ≡ (gave tt, c')
    → is_some (c' id) ≡ false
remove_one-done c c' id none h = absurd (true≢false (sym (ap (λ x. is_gave x.0) h)))
remove_one-done c c' id (some a) h = ap (λ x. is_some (x.1 id)) (sym h) ∙ rw (str_eq_refl id) refl

instance abbrev pub memory_cloud : MetaApi Accounts
memory_cloud = record {
  present = λ c id. is_some (c id);
  get_account = λ c id. get_one id c (c id);
  find_accounts = λ c query. (gave (list_of (c query)), c);
  create_account = λ c a. (gave (created a), put a.name (some (created a)) c);
  deploy = λ c id. change_one id (λ a. some (record a { state = "DEPLOYING" })) c (c id);
  undeploy = λ c id. change_one id (λ a. some (record a { state = "UNDEPLOYED" })) c (c id);
  remove_account = λ c id. change_one id (λ a. none) c (c id);
  wait_connected = λ c id. change_one id (λ a. some a) c (c id);
  connect_rpc = λ c id. change_one id (λ a. some a) c (c id);
  synchronize_rpc = λ c id. change_one id (λ a. some a) c (c id);
  close_rpc = λ c id. (gave tt, c);
  connect_stream = λ c id. change_one id (λ a. some a) c (c id);
  synchronize_stream = λ c id. change_one id (λ a. some a) c (c id);
  close_stream = λ c id. (gave tt, c);
  get_account-absent = λ c c' id e h k. get_one-absent c c' id e (c id) refl h;
  undeploy-absent = λ c c' id e h k.
      change_one-absent c c' id e (λ a. some (record a { state = "UNDEPLOYED" })) (c id) refl h;
  remove_account-done = λ c c' id h. remove_one-done c c' id (c id) h;
  remove_account-absent = λ c c' id e h k. change_one-absent c c' id e (λ a. none) (c id) refl h;
}
