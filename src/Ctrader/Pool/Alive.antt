-- ===== src/Ctrader/Pool/Alive.antt =====
-- That no session of src/ctrader/ctrader-connection-manager.ts is left without a connection and
-- without a reconnect to come.
use mathlib.Core.Option
use tradetrack_api.Prelude.{
  ℕ, ◌==◌, ◌≡◌, sym, ap, ◌∙◌, Bool, true, false, ◌||◌, String, str_eq, str_eq_iff, Option, none,
  some, List, inl, inr, Bool-cases, get, set, delete, is_some, get-set, get-set_cases,
  get-delete_cases,
}
use tradetrack_api.Ctrader.Pool.{EnvSession, Pool, close_connection}

-- The connection of a given attempt.
abbrev pub is_of : ℕ → Option ℕ → Bool
is_of generation none = false
is_of generation (some c) = c == generation

module _ {F : Type 0} where
  -- The connection of its last attempt, or a timer that will open one.
  abbrev pub has_future : EnvSession F → Bool
  has_future s = is_of s.generation s.connection || is_some s.reconnect_timer

  abbrev pub IsAlive : List (String × EnvSession F) → Type 0
  IsAlive m = (k : String) (s : EnvSession F) → get k m ≡ some s → has_future s ≡ true

  -- All sessions but one.
  abbrev pub AliveBut : String → List (String × EnvSession F) → Type 0
  AliveBut environment m =
      (k : String) (s : EnvSession F)
      → str_eq environment k ≡ false
      → get k m ≡ some s
      → has_future s ≡ true

  -- The service runs, and its sessions are alive.
  abbrev pub IsRunning : Pool F → Type 0
  IsRunning p = (p.stopped ≡ false) × IsAlive p.sessions

  abbrev pub RunningBut : String → Pool F → Type 0
  RunningBut environment p = (p.stopped ≡ false) × AliveBut environment p.sessions

  pub completed :
      (environment : String) (m : List (String × EnvSession F))
      → AliveBut environment m
      → ((s : EnvSession F) → get environment m ≡ some s → has_future s ≡ true)
      → IsAlive m
  completed environment m others this k s at = elim (Bool-cases (str_eq environment k)) [
    | inl e ↦ this s (ap (λ x. get x m) ((str_eq_iff environment k).0 e) ∙ at)
    | inr e ↦ others k s e at
  ]

  pub set-AliveBut :
      (environment : String) (s : EnvSession F) (m : List (String × EnvSession F))
      → AliveBut environment m
      → AliveBut environment (set environment s m)
  set-AliveBut environment s m others k t other at =
      others k t other (rw (other) at (sym (get-set_cases k environment s m) ∙ at))

  pub set-IsAlive :
      (environment : String) (s : EnvSession F) (m : List (String × EnvSession F))
      → AliveBut environment m
      → has_future s ≡ true
      → IsAlive (set environment s m)
  set-IsAlive environment s m others future =
      completed environment (set environment s m) (set-AliveBut environment s m others) (λ t at.
        ap has_future (sym (Option.some-injective _ _ (sym (get-set environment s m) ∙ at)))
        ∙ future)

  pub delete-IsAlive :
      (environment : String) (m : List (String × EnvSession F))
      → IsAlive m
      → IsAlive (delete environment m)
  delete-IsAlive environment m alive k s at = elim (Bool-cases (str_eq environment k)) [
    | inl e ↦
        absurd (Option.none-ne-some s (rw (e) at (sym (get-delete_cases k environment m) ∙ at)))
    | inr e ↦ alive k s (rw (e) at (sym (get-delete_cases k environment m) ∙ at))
  ]

  pub close_connection-RunningBut :
      (environment k : String) (c : Option ℕ) (p : Pool F)
      → RunningBut k p
      → RunningBut k (close_connection environment c p)
  close_connection-RunningBut environment k none p h = h
  close_connection-RunningBut environment k (some c) p h = h

  pub close_connection-IsRunning :
      (environment : String) (c : Option ℕ) (p : Pool F)
      → IsRunning p
      → IsRunning (close_connection environment c p)
  close_connection-IsRunning environment none p h = h
  close_connection-IsRunning environment (some c) p h = h

  pub but_one : (environment : String) (p : Pool F) → IsRunning p → RunningBut environment p
  but_one environment p (running, alive) = (running, λ k s other at. alive k s at)
