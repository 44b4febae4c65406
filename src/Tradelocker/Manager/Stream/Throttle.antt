-- ===== src/Tradelocker/Manager/Stream/Throttle.antt =====
-- How often src/tradelocker/connection-manager.service.ts writes the floating figures of a position
-- (handleAccountStatus).
use mathlib.Core.Bool.{true≢false}
use tradetrack_api.Prelude.{
  ℕ, ◌+◌, ◌-◌, ◌≤◌, ltb-false→le, ◌≡◌, refl, sym, ap, ◌∙◌, subst, false, String, str_eq, str_eq_iff,
  Option, none, some, List, [], ◌∷◌, inl, inr, Bool-cases, In, get, set, get-set_cases, arith,
  if_true, if_false, if_either,
}
use tradetrack_api.Number.{JsNumber}
use tradetrack_api.Tradelocker.Connection.{PositionPnl}
use tradetrack_api.Tradelocker.Manager.Stream.{
  Unrealized, Floating, is_recent, float_entry, float_entries, handle_account_status,
  open_pnl_update_interval_ms,
}

module _ {F : Type 0} where
  -- The calls of a position are made half a minute apart; the last one stands first.
  abbrev pub IsSpaced : List (Unrealized F) → Type 0
  IsSpaced [] = Unit {0}
  IsSpaced (c ∷ cs) =
      IsSpaced cs
      × ((d : Unrealized F)
          → In d cs
          → d.position_id ≡ c.position_id
          → d.at + open_pnl_update_interval_ms ≤ c.at)

  -- The calls of a position were made at the latest at the time that is kept for it.
  abbrev StampedAt : Option ℕ → String → Unrealized F → Type 0
  StampedAt none id d = str_eq d.position_id id ≡ false
  StampedAt (some last) id d = d.position_id ≡ id → d.at ≤ last

  abbrev IsStamped : Option ℕ → String → List (Unrealized F) → Type 0
  IsStamped o id cs = (d : Unrealized F) → In d cs → StampedAt o id d

  abbrev IsThrottled : Floating F → Type 0
  IsThrottled f = IsSpaced f.calls × ((id : String) → IsStamped (get id f.pnl_write_at) id f.calls)

  spaced :
      (now : ℕ) (id : String) (o : Option ℕ) (cs : List (Unrealized F))
      → is_recent now o ≡ false
      → IsStamped o id cs
      → (d : Unrealized F) → In d cs
      → d.position_id ≡ id
      → d.at + open_pnl_update_interval_ms ≤ now
  spaced now id none cs e h d there same =
      absurd (true≢false (sym ((str_eq_iff d.position_id id).1 same) ∙ h d there))
  spaced now id (some last) cs e h d there same =
      omega (arith, h d there same, ltb-false→le (now - last) open_pnl_update_interval_ms e)

  stamp_different :
      (k : String) (c : Unrealized F) (o : Option ℕ)
      → str_eq c.position_id k ≡ false
      → StampedAt o k c
  stamp_different k c none e = e
  stamp_different k c (some last) e =
      λ same. absurd (true≢false (sym ((str_eq_iff c.position_id k).1 same) ∙ e))

  stamp_other :
      (k : String) (c : Unrealized F) (cs : List (Unrealized F)) (o : Option ℕ)
      → str_eq c.position_id k ≡ false
      → IsStamped o k cs
      → IsStamped o k (c ∷ cs)
  stamp_other k c cs o e h d (inl f) = subst (StampedAt o k) f (stamp_different k c o e)
  stamp_other k c cs o e h d (inr there) = h d there

  stamp_here :
      (id : String) (c : Unrealized F) (cs : List (Unrealized F))
      → ((d : Unrealized F)
          → In d cs
          → d.position_id ≡ id
          → d.at + open_pnl_update_interval_ms ≤ c.at)
      → IsStamped (some c.at) id (c ∷ cs)
  stamp_here id c cs h d (inl f) = λ same. subst (λ x. x.at ≤ c.at) f (omega arith)
  stamp_here id c cs h d (inr there) = λ same. omega (arith, h d there same)

  written-IsThrottled :
      (now : ℕ) (c : Unrealized F) (f : Floating F)
      → c.at ≡ now
      → is_recent now (get c.position_id f.pnl_write_at) ≡ false
      → IsThrottled f
      → IsThrottled
          (record f { pnl_write_at = set c.position_id now f.pnl_write_at; calls = c ∷ f.calls })
  written-IsThrottled now c f at old (apart, stamps) =
      let gap =
        spaced now c.position_id (get c.position_id f.pnl_write_at) f.calls old
          (stamps c.position_id) in
      ((apart, λ d there same. omega (arith, at, gap d there same)), λ k. stamp k)
    where
      stamp :
          (k : String) → IsStamped (get k (set c.position_id now f.pnl_write_at)) k (c ∷ f.calls)
      stamp k = elim (Bool-cases (str_eq c.position_id k)) [
        | inl e ↦
            subst (λ o. IsStamped o k (c ∷ f.calls)) {x = some c.at}
              (sym (get-set_cases k c.position_id now f.pnl_write_at ∙ rw (e) (ap some (sym at))))
              (stamp_here k c f.calls (λ d there same. omega (
                arith,
                at,
                spaced now c.position_id (get c.position_id f.pnl_write_at) f.calls old
                    (stamps c.position_id) d there (same ∙ sym ((str_eq_iff c.position_id k).0 e)),
              )))
        | inr e ↦
            subst (λ o. IsStamped o k (c ∷ f.calls)) {x = get k f.pnl_write_at}
              (sym (get-set_cases k c.position_id now f.pnl_write_at ∙ rw (e) refl))
              (stamp_other k c f.calls (get k f.pnl_write_at) e (stamps k))
      ]

module _ {F : Type 0} ⦃num : JsNumber F⦄ where
  float_entry-IsThrottled :
      (now : ℕ) (p : PositionPnl) (f : Floating F)
      → IsThrottled f
      → IsThrottled (float_entry now p f)
  float_entry-IsThrottled now p f h =
      elim (Bool-cases (is_recent now (get p.position_id f.pnl_write_at))) [
        | inl e ↦ if_true IsThrottled (is_recent now (get p.position_id f.pnl_write_at)) f _ e h
        | inr e ↦ if_false IsThrottled (is_recent now (get p.position_id f.pnl_write_at)) f _ e (
            if_either IsThrottled (num.is_finite (num.of_string p.pnl)) _ f
              (written-IsThrottled now
                (record { position_id = p.position_id; value = num.of_string p.pnl; at = now }) f
                refl e h)
              h)
      ]

  float_entries-IsThrottled :
      (now : ℕ) (ps : List PositionPnl) (f : Floating F)
      → IsThrottled f
      → IsThrottled (float_entries now ps f)
  float_entries-IsThrottled now [] f h = h
  float_entries-IsThrottled now (p ∷ ps) f h =
      float_entries-IsThrottled now ps (float_entry now p f) (float_entry-IsThrottled now p f h)

  -- The messages of a session, each with the time at which it is handled.
  abbrev pub handle_statuses : List (ℕ × Option (List PositionPnl)) → Floating F → Floating F
  handle_statuses [] f = f
  handle_statuses ((now, pnls) ∷ rest) f = handle_statuses rest (handle_account_status now pnls f)

  handle_statuses-IsThrottled :
      (ms : List (ℕ × Option (List PositionPnl))) (f : Floating F)
      → IsThrottled f
      → IsThrottled (handle_statuses ms f)
  unfolding handle_account_status
  handle_statuses-IsThrottled [] f h = h
  handle_statuses-IsThrottled ((now, none) ∷ rest) f h = handle_statuses-IsThrottled rest f h
  handle_statuses-IsThrottled ((now, some pnls) ∷ rest) f h =
      handle_statuses-IsThrottled rest _ (float_entries-IsThrottled now pnls f h)

-- A session as `connect` leaves it.
abbrev pub no_calls : (F : Type 0) → Floating F
no_calls F = record { pnl_write_at = []; calls = [] }

module _ (F : Type 0) ⦃num : JsNumber F⦄ where
  -- However many messages come on one connection, from its connect on, whatever positions they name, and even
  -- where the clock goes back, the floating figures of a position are written at most once in half a minute.
  -- A new connect clears the stamps, and is not covered.
  pub handle_statuses-IsSpaced :
      (ms : List (ℕ × Option (List PositionPnl))) → IsSpaced (handle_statuses ms (no_calls F)).calls
  handle_statuses-IsSpaced ms =
      (handle_statuses-IsThrottled ms (no_calls F) (tt, λ id d there. absurd there)).0
