-- ===== src/Ctrader/Pool/Freshest.antt =====
-- Which accounts `dedupeByCtid` (src/ctrader/ctrader-connection-manager.ts) keeps.
use tradetrack_api.Prelude.{
  In, ◌≤◌, ◌≡◌, refl, sym, ap, ◌∙◌, subst, List, [], ◌∷◌, ◌⊎◌, inl, inr, Bool-cases, ltb, ltb→lt,
  ltb-false→le, arith, if◌then◌else◌,
}
use tradetrack_api.Ctrader.Types.{PoolAccount}
use tradetrack_api.Ctrader.Pool.Accounts.{token_freshness, fresher, winner, keep}

module _ {F : Type 0} where
  -- Which of two is taken.
  fresher-cases :
      (a b : PoolAccount F)
      → ((fresher a b ≡ b) × (token_freshness a ≤ token_freshness b))
        ⊎ ((fresher a b ≡ a) × (token_freshness b ≤ token_freshness a))
  fresher-cases a b = elim (Bool-cases (ltb (token_freshness a) (token_freshness b))) [
    | inl e ↦ inl (
      ap (λ t. if t then b else a) e,
      omega (arith, ltb→lt (token_freshness a) (token_freshness b) e),
    )
    | inr e ↦
        inr (ap (λ t. if t then b else a) e, ltb-false→le (token_freshness a) (token_freshness b) e)
  ]

  skip :
      (w a b : PoolAccount F) (rest : List (PoolAccount F)) → In w (a ∷ rest) → In w (a ∷ b ∷ rest)
  skip w a b rest (inl e) = inl e
  skip w a b rest (inr h) = inr (inr h)

  -- The winner is one of them, and none is fresher.
  winner-In : (a : PoolAccount F) (rest : List (PoolAccount F)) → In (winner a rest) (a ∷ rest)
  winner-In a [] = inl refl
  winner-In a (b ∷ rest) = elim (fresher-cases a b) [
    | inl (e, le) ↦ subst (λ x. In (winner x rest) (a ∷ b ∷ rest)) (sym e) (inr (winner-In b rest))
    | inr (e, le) ↦
        subst (λ x. In (winner x rest) (a ∷ b ∷ rest)) (sym e)
          (skip (winner a rest) a b rest (winner-In a rest))
  ]

  winner-first :
      (a : PoolAccount F) (rest : List (PoolAccount F))
      → token_freshness a ≤ token_freshness (winner a rest)
  winner-first a [] = omega arith
  winner-first a (b ∷ rest) = elim (fresher-cases a b) [
    | inl (e, le) ↦
        subst (λ x. token_freshness a ≤ token_freshness (winner x rest)) (sym e)
          (omega (arith, le, winner-first b rest))
    | inr (e, le) ↦
        subst (λ x. token_freshness a ≤ token_freshness (winner x rest)) (sym e)
          (winner-first a rest)
  ]

  winner-second :
      (a b : PoolAccount F) (rest : List (PoolAccount F))
      → token_freshness b ≤ token_freshness (winner (fresher a b) rest)
  winner-second a b rest = elim (fresher-cases a b) [
    | inl (e, le) ↦
        subst (λ x. token_freshness b ≤ token_freshness (winner x rest)) (sym e)
          (winner-first b rest)
    | inr (e, le) ↦
        subst (λ x. token_freshness b ≤ token_freshness (winner x rest)) (sym e)
          (omega (arith, le, winner-first a rest))
  ]

  winner-freshest :
      (a c : PoolAccount F) (rest : List (PoolAccount F))
      → In c (a ∷ rest)
      → token_freshness c ≤ token_freshness (winner a rest)
  winner-freshest a c rest (inl e) =
      subst (λ x. token_freshness x ≤ token_freshness (winner a rest)) e (winner-first a rest)
  winner-freshest a c [] (inr h) = absurd h
  winner-freshest a c (b ∷ rest) (inr (inl e)) =
      subst (λ x. token_freshness x ≤ token_freshness (winner (fresher a b) rest)) e
        (winner-second a b rest)
  winner-freshest a c (b ∷ rest) (inr (inr h)) = winner-freshest (fresher a b) c rest (inr h)

  pub keep-freshest :
      (c : PoolAccount F) (list : List (PoolAccount F))
      → In c list
      → (w : PoolAccount F) × In w (keep list) × (token_freshness c ≤ token_freshness w)
  keep-freshest c [] h = absurd h
  keep-freshest c (a ∷ rest) h = (winner a rest, inl refl, winner-freshest a c rest h)

  pub keep-one :
      (u w : PoolAccount F) (list : List (PoolAccount F))
      → In u (keep list)
      → In w (keep list)
      → u ≡ w
  keep-one u w [] h k = absurd h
  keep-one u w (a ∷ rest) (inl e) (inl f) = sym e ∙ f
  keep-one u w (a ∷ rest) (inl e) (inr k) = absurd k
  keep-one u w (a ∷ rest) (inr h) k = absurd h

  pub keep-In : (w : PoolAccount F) (list : List (PoolAccount F)) → In w (keep list) → In w list
  keep-In w [] h = absurd h
  keep-In w (a ∷ rest) (inl e) = subst (λ x. In x (a ∷ rest)) e (winner-In a rest)
  keep-In w (a ∷ rest) (inr h) = absurd h
