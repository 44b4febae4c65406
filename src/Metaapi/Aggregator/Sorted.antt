-- ===== src/Metaapi/Aggregator/Sorted.antt =====
-- That sorting the deals of a position (src/metaapi/deal-aggregator.ts) loses none of them.
use mathlib.Core.List.{Perm}
use mathlib.Core.List.Perm
use tradetrack_api.Prelude.{
  ◌≡◌, refl, ap, Bool, true, false, ◌&&◌, List, [], ◌∷◌, ◌++◌, leb, Bool-cases, inl, inr,
  if◌then◌else◌,
}
use tradetrack_api.Metaapi.Aggregator.{Deal, insert_deal, sort_deals}

module _ {ℓ} {A : Type ℓ} where
  -- The elements that pass a test, in order.
  abbrev pub select : (A → Bool) → List A → List A
  select f [] = []
  select f (x ∷ xs) = if f x then x ∷ select f xs else select f xs

  pub select_both :
      (f g : A → Bool) (xs : List A) → select g (select f xs) ≡ select (λ x. f x && g x) xs
  select_both f g [] = refl
  select_both f g (x ∷ xs) = elim (Bool-cases (f x)) [
    | inl e ↦ rw (e) (ap (λ ys. if g x then x ∷ ys else ys) (select_both f g xs))
    | inr e ↦ rw (e) (select_both f g xs)
  ]

  pub select_append_one :
      (f : A → Bool) (xs : List A) (x : A)
      → select f (xs ++ x ∷ []) ≡ select f xs ++ (if f x then x ∷ [] else [])
  select_append_one f [] x = refl
  select_append_one f (y ∷ xs) x = elim (Bool-cases (f y)) [
    | inl e ↦ rw (e) (ap (λ ys. y ∷ ys) (select_append_one f xs x))
    | inr e ↦ rw (e) (select_append_one f xs x)
  ]

  abbrev kept : Bool → A → List A → List A
  kept b x xs = if b then x ∷ xs else xs

  kept-perm : (b : Bool) (x : A) (xs ys : List A) → Perm xs ys → Perm (kept b x xs) (kept b x ys)
  kept-perm true x xs ys h = Perm.cons x h
  kept-perm false x xs ys h = h

  kept_swap :
      (b c : Bool) (x y : A) (xs : List A) → Perm (kept b x (kept c y xs)) (kept c y (kept b x xs))
  kept_swap true true x y xs = Perm.swap y x xs
  kept_swap true false x y xs = Perm.refl (x ∷ xs)
  kept_swap false c x y xs = Perm.refl (kept c y xs)

module _ {F : Type 0} (f : Deal F → Bool) where
  insert_deal-perm :
      (d : Deal F) (ds : List (Deal F)) → Perm (select f (insert_deal d ds)) (select f (d ∷ ds))
  insert_deal-perm d [] = Perm.refl (select f (d ∷ []))
  insert_deal-perm d (e ∷ es) = elim (Bool-cases (leb d.time e.time)) [
    | inl b ↦ rw (b) (Perm.refl (select f (d ∷ e ∷ es)))
    | inr b ↦ rw (b) (
        Perm.trans (kept-perm (f e) e _ _ (insert_deal-perm d es))
          (kept_swap (f e) (f d) e d (select f es)))
  ]

  pub sort_deals-perm : (ds : List (Deal F)) → Perm (select f (sort_deals ds)) (select f ds)
  sort_deals-perm [] = Perm.refl []
  sort_deals-perm (d ∷ ds) =
      Perm.trans (insert_deal-perm d (sort_deals ds)) (kept-perm (f d) d _ _ (sort_deals-perm ds))
