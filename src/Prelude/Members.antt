-- ===== src/Prelude/Members.antt =====
-- Predicates on all elements of a list or all values of a map, membership, and how often a text occurs.
use mathlib.Core.Path.{◌≡◌, refl, sym, ap, ◌∙◌, subst}
use mathlib.Core.Logic.{◌⊎◌, inl, inr}
use Prim.Native.Nat.{ℕ, ◌+◌, ◌≤◌}
use native.Mathlib.Omega.{arith}
use mathlib.Core.Bool.{Bool, true, false, ◌||◌, true≢false}
use mathlib.Core.Option
use mathlib.Core.Option.{Option, none, some}
use mathlib.Core.List.{List, [], ◌∷◌, ◌++◌, filter_map, filter_map-cons-none, filter_map-cons-some}
use Prim.Native.String.{String}
use tradetrack_api.Prelude.Tests.{
  str_eq, str_eq_iff, str_eq_refl, if◌then◌else◌, Bool-cases, Option-cases,
}
use tradetrack_api.Prelude.Maps.{get, set, delete, get-set_cases, get-delete_cases, elem, remove}

abbrev pub All {ℓ} : {A : Type ℓ} → (A → Type 0) → List A → Type 0
All P [] = Unit {0}
All P (x ∷ xs) = P x × All P xs

pub All-append {ℓ} :
    {A : Type ℓ} (P : A → Type 0) (xs ys : List A) → All P xs → All P ys → All P (xs ++ ys)
All-append P [] ys a b = b
All-append P (x ∷ xs) ys a b = (a.0, All-append P xs ys a.1 b)

pub All-filter_map {ℓ κ} :
    {A : Type ℓ} {B : Type κ} (P : B → Type 0) (f : A → Option B)
    → ((x : A) (y : B) → f x ≡ some y → P y)
    → (xs : List A) → All P (filter_map f xs)
unfolding filter_map
All-filter_map P f h [] = tt
All-filter_map P f h (x ∷ xs) = elim (Option-cases (f x)) [
  | inl e ↦ subst (All P) (sym (filter_map-cons-none f x xs e)) (All-filter_map P f h xs)
  | inr (y, e) ↦
      subst (All P) (sym (filter_map-cons-some f x xs e)) (h x y e, All-filter_map P f h xs)
]

-- The same where the elements have a property.
pub All-filter_map_of {ℓ κ} :
    {A : Type ℓ} {B : Type κ} (Q : A → Type 0) (P : B → Type 0) (f : A → Option B)
    → ((x : A) (y : B) → Q x → f x ≡ some y → P y)
    → (xs : List A) → All Q xs
    → All P (filter_map f xs)
unfolding filter_map
All-filter_map_of Q P f h [] qs = tt
All-filter_map_of Q P f h (x ∷ xs) (q, qs) = elim (Option-cases (f x)) [
  | inl e ↦ subst (All P) (sym (filter_map-cons-none f x xs e)) (All-filter_map_of Q P f h xs qs)
  | inr (y, e) ↦
      subst (All P) (sym (filter_map-cons-some f x xs e))
        (h x y q e, All-filter_map_of Q P f h xs qs)
]

pub elem-remove : (id : String) (ks : List String) → elem id (remove id ks) ≡ false
elem-remove id [] = refl
elem-remove id (k ∷ ks) = elim (Bool-cases (str_eq k id)) [
  | inl e ↦ rw (e) (elem-remove id ks)
  | inr e ↦ rw (e) (rw (e) (elem-remove id ks))
]

-- The element stands in the list.
abbrev pub In : {A : Type 0} → A → List A → Type 0
In a [] = ⊥
In a (x ∷ xs) = (x ≡ a) ⊎ In a xs

pub In-left : {A : Type 0} (a : A) (xs ys : List A) → In a xs → In a (xs ++ ys)
In-left a [] ys h = absurd h
In-left a (x ∷ xs) ys (inl e) = inl e
In-left a (x ∷ xs) ys (inr h) = inr (In-left a xs ys h)

pub In-right : {A : Type 0} (a : A) (xs ys : List A) → In a ys → In a (xs ++ ys)
In-right a [] ys h = h
In-right a (x ∷ xs) ys h = inr (In-right a xs ys h)

pub In-either : {A : Type 0} (a : A) (xs ys : List A) → In a (xs ++ ys) → In a xs ⊎ In a ys
In-either a [] ys h = inr h
In-either a (x ∷ xs) ys (inl e) = inl (inl e)
In-either a (x ∷ xs) ys (inr h) = elim (In-either a xs ys h) [ inl l ↦ inl (inr l) | inr r ↦ inr r ]

pub In-All : {A : Type 0} (P : A → Type 0) (a : A) (xs : List A) → All P xs → In a xs → P a
In-All P a [] ps h = absurd h
In-All P a (x ∷ xs) (p, ps) (inl e) = subst P e p
In-All P a (x ∷ xs) (p, ps) (inr h) = In-All P a xs ps h

pub str_eq_sym : (s t : String) → str_eq s t ≡ false → str_eq t s ≡ false
str_eq_sym s t e = elim (Bool-cases (str_eq t s)) [
  | inl f ↦ absurd (true≢false (sym ((str_eq_iff s t).1 (sym ((str_eq_iff t s).0 f))) ∙ e))
  | inr f ↦ f
]

-- The keys of a `Map` are different.
abbrev pub IsMap : {A : Type 0} → List (String × A) → Type 0
IsMap [] = Unit {0}
IsMap ((k, a) ∷ m) = (get k m ≡ none) × IsMap m

pub set-IsMap :
    {A : Type 0} (id : String) (v : A) (m : List (String × A)) → IsMap m → IsMap (set id v m)
set-IsMap id v [] h = (refl, tt)
set-IsMap id v ((k, a) ∷ m) (fresh, h) = elim (Bool-cases (str_eq k id)) [
  | inl e ↦ rw (e) (fresh, h)
  | inr e ↦ rw (e) (get-set_cases k id v m ∙ rw (str_eq_sym k id e) fresh, set-IsMap id v m h)
]

pub IsMap-get :
    {A : Type 0} (k : String) (v : A) (m : List (String × A))
    → IsMap m
    → In (k, v) m
    → get k m ≡ some v
IsMap-get k v [] h there = absurd there
IsMap-get k v ((j, a) ∷ m) (fresh, h) (inl e) =
    rw (ap (λ x. x.0) e, str_eq_refl k) (ap (λ x. some x.1) e)
IsMap-get k v ((j, a) ∷ m) (fresh, h) (inr there) = elim (Bool-cases (str_eq j k)) [
  | inl e ↦ absurd (
      Option.none-ne-some v
        (sym fresh ∙ ap (λ x. get x m) ((str_eq_iff j k).0 e) ∙ IsMap-get k v m h there))
  | inr e ↦ rw (e) (IsMap-get k v m h there)
]

pub All-In : {A : Type 0} (P : A → Type 0) (xs : List A) → ((x : A) → In x xs → P x) → All P xs
All-In P [] h = tt
All-In P (x ∷ xs) h = (h x (inl refl), All-In P xs (λ y there. h y (inr there)))

-- How often a text stands in a list.
abbrev pub times : String → List String → ℕ
times key [] = 0
times key (k ∷ ks) = (if str_eq k key then 1 else 0) + times key ks

pub absent-times : (key : String) (ks : List String) → elem key ks ≡ false → times key ks ≡ 0
absent-times key [] e = refl
absent-times key (k ∷ ks) e = elim (Bool-cases (str_eq k key)) [
  | inl f ↦ absurd (true≢false (sym (or_left (str_eq k key) (elem key ks) f) ∙ e))
  | inr f ↦ rw (f) (omega (arith, absent-times key ks (rw (f) at e)))
]
  where
    or_left : (a b : Bool) → a ≡ true → (a || b) ≡ true
    or_left true b e = refl
    or_left false b e = absurd (true≢false (sym e))

pub remove-times :
    (key other : String) (ks : List String) → times key (remove other ks) ≤ times key ks
remove-times key other [] = omega arith
remove-times key other (k ∷ ks) = elim (Bool-cases (str_eq k other)) [
  | inl e ↦ rw (e) (omega (arith, remove-times key other ks))
  | inr e ↦ rw (e) (omega (arith, remove-times key other ks))
]

pub times-remove : (key : String) (ks : List String) → times key (remove key ks) ≡ 0
times-remove key ks = absent-times key (remove key ks) (elem-remove key ks)

pub elem-remove_other :
    (id k : String) (ks : List String) → str_eq id k ≡ false → elem k (remove id ks) ≡ elem k ks
elem-remove_other id k [] e = refl
elem-remove_other id k (j ∷ ks) e = elim (Bool-cases (str_eq j id)) [
  | inl f ↦
      rw (f) (rw (ap (λ x. str_eq x k) ((str_eq_iff j id).0 f) ∙ e) (elem-remove_other id k ks e))
  | inr f ↦ rw (f) (ap (λ x. str_eq j k || x) (elem-remove_other id k ks e))
]

-- Every value that the keys of a map give.
abbrev pub Each : {A : Type 0} → (A → Type 0) → List (String × A) → Type 0
Each P m = (k : String) (a : _) → get k m ≡ some a → P a

pub set-Each :
    {A : Type 0} (P : A → Type 0) (id : String) (a : A) (m : List (String × A))
    → Each P m
    → P a
    → Each P (set id a m)
set-Each P id a m h p k b at = elim (Bool-cases (str_eq id k)) [
  | inl e ↦ subst P (Option.some-injective a b (sym (get-set_cases k id a m ∙ rw (e) refl) ∙ at)) p
  | inr e ↦ h k b (sym (get-set_cases k id a m ∙ rw (e) refl) ∙ at)
]

pub delete-Each :
    {A : Type 0} (P : A → Type 0) (id : String) (m : List (String × A))
    → Each P m
    → Each P (delete id m)
delete-Each P id m h k b at = elim (Bool-cases (str_eq id k)) [
  | inl e ↦ absurd (Option.none-ne-some b (sym (get-delete_cases k id m ∙ rw (e) refl) ∙ at))
  | inr e ↦ h k b (sym (get-delete_cases k id m ∙ rw (e) refl) ∙ at)
]
