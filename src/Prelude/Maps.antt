-- ===== src/Prelude/Maps.antt =====
-- Maps as association lists, and sets of texts.
use mathlib.Core.Path.{◌≡◌, refl, ap, ◌∙◌, subst}
use mathlib.Core.Logic.{inl, inr}
use mathlib.Core.Bool.{Bool, true, false, ◌||◌}
use mathlib.Core.Option.{Option, none, some}
use mathlib.Core.List.{List, [], ◌∷◌}
use Prim.Native.String.{String}
use tradetrack_api.Prelude.Tests.{str_eq, str_eq_iff, str_eq_refl, if◌then◌else◌, Bool-cases}

-- A `Map` from texts, in the order in which the keys were first set.
abbrev pub get {ℓ} : {A : Type ℓ} → String → List (String × A) → Option A
get id [] = none
get id ((k, a) ∷ m) = if str_eq k id then some a else get id m

abbrev pub set {ℓ} : {A : Type ℓ} → String → A → List (String × A) → List (String × A)
set id b [] = (id, b) ∷ []
set id b ((k, a) ∷ m) = if str_eq k id then (k, b) ∷ m else (k, a) ∷ set id b m

-- `Map.delete`.
abbrev pub delete {ℓ} : {A : Type ℓ} → String → List (String × A) → List (String × A)
delete id [] = []
delete id ((k, a) ∷ m) = if str_eq k id then delete id m else (k, a) ∷ delete id m

pub get-set {ℓ} :
    {A : Type ℓ} (id : String) (a : A) (m : List (String × A)) → get id (set id a m) ≡ some a
get-set id a [] = rw (str_eq_refl id) refl
get-set id a ((k, b) ∷ m) = elim (Bool-cases (str_eq k id)) [
  | inl e ↦ rw (e) (rw (e) refl)
  | inr e ↦ rw (e) (rw (e) (get-set id a m))
]

pub get-delete {ℓ} :
    {A : Type ℓ} (id : String) (m : List (String × A)) → get id (delete id m) ≡ none
get-delete id [] = refl
get-delete id ((k, a) ∷ m) = elim (Bool-cases (str_eq k id)) [
  | inl e ↦ rw (e) (get-delete id m)
  | inr e ↦ rw (e) (rw (e) (get-delete id m))
]

if_same {ℓ} :
    {A : Type ℓ} (b : Bool) (x y z : A)
    → (if b then x else z) ≡ (if b then x else if b then y else z)
if_same true x y z = refl
if_same false x y z = refl

if_none {ℓ} : {A : Type ℓ} (b : Bool) (o : Option A) → o ≡ none → o ≡ (if b then none else o)
if_none true o e = e
if_none false o e = refl

if_skip {ℓ} :
    {A : Type ℓ} (b : Bool) (a : A) (z : Option A)
    → (if b then none else z) ≡ (if b then none else if b then some a else z)
if_skip true a z = refl
if_skip false a z = refl

pub get-set_cases {ℓ} :
    {A : Type ℓ} (k j : String) (v : A) (m : List (String × A))
    → get k (set j v m) ≡ (if str_eq j k then some v else get k m)
get-set_cases k j v [] = refl
get-set_cases k j v ((i, u) ∷ m) = elim (Bool-cases (str_eq i j)) [
  | inl e ↦ rw (e) (rw ((str_eq_iff i j).0 e) (if_same (str_eq j k) (some v) (some u) (get k m)))
  | inr e ↦ elim (Bool-cases (str_eq j k)) [
    | inl f ↦ rw (e) (
        rw (subst (λ x. str_eq i x ≡ false) ((str_eq_iff j k).0 f) e, f)
          (get-set_cases k j v m ∙ rw (f) refl))
    | inr f ↦
        rw (e) (
          rw (f) (ap (λ x. if str_eq i k then some u else x) (get-set_cases k j v m ∙ rw (f) refl)))
  ]
]

pub get-delete_cases {ℓ} :
    {A : Type ℓ} (k id : String) (m : List (String × A))
    → get k (delete id m) ≡ (if str_eq id k then none else get k m)
get-delete_cases k id [] = if_none (str_eq id k) none refl
get-delete_cases k id ((j, a) ∷ m) = elim (Bool-cases (str_eq j id)) [
  | inl e ↦
      rw (e)
        (get-delete_cases k id m ∙ rw ((str_eq_iff j id).0 e) (if_skip (str_eq id k) a (get k m)))
  | inr e ↦ elim (Bool-cases (str_eq id k)) [
    | inl f ↦ rw (e) (
        rw (subst (λ x. str_eq j x ≡ false) ((str_eq_iff id k).0 f) e, f)
          (get-delete_cases k id m ∙ rw (f) refl))
    | inr f ↦ rw (e) (
        rw (f) (ap (λ x. if str_eq j k then some a else x) (get-delete_cases k id m ∙ rw (f) refl)))
  ]
]

-- A `Set` of texts.
abbrev pub elem : String → List String → Bool
elem id [] = false
elem id (k ∷ ks) = str_eq k id || elem id ks

abbrev pub remove : String → List String → List String
remove id [] = []
remove id (k ∷ ks) = if str_eq k id then remove id ks else k ∷ remove id ks
