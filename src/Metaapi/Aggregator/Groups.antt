-- ===== src/Metaapi/Aggregator/Groups.antt =====
-- The groups of `aggregateDeals` (src/metaapi/deal-aggregator.ts) against the list of deals.
use mathlib.Core.Option
use mathlib.Core.List
use tradetrack_api.Prelude.{
  ◌≡◌, refl, sym, ap, ◌∙◌, subst, String, str_eq, str_eq_iff, str_eq_sym, Bool, false, not, ◌&&◌,
  Option, none, some, value_or, List, [], ◌∷◌, ◌++◌, get, get-set_cases, IsMap, set-IsMap,
  IsMap-get, All, All-In, Bool-cases, inl, inr, if◌then◌else◌,
}
use tradetrack_api.Metaapi.Aggregator.{Deal, is_text, group_id, add_to, deal_groups}
use tradetrack_api.Metaapi.Aggregator.Sorted.{select, select_append_one}

abbrev IsId : String → Type 0
IsId k = str_eq k "" ≡ false

-- A test of ids that is passed by a key alone, or by none.
abbrev Passes : (String → Bool) → Option String → Type 0
Passes test none = (j : String) → IsId j → test j ≡ false
Passes test (some k) = IsId k × ((j : String) → test j ≡ str_eq k j)

is_text-Passes : (o : Option String) → Passes (λ j. is_text j o) (if is_text "" o then none else o)
is_text-Passes none = λ j id. refl
is_text-Passes (some k) = elim (Bool-cases (str_eq k "")) [
  | inl e ↦ rw (e) (λ j id. ap (λ x. str_eq x j) ((str_eq_iff k "").0 e) ∙ str_eq_sym j "" id)
  | inr e ↦ rw (e) (e, λ j. refl)
]

module _ {F : Type 0} where
  -- A deal of the position that is no balance operation.
  abbrev pub belongs : String → Deal F → Bool
  belongs id d = not (str_eq d.deal_type "DEAL_TYPE_BALANCE") && is_text id d.position_id

  group_id-Passes : (d : Deal F) → Passes (λ j. belongs j d) (group_id d)
  group_id-Passes d = elim (Bool-cases (str_eq d.deal_type "DEAL_TYPE_BALANCE")) [
    | inl e ↦ rw (e) (λ j id. refl)
    | inr e ↦ rw (e) (is_text-Passes d.position_id)
  ]

  -- The groups hold the deals of their positions, in the order in which they came.
  abbrev Holds : List (String × List (Deal F)) → List (Deal F) → Type 0
  Holds m ds = (j : String) → IsId j → value_or [] (get j m) ≡ select (belongs j) ds

  abbrev IsGrouping : List (String × List (Deal F)) → List (Deal F) → Type 0
  IsGrouping m ds = Holds m ds × IsMap m × (get "" m ≡ none)

  appended :
      (j : String) (d : Deal F) (ds : List (Deal F)) {b : Bool}
      → belongs j d ≡ b
      → select (belongs j) ds ++ (if b then d ∷ [] else []) ≡ select (belongs j) (ds ++ d ∷ [])
  appended j d ds e = sym (
      select_append_one (belongs j) ds d
      ∙ ap (λ b. select (belongs j) ds ++ (if b then d ∷ [] else [])) e)

  added-Holds :
      (k : String) (d : Deal F) (m : List (String × List (Deal F))) (ds : List (Deal F))
      → ((j : String) → belongs j d ≡ str_eq k j)
      → Holds m ds
      → Holds (add_to (some k) d m) (ds ++ d ∷ [])
  added-Holds k d m ds key h j id = elim (Bool-cases (str_eq k j)) [
    | inl e ↦
        ap (value_or []) (
          get-set_cases j k (value_or [] (get k m) ++ d ∷ []) m
          ∙ ap (λ b. if b then some (value_or [] (get k m) ++ d ∷ []) else get j m) e)
        ∙ ap (λ x. value_or [] (get x m) ++ d ∷ []) ((str_eq_iff k j).0 e)
        ∙ ap (λ xs. xs ++ d ∷ []) (h j id)
        ∙ appended j d ds (key j ∙ e)
    | inr e ↦
        ap (value_or []) (
          get-set_cases j k (value_or [] (get k m) ++ d ∷ []) m
          ∙ ap (λ b. if b then some (value_or [] (get k m) ++ d ∷ []) else get j m) e)
        ∙ h j id
        ∙ sym (List.append-nil (select (belongs j) ds))
        ∙ appended j d ds (key j ∙ e)
  ]

  add_to-IsGrouping :
      (key : Option String) (d : Deal F) (m : List (String × List (Deal F))) (ds : List (Deal F))
      → Passes (λ j. belongs j d) key
      → IsGrouping m ds
      → IsGrouping (add_to key d m) (ds ++ d ∷ [])
  add_to-IsGrouping none d m ds key (h, distinct, no_empty) = (
    λ j id. h j id ∙ sym (List.append-nil (select (belongs j) ds)) ∙ appended j d ds (key j id),
    distinct,
    no_empty,
  )
  add_to-IsGrouping (some k) d m ds (id, key) (h, distinct, no_empty) = (
    added-Holds k d m ds key h,
    set-IsMap k (value_or [] (get k m) ++ d ∷ []) m distinct,
    get-set_cases "" k (value_or [] (get k m) ++ d ∷ []) m
        ∙ ap (λ b. if b then some (value_or [] (get k m) ++ d ∷ []) else get "" m) id
        ∙ no_empty,
  )

  deal_groups-IsGrouping :
      (ds before : List (Deal F)) (m : List (String × List (Deal F)))
      → IsGrouping m before
      → IsGrouping (deal_groups ds m) (before ++ ds)
  unfolding deal_groups
  deal_groups-IsGrouping [] before m h = subst (IsGrouping m) (sym (List.append-nil before)) h
  deal_groups-IsGrouping (d ∷ ds) before m h =
      subst (IsGrouping (deal_groups ds (add_to (group_id d) d m)))
        (List.append_assoc before (d ∷ []) ds)
        (deal_groups-IsGrouping ds (before ++ d ∷ []) (add_to (group_id d) d m)
          (add_to-IsGrouping (group_id d) d m before (group_id-Passes d) h))

  -- A group has a position id, and is what the deals of that position are.
  abbrev pub IsGroupOf : List (Deal F) → String × List (Deal F) → Type 0
  IsGroupOf deals x = (str_eq x.0 "" ≡ false) × (x.1 ≡ select (belongs x.0) deals)

  pub deal_groups-IsGroupOf : (deals : List (Deal F)) → All (IsGroupOf deals) (deal_groups deals [])
  deal_groups-IsGroupOf deals =
      let m = deal_groups deals [] in
      let (h, distinct, no_empty) = deal_groups-IsGrouping deals [] [] (λ j id. refl, tt, refl) in
      All-In (IsGroupOf deals) m (λ x there.
        let at = IsMap-get x.0 x.1 m distinct there in
        elim (Bool-cases (str_eq x.0 "")) [
          | inl e ↦ absurd (
              Option.none-ne-some x.1
                (sym no_empty ∙ ap (λ k. get k m) (sym ((str_eq_iff x.0 "").0 e)) ∙ at))
          | inr e ↦ (e, sym (ap (value_or []) at) ∙ h x.0 e)
        ])
