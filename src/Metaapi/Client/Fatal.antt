-- ===== src/Metaapi/Client/Fatal.antt =====
-- The errors for which an account is given up (src/metaapi/client.ts).
use mathlib.Core.Bool.{true≢false}
use tradetrack_api.Prelude.{
  ◌≡◌, refl, sym, ap, String, Bool, true, false, Option, none, some, List, [], ◌∷◌, elem, ◌⊎◌, inl,
  inr, Bool-cases,
}
use tradetrack_api.Metaapi.Client.{
  ErrorKind, fatal_account, fatal_account_codes, ErrorShape, shape, texts, collect_codes,
  has_status, any_fatal, classify_meta_api_error,
}

-- The code stands in the list.
abbrev pub Holds : String → List (Option String) → Type 0
Holds c [] = ⊥
Holds c (d ∷ ds) = (d ≡ some c) ⊎ Holds c ds

abbrev is_fatal : ErrorKind → Bool
is_fatal fatal_account = true
is_fatal k = false

texts-Holds :
    (cs : List (Option String))
    → any_fatal (texts cs) ≡ true
    → (c : String) × Holds c cs × (elem c fatal_account_codes ≡ true)
texts-Holds [] e = absurd (true≢false (sym e))
texts-Holds (none ∷ cs) e = let (c, at, bad) = texts-Holds cs e in (c, inr at, bad)
texts-Holds (some d ∷ cs) e = elim (Bool-cases (elem d fatal_account_codes)) [
  | inl bad ↦ (d, inl refl, bad)
  | inr good ↦ let (c, at, bad) = texts-Holds cs (rw (good) at e) in (c, inr at, bad)
]

-- An error counts as the account's own fault only if its status is neither 401 nor 404 and one of the
-- fatal codes stands in its code, in its error or in one of its details.
pub classify_meta_api_error-fatal :
    (s : ErrorShape)
    → classify_meta_api_error (shape s) ≡ fatal_account
    → (has_status 401 s.status ≡ false)
      × (has_status 404 s.status ≡ false)
      × ((c : String) × Holds c (s.code ∷ s.error ∷ s.details)
          × (elem c fatal_account_codes ≡ true))
unfolding classify_meta_api_error collect_codes
classify_meta_api_error-fatal s e = elim (Bool-cases (has_status 401 s.status)) [
  | inl a ↦ absurd (true≢false (sym (ap is_fatal (rw (a) at e))))
  | inr a ↦ elim (Bool-cases (has_status 404 s.status)) [
    | inl b ↦ absurd (true≢false (sym (ap is_fatal (rw (a, b) at e))))
    | inr b ↦ elim (Bool-cases (any_fatal (texts (s.code ∷ s.error ∷ s.details)))) [
      | inl f ↦ (a, b, texts-Holds (s.code ∷ s.error ∷ s.details) f)
      | inr f ↦ absurd (true≢false (sym (ap is_fatal (rw (a, b, f) at e))))
    ]
  ]
]
