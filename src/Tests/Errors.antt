-- ===== src/Tests/Errors.antt =====
-- The classification of errors at a concrete error.
use tradetrack_api.Prelude.{◌≡◌, refl, true, false, String, none, some, [], ◌∷◌, elem}
use tradetrack_api.Metaapi.Client.{
  ErrorShape, collect_codes, fatal_account_codes, has_status, classify_meta_api_error,
}
use tradetrack_api.Metaapi.Client.Fatal.{Holds, classify_meta_api_error-fatal}

-- A refused password, named in a detail.
abbrev refused_password : ErrorShape
refused_password = record {
  status = some 400;
  code = none;
  error = some "ValidationError";
  details = some "E_AUTH" ∷ [];
}

classify_meta_api_error-fatal_example :
    (has_status 401 refused_password.status ≡ false)
    × (has_status 404 refused_password.status ≡ false)
    × ((c : String) × Holds c
          (refused_password.code ∷ refused_password.error ∷ refused_password.details)
        × (elem c fatal_account_codes ≡ true))
unfolding classify_meta_api_error collect_codes
classify_meta_api_error-fatal_example = classify_meta_api_error-fatal refused_password refl
