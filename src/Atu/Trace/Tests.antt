-- ===== src/Atu/Trace/Tests.antt =====
-- The trace filter of rse_atu.h on a concrete filter.
use qbox_platform.Prelude.{◌≡◌, refl, true, false}
use qbox_platform.Atu.Trace.{codes, field, after_comma, matches_from, token_matches}
use qbox_platform.Atu.Trace.Tokens.{any_same, fields, token_matches-fields}

matched : token_matches (codes "read,dmi") (codes "dmi") ≡ true
unfolding token_matches matches_from field after_comma
matched = refl

-- A part of a field is no match.
unmatched : token_matches (codes "readers,dmi") (codes "read") ≡ false
unfolding token_matches matches_from field after_comma
unmatched = refl

token_matches-fields_example :
    token_matches (codes "read,dmi") (codes "dmi")
    ≡ any_same (codes "dmi") (fields (codes "read,dmi"))
token_matches-fields_example = token_matches-fields (codes "read,dmi") (codes "dmi")
