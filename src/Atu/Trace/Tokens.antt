-- ===== src/Atu/Trace/Tokens.antt =====
-- The loop of `token_matches` in rse_atu.h.
use qbox_platform.Prelude.{
  ℕ, zero, suc, ◌≤◌, ◌<◌, ◌≡◌, refl, arith, Bool, false, ◌||◌, Option, none, some, List, [], ◌∷◌,
  length, ◌==◌, if◌then◌else◌, Option-cases, inl, inr,
}
use qbox_platform.Atu.Trace.{same, field, after_comma, matches_from, token_matches}

-- The text cut at its commas.
abbrev pub extend : ℕ → List (List ℕ) → List (List ℕ)
extend c [] = (c ∷ []) ∷ []
extend c (t ∷ ts) = (c ∷ t) ∷ ts

abbrev pub fields : List ℕ → List (List ℕ)
fields [] = [] ∷ []
fields (c ∷ cs) = if c == b',' then [] ∷ fields cs else extend c (fields cs)

abbrev pub any_same : List ℕ → List (List ℕ) → Bool
any_same token [] = false
any_same token (t ∷ ts) = same t token || any_same token ts

abbrev fields_behind : Option (List ℕ) → List (List ℕ)
fields_behind none = []
fields_behind (some more) = fields more

fields_lem : (text : List ℕ) → fields text ≡ field text ∷ fields_behind (after_comma text)
unfolding field after_comma
fields_lem [] = refl
fields_lem (c ∷ cs) = ground (arith, fields_lem cs)

after_comma-length :
    (text more : List ℕ) → after_comma text ≡ some more → suc (length more) ≤ length text
unfolding after_comma
after_comma-length [] more h = ground arith
after_comma-length (c ∷ cs) more h = ground (arith, after_comma-length cs more)

matches_from-any :
    (fuel : ℕ) (text token : List ℕ)
    → length text < fuel
    → matches_from fuel text token ≡ any_same token (fields text)
unfolding matches_from
matches_from-any zero text token h = absurd (omega arith)
matches_from-any (suc fuel) text token h =
    rw (fields_lem text) (elim (Option-cases (after_comma text)) [
      | inl e ↦ ground (arith, e)
      | inr (more, e) ↦
          ground (arith, e, after_comma-length text more e, matches_from-any fuel more token)
    ])

-- A filter matches a token exactly when the token is one of the filter's comma-separated fields.
pub token_matches-fields :
    (filter token : List ℕ) → token_matches filter token ≡ any_same token (fields filter)
unfolding token_matches
token_matches-fields filter token =
    matches_from-any (suc (length filter)) filter token (omega arith)
