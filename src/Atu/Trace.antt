-- ===== src/Atu/Trace.antt =====
-- The trace filter of rse_atu.h. Only the count of lines written is state; the text is not modelled.
pub mod Tokens
mod Tests
use Prim.Native.Char.{code}
use Prim.Native.String.{String}
use qbox_platform.Prelude.{
  ℕ, zero, suc, ◌+◌, Bool, true, false, not, ◌&&◌, ◌||◌, Option, none, some, List, [], ◌∷◌, length,
  ltb, leb, ◌==◌, if◌then◌else◌,
}
use qbox_platform.Tlm.{Command, read, write}
use qbox_platform.Atu.{Config, Atu, Info}
use qbox_platform.Atu.Offset.{range_end}

abbrev pub codes : String → List ℕ
codes String.[] = []
codes (String.◌∷◌ c s) = code c ∷ codes s

abbrev pub same : List ℕ → List ℕ → Bool
same [] [] = true
same (a ∷ as') (b ∷ bs) = a == b && same as' bs
same _ _ = false

-- `filter.substr(start, end - start)`, from the text at `start` on.
unfoldable pub field : List ℕ → List ℕ
field [] = []
field (c ∷ cs) = if c == b',' then [] else c ∷ field cs

-- The text behind the next comma, if there is one.
unfoldable pub after_comma : List ℕ → Option (List ℕ)
after_comma [] = none
after_comma (c ∷ cs) = if c == b',' then some cs else after_comma cs

-- The `while` loop; the fuel bounds the number of tokens.
unfoldable pub matches_from : ℕ → List ℕ → List ℕ → Bool
matches_from zero rest token = false
matches_from (suc fuel) rest token = elim (same (field rest) token) [
  | true ↦ true
  | false ↦ elim (after_comma rest) [ none ↦ false | some more ↦ matches_from fuel more token ]
]

unfoldable pub token_matches : List ℕ → List ℕ → Bool
unfolding matches_from
token_matches filter token = matches_from (suc (length filter)) filter token

command_matches : List ℕ → Command → Bool
command_matches filter read = token_matches filter (codes "read")
command_matches filter write = token_matches filter (codes "write")
command_matches filter _ = false

unfoldable pub trace_category_matches : Config → List ℕ → Command → Bool
unfolding command_matches
trace_category_matches c category command =
    if same c.trace_filter [] || same c.trace_filter (codes "all")
    then true
    else if token_matches c.trace_filter category
    then true
    else command_matches c.trace_filter command

unfoldable pub trace_range_matches : Config → ℕ → ℕ → Bool
trace_range_matches c start end =
    if c.trace_address_min == 0 && c.trace_address_max == 0
    then true
    else if ltb end c.trace_address_min
    then false
    else if not (c.trace_address_max == 0) && ltb c.trace_address_max start
    then false
    else true

unfoldable pub trace_address_matches : Config → ℕ → ℕ → Bool
unfolding trace_range_matches
trace_address_matches c address len = trace_range_matches c address (range_end address len)

unfoldable pub trace_translation_address_matches : Config → ℕ → ℕ → Info → Bool → Bool
unfolding trace_address_matches
trace_translation_address_matches c logical len info translated =
    if trace_address_matches c logical len
    then true
    else translated && trace_address_matches c info.physical len

-- Counts a line unless one of the four conditions stops it.
unfoldable pub count_line : Config → Atu → Bool → Bool → Atu
count_line c s category address =
    if not c.trace || leb c.trace_limit s.trace_count || not category || not address
    then s
    else record s { trace_count = s.trace_count + 1 }

unfoldable pub trace_access : Config → Atu → Command → ℕ → ℕ → Atu
unfolding count_line
trace_access c s command offset len =
    count_line c s (trace_category_matches c (codes "register") command)
      (trace_address_matches c offset len)

unfoldable pub trace_translation : Config → Atu → Command → ℕ → Info → ℕ → Bool → Atu
unfolding count_line
trace_translation c s command logical info len done =
    count_line c s (trace_category_matches c (codes "translation") command)
      (trace_translation_address_matches c logical len info done)

unfoldable pub trace_dmi : Config → Atu → Command → ℕ → Info → ℕ → Bool → Atu
unfolding count_line
trace_dmi c s command logical info len translated =
    count_line c s (trace_category_matches c (codes "dmi") command)
      (trace_translation_address_matches c logical len info translated)
