-- ===== src/Rules/Examples.antt =====
-- Rules of src/rules.rs on concrete signals.
use rust_pois.Prelude.{◌≡◌, ◌↔◌, refl, true, false, List, [], ◌∷◌, Text, codes}
use rust_pois.Json.{Value, Fields, get, as_array, get_str}
use rust_pois.Rules.Glob.{glob_match}
use rust_pois.Rules.Glob.Spec.{Matches}
use rust_pois.Rules.Glob.Correct.{glob_match_iff}
use rust_pois.Rules.Match.{eval, clause, rule_matches}
use rust_pois.Rules.Match.Clauses.{IsMatch, rule_matches_iff, id_rule}

abbrev signal : Text
signal = codes "blk-AFE1-end"

abbrev facts : Fields
facts = Fields.field "acquisitionSignalID" (Value.string signal) Fields.end

abbrev patterns : List Text
patterns = codes "x*" ∷ codes "*AFE1*" ∷ []

globs :
    (glob_match (codes "blk-*") signal ≡ true)
    × (glob_match (codes "*AFE*-end") signal ≡ true)
    × (glob_match (codes "*AFE2*") signal ≡ false)
    × (glob_match (codes "a*a") (codes "a") ≡ false)
    × (glob_match (codes "*") [] ≡ true)
unfolding glob_match
globs = (refl, refl, refl, refl, refl)

rules :
    (rule_matches (Value.object Fields.end) facts ≡ true)
    × (rule_matches (id_rule patterns) facts ≡ true)
    × (rule_matches (id_rule (codes "y*" ∷ [])) facts ≡ false)
unfolding rule_matches eval glob_match clause get as_array get_str
rules = (refl, refl, refl)

glob_match_iff_example :
    (glob_match (codes "*AFE1*") signal ≡ true) ↔ Matches (codes "*AFE1*") signal
glob_match_iff_example = glob_match_iff (codes "*AFE1*") signal

rule_matches_iff_example :
    (rule_matches (id_rule patterns) facts ≡ true)
    ↔ IsMatch
        (λ c. eval c facts ≡ true)
        (clause "anyOf" (id_rule patterns))
        (clause "allOf" (id_rule patterns))
rule_matches_iff_example = rule_matches_iff (id_rule patterns) facts
