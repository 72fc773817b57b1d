-- ===== src/Rules/Match.antt =====
-- src/rules.rs, `rule_matches` and `eval`: a rule's match object against the facts of a signal.
pub mod Clauses
use Prim.Native.String.{String}
use rust_pois.Prelude.{
  Bool, true, false, ◌&&◌, ◌||◌, Option, none, some, if◌then◌else◌, Text, codes,
  eq_ignore_ascii_case, text_le, unwrap_or, bind_option, [],
}
use rust_pois.Json
use rust_pois.Json.{Value, Fields, Items, get, get_str, lookup, as_str, as_array, as_object, string}
use rust_pois.Rules.Glob.{glob_match}

-- `facts.get(key)`, where the pattern wants `Value::String`.
unfoldable pub fact : String → Fields → Option Text
fact key facts = bind_option (lookup key facts) as_str

-- One `if let … { if let … { return … } }` of `eval`: what stands below runs unless both are there.
abbrev pub when_both : Option Text → Option Text → (Text → Text → Bool) → Bool → Bool
when_both (some want) (some actual) test below = test want actual
when_both (some want) none test below = below
when_both none actual test below = below

abbrev pub in_window : Fields → Option Text → Bool
in_window win none = false
in_window win (some utc) =
    let start = unwrap_or (get_str "start" (Json.object win)) [] in
    let end = unwrap_or (get_str "end" (Json.object win)) (codes "~") in
    text_le start utc && text_le utc end

abbrev pub when_window : Option Fields → Option Text → Bool
when_window none utc = false
when_window (some win) utc = in_window win utc

unfoldable pub eval : Value → Fields → Bool
unfolding fact
eval cond facts =
    when_both (get_str "acquisitionSignalID" cond) (fact "acquisitionSignalID" facts) glob_match (
      when_both (get_str "scte35.command" cond) (fact "scte35.command" facts)
        (λ cmd actual. eq_ignore_ascii_case actual cmd)
        (when_both (get_str "scte35.segmentation_type_id" cond)
          (fact "scte35.segmentation_type_id" facts) (λ typ actual. eq_ignore_ascii_case actual typ)
          (when_both (get_str "scte35.segmentation_upid" cond)
            (fact "scte35.segmentation_upid" facts) glob_match
            (when_window (bind_option (get "utcBetween" cond) as_object) (fact "utcPoint" facts)))))

-- `arr.iter().any(…)` and `arr.iter().all(…)`
unfoldable pub any_item : (Value → Bool) → Items → Bool
any_item p Items.nil = false
any_item p (Items.cons v rest) = p v || any_item p rest

unfoldable pub all_items : (Value → Bool) → Items → Bool
all_items p Items.nil = true
all_items p (Items.cons v rest) = p v && all_items p rest

-- `is_some_and`
abbrev pub is_some_and : Option Items → (Items → Bool) → Bool
is_some_and none p = false
is_some_and (some xs) p = p xs

-- Neither clause is there.
abbrev pub no_clause : Option Items → Option Items → Bool
no_clause none none = true
no_clause _ _ = false

-- `match_json.get(key).and_then(|v| v.as_array())`
unfoldable pub clause : String → Value → Option Items
clause key v = bind_option (get key v) as_array

unfoldable pub rule_matches : Value → Fields → Bool
unfolding any_item all_items clause
rule_matches match_json facts =
    let any_clause = clause "anyOf" match_json in
    let all_clause = clause "allOf" match_json in
    if no_clause any_clause all_clause
    then true
    else is_some_and any_clause (any_item (λ c. eval c facts))
      || is_some_and all_clause (all_items (λ c. eval c facts))
