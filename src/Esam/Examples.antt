-- ===== src/Esam/Examples.antt =====
-- A station with two rules, the base64 of a byte taken to be that byte, and JSON that is never parsed.
use mathlib.Core.List.{Memᴰ}
use rust_pois.Prelude.{
  ◌⊎◌, ◌≡◌, all, filter, ◌&&◌, refl, true, false, none, some, [], ◌∷◌, map, codes, text_eq,
  to_lower, pos, negsuc, done,
}
use rust_pois.Json
use rust_pois.Json.{Value, Fields, get, get_str, lookup}
use rust_pois.Rules.Match.{rule_matches}
use rust_pois.Esam.{Env}
use rust_pois.Esam.Payload.{apply_action, maybe_build_scte35}
use rust_pois.Esam.Payload.Laws.{payload, Carries, edits, apply_action-Carries, apply_action-passes}
use rust_pois.Esam.Decide.{
  Channel, find_channel, rejected, insufficient_tier, scope_mismatch, handle_esam, Sesame, Rule,
  Tables, is_active, active_rules, match_of, first_match, leb_int, channel_name,
}
use rust_pois.Esam.Decide.Authority.{TierMet, Scoped, handle_esam-authorized}
use rust_pois.Esam.Decide.Laws.{Handles, chosen_rule-lowest, dryrun-handle_esam}

abbrev env : Env
env = record {
  b64 = record { encode = λ bytes. bytes; decode = λ text. some text };
  serde = record {
    as_u64 = λ t. none;
    ticks_u64 = λ t. 0;
    ticks_i64 = λ t. pos 0;
    to_string = λ v. codes "{}";
    from_str = λ t. none;
  };
}

abbrev no_params : Value
no_params = Value.object Fields.end

abbrev kept : Value
kept = Value.object (Fields.field "scte35_b64" (Value.string (codes "/DAg")) Fields.end)

not_built : maybe_build_scte35 env no_params ≡ done no_params
unfolding maybe_build_scte35 get
not_built = refl

plain_words : edits (map to_lower (codes "Tracking-Only")) ≡ false
unfolding text_eq
plain_words = refl

apply_action-passes_example :
    (p' : Value) × (apply_action env (codes "Tracking-Only") no_params (some (codes "/DAg"))
      ≡ done p')
    × (payload p' ≡ some (codes "/DAg"))
apply_action-passes_example =
    apply_action-passes env (codes "Tracking-Only") no_params Fields.end (codes "/DAg") plain_words
      not_built

passed_on : apply_action env (codes "noop") no_params (some (codes "/DAg")) ≡ done kept
unfolding apply_action get text_eq
passed_on = refl

not_replace : text_eq (map to_lower (codes "noop")) (codes "replace") ≡ false
unfolding text_eq
not_replace = refl

not_delete : text_eq (map to_lower (codes "noop")) (codes "delete") ≡ false
unfolding text_eq
not_delete = refl

apply_action-Carries_example : Carries kept
apply_action-Carries_example =
    apply_action-Carries env (codes "noop") no_params kept (codes "/DAg") not_replace not_delete
      passed_on

abbrev later : Rule
later = record {
  id = 1;
  channel_id = 7;
  name = codes "later";
  priority = pos 10;
  enabled = 1;
  match_json = [];
  action = codes "delete";
  params_json = [];
  deleted = false;
}

abbrev sooner : Rule
sooner = record later { id = 2; priority = negsuc 0; action = codes "noop" }

abbrev station : Tables
station = record {
  channels =
      record {
        id = 7;
        name = codes "default";
        enabled = 1;
        sesame_min_tier = pos 0;
        deleted = false;
      }
      ∷ [];
  rules = later ∷ sooner ∷ [];
}

chosen : first_match env.serde Fields.end (active_rules 7 (later ∷ sooner ∷ [])) ≡ some sooner
unfolding first_match active_rules rule_matches get
chosen = refl

chosen_rule-lowest_example :
    Memᴰ sooner (later ∷ sooner ∷ [])
    × (is_active 7 sooner ≡ true)
    × (rule_matches (match_of env.serde sooner) Fields.end ≡ true)
    × (all
          (λ (s : Rule). leb_int sooner.priority s.priority)
          (filter
            (λ (s : Rule). is_active 7 s && rule_matches (match_of env.serde s) Fields.end)
            (later ∷ sooner ∷ []))
        ≡ true)
chosen_rule-lowest_example =
    chosen_rule-lowest env.serde Fields.end 7 (later ∷ sooner ∷ []) sooner chosen

dryrun-handle_esam_example :
    Handles env [] station none none no_params (channel_name none Fields.end)
unfolding Json.as_object
dryrun-handle_esam_example = dryrun-handle_esam env [] station none none no_params

-- A channel that demands tier 2, and a request of tier 3 for it.
abbrev guarded : Channel
guarded = record {
  id = 7;
  name = codes "default";
  enabled = 1;
  sesame_min_tier = pos 2;
  deleted = false;
}

abbrev secured : Tables
secured = record station { channels = guarded ∷ [] }

abbrev server : Sesame
server = record {
  level = λ tier. tier;
  lowest = 0;
  ctx = some (record { achieved_tier = 3; scope_channel = some (codes "default") });
}

handle_esam-authorized_example :
    (TierMet server (pos 2)
      × Scoped server.ctx (codes "default")
      × (handle_esam env [] secured (some server) none no_params
          ≡ handle_esam env [] secured none none no_params))
    ⊎ ((¬ TierMet server (pos 2))
        × (handle_esam env [] secured (some server) none no_params
            ≡ done (rejected insufficient_tier)))
    ⊎ (TierMet server (pos 2)
        × (¬ Scoped server.ctx (codes "default"))
        × (handle_esam env [] secured (some server) none no_params
            ≡ done (rejected scope_mismatch)))
unfolding channel_name lookup Json.as_object text_eq find_channel
handle_esam-authorized_example =
    handle_esam-authorized env [] secured server none no_params guarded refl
