-- ===== src/Esam/Decide.antt =====
-- src/main.rs, the decision part of `handle_esam_impl`, and `dryrun`: the channel, the rule that is
-- chosen, and the answer. A row holds its JSON as text; a row of rules is read in the columns that count.
pub mod Order
pub mod Laws
pub mod Authority
use text.Mathlib.Text.{◌==◌ as str_eq}
use rust_pois.Prelude.{
  or_else, ℕ, ℤ, pos, negsuc, suc, ◌+◌, Bool, true, false, not, ◌&&◌, ◌||◌, Option, none, some,
  List, [], ◌∷◌, ◌==◌, ◌!=◌, leb, length, filter, if◌then◌else◌, Text, codes, text_eq, Run, done,
  panics, bind_run, unwrap_or, bind_option, min,
}
use rust_pois.Json.{Value, Fields, get, get_str, as_object, as_str, lookup}
use rust_pois.Rules.Match.{rule_matches}
use rust_pois.Esam.{Serde, Env}
use rust_pois.Esam.Payload.{apply_action, set_field}
use rust_pois.Esam.Notification.{build_notification}

-- A row of channels.
pub record Channel : Type 0 where
  pub id : ℕ
  pub name : Text
  pub enabled : ℕ
  pub sesame_min_tier : ℤ
  pub deleted : Bool

-- A row of rules.
pub record Rule : Type 0 where
  pub id : ℕ
  pub channel_id : ℕ
  pub name : Text
  pub priority : ℤ
  pub enabled : ℕ
  pub match_json : Text
  pub action : Text
  pub params_json : Text
  pub deleted : Bool

pub record Tables : Type 0 where
  pub channels : List Channel
  pub rules : List Rule

-- `WHERE name=? AND enabled=1 AND deleted_at IS NULL`
unfoldable pub find_channel : Text → List Channel → Option Channel
find_channel name [] = none
find_channel name (c ∷ cs) =
    let rest = find_channel name cs in
    if text_eq c.name name && ((c.enabled == 1) && not c.deleted) then some c else rest

abbrev pub leb_int : ℤ → ℤ → Bool
leb_int (pos a) (pos b) = leb a b
leb_int (pos a) (negsuc b) = false
leb_int (negsuc a) (pos b) = true
leb_int (negsuc a) (negsuc b) = leb b a

-- `ORDER BY priority`, rows of one priority in the table's order.
unfoldable pub insert_rule : Rule → List Rule → List Rule
insert_rule r [] = r ∷ []
insert_rule r (s ∷ rules) =
    let rest = insert_rule r rules in
    if leb_int r.priority s.priority then r ∷ s ∷ rules else s ∷ rest

unfoldable pub by_priority : List Rule → List Rule
unfolding insert_rule
by_priority [] = []
by_priority (r ∷ rules) = insert_rule r (by_priority rules)

abbrev pub is_active : ℕ → Rule → Bool
is_active channel_id r = (r.channel_id == channel_id) && ((r.enabled == 1) && not r.deleted)

unfoldable pub active_rules : ℕ → List Rule → List Rule
unfolding by_priority
active_rules channel_id rules = by_priority (filter (is_active channel_id) rules)

-- `from_str(…).unwrap_or(json!({}))` on the match, and `unwrap_or_default()` on the parameters.
abbrev pub match_of : Serde → Rule → Value
match_of serde r = unwrap_or (serde.from_str r.match_json) (Value.object Fields.end)

abbrev pub params_of : Serde → Rule → Value
params_of serde r = unwrap_or (serde.from_str r.params_json) Value.null

-- The loop over the rules.
unfoldable pub first_match : Serde → Fields → List Rule → Option Rule
first_match serde facts [] = none
first_match serde facts (r ∷ rules) =
    let rest = first_match serde facts rules in
    if rule_matches (match_of serde r) facts then some r else rest

abbrev pub non_empty : Option Text → Option Text
non_empty (some (c ∷ s)) = some (c ∷ s)
non_empty _ = none

-- The URL's channel, or the acquisition point of the signal, or "default".
unfoldable pub channel_name : Option Text → Fields → Text
channel_name path facts =
    unwrap_or
      (or_else path (non_empty (bind_option (lookup "acquisitionPointIdentity" facts) as_str)))
      (codes "default")

-- `obj.remove("scte35_b64")`
unfoldable pub remove_field : Fields → Fields
remove_field Fields.end = Fields.end
remove_field (Fields.field k v rest) =
    let later = remove_field rest in if str_eq k "scte35_b64" then rest else Fields.field k v later

unfoldable pub decision_of : Value → Value
unfolding remove_field
decision_of (Value.object fields) = Value.object (remove_field fields)
decision_of v = v

-- What the SESAME exchange has established of a request: the level of the tier reached, and the channel
-- of a Tier-2 scope.
pub record Ctx : Type 0 where
  pub achieved_tier : ℕ
  pub scope_channel : Option Text

-- A server with SESAME: `from_u8(…).level()` and the level of `Tier::Zero`, which are the library's, and
-- what is established of the request.
pub record Sesame : Type 0 where
  pub level : ℕ → ℕ
  pub lowest : ℕ
  pub ctx : Option Ctx

-- The channel's tier, of 0 to 3.
abbrev pub clamp_tier : ℤ → ℕ
clamp_tier (pos n) = min n 3
clamp_tier (negsuc n) = 0

abbrev pub tier_of : ℕ → Option Ctx → ℕ
tier_of lowest none = lowest
tier_of lowest (some ctx) = ctx.achieved_tier

abbrev pub in_scope : Option Ctx → Text → Bool
in_scope none name = true
in_scope (some ctx) name = elim ctx.scope_channel [ none ↦ true | some scope ↦ text_eq scope name ]

pub data Policy : Type 0 where
  accepted insufficient_tier scope_mismatch : Policy

-- The per-channel policy; none is a server without SESAME.
unfoldable pub policy : Option Sesame → Channel → Text → Policy
policy none ch name = accepted
policy (some server) ch name =
    if not (leb (server.level (clamp_tier ch.sesame_min_tier)) (tier_of server.lowest server.ctx))
    then insufficient_tier
    else if not (in_scope server.ctx name)
    then scope_mismatch
    else accepted

pub data Response : Type 0 where
  notification : Text → Response
  not_found : Response
  rejected : Policy → Response

-- `facts.as_object().cloned().unwrap_or_default()`
abbrev pub fields_of : Value → Fields
fields_of facts = unwrap_or (as_object facts) Fields.end

abbrev pub text_of : Option Text → Text
text_of o = unwrap_or o []

abbrev pub notify : Env → Text → Value → Text → Value → Option Value → Text
notify env now facts action params decision =
    build_notification env.serde.to_string now (text_of (get_str "acquisitionSignalID" facts))
      (text_of (get_str "utcPoint" facts)) (text_of (get_str "acquisitionPointIdentity" facts))
      action params decision

-- The parameters of the answer where no rule matches.
abbrev pub noop_params : Option Text → Value
noop_params none = Value.object Fields.end
noop_params (some b64) = Value.object (Fields.field "scte35_b64" (Value.string b64) Fields.end)

unfoldable pub answer : Env → Text → Value → Option Rule → Run Text
unfolding decision_of
answer env now facts (some r) =
    let rule_params = params_of env.serde r in
    bind_run (apply_action env r.action rule_params (get_str "scte35_b64" facts)) (λ final_params.
      done (notify env now facts r.action final_params (some (decision_of rule_params))))
answer env now facts none =
    done (notify env now facts (codes "noop") (noop_params (get_str "scte35_b64" facts)) none)

abbrev pub answer_if : Policy → Run Text → Run Response
answer_if accepted xml = bind_run xml (λ x. done (notification x))
answer_if insufficient_tier xml = done (rejected insufficient_tier)
answer_if scope_mismatch xml = done (rejected scope_mismatch)

unfoldable pub handle_esam :
    Env → Text → Tables → Option Sesame → Option Text → Value → Run Response
unfolding find_channel policy active_rules first_match channel_name answer
handle_esam env now db sesame path facts =
    let name = channel_name path (fields_of facts) in
    elim (find_channel name db.channels) [
      | none ↦ done not_found
      | some ch ↦ answer_if (policy sesame ch name) (
          answer env now facts
            (first_match env.serde (fields_of facts) (active_rules ch.id db.rules)))
    ]

pub record DryRunResult : Type 0 where
  pub matched_rule_id : Option ℕ
  pub action : Text
  pub note : Text

abbrev pub dry_result : Option Rule → DryRunResult
dry_result (some r) = record {
  matched_rule_id = some r.id;
  action = r.action;
  note = codes "first matching rule";
}
dry_result none = record {
  matched_rule_id = none;
  action = codes "noop";
  note = codes "no rules matched";
}

-- `dryrun`: none stands for the status 404.
unfoldable pub dryrun : Serde → Tables → Text → Value → Option DryRunResult
unfolding find_channel active_rules first_match
dryrun serde db channel facts = elim (find_channel channel db.channels) [
  | none ↦ none
  | some ch ↦ some (dry_result (first_match serde (fields_of facts) (active_rules ch.id db.rules)))
]
