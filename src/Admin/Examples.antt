-- ===== src/Admin/Examples.antt =====
-- Two channels: user 1 owns channel 5 and writes it, but not channel 6.
use mathlib.Core.List.{Memᴰ}
use rust_pois.Prelude.{
  ◌^◌, ◌-◌, arith, ◌≡◌, refl, true, false, none, some, [], ◌∷◌, codes, text_eq, pos, negsuc, ok,
}
use rust_pois.Json.{Value}
use rust_pois.Rbac.{Eff, can_write, linked}
use rust_pois.Esam.{Serde}
use rust_pois.Esam.Decide.{Rule, leb_int}
use rust_pois.Admin.{Channel, UpsertChannel, Store, entity, create_channel, new_channel}
use rust_pois.Admin.Rules.{
  add_ten, UpsertRule, new_rule, create_rule, update_rule, delete_rule, reorder_rules,
  rule_parent_channel, reprioritise,
}
use rust_pois.Admin.Laws.{SameRules, rule_handlers-SameRules}
use rust_pois.Admin.Create.{create_channel-private}
use rust_pois.Admin.Append.{create_rule-last}

abbrev serde : Serde
serde = record {
  as_u64 = λ t. none;
  ticks_u64 = λ t. 0;
  ticks_i64 = λ t. pos 0;
  to_string = λ v. codes "{}";
  from_str = λ t. none;
}

abbrev ann : Eff
ann = record { uid = 1; super_admin = false; member_of = 10 ∷ []; admin_of = [] }

abbrev sports : Channel
sports = record {
  id = 5;
  name = codes "sports";
  enabled = 1;
  timezone = codes "UTC";
  owner_user_id = some 1;
  is_global = 0;
  deleted = false;
}

abbrev ad : Rule
ad = record {
  id = 1;
  channel_id = 5;
  name = codes "ad";
  priority = pos 20;
  enabled = 1;
  match_json = codes "{}";
  action = codes "noop";
  params_json = codes "{}";
  deleted = false;
}

abbrev station : Store
station = record {
  users = 1 ∷ 2 ∷ [];
  groups = 10 ∷ 20 ∷ [];
  channels = sports ∷ record sports { id = 6; name = codes "news"; owner_user_id = some 2 } ∷ [];
  next_channel = 7;
  links = record { resource_id = 5; group_id = 20 } ∷ [];
  rules = ad ∷ record ad { id = 2; channel_id = 6 } ∷ [];
  next_rule = 3;
}

abbrev request : UpsertRule
request = record {
  name = codes "new";
  priority = negsuc 0;
  enabled = none;
  match_json = Value.null;
  action = codes "delete";
  params_json = Value.null;
}

not_hers : can_write (entity station) ann 6 ≡ false
unfolding can_write
not_hers = refl

rule_handlers-SameRules_example :
    SameRules 6 station (create_rule serde none ann 5 request station)
    × SameRules 6 station (update_rule serde ann 2 request station)
    × SameRules 6 station (delete_rule ann 2 station)
rule_handlers-SameRules_example =
    rule_handlers-SameRules serde none ann station 6 2 5 request not_hers

-- The order of the rules is checked by the first rule's channel only: the other channel's rule changes.
reorder_crosses :
    (reorder_rules ann (1 ∷ 2 ∷ []) station).1.rules
    ≡ record ad { priority = pos 0 } ∷ record ad { id = 2; channel_id = 6; priority = pos 10 } ∷ []
unfolding reorder_rules can_write rule_parent_channel reprioritise
reorder_crosses = refl

abbrev wanted : UpsertChannel
wanted = record {
  name = codes "kids";
  enabled = none;
  timezone = none;
  group_ids = none;
  is_global = some true;
}

made : (create_channel ann wanted station).0 ≡ ok (new_channel ann wanted 7)
unfolding create_channel text_eq
made = refl

create_channel-private_example :
    ((new_channel ann wanted 7).is_global ≡ 0)
    × ((new_channel ann wanted 7).owner_user_id ≡ some 1)
    × (linked (create_channel ann wanted station).1.links 7 20 ≡ false)
create_channel-private_example =
    create_channel-private ann wanted station (new_channel ann wanted 7) 20 (omega arith, tt) refl
      refl made

-- Next to the end of the i64 the sum wraps around, and the new rule comes first.
wrapped : add_ten (pos (2 ^ 63 - 1)) ≡ negsuc (2 ^ 63 - 10)
unfolding add_ten
wrapped = refl

appended :
    (create_rule serde none ann 5 request station).0 ≡ ok (new_rule serde none 5 request station)
unfolding create_rule can_write
appended = refl

create_rule-last_example : leb_int (new_rule serde none 5 request station).priority (pos 20) ≡ false
create_rule-last_example =
    create_rule-last serde none ann 5 0 request station (new_rule serde none 5 request station) ad
      refl (refl, tt) appended (Memᴰ.head refl)
