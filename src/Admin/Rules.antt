-- ===== src/Admin/Rules.antt =====
-- src/main.rs, the handlers of rules. A rule inherits the access of its channel. What the maximum of no
-- rows is read as, by the database's driver, is a parameter.
use rust_pois.Prelude.{
  ℕ, suc, ◌^◌, ◌+◌, ◌-◌, Bool, true, false, not, ◌&&◌, Option, none, some, List, [], ◌∷◌, any,
  filter, ltb, ◌==◌, if◌then◌else◌, Text, unwrap_or, bind_option, Result, ok, err, ℤ, pos, negsuc,
}
use rust_pois.Json.{Value}
use rust_pois.Rbac.{Eff, contains_id, can_read, can_write}
use rust_pois.Groups.{Refusal, bad_request, forbidden, not_found}
use rust_pois.Groups.Share.{bit}
use rust_pois.Esam.{Serde}
use rust_pois.Esam.Decide.{Rule, leb_int, by_priority}
use rust_pois.Admin.{Channel, Store, entity, find_row, update_row}

pub record UpsertRule : Type 0 where
  pub name : Text
  pub priority : ℤ
  pub enabled : Option Bool
  pub match_json : Value
  pub action : Text
  pub params_json : Value

abbrev pub in_channel : ℕ → Rule → Bool
in_channel channel_id r = (r.channel_id == channel_id) && not r.deleted

abbrev pub is_rule : ℕ → Rule → Bool
is_rule id r = (r.id == id) && not r.deleted

-- GET /api/channels/{id}/rules
unfoldable pub list_rules : Eff → ℕ → Store → Result Refusal (List Rule)
unfolding can_read by_priority
list_rules eff channel_id st =
    if not (can_read (entity st) eff channel_id)
    then err forbidden
    else ok (by_priority (filter (in_channel channel_id) st.rules))

-- `+ 10` on an i64: a sum of 2 ^ 63 or more wraps around to a negative one, as in a release build.
unfoldable pub add_ten : ℤ → ℤ
add_ten (pos n) = if ltb (n + 10) (2 ^ 63) then pos (n + 10) else negsuc (2 ^ 64 - 11 - n)
add_ten (negsuc n) = if ltb n 10 then pos (9 - n) else negsuc (n - 10)

abbrev pub max_int : ℤ → ℤ → ℤ
max_int a b = if leb_int a b then b else a

-- `SELECT MAX(priority)`: none where there is no row.
unfoldable pub max_priority : List Rule → Option ℤ
max_priority [] = none
max_priority (r ∷ rules) = elim (max_priority rules) [
  | none ↦ some r.priority
  | some m ↦ some (max_int r.priority m)
]

abbrev pub or_read : Option ℤ → Option ℤ → Option ℤ
or_read (some m) empty = some m
or_read none empty = empty

abbrev pub ten_later : Option ℤ → ℤ
ten_later none = pos 0
ten_later (some m) = add_ten m

unfoldable pub next_priority : Option ℤ → List Rule → ℤ
unfolding max_priority add_ten
next_priority empty rules = ten_later (or_read (max_priority rules) empty)

abbrev pub priority_for : Option ℤ → ℤ → List Rule → ℤ
priority_for empty (pos n) rules = pos n
priority_for empty (negsuc n) rules = next_priority empty rules

abbrev pub new_rule : Serde → Option ℤ → ℕ → UpsertRule → Store → Rule
new_rule serde empty channel_id p st = record {
  id = st.next_rule;
  channel_id = channel_id;
  name = p.name;
  priority = priority_for empty p.priority (filter (in_channel channel_id) st.rules);
  enabled = bit (unwrap_or p.enabled true);
  match_json = serde.to_string p.match_json;
  action = p.action;
  params_json = serde.to_string p.params_json;
  deleted = false;
}

-- POST /api/channels/{id}/rules: the channel, deleted or not, and the owner are there.
unfoldable pub create_rule :
    Serde → Option ℤ → Eff → ℕ → UpsertRule → Store → Result Refusal Rule × Store
unfolding can_write next_priority
create_rule serde empty eff channel_id p st =
    let rule = new_rule serde empty channel_id p st in
    if not (can_write (entity st) eff channel_id)
    then (err forbidden, st)
    else if any (λ (c : Channel). c.id == channel_id) st.channels && contains_id st.users eff.uid
    then (ok rule, record st { rules = rule ∷ st.rules; next_rule = suc st.next_rule })
    else (err bad_request, st)

-- The channel of a rule that is not deleted.
unfoldable pub rule_parent_channel : ℕ → Store → Option ℕ
unfolding find_row
rule_parent_channel id st = bind_option (find_row (is_rule id) st.rules) (λ r. some r.channel_id)

-- The check of the parent channel in front of a change.
abbrev pub gated :
    {A : Type 0} → Eff → Store → Option ℕ → Result Refusal A × Store → Result Refusal A × Store
gated eff st none change = (err not_found, st)
gated eff st (some cid) change =
    if not (can_write (entity st) eff cid) then (err forbidden, st) else change

abbrev pub patched : Serde → UpsertRule → Rule → Rule
patched serde p r = record r {
  name = p.name;
  priority = p.priority;
  enabled = bit (unwrap_or p.enabled true);
  match_json = serde.to_string p.match_json;
  action = p.action;
  params_json = serde.to_string p.params_json;
}

-- `fetch_one` of the updated row.
abbrev pub row_result : (Rule → Rule) → Option Rule → Result Refusal Rule
row_result f none = err bad_request
row_result f (some r) = ok (f r)

-- PUT /api/rules/{id}
unfoldable pub update_rule : Serde → Eff → ℕ → UpsertRule → Store → Result Refusal Rule × Store
unfolding can_write rule_parent_channel update_row find_row
update_rule serde eff id p st = gated eff st (rule_parent_channel id st) (
  row_result (patched serde p) (find_row (is_rule id) st.rules),
  record st { rules = update_row (is_rule id) (patched serde p) st.rules },
)

-- DELETE /api/rules/{id}
unfoldable pub delete_rule : Eff → ℕ → Store → Result Refusal Unit × Store
unfolding can_write rule_parent_channel update_row
delete_rule eff id st = gated eff st (rule_parent_channel id st) (
  ok tt,
  record st {
    rules =
        update_row (is_rule id) (λ (r : Rule). record r { deleted = true; enabled = 0 }) st.rules;
  },
)

-- The loop of the transaction: the rule with the id, deleted or not, gets the next multiple of ten.
unfoldable pub reprioritise : ℕ → List ℕ → List Rule → List Rule
unfolding update_row
reprioritise prio [] rules = rules
reprioritise prio (id ∷ ids) rules =
    reprioritise (prio + 10) ids
      (update_row (λ (r : Rule). r.id == id) (λ (r : Rule). record r { priority = pos prio }) rules)

abbrev pub gate_of :
    Eff → Store → List ℕ → Result Refusal Unit × Store → Result Refusal Unit × Store
gate_of eff st [] change = change
gate_of eff st (first ∷ ids) change = gated eff st (rule_parent_channel first st) change

-- POST /api/rules/reorder
unfoldable pub reorder_rules : Eff → List ℕ → Store → Result Refusal Unit × Store
unfolding can_write rule_parent_channel reprioritise
reorder_rules eff ordered_ids st =
    gate_of eff st ordered_ids (ok tt, record st { rules = reprioritise 0 ordered_ids st.rules })
