-- ===== src/Esam/Payload/Laws.antt =====
-- What `apply_action` does with the incoming signal.
use Prim.Native.String.{String}
use text.Mathlib.Text.{◌==◌ as str_eq}
use rust_pois.Prelude.{
  unwrap_run, ◌≡◌, refl, sym, ap, ◌∙◌, Bool, true, false, ◌||◌, Option, none, some, [], ◌∷◌, map,
  Run, done, panics, bind_run, bind_option, Text, codes, text_eq, to_lower, Bool-cases, inl, inr,
  if_holds, subst, false≢true, any, arith,
}
use rust_pois.Json.{Value, Fields, get, get_str, as_str, lookup}
use rust_pois.Esam.{Env}
use rust_pois.Esam.Payload.{
  insert_field, set_field, set_payload, pass_through, edit_payload, act, apply_action,
  maybe_build_scte35, upid_edit, delivery_edit, restrictions, set_seconds, add_seconds,
}

lookup-insert_field :
    (key : String) (v : Value) (fields : Fields)
    → str_eq key key ≡ true
    → lookup key (insert_field key v fields) ≡ some v
unfolding lookup insert_field
lookup-insert_field key v Fields.end same = rw same refl
lookup-insert_field key v (Fields.field k w rest) same = elim (Bool-cases (str_eq k key)) [
  | inl e ↦ rw (e, e) refl
  | inr e ↦ rw (e, e) (lookup-insert_field key v rest same)
]

-- The outbound payload.
abbrev pub payload : Value → Option Text
payload p = get_str "scte35_b64" p

abbrev with_payload : Text → Value → Run Value
with_payload t p = set_field "scte35_b64" (Value.string t) p

set-payload : (t : Text) (p p' : Value) → with_payload t p ≡ done p' → payload p' ≡ some t
unfolding set_field get_str get as_str lookup
set-payload t Value.null p' e = ap (λ (r : Run Value). payload (unwrap_run Value.null r)) (sym e)
set-payload t (Value.object fields) p' e =
    ap (λ (r : Run Value). payload (unwrap_run Value.null r)) (sym e)
    ∙ ap (λ (o : Option Value). bind_option o as_str)
        (lookup-insert_field "scte35_b64" (Value.string t) fields refl)
set-payload t (Value.boolean b) p' e = cc
set-payload t (Value.number n) p' e = cc
set-payload t (Value.string s) p' e = cc
set-payload t (Value.array xs) p' e = cc

-- There is a payload.
abbrev pub Carries : Value → Type 0
Carries p = (b : Text) × (payload p ≡ some b)

abbrev Sends : Run Value → Type 0
Sends r = (p' : Value) → r ≡ done p' → Carries p'

pass-Sends : (p : Value) (o : Text) → Sends (pass_through p (some o))
pass-Sends p o p' e = (o, set-payload o p p' e)

payload-Sends :
    (p : Value) (edited : Option Text) (o : Text) → Sends (set_payload p edited (some o))
unfolding set_payload
payload-Sends p none o p' e = (o, set-payload o p p' e)
payload-Sends p (some b) o p' e = (b, set-payload b p p' e)

edit-Sends :
    (p : Value) (o : Text) (edit : Text → Run (Option Text)) → Sends (edit_payload p (some o) edit)
edit-Sends p o edit = from (edit o)
  where
    from : (r : Run (Option Text)) → Sends (bind_run r (λ edited. set_payload p edited (some o)))
    from (done edited) p' e = payload-Sends p edited o p' e
    from panics p' e = cc

abbrev is : Text → String → Bool
is action name = text_eq action (codes name)

act-Sends :
    (env : Env) (action : Text) (p : Value) (o : Text)
    → is action "replace" ≡ false
    → is action "delete" ≡ false
    → Sends (act env action p (some o))
unfolding act
act-Sends env action p o not_replace not_delete =
    if_holds Sends (is action "noop" || is action "tracking-only" || is action "slate")
      (λ _. pass-Sends p o)
      (λ _.
        if_holds Sends (is action "replace") (λ e. absurd (false≢true (sym not_replace ∙ e)))
          (λ _.
            if_holds Sends (is action "regionalize") (λ _. edit-Sends p o (upid_edit env p))
              (λ _.
                if_holds Sends (is action "blackout")
                  (λ _. edit-Sends p o (delivery_edit env (restrictions p)))
                  (λ _.
                    if_holds Sends (is action "shorten" || is action "fill")
                      (λ _. edit-Sends p o (set_seconds env p))
                      (λ _.
                        if_holds Sends (is action "extend")
                          (λ _. edit-Sends p o (add_seconds env p))
                          (λ _.
                            if_holds Sends (is action "delete")
                              (λ e. absurd (false≢true (sym not_delete ∙ e)))
                              (λ _. pass-Sends p o)))))))

-- With an incoming signal, every action but replace and delete, in any case of its letters, leaves a
-- payload in the conditioned parameters, where it does not panic.
pub apply_action-Carries :
    (env : Env) (action : Text) (params p' : Value) (o : Text)
    → text_eq (map to_lower action) (codes "replace") ≡ false
    → text_eq (map to_lower action) (codes "delete") ≡ false
    → apply_action env action params (some o) ≡ done p'
    → Carries p'
unfolding apply_action
apply_action-Carries env action params p' o not_replace not_delete =
    from (maybe_build_scte35 env params)
  where
    from :
        (r : Run Value)
        → bind_run r (λ p. act env (map to_lower action) p (some o)) ≡ done p'
        → Carries p'
    from (done p) e = act-Sends env (map to_lower action) p o not_replace not_delete p' e
    from panics e = cc

-- The actions that edit the signal or drop it.
abbrev pub edits : Text → Bool
edits action =
    any (λ (name : String). text_eq action (codes name))
      ("replace" ∷ "regionalize" ∷ "blackout" ∷ "shorten" ∷ "fill" ∷ "extend" ∷ "delete" ∷ [])

none_of :
    (a b c d e f g : Bool)
    → (a || (b || (c || (d || (e || (f || (g || false))))))) ≡ false
    → (a ≡ false) × (b ≡ false) × (c ≡ false) × ((d || e) ≡ false) × (f ≡ false) × (g ≡ false)
none_of a b c d e f g h =
    (ground arith, ground arith, ground arith, ground arith, ground arith, ground arith)

abbrev Passes : Text → Run Value → Type 0
Passes o r = (p' : Value) × (r ≡ done p') × (payload p' ≡ some o)

pass-Passes : (fields : Fields) (o : Text) → Passes o (pass_through (Value.object fields) (some o))
unfolding set_field
pass-Passes fields o =
    let p' : Value = Value.object (insert_field "scte35_b64" (Value.string o) fields) in
    (p', refl, set-payload o (Value.object fields) p' refl)

act-Passes :
    (env : Env) (action : Text) (fields : Fields) (o : Text)
    → edits action ≡ false
    → Passes o (act env action (Value.object fields) (some o))
unfolding act
act-Passes env action fields o h =
    let pass = pass-Passes fields o in
    let (r, g, b, s, x, d) =
      none_of (is action "replace") (is action "regionalize") (is action "blackout")
        (is action "shorten") (is action "fill") (is action "extend") (is action "delete") h in
    if_holds (Passes o) (is action "noop" || is action "tracking-only" || is action "slate")
      (λ _. pass)
      (λ _.
        if_holds (Passes o) (is action "replace") (λ e. absurd (false≢true (sym r ∙ e)))
          (λ _.
            if_holds (Passes o) (is action "regionalize") (λ e. absurd (false≢true (sym g ∙ e)))
              (λ _.
                if_holds (Passes o) (is action "blackout") (λ e. absurd (false≢true (sym b ∙ e)))
                  (λ _.
                    if_holds (Passes o) (is action "shorten" || is action "fill")
                      (λ e. absurd (false≢true (sym s ∙ e)))
                      (λ _.
                        if_holds (Passes o) (is action "extend")
                          (λ e. absurd (false≢true (sym x ∙ e)))
                          (λ _.
                            if_holds (Passes o) (is action "delete")
                              (λ e. absurd (false≢true (sym d ∙ e))) (λ _. pass)))))))

-- An action that is none of the seven that edit or drop the signal, known or not, succeeds and leaves
-- the incoming payload itself, where the parameters are an object and their `build` does not panic.
pub apply_action-passes :
    (env : Env) (action : Text) (params : Value) (fields : Fields) (o : Text)
    → edits (map to_lower action) ≡ false
    → maybe_build_scte35 env params ≡ done (Value.object fields)
    → (p' : Value) × (apply_action env action params (some o) ≡ done p') × (payload p' ≡ some o)
unfolding apply_action
apply_action-passes env action params fields o h built =
    subst (Passes o)
      (sym
        (ap (λ (r : Run Value). bind_run r (λ p. act env (map to_lower action) p (some o))) built))
      (act-Passes env (map to_lower action) fields o h)
