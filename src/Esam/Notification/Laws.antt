-- ===== src/Esam/Notification/Laws.antt =====
-- The verbs of src/esam.rs against the actions of src/main.rs.
use Prim.Native.String.{String}
use rust_pois.Prelude.{
  ◌≡◌, ◌↔◌, refl, subst, Bool, true, false, ◌||◌, map, if◌then◌else◌, Text, codes, text_eq,
  to_lower, arith,
}
use rust_pois.Esam.Payload.Laws.{edits}
use rust_pois.Esam.Notification.{Verb, replace, delete, noop, esam_verb}

abbrev verb_if : Bool → Bool → Verb
verb_if r d = if r then replace else if d then delete else noop

noop_iff : (r d : Bool) → (verb_if r d ≡ noop) ↔ ((r || d) ≡ false)
noop_iff true d = ((λ h. cc), (λ h. cc))
noop_iff false true = ((λ h. cc), (λ h. cc))
noop_iff false false = ((λ h. refl), (λ h. refl))

same_words :
    (a b c d e f g : Bool)
    → ((((((a || c) || b) || d) || f) || e) || g)
      ≡ (a || (b || (c || (d || (e || (f || (g || false)))))))
same_words a b c d e f g = ground arith

verb_iff :
    (a b c d e f g : Bool)
    → (verb_if (((((a || c) || b) || d) || f) || e) g ≡ noop)
      ↔ ((a || (b || (c || (d || (e || (f || (g || false))))))) ≡ false)
verb_iff a b c d e f g =
    subst (λ (t : Bool). (verb_if (((((a || c) || b) || d) || f) || e) g ≡ noop) ↔ (t ≡ false))
      (same_words a b c d e f g) (noop_iff (((((a || c) || b) || d) || f) || e) g)

-- The answer's verb is the pass-through exactly for the actions that apply_action neither edits the
-- signal for nor drops it.
pub esam_verb-noop_iff :
    (action : Text) → (esam_verb action ≡ noop) ↔ (edits (map to_lower action) ≡ false)
unfolding esam_verb
esam_verb-noop_iff action =
    let is : String → Bool = λ name. text_eq (map to_lower action) (codes name) in
    verb_iff (is "replace") (is "regionalize") (is "blackout") (is "shorten") (is "fill")
      (is "extend") (is "delete")
