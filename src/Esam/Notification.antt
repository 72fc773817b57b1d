-- ===== src/Esam/Notification.antt =====
-- src/esam.rs, `esam_verb` and `build_notification`: the answer's XML. The clock's reading that stands
-- in for a missing time, and the printer of JSON, are parameters.
pub mod Laws
use Prim.Native.String.{String}
use rust_pois.Prelude.{
  ℕ, Bool, true, false, ◌||◌, Option, none, some, List, [], ◌∷◌, ◌++◌, map, ◌==◌, length,
  if◌then◌else◌, Text, codes, text_eq, to_lower,
}
use rust_pois.Json.{Value, get_str}
use rust_pois.Esam.Escape.{xml_escape}

-- The verbs of the standard.
pub data Verb : Type 0 where
  replace delete noop : Verb

unfoldable pub esam_verb : Text → Verb
esam_verb action =
    let lower = map to_lower action in
    let is = λ (name : String). text_eq lower (codes name) in
    if is "replace" || is "blackout" || is "regionalize" || is "shorten" || is "extend" || is "fill"
    then replace
    else if is "delete"
    then delete
    else noop

abbrev pub verb_text : Verb → Text
verb_text replace = codes "replace"
verb_text delete = codes "delete"
verb_text noop = codes "noop"

abbrev pub note : Verb → Text
note delete = codes "filtered signal"
note replace = codes "replaced signal"
note noop = codes "pass-through"

-- `<sig:BinaryData>` around a payload
abbrev pub binary_data : Option Text → Text
binary_data none = []
binary_data (some b64) =
    codes "<sig:BinaryData signalType=\"SCTE35\">" ++ xml_escape b64 ++ codes "</sig:BinaryData>"

unfoldable pub extra : Verb → Value → Text
extra delete params = []
extra replace params = binary_data (get_str "scte35_b64" params)
extra noop params = binary_data (get_str "scte35_b64" params)

unfoldable pub decision_el : (Value → Text) → Text → Option Value → Text
decision_el to_string action none = []
decision_el to_string action (some d) =
    codes "\n    <pois:Decision action=\""
    ++ xml_escape action
    ++ codes "\">"
    ++ xml_escape (to_string d)
    ++ codes "</pois:Decision>"

unfoldable pub utc_or : Text → Text → Text
utc_or now utc = if length utc == 0 || text_eq utc (codes "1970-01-01T00:00:00Z") then now else utc

unfoldable pub build_notification :
    (Value → Text) → Text → Text → Text → Text → Text → Value → Option Value → Text
unfolding esam_verb extra decision_el utc_or
build_notification to_string now acq_id utc acq_point action params decision =
    let verb = esam_verb action in
    let acq_point_str = if length acq_point == 0 then codes "pois-techexlab" else acq_point in
    codes "<?xml version=\"1.0\" encoding=\"UTF-8\"?>\n<SignalProcessingNotification\n"
    ++ codes "  xmlns=\"urn:cablelabs:iptvservices:esam:xsd:signal:1\"\n"
    ++ codes "  xmlns:sig=\"urn:cablelabs:md:xsd:signaling:3.0\"\n"
    ++ codes "  xmlns:core=\"urn:cablelabs:md:xsd:core:3.0\"\n"
    ++ codes "  xmlns:common=\"urn:cablelabs:iptvservices:esam:xsd:common:1\"\n"
    ++ codes "  xmlns:pois=\"urn:techex:pois:decision:1\">\n"
    ++ codes "  <common:StatusCode classCode=\"0\">\n    <core:Note>"
    ++ note verb
    ++ codes "</core:Note>\n  </common:StatusCode>\n  <ResponseSignal action=\""
    ++ xml_escape (verb_text verb)
    ++ codes "\" acquisitionSignalID=\""
    ++ xml_escape acq_id
    ++ codes "\" acquisitionPointIdentity=\""
    ++ xml_escape acq_point_str
    ++ codes "\">\n    <sig:UTCPoint utcPoint=\""
    ++ xml_escape (utc_or now utc)
    ++ codes "\"/>\n    "
    ++ extra verb params
    ++ decision_el to_string action decision
    ++ codes "\n  </ResponseSignal>\n</SignalProcessingNotification>"
