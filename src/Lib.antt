-- ===== src/Lib.antt =====
-- rust-pois: a placement opportunity information server. A signal arrives at the ESAM endpoint
-- (src/main.rs), `src/esam.rs` extracts its facts, `src/rules.rs` finds the first rule of the channel
-- that matches, the rule's action builds an SCTE-35 section (`src/scte35.rs`) and the reply goes out.
-- The tools (`src/tools_api.rs`) build, decode and rewrite sections.
--
-- Prelude: texts as lists of UTF-8 bytes, lists, results; `Run` is a value or a Rust panic.
-- Bits: bytes and their bits, most significant first; `unpack` is the bits of a byte list.
-- Json: `serde_json::Value` with the readers the program calls. A number is its text; what the
--   library reads from it is a parameter.
-- Rules, for src/rules.rs: Rules.Glob has `glob_match`, its loop by recursion over the parts;
--   Rules.Match has `eval` and `rule_matches`. Rules.Glob.Spec says what a pattern means.
-- Scte35, for src/scte35.rs: Scte35.Writer has `BitWriter`, with each method an action on it;
--   Scte35.Crc has `compute_crc32`; Scte35.Upid has `encode_upid`, `hex_decode` and `parse_uuid`;
--   Scte35.Build has the section builders. The statements that every builder shares, the section's
--   header and the steps around a command, stand once, as `section_header` and `splice_command`.
--   Scte35.Build.Shape and Scte35.Build.Sections describe the output field by field, and
--   Scte35.WellFormed what a strict receiver reads from it.
-- Tools, for src/tools_api.rs: Tools.Reader has `BitReader`, Tools.Validate has
--   `validate_scte35_internal` behind the decoding of its input, Tools.Command has
--   `parse_command_info` and the header that `decode_scte35_internal` reads before it. The JSON of a
--   command is a data type, without the float `duration_seconds`. Tools.Input has
--   `scte35_input_to_bytes`, over a base64 engine that is a parameter; Tools.Locate has
--   `locate_descriptor_loop`, `locate_break_duration` and `seg_duration_offset`; Tools.Rewrite has the
--   edits of a section on its bytes, Tools.Rewrite.Upid the UPID's, and Tools.Rewrite.Text the four
--   `rewrite_*_b64` and `adjust_*_b64`. Both duration rewriters are `change_durations`, of a constant
--   and of a sum. An index that the code does not guard is a panic of the model.
-- Rbac, for src/rbac.rs: the tables as lists of rows, a query as a search or a filter, `can_read`,
--   `can_write`, the list filter, `effective` and `set_groups_scoped`. The three kinds of resource share
--   the code, so an `Entity` stands for any of them. Queries are taken to succeed; an insert that a
--   foreign key or the primary key refuses changes nothing. Rbac.Rows has the query by id,
--   Rbac.Decisions and Rbac.Access the access decisions and Rbac.Sharing the links.
-- Groups, for the handlers of src/rbac.rs: a `Db` is the tables, and a handler takes the caller's
--   claims and the tables to a response and the tables. Groups.Share has the share endpoints;
--   Groups.Steps has the requests as steps and the tables they reach.
-- Esam, for src/main.rs and src/esam.rs: Esam.Payload has `maybe_build_scte35` and `apply_action`,
--   Esam.Notification `esam_verb` and `build_notification`, Esam.Escape `xml_escape`, Esam.Decide the
--   decision part of `handle_esam_impl`, from the facts to the answer, with the per-channel policy on
--   the tier and scope of the request, and `dryrun`; Esam.Decide.Authority is about that policy. The
--   readings of a JSON number, as a u64 and as seconds times 90000.0 cast to an integer, the printer
--   and parser of JSON, the clock, and the level of a SESAME tier are parameters. Rules of equal
--   priority stand in the table's order, which the query leaves open.
-- Admin, for src/main.rs: the handlers of channels, and in Admin.Rules those of rules.
--
-- Integers: a `u8`, `u16` or `u32` keeps its wrap-around where the source casts or shifts; positions
-- and lengths are `usize` and stay far below its bound. `duration_s as u64 * 90000` is below 2 ^ 49.
-- `adjust_break_duration` and `create_rule` add in an i64; a sum that leaves it wraps around, as in a
-- release build.
-- Fuel: the alignment loop of `finalize_with_crc32` runs on seven rounds, as many bits as a byte
-- can lack. The walks over a descriptor loop run on the length of the section, and each round moves
-- two bytes on at least. All other loops recurse on their input.
-- A `str` slice off a character boundary is a panic; the slices of `glob_match` start behind a part
-- that was found, so they are on one.
--
-- Not modelled: base64 and JSON (libraries), the web server, the database engine and failing queries,
-- the SESAME exchange in front of the ESAM handler, the event log, the reading of XML into facts and
-- the descriptor texts of src/esam.rs and src/tools_api.rs, templates, backups, tokens and passwords.
pub mod Prelude
pub mod Bits
pub mod Json
pub mod Rules
pub mod Scte35
pub mod Tools
pub mod Rbac
pub mod Groups
pub mod Esam
pub mod Admin
