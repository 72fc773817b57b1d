-- ===== src/Tools/Command.antt =====
-- src/tools_api.rs, `parse_command_info` and the header fields that stand before a command. The JSON
-- that describes a command is a data type; `duration_seconds`, a float made from the ticks, is left out.
pub mod Reads
pub mod Builders
pub mod RoundTrip
use Prim.Native.String.{String}
use rust_pois.Prelude.{
  ℕ, zero, suc, ◌*◌, Bool, true, false, not, ◌&&◌, Option, none, some, List, [], ◌∷◌, ◌==◌,
  if◌then◌else◌, Result, ok, err,
}
use rust_pois.Tools.Reader.{BitReader, P, read_u8, read_u16, read_u32, read_u64, skip_bits}

-- `?`: an error ends the parse.
abbrev pub continue :
    {A B : Type 0} → (A → P B) → Result String A × BitReader → Result String B × BitReader
continue f (ok a, r) = f a r
continue f (err e, r) = (err e, r)

infixl 5 ◌>>=◌ ◌>>◌
unfoldable pub ◌>>=◌ : {A B : Type 0} → P A → (A → P B) → P B
(m >>= f) r = continue f (m r)

abbrev pub ◌>>◌ : {A B : Type 0} → P A → P B → P B
m >> k = m >>= λ _. k

abbrev pub pure : {A : Type 0} → A → P A
pure a r = (ok a, r)

-- `br.read_u8(1)? == 1`
abbrev pub read_flag : P Bool
read_flag = do v ← read_u8 1; pure (v == 1)

-- A component of a splice_insert, with its splice time.
pub record Component : Type 0 where
  pub tag : ℕ
  pub pts_time : Option ℕ

pub record BreakDuration : Type 0 where
  pub auto_return : Bool
  pub duration_ticks : ℕ

pub record SpliceInsert : Type 0 where
  pub splice_event_id : ℕ
  pub out_of_network_indicator : Bool
  pub program_splice_flag : Bool
  pub duration_flag : Bool
  pub splice_immediate_flag : Bool
  pub pts_time : Option ℕ
  pub components : Option (List Component)
  pub break_duration : Option BreakDuration
  pub unique_program_id : ℕ
  pub avail_num : ℕ
  pub avails_expected : ℕ

pub data CommandInfo : Type 0 where
  splice_null : CommandInfo
  splice_insert_cancelled : (splice_event_id : ℕ) → CommandInfo
  splice_insert : SpliceInsert → CommandInfo
  time_signal : Option ℕ → CommandInfo
  bandwidth_reservation : CommandInfo
  not_implemented : CommandInfo

-- `splice_time()`: a PTS if it is specified.
unfoldable pub read_splice_time : P (Option ℕ)
read_splice_time = do
  time_specified ← read_flag
  (if time_specified
      then (do skip_bits 6; pts ← read_u64 33; pure (some pts))
      else (do skip_bits 7; pure none))

unfoldable pub read_components : Bool → ℕ → P (List Component)
unfolding read_splice_time
read_components immediate zero = pure []
read_components immediate (suc n) = do
  tag ← read_u8 8
  time ← (if immediate then pure none else read_splice_time)
  rest ← read_components immediate n
  pure (record { tag = tag; pts_time = time } ∷ rest)

unfoldable pub read_break_duration : P BreakDuration
read_break_duration = do
  auto_return ← read_flag
  skip_bits 6
  duration ← read_u64 33
  pure (record { auto_return = auto_return; duration_ticks = duration })

-- `if flag { … }` around a reading step.
abbrev pub when : {A : Type 0} → Bool → P A → P (Option A)
when true m = do a ← m; pure (some a)
when false m = pure none

abbrev pub join_time : Option (Option ℕ) → Option ℕ
join_time none = none
join_time (some t) = t

-- What follows the four flags.
unfoldable pub parse_splice_insert_rest : ℕ → Bool → Bool → Bool → Bool → P CommandInfo
parse_splice_insert_rest event_id out_of_network program_splice duration immediate = do
  skip_bits 4
  time ← when (program_splice && not immediate) read_splice_time
  components ← when (not program_splice) (do count ← read_u8 8; read_components immediate count)
  break ← when duration read_break_duration
  program_id ← read_u16 16
  num ← read_u8 8
  expected ← read_u8 8
  pure (
      splice_insert (record {
        splice_event_id = event_id;
        out_of_network_indicator = out_of_network;
        program_splice_flag = program_splice;
        duration_flag = duration;
        splice_immediate_flag = immediate;
        pts_time = join_time time;
        components = components;
        break_duration = break;
        unique_program_id = program_id;
        avail_num = num;
        avails_expected = expected;
      }))

unfoldable pub parse_splice_insert : P CommandInfo
parse_splice_insert = do
  event_id ← read_u32 32
  event_cancel ← read_flag
  skip_bits 7
  (if event_cancel then pure (splice_insert_cancelled event_id) else (do
    out_of_network ← read_flag
    program_splice ← read_flag
    duration ← read_flag
    immediate ← read_flag
    parse_splice_insert_rest event_id out_of_network program_splice duration immediate))

unfoldable pub parse_command_info : ℕ → P CommandInfo
parse_command_info command_type =
    if command_type == 0x00
    then pure splice_null
    else if command_type == 0x05
    then parse_splice_insert
    else if command_type == 0x06
    then (do time ← read_splice_time; pure (time_signal time))
    else if command_type == 0x07
    then pure bandwidth_reservation
    else pure not_implemented

pub record Header : Type 0 where
  pub protocol_version : ℕ
  pub encrypted_packet : Bool
  pub pts_adjustment : ℕ
  pub command_type : ℕ
  pub command_info : CommandInfo

-- From the table id to the end of the command.
unfoldable pub read_header : P Header
read_header = do
  table_id ← read_u8 8
  section_syntax ← read_u8 1
  private_indicator ← read_u8 1
  reserved ← read_u8 2
  section_length ← read_u16 12
  version ← read_u8 8
  encrypted ← read_flag
  encryption_algorithm ← read_u8 6
  adjustment ← read_u64 33
  cw_index ← read_u8 8
  tier ← read_u16 12
  splice_command_length ← read_u16 12
  type ← read_u8 8
  info ← parse_command_info type
  pure (record {
    protocol_version = version;
    encrypted_packet = encrypted;
    pts_adjustment = adjustment;
    command_type = type;
    command_info = info;
  })
