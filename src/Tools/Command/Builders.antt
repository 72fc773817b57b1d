-- ===== src/Tools/Command/Builders.antt =====
-- Decoding what the builders of src/scte35.rs emit.
use rust_pois.Prelude.{
  ℕ, ◌*◌, ◌%◌, ◌^◌, Bool, true, false, Option, none, some, List, [], ◌∷◌, ◌++◌, arith, not, ◌==◌,
}
use rust_pois.Scte35.Fields.{Field, ◌is◌}
use rust_pois.Scte35.Build.Sections.{insert_out_body, insert_in_body, insert_in_pts_body}
use rust_pois.Tools.Reader.{P}
use rust_pois.Tools.Command.{
  CommandInfo, BreakDuration, read_splice_time, read_break_duration, parse_splice_insert,
  parse_splice_insert_rest, parse_command_info, when, join_time,
}
use rust_pois.Tools.Command.Reads.{
  Reads, Reads-pure, Reads-seq, Reads-then, Reads-u8, Reads-u16, Reads-u32, Reads-u64, Reads-flag,
  Reads-skip,
}

break_duration-Reads :
    (ticks : ℕ)
    → Reads read_break_duration
        (1 is 1 ∷ 6 is 0 ∷ 33 is ticks ∷ [])
        (record { auto_return = true; duration_ticks = ticks % 2 ^ 33 })
unfolding read_break_duration
break_duration-Reads ticks = Reads-then _ (Reads-flag 1) (
    Reads-then _ (Reads-skip 6 0 (omega arith))
      (Reads-then _ (Reads-u64 33 ticks (omega arith)) (Reads-pure _)))

no_time-Reads : Reads read_splice_time (1 is 0 ∷ 7 is 0 ∷ []) none
unfolding read_splice_time
no_time-Reads =
    Reads-then _ (Reads-flag 0) (Reads-then _ (Reads-skip 7 0 (omega arith)) (Reads-pure _))

time-Reads :
    (pts : ℕ) → Reads read_splice_time (1 is 1 ∷ 6 is 0 ∷ 33 is pts ∷ []) (some (pts % 2 ^ 33))
unfolding read_splice_time
time-Reads pts = Reads-then _ (Reads-flag 1) (
    Reads-then _ (Reads-skip 6 0 (omega arith))
      (Reads-then _ (Reads-u64 33 pts (omega arith)) (Reads-pure _)))

-- What the builders mean their commands to say.
abbrev pub out_command : ℕ → CommandInfo
out_command duration_s = CommandInfo.splice_insert (record {
  splice_event_id = 1;
  out_of_network_indicator = true;
  program_splice_flag = true;
  duration_flag = true;
  splice_immediate_flag = true;
  pts_time = none;
  components = none;
  break_duration =
      some (record { auto_return = true; duration_ticks = duration_s * 90000 % 2 ^ 33 });
  unique_program_id = 1;
  avail_num = 0;
  avails_expected = 0;
})

abbrev pub in_command : Bool → Option ℕ → CommandInfo
in_command immediate pts = CommandInfo.splice_insert (record {
  splice_event_id = 2;
  out_of_network_indicator = false;
  program_splice_flag = true;
  duration_flag = false;
  splice_immediate_flag = immediate;
  pts_time = pts;
  components = none;
  break_duration = none;
  unique_program_id = 1;
  avail_num = 0;
  avails_expected = 0;
})

-- The command from its event id to the four flags, of which program_splice_flag is set.
flags-Reads :
    (id out duration immediate : ℕ) (fs : List Field) (info : CommandInfo)
    → Reads
        (parse_splice_insert_rest
          (id % 2 ^ 32 % 2 ^ 32)
          (out % 2 ^ 1 % 2 ^ 8 == 1)
          true
          (duration % 2 ^ 1 % 2 ^ 8 == 1)
          (immediate % 2 ^ 1 % 2 ^ 8 == 1))
        fs
        info
    → Reads
        (parse_command_info 5)
        (32 is id ∷ 1 is 0 ∷ 7 is 0 ∷ 1 is out ∷ 1 is 1 ∷ 1 is duration ∷ 1 is immediate ∷ fs)
        info
unfolding parse_command_info parse_splice_insert
flags-Reads id out duration immediate fs info rest = Reads-then _ (Reads-u32 32 id (omega arith)) (
    Reads-then _ (Reads-flag 0) (
      Reads-then _ (Reads-skip 7 0 (omega arith)) (
        Reads-then _ (Reads-flag out) (
          Reads-then _ (Reads-flag 1)
            (Reads-then _ (Reads-flag duration) (Reads-then _ (Reads-flag immediate) rest))))))

-- The rest of the command, around the splice time and the break duration.
rest-Reads :
    (id : ℕ) (out duration immediate : Bool) (ts ds : List Field) (time : Option (Option ℕ))
    (break : Option BreakDuration)
    → Reads (when (not immediate) read_splice_time) ts time
    → Reads (when duration read_break_duration) ds break
    → Reads
        (parse_splice_insert_rest id out true duration immediate)
        (4 is 0 ∷ (ts ++ (ds ++ 16 is 1 ∷ 8 is 0 ∷ 8 is 0 ∷ [])))
        (CommandInfo.splice_insert (record {
          splice_event_id = id;
          out_of_network_indicator = out;
          program_splice_flag = true;
          duration_flag = duration;
          splice_immediate_flag = immediate;
          pts_time = join_time time;
          components = none;
          break_duration = break;
          unique_program_id = 1;
          avail_num = 0;
          avails_expected = 0;
        }))
unfolding parse_splice_insert_rest
rest-Reads id out duration immediate ts ds time break ht hd =
    Reads-then _ (Reads-skip 4 0 (omega arith)) (
      Reads-seq _ ts ht (
        Reads-seq _ [] (Reads-pure _) (
          Reads-seq _ ds hd (
            Reads-then _ (Reads-u16 16 1 (omega arith)) (
              Reads-then _ (Reads-u8 8 0 (omega arith))
                (Reads-then _ (Reads-u8 8 0 (omega arith)) (Reads-pure _)))))))

some-Reads :
    {A : Type 0} {m : P A} (fs : List Field) {a : A}
    → Reads m fs a
    → Reads (when true m) (fs ++ []) (some a)
some-Reads fs h = Reads-seq _ fs h (Reads-pure _)

pub out-Reads : (d : ℕ) → Reads (parse_command_info 5) (insert_out_body (d * 90000)) (out_command d)
out-Reads d = flags-Reads 1 1 1 1 _ _ (
    rest-Reads 1 true true true [] _ none _ (Reads-pure none)
      (some-Reads _ (break_duration-Reads (d * 90000))))

pub in-Reads : Reads (parse_command_info 5) insert_in_body (in_command true none)
in-Reads =
    flags-Reads 2 0 0 1 _ _
      (rest-Reads 2 false false true [] [] none none (Reads-pure none) (Reads-pure none))

pub in_pts-Reads :
    (pts : ℕ)
    → Reads (parse_command_info 5) (insert_in_pts_body pts) (in_command false (some (pts % 2 ^ 33)))
in_pts-Reads pts =
    flags-Reads 2 0 0 0 _ _
      (rest-Reads 2 false false false _ [] _ none (some-Reads _ (time-Reads pts)) (Reads-pure none))

pub time_signal-Reads :
    Reads (parse_command_info 6) (1 is 0 ∷ 7 is 0 ∷ []) (CommandInfo.time_signal none)
unfolding parse_command_info
time_signal-Reads = Reads-seq _ (1 is 0 ∷ 7 is 0 ∷ []) no_time-Reads (Reads-pure _)
