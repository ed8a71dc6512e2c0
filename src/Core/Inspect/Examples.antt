-- ===== src/Core/Inspect/Examples.antt =====
-- Tests of the inspection of a process on a small procfs.
use xprobe.Prelude.{◌↔◌, ◌≡◌, refl, true, false, some, List, [], ◌∷◌, ◌++◌, if◌then◌else◌}
use xprobe.Rust.Str.{Text, text, text_eq, strip_prefix, split, splitn, starts_with, is_ascii_digit}
use xprobe.Rust.Fmt.{decimal, decimal_at, parse_unsigned, digits}
use xprobe.Rust.Words.{u64_mod}
use xprobe.Rust.Result.{Result, ok, err, traverse}
use xprobe.Rust.BTreeMap.{insert}
use xprobe.Rust.Io.{ErrorKind, FileSystem, Moments}
use xprobe.Rust.Lines.{
  lines, ended_lines, split_whitespace, split_white, white_len, after_last, trim_start_at,
  contains_text, valid_utf8, valid_from,
}
use xprobe.Protocol.Process.{Capabilities}
use xprobe.Core.Inspect.{
  run, verify_target, read_start_time, observe, report_of, Observed, read_text, read_bytes,
  read_link,
}
use xprobe.Core.Inspect.Fields.{
  proc_path, process_io_error, parse_start_time, parse_command_line, parse_credentials,
  parse_four_ids, find_field, parse_namespace_pids, parse_cgroups, parse_loaded_libraries,
  library_set, maps_path, maps_path_from,
}
use xprobe.Core.Inspect.Target.{Identifies, verify_target_iff, run-Identifies}
use xprobe.Core.Inspect.StartTime.{stat_line, parse_start_time-field}

abbrev nineteen : List Text
nineteen =
    text "S"
    ∷ text "1"
    ∷ text "2"
    ∷ text "3"
    ∷ text "4"
    ∷ text "5"
    ∷ text "6"
    ∷ text "7"
    ∷ text "8"
    ∷ text "9"
    ∷ text "10"
    ∷ text "11"
    ∷ text "12"
    ∷ text "13"
    ∷ text "14"
    ∷ text "15"
    ∷ text "16"
    ∷ text "17"
    ∷ text "18"
    ∷ []

abbrev fields : List Text
fields = nineteen ++ text "987" ∷ []

-- A command whose name ends like the field before the state.
abbrev stat : Text
stat = text "42 (a) S b) S 1 2 3 4 5 6 7 8 9 10 11 12 13 14 15 16 17 18 987 20"

abbrev pub file_at : Text → Result Text ErrorKind
unfolding text_eq
file_at path =
    if text_eq path (text "/proc/42/stat")
    then ok stat
    else if text_eq path (text "/proc/42/status")
    then ok (
        text "Name: a"
        ++ 10 ∷ text "Uid: 1000 1000 1000 1000"
        ++ 10 ∷ text "Gid: 1 2 3 4"
        ++ 10 ∷ text "NSpid: 42 7")
    else if text_eq path (text "/proc/42/cgroup")
    then ok (text "0::/user.slice")
    else if text_eq path (text "/proc/42/maps")
    then ok (text "7f00-7f10 r-xp 00000000 08:01 42 /usr/lib/libcuda.so.1")
    else err ErrorKind.not_found

abbrev pub procfs : FileSystem
procfs = record {
  read_to_string = file_at;
  read = λ path. ok (97 ∷ 0 ∷ 98 ∷ 0 ∷ []);
  read_link = λ path. ok (text "/bin/a");
  metadata = λ path. err ErrorKind.not_found;
  canonicalize = λ path. err ErrorKind.not_found;
}

abbrev steady : Moments
steady n = procfs

abbrev pub local : Capabilities
local = record {
  uprobe = true;
  uretprobe = true;
  tracepoint = true;
  cuda_callback = true;
  cuda_activity = true;
  runtime_injection = false;
}

abbrev pub seen : Observed
seen = record {
  executable = text "/bin/a";
  command_line = (97 ∷ []) ∷ (98 ∷ []) ∷ [];
  credentials = record {
    real_uid = 1000;
    effective_uid = 1000;
    saved_uid = 1000;
    filesystem_uid = 1000;
    real_gid = 1;
    effective_gid = 2;
    saved_gid = 3;
    filesystem_gid = 4;
  };
  namespace_pids = 42 ∷ 7 ∷ [];
  mount_namespace = text "/bin/a";
  cgroups = record { hierarchy_id = 0; controllers = []; path = text "/user.slice" } ∷ [];
  loaded_libraries = text "/usr/lib/libcuda.so.1" ∷ [];
}

runs : run {D = Unit {0}} steady (ok local) 42 ≡ ok (report_of 42 987 seen local)
unfolding run observe read_start_time read_text read_bytes read_link proc_path process_io_error
    parse_start_time parse_command_line parse_credentials parse_four_ids find_field
    parse_namespace_pids parse_cgroups parse_loaded_libraries library_set maps_path maps_path_from
    decimal decimal_at parse_unsigned digits traverse insert lines ended_lines split_whitespace
    split_white white_len after_last trim_start_at contains_text valid_utf8 valid_from strip_prefix
    split splitn starts_with is_ascii_digit
runs = refl

run-Identifies_example : Identifies (Unit {0}) steady 42 (report_of 42 987 seen local)
run-Identifies_example = run-Identifies steady (ok local) 42 runs

reads : parse_unsigned u64_mod (text "987") ≡ some 987
unfolding parse_unsigned digits is_ascii_digit
reads = refl

-- The command is `a) S b`.
parse_start_time-field_example :
    parse_start_time {D = Unit {0}} (stat_line (text "42") (text "a) S b") fields) (text "stat")
    ≡ ok 987
parse_start_time-field_example =
    parse_start_time-field (Unit {0}) (text "42") (text "a) S b") (text "stat") fields (text "987")
      987 refl refl reads

verify_target_iff_example :
    (verify_target {D = Unit {0}} procfs (record { pid = 42; process_start_time = 986 }) ≡ ok tt)
    ↔ (read_start_time {D = Unit {0}} procfs 42 false ≡ ok 986)
verify_target_iff_example = verify_target_iff procfs (record { pid = 42; process_start_time = 986 })
