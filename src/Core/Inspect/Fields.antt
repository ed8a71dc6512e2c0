-- ===== src/Core/Inspect/Fields.antt =====
-- The parsers of xprobe/core/src/inspect.rs over the text of procfs files, and its errors.
use xprobe.Prelude.{
  ℕ, zero, suc, ◌+◌, Bool, true, false, not, ◌&&◌, ◌||◌, ◌==◌, if◌then◌else◌, Option, none, some,
  List, [], ◌∷◌, ◌++◌, map, select, is_empty, is_some_and, any, get_elem?, and_then,
}
use xprobe.Rust.Str.{Text, text, text_eq, strip_prefix, split, splitn, starts_with}
use xprobe.Rust.Ord.{list_ord, nat_ord}
use xprobe.Rust.BTreeMap.{BTreeMap, insert}
use xprobe.Rust.Fmt.{decimal, parse_unsigned, u32_mod}
use xprobe.Rust.Words.{u64_mod}
use xprobe.Rust.Result.{Result, ok, err, ◌>>=◌, ok_or, traverse}
use xprobe.Rust.Io.{ErrorKind}
use xprobe.Rust.Lines.{
  lines, split_whitespace, after_last, white_len, trim_start_at, contains_text, valid_utf8,
}
use xprobe.Protocol.Errors.{ErrorCode}
use xprobe.Protocol.Process.{ProcessCredentials, CgroupEntry}

pub data InspectError (D : Type 0) : Type 0 where
  target_not_found target_exited target_reused : (pid : ℕ) → InspectError D
  permission_denied : (pid : ℕ) (path : Text) → InspectError D
  io : (path : Text) (source : ErrorKind) → InspectError D
  invalid_proc : (path reason : Text) → InspectError D
  environment : D → InspectError D

-- The last component of a path that is neither empty nor `.`.
abbrev last_component : List Text → Option Text
unfolding text_eq
last_component [] = none
last_component (piece ∷ rest) = elim (last_component rest) [
  | some name ↦ some name
  | none ↦ if is_empty piece || text_eq piece (text ".") then none else some piece
]

-- `Path::file_name`.
unfoldable pub file_name : Text → Option Text
unfolding split text_eq
file_name path =
    and_then (last_component (split b'/' path))
      λ name. if text_eq name (text "..") then none else some name

module _ {D : Type 0} where
  unfoldable pub code : InspectError D → ErrorCode
  code (InspectError.target_not_found pid) = ErrorCode.target_not_found
  code (InspectError.target_exited pid) = ErrorCode.target_exited
  code (InspectError.target_reused pid) = ErrorCode.target_reused
  code (InspectError.permission_denied pid path) = ErrorCode.permission_denied
  code (InspectError.io path source) = ErrorCode.internal
  code (InspectError.invalid_proc path reason) = ErrorCode.internal
  code (InspectError.environment error) = ErrorCode.internal

  unfoldable pub recoverable : InspectError D → Bool
  recoverable (InspectError.target_not_found pid) = true
  recoverable (InspectError.target_exited pid) = true
  recoverable (InspectError.target_reused pid) = true
  recoverable (InspectError.permission_denied pid path) = true
  recoverable (InspectError.io path source) = false
  recoverable (InspectError.invalid_proc path reason) = false
  recoverable (InspectError.environment error) = false

unfoldable pub proc_path : (pid : ℕ) → (entry : Text) → Text
unfolding decimal
proc_path pid entry = text "/proc/" ++ decimal pid ++ text "/" ++ entry

module _ {D : Type 0} where
  unfoldable pub process_io_error :
      (pid : ℕ) → (path : Text) → (initial : Bool) → ErrorKind → InspectError D
  process_io_error pid path true ErrorKind.not_found = InspectError.target_not_found pid
  process_io_error pid path false ErrorKind.not_found = InspectError.target_exited pid
  process_io_error pid path initial ErrorKind.permission_denied =
      InspectError.permission_denied pid path
  process_io_error pid path initial ErrorKind.other = InspectError.io path ErrorKind.other

  -- `.parse().map_err(|_| ...)`, and the same for a field that may be missing.
  abbrev parsed : Option ℕ → (path reason : Text) → Result ℕ (InspectError D)
  parsed number path reason = ok_or number (InspectError.invalid_proc path reason)

  unfoldable pub parse_start_time : (stat path : Text) → Result ℕ (InspectError D)
  unfolding after_last split_whitespace parse_unsigned
  parse_start_time stat path = do
    tail ←
        ok_or (after_last b')' stat)
          (InspectError.invalid_proc path (text "missing command terminator"))
    value ←
        ok_or (get_elem? (split_whitespace tail) 19)
          (InspectError.invalid_proc path (text "missing process start time"))
    parsed (parse_unsigned u64_mod value) path (text "invalid process start time")

  unfoldable pub parse_parent_pid : (stat path : Text) → Result ℕ (InspectError D)
  unfolding after_last split_whitespace parse_unsigned
  parse_parent_pid stat path = do
    tail ←
        ok_or (after_last b')' stat)
          (InspectError.invalid_proc path (text "missing command terminator"))
    parent ←
        ok_or (get_elem? (split_whitespace tail) 1)
          (InspectError.invalid_proc path (text "missing parent PID"))
    parsed (parse_unsigned u32_mod parent) path (text "invalid parent PID")

  unfoldable pub parse_command_line :
      (bytes : List ℕ) → (pid : ℕ) → Result (List Text) (InspectError D)
  unfolding split traverse valid_utf8 proc_path
  parse_command_line bytes pid =
      traverse
        (λ argument.
          if valid_utf8 argument
          then ok argument
          else err (
              InspectError.invalid_proc (proc_path pid (text "cmdline"))
                (text "argument is not valid UTF-8")))
        (select (λ argument. not (is_empty argument)) (split 0 bytes))

-- `lines().find_map(|line| line.strip_prefix(field))`.
unfoldable pub find_field : (field : Text) → List Text → Option Text
unfolding strip_prefix
find_field field [] = none
find_field field (line ∷ rest) = elim (strip_prefix field line) [
  | some value ↦ some value
  | none ↦ find_field field rest
]

abbrev pub FourIds : Type 0
FourIds = ℕ × ℕ × ℕ × ℕ

module _ {D : Type 0} where
  -- `values.try_into::<[u32; 4]>()`.
  abbrev four : List ℕ → InspectError D → Result FourIds (InspectError D)
  four (a ∷ b ∷ c ∷ d ∷ []) error = ok (a, b, c, d)
  four _ error = err error

  unfoldable pub parse_four_ids :
      (status field : Text) → (pid : ℕ) → Result FourIds (InspectError D)
  unfolding find_field lines split_whitespace parse_unsigned traverse proc_path
  parse_four_ids status field pid =
      let path = proc_path pid (text "status") in
      do
        line ←
            ok_or (find_field field (lines status))
              (InspectError.invalid_proc path (text "missing " ++ field))
        values ←
            traverse
              (λ value. parsed (parse_unsigned u32_mod value) path (text "invalid " ++ field))
              (split_whitespace line)
        four values (InspectError.invalid_proc path (text "expected four values for " ++ field))

  unfoldable pub parse_credentials :
      (status : Text) → (pid : ℕ) → Result ProcessCredentials (InspectError D)
  unfolding parse_four_ids
  parse_credentials status pid = do
    uids ← parse_four_ids status (text "Uid:") pid
    gids ← parse_four_ids status (text "Gid:") pid
    ok (record {
      real_uid = uids.0;
      effective_uid = uids.1;
      saved_uid = uids.2;
      filesystem_uid = uids.3;
      real_gid = gids.0;
      effective_gid = gids.1;
      saved_gid = gids.2;
      filesystem_gid = gids.3;
    })

  unfoldable pub parse_namespace_pids :
      (status : Text) → (pid : ℕ) → Result (List ℕ) (InspectError D)
  unfolding find_field lines split_whitespace parse_unsigned traverse proc_path
  parse_namespace_pids status pid =
      let path = proc_path pid (text "status") in
      do
        line ←
            ok_or (find_field (text "NSpid:") (lines status))
              (InspectError.invalid_proc path (text "missing NSpid"))
        traverse (λ value. parsed (parse_unsigned u32_mod value) path (text "invalid NSpid"))
            (split_whitespace line)

  abbrev cgroup_fields : (path : Text) → List Text → Result CgroupEntry (InspectError D)
  unfolding parse_unsigned split
  cgroup_fields path fields = do
    hierarchy ←
        ok_or (get_elem? fields 0)
          (InspectError.invalid_proc path (text "missing cgroup hierarchy"))
    hierarchy_id ← parsed (parse_unsigned u32_mod hierarchy) path (text "invalid cgroup hierarchy")
    controllers ←
        ok_or (get_elem? fields 1)
          (InspectError.invalid_proc path (text "missing cgroup controllers"))
    cgroup_path ←
        ok_or (get_elem? fields 2) (InspectError.invalid_proc path (text "missing cgroup path"))
    ok (record {
      hierarchy_id = hierarchy_id;
      controllers = select (λ controller. not (is_empty controller)) (split b',' controllers);
      path = cgroup_path;
    })

  unfoldable pub parse_cgroups :
      (cgroup : Text) → (pid : ℕ) → Result (List CgroupEntry) (InspectError D)
  unfolding lines splitn traverse proc_path cgroup_fields
  parse_cgroups cgroup pid =
      traverse (λ line. cgroup_fields (proc_path pid (text "cgroup")) (splitn 3 b':' line))
        (lines cgroup)

-- The scan of `maps_path`: `skip` bytes of a white-space character are still to pass.
unfoldable pub maps_path_from : (skip fields_seen : ℕ) → (in_field : Bool) → Text → Option Text
unfolding white_len trim_start_at
maps_path_from skip fields_seen in_field [] = none
maps_path_from (suc skip) fields_seen in_field (c ∷ s) = maps_path_from skip fields_seen in_field s
maps_path_from zero fields_seen in_field (c ∷ s) = elim (white_len (c ∷ s)) [
  | zero ↦ maps_path_from zero fields_seen true s
  | suc more ↦
      let seen = if in_field then fields_seen + 1 else fields_seen in
      elim (in_field && seen == 5) [
        | true ↦ some (trim_start_at 0 (c ∷ s))
        | false ↦ maps_path_from more seen false s
      ]
]

unfoldable pub maps_path : (line : Text) → Option Text
unfolding maps_path_from
maps_path line = maps_path_from 0 0 false line

abbrev is_library : Text → Bool
unfolding starts_with contains_text
is_library path = starts_with (text "/") path && contains_text (text ".so") path

-- `collect::<BTreeSet<_>>()`, as the keys of a map.
unfoldable pub library_set : List Text → BTreeMap Text (Unit {0})
unfolding maps_path insert is_library
library_set [] = []
library_set (line ∷ rest) =
    let others = library_set rest in
    elim (maps_path line) [
      | none ↦ others
      | some path ↦ if is_library path then insert path tt others else others
    ]

unfoldable pub parse_loaded_libraries : (maps : Text) → List Text
unfolding lines library_set
parse_loaded_libraries maps = map (λ (entry : Text × Unit {0}). entry.0) (library_set (lines maps))

unfoldable pub contains_library : (libraries : List Text) → (name : Text) → Bool
unfolding starts_with file_name
contains_library libraries name =
    any (λ path. is_some_and (file_name path) (starts_with name)) libraries
