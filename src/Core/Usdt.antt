-- ===== src/Core/Usdt.antt =====
-- xprobe/core/src/usdt.rs: the notes of the probes that a binary declares. `utf8_error` stands for the
-- text of a `Utf8Error`, `parse_section` for finding the section by the `object` crate.
pub mod Notes
pub mod Termination
pub mod Examples
use xprobe.Prelude.{
  ℕ, Bool, true, false, ◌&&◌, if◌then◌else◌, Option, none, some, List, [], ◌∷◌, is_some,
  is_some_and, and_then,
}
use xprobe.Rust.Str.{Text, text, starts_with}
use xprobe.Rust.Ord.{Ord, nat_ord, list_ord, pair_ord}
use xprobe.Rust.BTreeMap.{BTreeMap, get, insert}
use xprobe.Rust.Io.{ErrorKind, FileSystem}
use xprobe.Rust.Result.{Result, ok, err, ◌>>=◌, map_err}
use xprobe.Rust.Lines.{contains_text}
use xprobe.Protocol.Errors.{ErrorCode}
use xprobe.Protocol.Process.{ProcessReport}
use xprobe.Core.Inspect.Fields.{file_name}
use xprobe.Core.CpuAnalysis.Symbols.{Components, components}
use xprobe.Core.Usdt.Notes.{Names, parse_stapsdt_notes}

pub data UsdtError : Type 0 where
  read : (path : Text) (source : ErrorKind) → UsdtError
  parse_object read_section malformed_note : (path message : Text) → UsdtError

unfoldable pub code : UsdtError → ErrorCode
code (UsdtError.read path ErrorKind.permission_denied) = ErrorCode.permission_denied
code _ = ErrorCode.internal

unfoldable pub recoverable : UsdtError → Bool
recoverable (UsdtError.read path source) = true
recoverable _ = false

-- What `object` gives of a file: the section of the notes, if there is one, or a failure to read it.
pub record NoteFile : Type 0 where
  pub section : Option (Result (List ℕ) Text)
  pub little_endian : Bool
  pub is_64 : Bool

-- `BTreeSet<PathBuf>`, which keeps the path that came first.
unfoldable pub add_path : (path : Text) → BTreeMap Components Text → BTreeMap Components Text
unfolding components get insert
add_path path paths =
    if is_some (get (components path) paths) then paths else insert (components path) path paths

abbrev is_python_library : Text → Bool
unfolding file_name starts_with contains_text
is_python_library path =
    is_some_and (file_name path)
      λ name. starts_with (text "libpython") name && contains_text (text ".so") name

unfoldable pub add_libraries : List Text → BTreeMap Components Text → BTreeMap Components Text
unfolding add_path is_python_library
add_libraries [] paths = paths
add_libraries (path ∷ rest) paths =
    if is_python_library path
    then add_libraries rest (add_path path paths)
    else add_libraries rest paths

-- `names.contains(&(PYTHON_PROVIDER.to_owned(), name.to_owned()))`.
abbrev has_probe : Names → (name : Text) → Bool
unfolding get
has_probe names name = is_some (get (text "python", name) names)

module _ (parse_object : List ℕ → Result NoteFile Text) (utf8_error : List ℕ → Text) where
  -- `none` is a run out of fuel.
  unfoldable pub stap_probe_names : FileSystem → (path : Text) → Option (Result Names UsdtError)
  unfolding parse_stapsdt_notes
  stap_probe_names fs path =
      elim (map_err (UsdtError.read path) (fs.read path) >>= λ bytes.
      map_err (UsdtError.parse_object path) (parse_object bytes)) [
        | err error ↦ some (err error)
        | ok file ↦ elim file.section [
          | none ↦ some (ok [])
          | some (err message) ↦ some (err (UsdtError.read_section path message))
          | some (ok data') ↦
              and_then (parse_stapsdt_notes utf8_error data' file.little_endian file.is_64)
                λ names. some (map_err (UsdtError.malformed_note path) names)
        ]
      ]

  -- The loop over the candidates.
  unfoldable pub first_python :
      FileSystem → BTreeMap Components Text → Option (Result (Option Text) UsdtError)
  unfolding stap_probe_names has_probe
  first_python fs [] = some (ok none)
  first_python fs ((key, path) ∷ rest) = and_then (stap_probe_names fs path) λ read. elim read [
    | err error ↦ some (err error)
    | ok names ↦
        if has_probe names (text "gc__start") && has_probe names (text "gc__done")
        then some (ok (some path))
        else first_python fs rest
  ]

  unfoldable pub find_python_gc_probes :
      FileSystem → ProcessReport → Option (Result (Option Text) UsdtError)
  unfolding add_path add_libraries first_python
  find_python_gc_probes fs report =
      first_python fs (add_libraries report.loaded_libraries (add_path report.executable []))
