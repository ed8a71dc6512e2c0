-- ===== src/Core/Inspect.antt =====
-- xprobe/core/src/inspect.rs: reading a process from procfs. A read that `run` does later sees a
-- later moment. `D` stands for `DoctorError`, and `doctor` for what `doctor::run` returns.
pub mod Fields
pub mod Target
pub mod StartTime
pub mod Examples
use xprobe.Prelude.{ℕ, Bool, true, false, not, ◌==◌, Option, none, some, List, ◌++◌}
use xprobe.Rust.Str.{Text, text}
use xprobe.Rust.Result.{Result, ok, err, ◌>>=◌, ◌>>◌, fail_if, map_ok, map_err}
use xprobe.Rust.Io.{FileSystem, Moments}
use xprobe.Rust.Lines.{valid_utf8}
use xprobe.Protocol.Event.{SchemaVersion}
use xprobe.Protocol.Validate.{TargetIdentity}
use xprobe.Protocol.Process.{
  ProcessReport, ProcessCredentials, CgroupEntry, Capabilities, CheckResult, CheckStatus,
}
use xprobe.Core.Inspect.Fields.{
  InspectError, proc_path, process_io_error, parse_start_time, parse_parent_pid, parse_command_line,
  parse_credentials, parse_namespace_pids, parse_cgroups, parse_loaded_libraries, contains_library,
}

abbrev pub cuda_context : Bool → CheckResult
cuda_context true = record {
  status = CheckStatus.unknown;
  detail = some (text "CUDA context state is not externally observable");
}
cuda_context false = record {
  status = CheckStatus.unavailable;
  detail = some (text "libcuda is not loaded in the target process");
}

-- What a run reads between the two start times.
pub record Observed : Type 0 where
  pub executable : Text
  pub command_line : List Text
  pub credentials : ProcessCredentials
  pub namespace_pids : List ℕ
  pub mount_namespace : Text
  pub cgroups : List CgroupEntry
  pub loaded_libraries : List Text

unfoldable pub report_of : (pid start_time : ℕ) → Observed → (local : Capabilities) → ProcessReport
unfolding contains_library
report_of pid start_time seen local =
    let libcuda = contains_library seen.loaded_libraries (text "libcuda.so") in
    let agent = contains_library seen.loaded_libraries (text "libxprobe-cupti.so") in
    record {
      schema_version = SchemaVersion.v2;
      ok = true;
      target = record { pid = pid; process_start_time = start_time };
      executable = seen.executable;
      command_line = seen.command_line;
      credentials = seen.credentials;
      namespace_pids = seen.namespace_pids;
      mount_namespace = seen.mount_namespace;
      cgroups = seen.cgroups;
      loaded_libraries = seen.loaded_libraries;
      cuda = record {
        libcuda_loaded = libcuda;
        libcudart_loaded = contains_library seen.loaded_libraries (text "libcudart.so");
        xprobe_cupti_loaded = agent;
        context = cuda_context libcuda;
      };
      capabilities = record local { cuda_callback = agent; cuda_activity = agent };
    }

module _ {D : Type 0} where
  unfoldable pub read_start_time :
      FileSystem → (pid : ℕ) → (initial : Bool) → Result ℕ (InspectError D)
  unfolding proc_path process_io_error parse_start_time
  read_start_time fs pid initial =
      let path = proc_path pid (text "stat") in
      map_err (process_io_error pid path initial) (fs.read_to_string path) >>= λ stat.
      parse_start_time stat path

  unfoldable read_parent_pid : FileSystem → (pid : ℕ) → Result ℕ (InspectError D)
  unfolding proc_path process_io_error parse_parent_pid
  read_parent_pid fs pid =
      let path = proc_path pid (text "stat") in
      map_err (process_io_error pid path false) (fs.read_to_string path) >>= λ stat.
      parse_parent_pid stat path

  unfoldable pub read_text : FileSystem → (pid : ℕ) → (entry : Text) → Result Text (InspectError D)
  unfolding proc_path process_io_error
  read_text fs pid entry =
      let path = proc_path pid entry in
      map_err (process_io_error pid path false) (fs.read_to_string path)

  unfoldable pub read_bytes :
      FileSystem → (pid : ℕ) → (entry : Text) → Result (List ℕ) (InspectError D)
  unfolding proc_path process_io_error
  read_bytes fs pid entry =
      let path = proc_path pid entry in map_err (process_io_error pid path false) (fs.read path)

  unfoldable pub read_link : FileSystem → (pid : ℕ) → (entry : Text) → Result Text (InspectError D)
  unfolding proc_path process_io_error valid_utf8
  read_link fs pid entry =
      let path = proc_path pid entry in
      do
        target ← map_err (process_io_error pid path false) (fs.read_link path)
        fail_if (not (valid_utf8 target))
            (InspectError.invalid_proc path (text "path is not valid UTF-8"))
        ok target

  -- That a target seen before still names the same process.
  unfoldable pub verify_target : FileSystem → TargetIdentity → Result (Unit {0}) (InspectError D)
  unfolding read_start_time
  verify_target fs target = do
    current_start_time ← read_start_time fs target.pid false
    fail_if (not (current_start_time == target.process_start_time))
        (InspectError.target_reused target.pid)

  -- The reads at the moments 1 to 6.
  unfoldable pub observe : Moments → (pid : ℕ) → Result Observed (InspectError D)
  unfolding read_text read_bytes read_link parse_command_line parse_credentials parse_namespace_pids
      parse_cgroups parse_loaded_libraries
  observe fs pid = do
    executable ← read_link (fs 1) pid (text "exe")
    command_bytes ← read_bytes (fs 2) pid (text "cmdline")
    command_line ← parse_command_line command_bytes pid
    status ← read_text (fs 3) pid (text "status")
    credentials ← parse_credentials status pid
    namespace_pids ← parse_namespace_pids status pid
    mount_namespace ← read_link (fs 4) pid (text "ns/mnt")
    cgroup_text ← read_text (fs 5) pid (text "cgroup")
    cgroups ← parse_cgroups cgroup_text pid
    maps_text ← read_text (fs 6) pid (text "maps")
    ok (record {
      executable = executable;
      command_line = command_line;
      credentials = credentials;
      namespace_pids = namespace_pids;
      mount_namespace = mount_namespace;
      cgroups = cgroups;
      loaded_libraries = parse_loaded_libraries maps_text;
    })

  unfoldable pub run :
      Moments → (doctor : Result Capabilities D) → (pid : ℕ) → Result ProcessReport (InspectError D)
  unfolding read_start_time observe report_of
  run fs doctor pid = do
    first_start_time ← read_start_time (fs 0) pid true
    seen ← observe fs pid
    final_start_time ← read_start_time (fs 7) pid false
    fail_if (not (first_start_time == final_start_time)) (InspectError.target_reused pid)
    local ← map_err InspectError.environment doctor
    ok (report_of pid first_start_time seen local)
