-- ===== src/Core/Inspect/Target.antt =====
-- Which process a report of xprobe/core/src/inspect.rs is about, and when it is still that process.
use xprobe.Prelude.{
  any, is_some_and, ◌∙◌, subst, ℕ, ◌≡◌, refl, ◌↔◌, sym, ap, true, false, not, ◌==◌, inl, inr, arith,
  Bool-cases,
}
use xprobe.Rust.Str.{text, starts_with}
use xprobe.Rust.Result.{Result, ok, fail_if, ◌>>=◌, OnOk, OnOk-get, Result-cases}
use xprobe.Rust.Io.{FileSystem, Moments}
use xprobe.Protocol.Validate.{TargetIdentity}
use xprobe.Protocol.Process.{ProcessReport, Capabilities}
use xprobe.Core.Inspect.{
  parse_cgroups, parse_namespace_pids, parse_credentials, parse_command_line, read_bytes, read_link,
  parse_loaded_libraries, read_text, Text, List, Observed, observe, report_of, read_start_time,
  verify_target, run,
}
use xprobe.Core.Inspect.Fields.{InspectError, file_name, contains_library}

not_equal : (a b : ℕ) → not (a == b) ≡ false → a ≡ b
not_equal a b h = ground arith

-- The libraries of the memory map that is read at a moment.
pub record Lists (D : Type 0) (fs : FileSystem) (pid : ℕ) (libraries : List Text) : Type 0 where
  pub maps : Text
  pub of_maps : read_text {D = D} fs pid (text "maps") ≡ ok maps
  pub all : libraries ≡ parse_loaded_libraries maps

-- What a report says of its process.
pub record Identifies (D : Type 0) (fs : Moments) (pid : ℕ) (report : ProcessReport) : Type 0 where
  pub of_pid : report.target.pid ≡ pid
  pub started : read_start_time {D = D} (fs 0) pid true ≡ ok report.target.process_start_time
  pub verified : verify_target {D = D} (fs 7) report.target ≡ ok tt
  pub callbacks :
      report.capabilities.cuda_callback
      ≡ any
          (λ path. is_some_and (file_name path) (starts_with (text "libxprobe-cupti.so")))
          report.loaded_libraries
  pub listed : Lists D (fs 6) pid report.loaded_libraries
  pub activities : report.capabilities.cuda_activity ≡ report.capabilities.cuda_callback

-- A step that succeeds is the one that the rest continues from.
onward :
    {A B E : Type 0} (Q : B → Type 0) (m : Result A E) (rest : A → Result B E)
    → ((a : A) → m ≡ ok a → OnOk Q (rest a))
    → OnOk Q (m >>= rest)
unfolding OnOk
onward Q m rest h = elim (Result-cases m) [ inl (a, e) ↦ rw e (h a e) | inr (x, e) ↦ rw e tt ]

abbrev SeenLists : (D : Type 0) → Moments → ℕ → Observed → Type 0
SeenLists D fs pid seen = Lists D (fs 6) pid seen.loaded_libraries

listing :
    (D : Type 0) (fs : Moments) (pid : ℕ) (seen : Text → Observed)
    → ((maps : Text) → (seen maps).loaded_libraries ≡ parse_loaded_libraries maps)
    → OnOk
        (SeenLists D fs pid)
        (read_text {D = D} (fs 6) pid (text "maps") >>= λ maps. ok (seen maps))
unfolding OnOk
listing D fs pid seen h = elim (Result-cases (read_text {D = D} (fs 6) pid (text "maps"))) [
  | inl (maps, e) ↦ rw e (record { maps = maps; of_maps = e; all = h maps })
  | inr (x, e) ↦ rw e tt
]

observe-Lists :
    (D : Type 0) (fs : Moments) (pid : ℕ) → OnOk (SeenLists D fs pid) (observe {D = D} fs pid)
unfolding observe
observe-Lists D fs pid =
    let Q = SeenLists D fs pid in
    onward Q (read_link (fs 1) pid (text "exe")) _ λ executable _.
      onward Q (read_bytes (fs 2) pid (text "cmdline")) _ λ command_bytes _.
        onward Q (parse_command_line command_bytes pid) _ λ command_line _.
          onward Q (read_text (fs 3) pid (text "status")) _ λ status _.
            onward Q (parse_credentials status pid) _ λ credentials _.
              onward Q (parse_namespace_pids status pid) _ λ namespace_pids _.
                onward Q (read_link (fs 4) pid (text "ns/mnt")) _ λ mount_namespace _.
                  onward Q (read_text (fs 5) pid (text "cgroup")) _ λ cgroup_text _.
                    onward Q (parse_cgroups cgroup_text pid) _ λ cgroups _.
                      let seen : Text → Observed = λ maps. record {
                        executable = executable;
                        command_line = command_line;
                        credentials = credentials;
                        namespace_pids = namespace_pids;
                        mount_namespace = mount_namespace;
                        cgroups = cgroups;
                        loaded_libraries = parse_loaded_libraries maps;
                      } in
                      listing D fs pid seen (λ maps. refl)

module _ {D : Type 0} where
  same_start :
      (pid a b : ℕ)
      → fail_if {E = InspectError D} (not (a == b)) (InspectError.target_reused pid) ≡ ok tt
      → a ≡ b
  same_start pid a b h = elim (Bool-cases (a == b)) [
    | inl e ↦ ground arith
    | inr e ↦ absurd (
        cc (
          subst (λ x. fail_if {E = InspectError D} (not x) (InspectError.target_reused pid) ≡ ok tt)
            e h))
  ]

  -- `verify_target` accepts a target if and only if the start time that is read for its pid is
  -- the recorded one.
  pub verify_target_iff :
      (fs : FileSystem) (target : TargetIdentity)
      → (verify_target {D = D} fs target ≡ ok tt)
        ↔ (read_start_time {D = D} fs target.pid false ≡ ok target.process_start_time)
  unfolding verify_target
  verify_target_iff fs target = (
    λ h. elim (Result-cases (read_start_time {D = D} fs target.pid false)) [
      | inl (t, e) ↦
          e
          ∙ ap ok (
              same_start target.pid t target.process_start_time (
                subst
                  (λ m.
                    (m >>= λ s.
                    fail_if (not (s == target.process_start_time))
                      (InspectError.target_reused target.pid))
                    ≡ ok tt)
                  e h))
      | inr (x, e) ↦ absurd (
          cc (
            subst
              (λ m.
                (m >>= λ s.
                fail_if (not (s == target.process_start_time))
                  (InspectError.target_reused target.pid))
                ≡ ok tt)
              e h))
    ],
    λ e. rw e (ground arith),
  )

  reported :
      (fs : Moments) (pid start : ℕ) (seen : Observed) (local : Capabilities)
      → read_start_time {D = D} (fs 0) pid true ≡ ok start
      → read_start_time {D = D} (fs 7) pid false ≡ ok start
      → Lists D (fs 6) pid seen.loaded_libraries
      → Identifies D fs pid (report_of pid start seen local)
  unfolding report_of contains_library
  reported fs pid start seen local first last libraries = record {
    of_pid = refl;
    started = first;
    verified = (verify_target_iff (fs 7) (report_of pid start seen local).target).1 last;
    callbacks = refl;
    listed = libraries;
    activities = refl;
  }

  run-OnOk :
      (fs : Moments) (doctor : Result Capabilities D) (pid : ℕ)
      → OnOk (Identifies D fs pid) (run fs doctor pid)
  unfolding run OnOk
  run-OnOk fs doctor pid = elim (Result-cases (read_start_time {D = D} (fs 0) pid true)) [
    | inr (x, e) ↦ rw e tt
    | inl (start, first) ↦ rw first (elim (Result-cases (observe {D = D} fs pid)) [
      | inr (x, e) ↦ rw e tt
      | inl (seen, e0) ↦ rw e0 (elim (Result-cases (read_start_time {D = D} (fs 7) pid false)) [
        | inr (x, e) ↦ rw e tt
        | inl (final, last) ↦ rw last (elim (Bool-cases (not (start == final))) [
          | inl e ↦ rw e tt
          | inr same ↦ rw same (elim (Result-cases doctor) [
            | inr (x, e) ↦ rw e tt
            | inl (local, e) ↦ rw e (
                reported fs pid start seen local first
                  (last ∙ ap ok (sym (not_equal start final same)))
                  (OnOk-get (SeenLists D fs pid) (observe-Lists D fs pid) e0))
          ])
        ])
      ])
    ])
  ]

  -- A report that the inspection returns has the requested pid; its start time is the one that
  -- /proc gave before everything else was read, and its target is verified after it; its loaded
  -- libraries are those of a memory map read in between; and it allows CUDA callbacks and
  -- activities exactly if one of the loaded libraries that it reports has a file name that starts
  -- with `libxprobe-cupti.so`.
  pub run-Identifies :
      (fs : Moments) (doctor : Result Capabilities D) (pid : ℕ) {report : ProcessReport}
      → run fs doctor pid ≡ ok report
      → Identifies D fs pid report
  run-Identifies fs doctor pid {report} h =
      OnOk-get (Identifies D fs pid) (run-OnOk fs doctor pid) h
