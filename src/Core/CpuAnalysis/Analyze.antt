-- ===== src/Core/CpuAnalysis/Analyze.antt =====
-- `analyze` of xprobe/core/src/cpu_sampling_analysis.rs and the summaries that it makes.
use xprobe.Prelude.{
  ◌-◌, ℕ, ◌+◌, max, Bool, true, not, ◌&&◌, ltb, ◌==◌, if◌then◌else◌, Option, List, [], ◌∷◌, ◌++◌,
  map, length, is_empty, is_some, decided,
}
use xprobe.Rust.Str.{Text, text}
use xprobe.Rust.Words.{u64_mod, add_u64}
use xprobe.Rust.Fmt.{decimal, u32_mod}
use xprobe.Rust.Io.{ErrorKind, Moments}
use xprobe.Rust.Result.{Result, ok, err, ◌>>=◌, ◌>>◌, map_err}
use xprobe.Correlator.Statistics.{Float}
use xprobe.Protocol.Event.{SchemaVersion}
use xprobe.Protocol.Measurement.{Warning, SessionStatus}
use xprobe.Protocol.Process.{ProcessReport}
use xprobe.Protocol.CpuSampling.{
  CpuSampleEvent, CpuSamplingSpec, CpuFrameLanguage, CpuStackFrame, CpuStackGroup,
  CpuCaptureCompleteness, CpuSymbolizationSummary, CpuSampleInventoryResult,
  PythonSymbolizationStatus, PythonSymbolizationStatus-discrete,
}
use xprobe.Core.Report.{ratio, warning}
use xprobe.Core.Inspect.{verify_target}
use xprobe.Core.Object.{ObjectFile}
use xprobe.Core.CpuAnalysis.Errors.{CpuAnalysisError, CpuCaptureData}
use xprobe.Core.CpuAnalysis.Stacks.{Stack, aggregate_raw_stacks}
use xprobe.Core.CpuAnalysis.Symbols.{Symbolizer, symbolize, load}
use xprobe.Core.CpuAnalysis.Hotspots.{aggregate_hotspots}

-- The counter that a frame belongs to grows.
unfoldable pub count_frame : CpuStackFrame → CpuSymbolizationSummary → CpuSymbolizationSummary
unfolding add_u64
count_frame frame summary =
    let counted = record summary { total_frames = add_u64 summary.total_frames 1 } in
    let unresolved = record counted { unresolved_frames = add_u64 summary.unresolved_frames 1 } in
    if is_some frame.symbol
    then (elim frame.language [
      | CpuFrameLanguage.native ↦ record counted {
        resolved_native_frames = add_u64 summary.resolved_native_frames 1;
      }
      | CpuFrameLanguage.python ↦ record counted {
        resolved_python_frames = add_u64 summary.resolved_python_frames 1;
      }
      | CpuFrameLanguage.unknown ↦ unresolved
    ])
    else unresolved

unfoldable pub count_frames : List CpuStackFrame → CpuSymbolizationSummary → CpuSymbolizationSummary
unfolding count_frame
count_frames [] summary = summary
count_frames (frame ∷ frames) summary = count_frames frames (count_frame frame summary)

module _ {F : Type 0} where
  unfoldable pub count_groups :
      List (CpuStackGroup F) → CpuSymbolizationSummary → CpuSymbolizationSummary
  unfolding count_frames
  count_groups [] summary = summary
  count_groups (group ∷ groups) summary = count_groups groups (count_frames group.frames summary)

  unfoldable pub summarize_symbolization :
      List (CpuStackGroup F) → PythonSymbolizationStatus → CpuSymbolizationSummary
  unfolding count_groups
  summarize_symbolization groups python_status = count_groups groups (record {
    total_frames = 0;
    resolved_native_frames = 0;
    resolved_python_frames = 0;
    unresolved_frames = 0;
    python_status = python_status;
  })

module _ (V : Type 0) where
  -- `if test { warnings.push(...) }`
  abbrev warn_if : Bool → (code message : Text) → List (Warning V)
  warn_if test code message = if test then warning V code message ∷ [] else []

  unfoldable pub capture_warnings : CpuCaptureData → List (Warning V)
  unfolding decimal
  capture_warnings capture =
      warn_if capture.capacity_reached (text "CPU_SAMPLE_CAPACITY_REACHED") (
        text
          "the configured sample capacity was reached; shorten or lower the sampling frequency before interpreting proportions")
      ++ warn_if (not (capture.lost_samples == 0)) (text "CPU_SAMPLES_LOST")
          (text "perf reported " ++ decimal capture.lost_samples ++ text " lost samples")
      ++ warn_if (not (capture.throttled_records == 0)) (text "CPU_SAMPLING_THROTTLED")
          (text "perf reported " ++ decimal capture.throttled_records ++ text " throttle records")
      ++ warn_if (not (is_empty capture.skipped_threads)) (text "CPU_THREADS_NOT_ATTACHED") (
          decimal (length capture.skipped_threads)
          ++ text " observed threads exited or exceeded max_threads before attachment")

unfoldable capture_is_complete :
    CpuCaptureData → (grouped_samples : ℕ) → (group_capacity_reached : Bool) → Bool
capture_is_complete capture grouped_samples group_capacity_reached =
    not capture.capacity_reached
    && not group_capacity_reached
    && capture.lost_samples == 0
    && capture.throttled_records == 0
    && is_empty capture.skipped_threads
    && grouped_samples == capture.observed_samples

-- `sum::<u64>()` of the counts, as built for release.
unfoldable grouped : List (Stack × ℕ) → ℕ
unfolding add_u64
grouped [] = 0
grouped ((stack, count) ∷ groups) = add_u64 count (grouped groups)

-- `active` without a resolved Python frame.
abbrev is_unresolved : CpuSymbolizationSummary → Bool
unfolding PythonSymbolizationStatus-discrete
is_unresolved summary =
    decided
      (PythonSymbolizationStatus-discrete summary.python_status PythonSymbolizationStatus.active)
    && summary.resolved_python_frames == 0

module _ {D : Type 0} where
  -- `u64::try_from(_)` and `u32::try_from(_)` on a usize.
  abbrev to_word : (modulus : ℕ) → (name : Text) → (value : ℕ) → Result ℕ (CpuAnalysisError D)
  to_word modulus name value =
      if ltb value modulus then ok value else err (CpuAnalysisError.limit name (u64_mod - 1))

module _ (f : Float) (V : Type 0) (demangle : Text → Option Text)
    (parse_object : List ℕ → Result ObjectFile Text) (error_text : ErrorKind → Text) where
  open f use {F}

  abbrev stack_group : Symbolizer V → (denominator : ℕ) → Stack × ℕ → CpuStackGroup F
  unfolding symbolize ratio
  stack_group symbolizer denominator (addresses, samples) = record {
    frames = map (symbolize symbolizer) addresses;
    samples = samples;
    proportion = ratio f samples denominator;
  }

  -- The result, from the symbolizer and the folded stacks. `widths` are the converted numbers of
  -- groups and of threads.
  unfoldable inventory_result :
      ProcessReport
      → CpuSamplingSpec
      → (session_id : Text) → CpuCaptureData
      → Symbolizer V
      → (folded : List (Stack × ℕ) × Bool) → (widths : ℕ × ℕ × ℕ) → CpuSampleInventoryResult F V
  unfolding grouped stack_group aggregate_hotspots summarize_symbolization capture_warnings
      is_unresolved capture_is_complete ratio
  inventory_result report spec session_id capture symbolizer (raw_groups, group_capacity_reached)
        (groups, threads_observed, threads_attached) =
      let grouped_samples = grouped raw_groups in
      let sample_denominator = max capture.observed_samples 1 in
      let stack_groups = map (stack_group symbolizer sample_denominator) raw_groups in
      let hotspots =
        aggregate_hotspots f raw_groups symbolizer sample_denominator spec.max_groups in
      let symbolization = summarize_symbolization stack_groups symbolizer.python_status in
      let warnings =
        symbolizer.warnings
        ++ capture_warnings V capture
        ++ warn_if V group_capacity_reached (text "CPU_GROUP_CAPACITY_REACHED") (
            text
              "distinct stack groups exceeded max_groups; only the heaviest groups and hotspots were retained")
        ++ warn_if V (is_unresolved symbolization) (text "PYTHON_FRAMES_UNRESOLVED") (
            text
              "the CPython perf map is active, but sampled callchains contained no resolvable Python trampoline frames") in
      record {
        schema_version = SchemaVersion.v2;
        ok = true;
        session_id = session_id;
        status = SessionStatus.completed;
        target = report.target;
        inventory = record {
          name = spec.name;
          sample_event = CpuSampleEvent.cpu_clock;
          frequency_hz = spec.frequency_hz;
          duration_ms = spec.duration_ms;
          stack_groups = stack_groups;
          hotspots = hotspots;
        };
        collection = record {
          completeness =
              if capture_is_complete capture grouped_samples group_capacity_reached
              then CpuCaptureCompleteness.complete
              else CpuCaptureCompleteness.incomplete;
          observed_samples = capture.observed_samples;
          grouped_samples = grouped_samples;
          lost_samples = capture.lost_samples;
          sample_capacity = spec.max_samples;
          group_capacity = spec.max_groups;
          groups = groups;
          table_utilization = ratio f groups (max spec.max_groups 1);
          stack_depth = spec.stack_depth;
          truncated_stacks = capture.truncated_stacks;
          threads_observed = threads_observed;
          threads_attached = threads_attached;
          thread_capacity = spec.max_threads;
        };
        symbolization = symbolization;
        warnings = warnings;
      }

  -- The target is verified at the moment 0 and again at the moment 5, with the reads of the
  -- symbolizer between them.
  unfoldable pub analyze :
      {D : Type 0}
      → Moments
      → ProcessReport
      → CpuSamplingSpec
      → (session_id : Text) → CpuCaptureData
      → Result (CpuSampleInventoryResult F V) (CpuAnalysisError D)
  unfolding verify_target load aggregate_raw_stacks inventory_result
  analyze fs report spec session_id capture =
      let folded = aggregate_raw_stacks capture.samples spec.max_groups in
      do
        map_err CpuAnalysisError.inspect (verify_target (fs 0) report.target)
        symbolizer ←
            load V demangle parse_object error_text (λ n. fs (n + 1)) report capture.python_status
        map_err CpuAnalysisError.inspect (verify_target (fs 5) report.target)
        groups ← to_word u64_mod (text "group count") (length folded.0)
        threads_observed ← to_word u32_mod (text "observed thread count") capture.threads_observed
        threads_attached ← to_word u32_mod (text "attached thread count") capture.threads_attached
        ok (
            inventory_result report spec session_id capture symbolizer folded
              (groups, threads_observed, threads_attached))
