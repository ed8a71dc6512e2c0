-- ===== src/Core/CpuAnalysis/Summary.antt =====
-- The counters of `summarize_symbolization` of xprobe/core/src/cpu_sampling_analysis.rs.
use xprobe.Prelude.{
  ◌⊎◌, count-append, length-append, ◌||◌, false, not, true, ◌&&◌, count, ◌++◌, Bool, ℕ, ◌+◌, ◌<◌,
  ◌≡◌, refl, inl, inr, List, [], ◌∷◌, arith, length, is_some, Bool-cases,
}
use xprobe.Rust.Words.{u64_mod, add_u64}
use xprobe.Protocol.CpuSampling.{
  CpuFrameLanguage, CpuStackFrame, CpuStackGroup, CpuSymbolizationSummary,
  PythonSymbolizationStatus,
}
use xprobe.Core.CpuAnalysis.Analyze.{
  count_frame, count_frames, count_groups, summarize_symbolization,
}

-- The frames of all groups.
unfoldable pub frames_of : {F : Type 0} → List (CpuStackGroup F) → List CpuStackFrame
frames_of [] = []
frames_of (group ∷ groups) = group.frames ++ frames_of groups

abbrev in_native : CpuFrameLanguage → Bool
in_native CpuFrameLanguage.native = true
in_native _ = false

abbrev in_python : CpuFrameLanguage → Bool
in_python CpuFrameLanguage.python = true
in_python _ = false

-- A frame of native code, or of Python, that has a symbol.
abbrev resolved_native : CpuStackFrame → Bool
resolved_native frame = is_some frame.symbol && in_native frame.language

abbrev resolved_python : CpuStackFrame → Bool
resolved_python frame = is_some frame.symbol && in_python frame.language

abbrev unresolved : CpuStackFrame → Bool
unresolved frame = not (resolved_native frame || resolved_python frame)

-- The counters of a list of frames.
pub record Accounts (frames : List CpuStackFrame) (status : PythonSymbolizationStatus)
    (summary : CpuSymbolizationSummary) : Type 0 where
  pub total : summary.total_frames ≡ length frames
  pub native : summary.resolved_native_frames ≡ count resolved_native frames
  pub python : summary.resolved_python_frames ≡ count resolved_python frames
  pub rest : summary.unresolved_frames ≡ count unresolved frames
  pub split :
      summary.resolved_native_frames + summary.resolved_python_frames + summary.unresolved_frames
      ≡ length frames
  pub kept : summary.python_status ≡ status

add_u64_exact : (a b : ℕ) → a + b < u64_mod → add_u64 a b ≡ a + b
unfolding add_u64
add_u64_exact a b h = omega arith

-- The counters of a summary, none of which has wrapped.
record Tally (native python rest : ℕ) (status : PythonSymbolizationStatus)
    (summary : CpuSymbolizationSummary) : Type 0 where
  total_is : summary.total_frames ≡ native + python + rest
  native_is : summary.resolved_native_frames ≡ native
  python_is : summary.resolved_python_frames ≡ python
  rest_is : summary.unresolved_frames ≡ rest
  kept : summary.python_status ≡ status

language-cases :
    (language : CpuFrameLanguage)
    → (language ≡ CpuFrameLanguage.native)
      ⊎ ((language ≡ CpuFrameLanguage.python) ⊎ (language ≡ CpuFrameLanguage.unknown))
language-cases CpuFrameLanguage.native = inl refl
language-cases CpuFrameLanguage.python = inr (inl refl)
language-cases CpuFrameLanguage.unknown = inr (inr refl)

count_split :
    (frames : List CpuStackFrame)
    → count resolved_native frames + count resolved_python frames + count unresolved frames
      ≡ length frames
count_split [] = refl
count_split (frame ∷ frames) = ground (arith, count_split frames)

module _ (status : PythonSymbolizationStatus) where
  count_frame-Tally :
      (frame : CpuStackFrame) (summary : CpuSymbolizationSummary) (n p r : ℕ)
      → Tally n p r status summary
      → n + p + r + 1 < u64_mod
      → Tally
          (n + count resolved_native (frame ∷ []))
          (p + count resolved_python (frame ∷ []))
          (r + count unresolved (frame ∷ []))
          status
          (count_frame frame summary)
  unfolding count_frame
  count_frame-Tally frame summary n p r a h =
      let total = add_u64_exact summary.total_frames 1 (omega (arith, a.total_is)) in
      let native = add_u64_exact summary.resolved_native_frames 1 (omega (arith, a.native_is)) in
      let python = add_u64_exact summary.resolved_python_frames 1 (omega (arith, a.python_is)) in
      let rest = add_u64_exact summary.unresolved_frames 1 (omega (arith, a.rest_is)) in
      elim (Bool-cases (is_some frame.symbol)) [
        | inr e ↦ rw e (ground arith)
        | inl e ↦ rw e (elim (language-cases frame.language) [
          | inl f ↦ rw f (ground arith)
          | inr (inl f) ↦ rw f (ground arith)
          | inr (inr f) ↦ rw f (ground arith)
        ])
      ]

  -- Equal counters.
  recount :
      (summary : CpuSymbolizationSummary) (n p r n' p' r' : ℕ)
      → Tally n p r status summary
      → n ≡ n'
      → p ≡ p'
      → r ≡ r'
      → Tally n' p' r' status summary
  recount summary n p r n' p' r' a e f g = record {
    total_is = omega (arith, a.total_is);
    native_is = omega (arith, a.native_is);
    python_is = omega (arith, a.python_is);
    rest_is = omega (arith, a.rest_is);
    kept = a.kept;
  }

  count_frames-Tally :
      (frames : List CpuStackFrame) (summary : CpuSymbolizationSummary) (n p r : ℕ)
      → Tally n p r status summary
      → n + p + r + length frames < u64_mod
      → Tally
          (n + count resolved_native frames)
          (p + count resolved_python frames)
          (r + count unresolved frames)
          status
          (count_frames frames summary)
  unfolding count_frames
  count_frames-Tally [] summary n p r a h =
      recount summary n p r _ _ _ a (omega arith) (omega arith) (omega arith)
  count_frames-Tally (frame ∷ frames) summary n p r a h =
      let here = count_frame-Tally frame summary n p r a (omega arith) in
      recount (count_frames frames (count_frame frame summary)) _ _ _ _ _ _
        (count_frames-Tally frames (count_frame frame summary) _ _ _ here
          (omega (arith, count_split (frame ∷ []))))
        (ground arith) (ground arith) (ground arith)

  count_groups-Tally :
      {F : Type 0} (groups : List (CpuStackGroup F)) (summary : CpuSymbolizationSummary) (n p r : ℕ)
      → Tally n p r status summary
      → n + p + r + length (frames_of groups) < u64_mod
      → Tally
          (n + count resolved_native (frames_of groups))
          (p + count resolved_python (frames_of groups))
          (r + count unresolved (frames_of groups))
          status
          (count_groups groups summary)
  unfolding count_groups frames_of
  count_groups-Tally [] summary n p r a h =
      recount summary n p r _ _ _ a (omega arith) (omega arith) (omega arith)
  count_groups-Tally (group ∷ groups) summary n p r a h =
      let size = length-append group.frames (frames_of groups) in
      let here = count_frames-Tally group.frames summary n p r a (omega arith) in
      recount (count_groups groups (count_frames group.frames summary)) _ _ _ _ _ _
        (count_groups-Tally groups (count_frames group.frames summary) _ _ _ here
          (omega (arith, count_split group.frames)))
        (omega (arith, count-append resolved_native group.frames (frames_of groups)))
        (omega (arith, count-append resolved_python group.frames (frames_of groups)))
        (omega (arith, count-append unresolved group.frames (frames_of groups)))

-- For fewer than 2^64 frames, the summary of the symbolization counts all frames of all groups:
-- as native exactly the native ones with a symbol, as Python exactly the Python ones with a
-- symbol, and as unresolved exactly the others; and it keeps the Python status.
pub summarize_symbolization-Accounts :
    {F : Type 0} (groups : List (CpuStackGroup F)) (status : PythonSymbolizationStatus)
    → length (frames_of groups) < u64_mod
    → Accounts (frames_of groups) status (summarize_symbolization groups status)
unfolding summarize_symbolization
summarize_symbolization-Accounts groups status h =
    let nothing : Tally 0 0 0 status (record {
      total_frames = 0;
      resolved_native_frames = 0;
      resolved_python_frames = 0;
      unresolved_frames = 0;
      python_status = status;
    }) =
      record { total_is = refl; native_is = refl; python_is = refl; rest_is = refl; kept = refl } in
    let all = count_groups-Tally status groups _ 0 0 0 nothing (omega arith) in
    let sum = count_split (frames_of groups) in
    record {
      total = omega (arith, all.total_is, sum);
      native = omega (arith, all.native_is);
      python = omega (arith, all.python_is);
      rest = omega (arith, all.rest_is);
      split = omega (arith, all.native_is, all.python_is, all.rest_is, sum);
      kept = all.kept;
    }
