-- ===== src/Core/Selectors/Examples.antt =====
-- One selector for both parsers: an NVTX range of xprobe/core/src/validate.rs and of
-- xprobe/correlator/src/lib.rs.
use xprobe.Prelude.{some}
use xprobe.Rust.Str.{Text, text}
use xprobe.Correlator.Selector.{parse_cuda}
use xprobe.Core.Selectors.{parse_cuda_selector}
use xprobe.Core.Selectors.Agreement.{Agree, parse_cuda_selector-Agree}

abbrev range : Text
range = text "cuda:nvtx_range_start:name~^step:.*"

parse_cuda_selector-Agree_example : Agree (parse_cuda_selector some range) (parse_cuda some range)
parse_cuda_selector-Agree_example = parse_cuda_selector-Agree some range
