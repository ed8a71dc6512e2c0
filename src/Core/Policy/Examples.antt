-- ===== src/Core/Policy/Examples.antt =====
-- Policies of xprobe/core/src/validate.rs on endpoints of a function, and on kernels.
use xprobe.Prelude.{◌≡◌, refl, ◌≢◌, true, false, Option, none, some, []}
use xprobe.Rust.Str.{Text, text}
use xprobe.Rust.Result.{ok}
use xprobe.Protocol.Event.{EventType, HostProbeKind, v2}
use xprobe.Protocol.Validate.{ResolvedProbe, ValidatedEndpoint, EndpointSource, ElfObjectKind}
use xprobe.Protocol.Measurement.{MatchPolicy}
use xprobe.Correlator.Selector.{Selector, kernel, nvtx}
use xprobe.Correlator.Policy.{validate_policy}
use xprobe.Correlator.Policy
use xprobe.Core.Policy.{Endpoint, EndpointKind, recommend_policy, check_policy, supports_exact}
use xprobe.Core.Policy.Recommendation.{accepts, Recommends, IsResolved, recommend_policy-Recommends}
use xprobe.Core.Policy.Agreement.{endpoint_of, validate_policy-agrees}

abbrev probe : HostProbeKind → ResolvedProbe
probe kind = record {
  schema_version = v2;
  ok = true;
  target = record { pid = 42; process_start_time = 7 };
  selector = text "uprobe:/bin/app:f:entry";
  binary_path = text "/bin/app";
  build_id = none;
  object_kind = ElfObjectKind.executable;
  probe_kind = kind;
  symbol = some (text "f");
  symbol_demangled = none;
  symbol_virtual_address = none;
  symbol_size = none;
  file_offset = 4096;
  runtime_address = 8192;
  mapping = record { start_address = 4096; end_address = 16384; file_offset = 0 };
}

abbrev public_of : EventType → EndpointSource → Option ResolvedProbe → ValidatedEndpoint
public_of event_type source host = record {
  selector = [];
  source = source;
  event_type = event_type;
  collectable = true;
  host = host;
  linux = none;
  cuda = none;
}

abbrev pub entry : Endpoint
entry = record {
  public =
      public_of EventType.host_function_entry EndpointSource.host
        (some (probe HostProbeKind.uprobe));
  kind = EndpointKind.host_entry;
}

abbrev pub return : Endpoint
return = record {
  public =
      public_of EventType.host_function_exit EndpointSource.host
        (some (probe HostProbeKind.uretprobe));
  kind = EndpointKind.host_return;
}

entry-IsResolved : IsResolved entry
entry-IsResolved h e = cc

return-IsResolved : IsResolved return
return-IsResolved h e = cc

recommend_policy-Recommends_example : Recommends entry return (recommend_policy entry return)
recommend_policy-Recommends_example =
    recommend_policy-Recommends entry return entry-IsResolved return-IsResolved

abbrev kernel_start : Selector Text
kernel_start = kernel EventType.gpu_kernel_start none

abbrev kernel_end : Selector Text
kernel_end = kernel EventType.gpu_kernel_end none

abbrev kernels : Endpoint
kernels = record {
  public = public_of EventType.gpu_kernel_start EndpointSource.cuda none;
  kind = EndpointKind.kernel;
}

exact_is_other : MatchPolicy.exact ≢ MatchPolicy.stack_nested
exact_is_other e = cc

kernels_are : EndpointKind.kernel ≡ endpoint_of kernel_start
unfolding endpoint_of
kernels_are = refl

kernels_end : EndpointKind.kernel ≡ endpoint_of kernel_end
unfolding endpoint_of
kernels_end = refl

kernels_accepted : accepts (check_policy kernels kernels MatchPolicy.exact) ≡ true
unfolding check_policy
kernels_accepted = refl

validate_policy-agrees_example : validate_policy kernel_start kernel_end MatchPolicy.exact ≡ ok tt
validate_policy-agrees_example =
    validate_policy-agrees kernel_start kernel_end kernels kernels MatchPolicy.exact kernels_are
      kernels_end tt tt exact_is_other kernels_accepted

-- The order of an NVTX range is checked by the correlator only.
reversed_range_validates :
    (supports_exact (EndpointKind.nvtx_range (text "a")) (EndpointKind.nvtx_range (text "a"))
      ≡ true)
    × (Policy.supports_exact
          (nvtx EventType.nvtx_range_end (text "a") (text "a"))
          (nvtx EventType.nvtx_range_start (text "a") (text "a"))
        ≡ false)
unfolding supports_exact Policy.supports_exact
reversed_range_validates = (refl, refl)
