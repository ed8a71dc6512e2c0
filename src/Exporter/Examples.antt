-- ===== src/Exporter/Examples.antt =====
-- A trace of the kernels of the examples, by xprobe/exporter/src/lib.rs.
use xprobe.Prelude.{◌≡◌, refl, ◌≢◌, some, [], arith, Ordered}
use xprobe.Protocol.Event.{EventType}
use xprobe.Exporter.{trace_events}
use xprobe.Exporter.Trace.{InOrder, AllRender, event_type_name_injective, trace_events-Renders}
use xprobe.Correlator.Examples.{two_starts}

event_type_name_injective_example : EventType.gpu_kernel_start ≡ EventType.gpu_kernel_start
event_type_name_injective_example =
    event_type_name_injective EventType.gpu_kernel_start EventType.gpu_kernel_start refl

trace_events-Renders_example :
    AllRender two_starts (trace_events some two_starts)
    × Ordered InOrder (trace_events some two_starts)
trace_events-Renders_example = trace_events-Renders some two_starts ((omega arith, tt), (tt, tt))

named : (trace_events some two_starts) ≢ []
unfolding trace_events
named e = cc
