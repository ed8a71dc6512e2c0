-- ===== src/Protocol/Measurement.antt =====
-- xprobe/protocol/src/measurement.rs: measurement results, and `Warning` of capability.rs. The type
-- `F` stands for `f64`.
use xprobe.Prelude.{ℕ, Bool, Option, List}
use xprobe.Rust.Str.{Text}
use xprobe.Rust.BTreeMap.{BTreeMap}
use xprobe.Protocol.Event.{Event, SchemaVersion}

pub data MatchPolicy : Type 0 where
  exact first_after nearest stack_nested stream_order : MatchPolicy

pub data SessionStatus : Type 0 where
  completed timed_out cancelled failed : SessionStatus

pub data CorrelationConfidence : Type 0 where
  exact high heuristic ambiguous : CorrelationConfidence

pub data CaptureCompleteness : Type 0 where
  complete : CaptureCompleteness

pub record Warning (V : Type 0) : Type 0 where
  pub code : Text
  pub message : Text
  pub details : BTreeMap Text V

pub record MatchedEventPair (V : Type 0) : Type 0 where
  pub start : Event V
  pub end : Event V
  pub latency_ns : ℕ

pub record SampleSummary : Type 0 where
  pub matched : ℕ
  pub unmatched_start : ℕ
  pub unmatched_end : ℕ
  pub ambiguous : ℕ
  pub dropped : ℕ

pub record LatencyStatistics (F : Type 0) : Type 0 where
  pub min : ℕ
  pub mean : F
  pub p50 : ℕ
  pub p90 : ℕ
  pub p95 : ℕ
  pub p99 : ℕ
  pub max : ℕ

pub record Measurement (F : Type 0) : Type 0 where
  pub name : Option Text
  pub samples : SampleSummary
  pub latency_ns : LatencyStatistics F

pub record CorrelationSummary (F : Type 0) : Type 0 where
  pub method : Text
  pub confidence : CorrelationConfidence
  pub score : F

pub record ClockQuality : Type 0 where
  pub alignment : Text
  pub estimated_error_ns : Option ℕ

pub record CuptiCollectionSummary (F : Type 0) : Type 0 where
  pub record_capacity : ℕ
  pub observed_records : ℕ
  pub retained_records : ℕ
  pub dropped_records : ℕ
  pub buffer_utilization : F

pub record CollectionSummary (F : Type 0) : Type 0 where
  pub completeness : CaptureCompleteness
  pub host_events : ℕ
  pub cuda_events : ℕ
  pub dropped_events : ℕ
  pub cupti : Option (CuptiCollectionSummary F)

pub record MeasurementResult (V F : Type 0) : Type 0 where
  pub schema_version : SchemaVersion
  pub ok : Bool
  pub session_id : Text
  pub status : SessionStatus
  pub measurement : Measurement F
  pub correlation : CorrelationSummary F
  pub clock : ClockQuality
  pub collection : CollectionSummary F
  pub evidence : List (MatchedEventPair V)
  pub warnings : List (Warning V)
