-- ===== src/Correlator/Pairs.antt =====
-- `Pair`, `Outcome` and the correlation keys of xprobe/correlator/src/lib.rs, with what the matching
-- functions share. Timestamps and counters are numbers: a theorem that subtracts or compares words
-- says that they are below their modulus.
use xprobe.Prelude.{ℕ, ◌≡◌, Option, none, some, List, leb, take, arith, and_then}
use xprobe.Rust.Sort.{sort_by}
use xprobe.Rust.Ord.{Ord, nat_ord, pair_ord, ord_by}
use xprobe.Protocol.Event.{Event, NvtxRangeKind, thread, process}

pub record Pair (V : Type 0) : Type 0 where
  pub start : Event V
  pub end : Event V
  pub latency_ns : ℕ

pub record Outcome (V : Type 0) : Type 0 where
  pub pairs : List (Pair V)
  pub unmatched_start : ℕ
  pub unmatched_end : ℕ
  pub ambiguous : ℕ

pub data CorrelationKey : Type 0 where
  cuda : ℕ → ℕ → ℕ → CorrelationKey
  nvtx : ℕ → NvtxRangeKind → ℕ → CorrelationKey

module _ {V : Type 0} where
  -- The derived order of the keys: the variant, then the fields in order.
  unfoldable pub correlation_key : Event V → Option CorrelationKey
  correlation_key event = elim event.nvtx [
    | some nvtx_event ↦ some (nvtx event.pid nvtx_event.range_kind nvtx_event.range_id)
    | none ↦ and_then event.cuda λ cuda_event. and_then cuda_event.context_id λ context_id.
        and_then cuda_event.correlation_id
          λ correlation_id. some (cuda event.pid context_id correlation_id)
  ]

  -- `sort_by_key(|event| event.timestamp_ns)`.
  unfoldable pub sort_events : List (Event V) → List (Event V)
  unfolding sort_by
  sort_events = sort_by (λ a b. leb a.timestamp_ns b.timestamp_ns)

  -- `pairs.sort_by_key(|pair| pair.start.timestamp_ns)`.
  unfoldable pub sort_pairs : List (Pair V) → List (Pair V)
  unfolding sort_by
  sort_pairs = sort_by (λ p q. leb p.start.timestamp_ns q.start.timestamp_ns)

  -- `if let Some(limit) = limit { pairs.truncate(limit); }`
  unfoldable pub truncate : Option ℕ → List (Pair V) → List (Pair V)
  truncate none pairs = pairs
  truncate (some limit) pairs = take limit pairs

unfoldable kind_code : NvtxRangeKind → ℕ
kind_code thread = 0
kind_code process = 1

kind_code_injective : (a b : NvtxRangeKind) → kind_code a ≡ kind_code b → a ≡ b
unfolding kind_code
kind_code_injective a b h = ground arith

unfoldable pub key_code : CorrelationKey → ℕ × (ℕ × (ℕ × ℕ))
unfolding kind_code
key_code (cuda pid context_id correlation_id) = (0, (pid, (context_id, correlation_id)))
key_code (nvtx pid range_kind range_id) = (1, (pid, (kind_code range_kind, range_id)))

pub key_code_injective : (a b : CorrelationKey) → key_code a ≡ key_code b → a ≡ b
unfolding kind_code key_code
key_code_injective (cuda p c i) (cuda q d j) h = ground arith
key_code_injective (cuda p c i) (nvtx q d j) h = absurd (ground arith)
key_code_injective (nvtx p c i) (cuda q d j) h = absurd (ground arith)
key_code_injective (nvtx p c i) (nvtx q d j) h = ground (arith, kind_code_injective c d)

instance abbrev pub key_ord : Ord CorrelationKey
key_ord = ord_by key_code key_code_injective pair_ord
