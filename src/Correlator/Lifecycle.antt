-- ===== src/Correlator/Lifecycle.antt =====
-- `correlate_thread_lifecycle` and `correlate_nvtx_lifecycle` of xprobe/correlator/src/lib.rs. The two
-- have one loop, over the key of an event; a thread always has a key.
pub mod Accounting
pub mod Matching
use xprobe.Prelude.{
  ℕ, ◌+◌, Option, none, some, List, [], ◌∷◌, ◌++◌, length, ◌==◌, is_some, if◌then◌else◌,
}
use xprobe.Rust.Words.{checked_sub}
use xprobe.Rust.Ord.{Ord, nat_ord, pair_ord, option_ord}
use xprobe.Rust.BTreeMap.{BTreeMap, get, insert, remove}
use xprobe.Protocol.Event.{Event}
use xprobe.Correlator.Pairs.{Pair, Outcome, correlation_key, key_ord, sort_pairs, truncate}
use xprobe.Correlator.Timeline.{Mark, sequence_timeline}

pub record Pending (K V : Type 0) : Type 0 where
  pub pending : BTreeMap K (Event V)
  pub pairs : List (Pair V)
  pub unmatched_start : ℕ
  pub unmatched_end : ℕ
  pub ambiguous : ℕ

module _ {K V : Type 0} ⦃o : Ord K⦄ where
  -- `if pending.insert(key, event).is_some() { ambiguous += 1; }`
  unfoldable pub open_range : K → Event V → Pending K V → Pending K V
  unfolding get insert
  open_range key event s = record s {
    pending = insert key event s.pending;
    ambiguous = if is_some (get key s.pending) then s.ambiguous + 1 else s.ambiguous;
  }

  unfoldable pub close_range : K → Event V → Pending K V → Pending K V
  unfolding get remove checked_sub
  close_range key event s = elim (get key s.pending) [
    | none ↦ record s { unmatched_end = s.unmatched_end + 1 }
    | some start ↦ elim (checked_sub event.timestamp_ns start.timestamp_ns) [
      | none ↦ record s { pending = remove key s.pending; ambiguous = s.ambiguous + 1 }
      | some latency_ns ↦ record s {
        pending = remove key s.pending;
        pairs = s.pairs ++ record { start = start; end = event; latency_ns = latency_ns } ∷ [];
      }
    ]
  ]

module _ {K V : Type 0} ⦃o : Ord K⦄ (key_of : Event V → Option K) where
  unfoldable pub lifecycle_step : Pending K V → Mark V → Pending K V
  unfolding open_range close_range
  lifecycle_step s mark = elim (key_of mark.event) [
    | none ↦
        if mark.boundary == 0
        then record s { unmatched_start = s.unmatched_start + 1 }
        else record s { unmatched_end = s.unmatched_end + 1 }
    | some key ↦
        if mark.boundary == 0 then open_range key mark.event s else close_range key mark.event s
  ]

  unfoldable pub lifecycle_loop : List (Mark V) → Pending K V → Pending K V
  unfolding lifecycle_step
  lifecycle_loop [] s = s
  lifecycle_loop (mark ∷ timeline) s = lifecycle_loop timeline (lifecycle_step s mark)

  unfoldable pub correlate_lifecycle : (starts ends : List (Event V)) (limit : Option ℕ) → Outcome V
  unfolding lifecycle_loop sequence_timeline sort_pairs truncate
  correlate_lifecycle starts ends limit =
      let s = lifecycle_loop (sequence_timeline starts ends) (record {
        pending = [];
        pairs = [];
        unmatched_start = 0;
        unmatched_end = 0;
        ambiguous = 0;
      }) in
      record {
        pairs = truncate limit (sort_pairs s.pairs);
        unmatched_start = s.unmatched_start + length s.pending;
        unmatched_end = s.unmatched_end;
        ambiguous = s.ambiguous;
      }

-- `(event.pid, event.tid, event.process_start_time)`.
abbrev pub ThreadKey : Type 0
ThreadKey = ℕ × (ℕ × Option ℕ)

module _ {V : Type 0} where
  unfoldable pub thread_key : Event V → Option ThreadKey
  thread_key event = some (event.pid, (event.tid, event.process_start_time))

  unfoldable pub correlate_thread_lifecycle :
      (starts ends : List (Event V)) (limit : Option ℕ) → Outcome V
  unfolding correlate_lifecycle thread_key
  correlate_thread_lifecycle = correlate_lifecycle thread_key

  unfoldable pub correlate_nvtx_lifecycle :
      (starts ends : List (Event V)) (limit : Option ℕ) → Outcome V
  unfolding correlate_lifecycle correlation_key
  correlate_nvtx_lifecycle = correlate_lifecycle correlation_key
