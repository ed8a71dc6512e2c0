-- ===== src/Correlator/StreamOrder/Matching.antt =====
-- Which events `correlate_stream_order` pairs.
use xprobe.Prelude.{
  ap, ◌∙◌, and_then-some, some-injective, ℕ, ◌≤◌, ◌≡◌, subst, inl, inr, Option, some, List, [], ◌∷◌,
  Option-cases, List-cases, All, All-append, All-of_forall,
}
use xprobe.Rust.Ord.{nat_ord, pair_ord}
use xprobe.Rust.BTreeMap.{BTreeMap, get, remove, All-get, All-remove}
use xprobe.Rust.BTreeMap.Groups.{AllIn, All-push}
use xprobe.Protocol.Event.{CudaEvent, Event}
use xprobe.Correlator.Pairs.{Pair}
use xprobe.Correlator.Accounting.{All-truncate}
use xprobe.Correlator.FirstAfter.{skip_before, make_pair}
use xprobe.Correlator.FirstAfter.Matching.{
  IsU64Stamped, IsCausal, make_pair-IsCausal, le-skip_before, All-skip_before,
}
use xprobe.Correlator.StreamOrder.{
  StreamKey, Grouping, Progress, stream_key, group_step, group_by_stream, stream_loop, streams_loop,
  correlate_stream_order,
}

module _ {V : Type 0} (S : Event V → Type 0) where
  abbrev OnStream : StreamKey → Event V → Type 0
  OnStream key event = (stream_key event ≡ some key) × S event

  group_step-AllIn :
      (s : Grouping V) (event : Event V)
      → S event
      → All (AllIn OnStream) s.groups
      → All (AllIn OnStream) (group_step s event).groups
  unfolding group_step
  group_step-AllIn s event h k = elim (Option-cases (stream_key event)) [
    | inl e ↦ rw (e, group_step) k
    | inr (key, e) ↦ rw (e, group_step) (All-push OnStream key event s.groups (e, h) k)
  ]

  group_by_stream-AllIn :
      (events : List (Event V)) (s : Grouping V)
      → All S events
      → All (AllIn OnStream) s.groups
      → All (AllIn OnStream) (group_by_stream events s).groups
  unfolding group_by_stream
  group_by_stream-AllIn [] s h k = k
  group_by_stream-AllIn (event ∷ events) s h k =
      group_by_stream-AllIn events (group_step s event) h.1 (group_step-AllIn s event h.0 k)

-- Whatever holds of each start and each later end of its stream holds of the pairs.
module _ {ℓ} {V : Type 0} (S E : Event V → Type 0) (P : Pair V → Type ℓ)
    (pairing : (key : StreamKey) (s e : Event V)
      → OnStream S key s
      → OnStream E key e
      → s.timestamp_ns ≤ e.timestamp_ns
      → P (make_pair s e)) where
  stream_loop-All :
      (key : StreamKey) (starts ends : List (Event V)) (s : Progress V)
      → All (OnStream S key) starts
      → All (OnStream E key) ends
      → All P s.pairs
      → All P (stream_loop starts ends s).pairs
  unfolding stream_loop
  stream_loop-All key [] ends s h k p = p
  stream_loop-All key (start ∷ starts) ends s h k p =
      let t = start.timestamp_ns in
      elim (List-cases (skip_before t ends)) [
        | inl e ↦ rw (e, stream_loop) (stream_loop-All key starts [] _ h.1 tt p)
        | inr (end, rest, e) ↦
            let left = subst (All (OnStream E key)) e (All-skip_before (OnStream E key) t ends k) in
            let pair = pairing key start end h.0 left.0 (le-skip_before t ends e) in
            rw (e, stream_loop)
              (stream_loop-All key starts rest _ h.1 left.1
                (All-append P s.pairs (make_pair start end ∷ []) p (pair, tt)))
      ]

  streams_loop-All :
      (start_groups end_groups : BTreeMap StreamKey (List (Event V))) (s : Progress V)
      → All (AllIn (OnStream S)) start_groups
      → All (AllIn (OnStream E)) end_groups
      → All P s.pairs
      → All P (streams_loop start_groups end_groups s).pairs
  unfolding streams_loop
  streams_loop-All [] end_groups s h k p = p
  streams_loop-All ((key, group) ∷ start_groups) end_groups s h k p =
      elim (Option-cases (get key end_groups)) [
        | inl e ↦ rw (e, streams_loop) (streams_loop-All start_groups end_groups _ h.1 k p)
        | inr (end_group, e) ↦
            rw (e, streams_loop)
              (streams_loop-All start_groups (remove key end_groups) _ h.1
                (All-remove (AllIn (OnStream E)) key end_groups k)
                (stream_loop-All key group end_group s h.0
                  (All-get (AllIn (OnStream E)) key end_groups k e) p))
      ]

  pub correlate_stream_order-All :
      (starts ends : List (Event V)) (limit : Option ℕ)
      → All S starts
      → All E ends
      → All P (correlate_stream_order starts ends limit).pairs
  unfolding correlate_stream_order
  correlate_stream_order-All starts ends limit h k =
      let none_yet : Grouping V = record { groups = []; unmatched = 0 } in
      All-truncate P limit _ (
        streams_loop-All _ _ _ (group_by_stream-AllIn S starts none_yet h tt)
          (group_by_stream-AllIn E ends none_yet k tt) tt)

module _ {V : Type 0} where
  -- An event of a process whose payload names the device, the context and the stream.
  pub record IsOf (key : StreamKey) (event : Event V) : Type 0 where
    pub payload : CudaEvent
    pub has_payload : event.cuda ≡ some payload
    pub process : event.pid ≡ key.0
    pub device : payload.device_id ≡ some key.1.0
    pub context : payload.context_id ≡ some key.1.1.0
    pub on_stream : payload.stream_id ≡ some key.1.1.1

  stream_key-IsOf :
      (key : StreamKey) (event : Event V) → stream_key event ≡ some key → IsOf key event
  unfolding stream_key
  stream_key-IsOf key event h =
      let (payload, has_payload, h1) = and_then-some event.cuda _ h in
      let (device, has_device, h2) = and_then-some payload.device_id _ h1 in
      let (context, has_context, h3) = and_then-some payload.context_id _ h2 in
      let (stream, has_stream, h4) = and_then-some payload.stream_id _ h3 in
      let same = some-injective h4 in
      record {
        payload = payload;
        has_payload = has_payload;
        process = ap (λ k. k.0) same;
        device = has_device ∙ ap (λ k. some (k.1.0)) same;
        context = has_context ∙ ap (λ k. some (k.1.1.0)) same;
        on_stream = has_stream ∙ ap (λ k. some (k.1.1.1)) same;
      }

module _ {V : Type 0} where
  -- Both ends of a pair were recorded on one stream of one process, in order of time, and the
  -- latency is the time between them.
  pub record IsOnStream (p : Pair V) : Type 0 where
    pub stream : StreamKey
    pub start_stream : IsOf stream p.start
    pub end_stream : IsOf stream p.end
    pub causal : IsCausal p

  -- When the timestamps of the ends are u64 values, the two events of each pair of
  -- `correlate_stream_order` are of the same process and their payloads name the same device,
  -- context and stream, and its latency is exactly the time from the start to the end.
  pub correlate_stream_order-IsOnStream :
      (starts ends : List (Event V)) (limit : Option ℕ)
      → All IsU64Stamped ends
      → All IsOnStream (correlate_stream_order starts ends limit).pairs
  correlate_stream_order-IsOnStream starts ends limit =
      correlate_stream_order-All (λ s. Unit) IsU64Stamped IsOnStream
        (λ key s e hs he h.
          unfold make_pair in
          record {
            stream = key;
            start_stream = stream_key-IsOf key s hs.0;
            end_stream = stream_key-IsOf key e he.0;
            causal = make_pair-IsCausal s e h he.1;
          })
        starts ends limit (All-of_forall (λ s. Unit) (λ s. tt) starts)
