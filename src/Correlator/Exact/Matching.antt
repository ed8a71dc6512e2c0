-- ===== src/Correlator/Exact/Matching.antt =====
-- Which events `correlate_exact` pairs.
use xprobe.Prelude.{
  ℕ, ◌+◌, ◌≡◌, inl, inr, Option, some, List, [], ◌∷◌, ◌==◌, Bool-cases, Option-cases, length, All,
  All-append, All-of_forall,
}
use xprobe.Rust.Ord.{nat_ord, pair_ord}
use xprobe.Rust.Words.{checked_sub, checked_sub_exact}
use xprobe.Rust.BTreeMap.{BTreeMap, get, remove, All-get, All-remove}
use xprobe.Rust.BTreeMap.Groups.{AllIn, All-push}
use xprobe.Protocol.Event.{Event}
use xprobe.Correlator.Pairs.{Pair, Outcome, CorrelationKey, correlation_key, key_ord}
use xprobe.Correlator.Accounting.{All-truncate}
use xprobe.Correlator.Lifecycle.Matching.{IsLifecycle}
use xprobe.Correlator.Exact.{Keyed, key_step, group_by_key, zip_group, groups_loop, correlate_exact}

module _ {V : Type 0} (S : Event V → Type 0) where
  abbrev HasKey : CorrelationKey → Event V → Type 0
  HasKey key event = (correlation_key event ≡ some key) × S event

  key_step-AllIn :
      (s : Keyed V) (event : Event V)
      → S event
      → All (AllIn HasKey) s.groups
      → All (AllIn HasKey) (key_step s event).groups
  unfolding key_step
  key_step-AllIn s event h k = elim (Option-cases (correlation_key event)) [
    | inl e ↦ rw (e, key_step) k
    | inr (key, e) ↦ rw (e, key_step) (All-push HasKey key event s.groups (e, h) k)
  ]

  group_by_key-AllIn :
      (events : List (Event V)) (s : Keyed V)
      → All S events
      → All (AllIn HasKey) s.groups
      → All (AllIn HasKey) (group_by_key events s).groups
  unfolding group_by_key
  group_by_key-AllIn [] s h k = k
  group_by_key-AllIn (event ∷ events) s h k =
      group_by_key-AllIn events (key_step s event) h.1 (key_step-AllIn s event h.0 k)

-- Whatever holds of each start and each later end of its key holds of the pairs.
module _ {ℓ} {V : Type 0} (S E : Event V → Type 0) (P : Pair V → Type ℓ)
    (pairing : (key : CorrelationKey) (s e : Event V) (latency : ℕ)
      → HasKey S key s
      → HasKey E key e
      → s.timestamp_ns + latency ≡ e.timestamp_ns
      → P (record { start = s; end = e; latency_ns = latency })) where
  zip_group-All :
      (key : CorrelationKey) (starts ends : List (Event V)) (s : Outcome V)
      → All (HasKey S key) starts
      → All (HasKey E key) ends
      → All P s.pairs
      → All P (zip_group starts ends s).pairs
  unfolding zip_group
  zip_group-All key [] ends s h k p = p
  zip_group-All key (start ∷ starts) [] s h k p = p
  zip_group-All key (start ∷ starts) (end ∷ ends) s h k p =
      elim (Option-cases (checked_sub end.timestamp_ns start.timestamp_ns)) [
        | inl e ↦ rw (e, zip_group) (zip_group-All key starts ends _ h.1 k.1 p)
        | inr (d, e) ↦
            let exact = checked_sub_exact end.timestamp_ns start.timestamp_ns e in
            rw (e, zip_group)
              (zip_group-All key starts ends _ h.1 k.1
                (All-append P s.pairs _ p (pairing key start end d h.0 k.0 exact, tt)))
      ]

  groups_loop-All :
      (start_groups end_groups : BTreeMap CorrelationKey (List (Event V))) (s : Outcome V)
      → All (AllIn (HasKey S)) start_groups
      → All (AllIn (HasKey E)) end_groups
      → All P s.pairs
      → All P (groups_loop start_groups end_groups s).pairs
  unfolding groups_loop
  groups_loop-All [] end_groups s h k p = p
  groups_loop-All ((key, group) ∷ start_groups) end_groups s h k p =
      elim (Option-cases (get key end_groups)) [
        | inl e ↦ rw (e, groups_loop) (groups_loop-All start_groups end_groups _ h.1 k p)
        | inr (end_group, e) ↦
            let rest = All-remove (AllIn (HasKey E)) key end_groups k in
            rw (e, groups_loop)
              (elim (Bool-cases (length group == length end_group)) [
                | inl same ↦ rw same (
                    groups_loop-All start_groups (remove key end_groups) _ h.1 rest (
                      zip_group-All key group end_group s h.0
                        (All-get (AllIn (HasKey E)) key end_groups k e) p))
                | inr differ ↦
                    rw differ (groups_loop-All start_groups (remove key end_groups) _ h.1 rest p)
              ])
      ]

  pub correlate_exact-All :
      (starts ends : List (Event V)) (limit : Option ℕ)
      → All S starts
      → All E ends
      → All P (correlate_exact starts ends limit).pairs
  unfolding correlate_exact
  correlate_exact-All starts ends limit h k =
      let none_yet : Keyed V = record { groups = []; unmatched = 0 } in
      All-truncate P limit _ (
        groups_loop-All _ _ _ (group_by_key-AllIn S starts none_yet h tt)
          (group_by_key-AllIn E ends none_yet k tt) tt)

module _ {V : Type 0} where
  -- The two events of each pair of `correlate_exact` have the same correlation key, and its
  -- latency is exactly the time from the start to the end.
  pub correlate_exact-IsLifecycle :
      (starts ends : List (Event V)) (limit : Option ℕ)
      → All (IsLifecycle correlation_key) (correlate_exact starts ends limit).pairs
  correlate_exact-IsLifecycle starts ends limit =
      correlate_exact-All (λ s. Unit) (λ e. Unit) (IsLifecycle correlation_key)
        (λ key s e d hs he c. record { key = key; start_key = hs.0; end_key = he.0; causal = c })
        starts ends limit (All-of_forall (λ s. Unit) (λ s. tt) starts)
        (All-of_forall (λ s. Unit) (λ s. tt) ends)
