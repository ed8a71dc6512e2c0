-- ===== src/Correlator/Checks/Clock.antt =====
-- `common_clock_domain` of xprobe/correlator/src/lib.rs.
use xprobe.Prelude.{
  ◌<◌, ◌≡◌, refl, sym, ap, ◌∙◌, inl, inr, Bool, true, false, ◌||◌, List, [], ◌∷◌, ◌++◌, arith, ◌==◌,
  if◌then◌else◌, Bool-cases, length, any, All, All-imp,
}
use xprobe.Rust.Result.{ok, err}
use xprobe.Protocol.Event.{Event, ClockDomain}
use xprobe.Correlator.Errors.{clock_domains_differ}
use xprobe.Correlator.Checks.{same_domain, clock_group, clock_loop, clock_of, common_clock_domain}

-- The domain that a group of events has, when one of them is or is not normalized.
abbrev domain_of : ClockDomain → Bool → ClockDomain
domain_of ClockDomain.cupti normalized = ClockDomain.cupti
domain_of _ normalized =
    if normalized
    then ClockDomain.cupti_normalized_to_host_monotonic
    else ClockDomain.host_monotonic

group-domain_of :
    (first : ClockDomain) (n : Bool) → clock_group (domain_of first n) ≡ clock_group first
unfolding clock_group
group-domain_of ClockDomain.cupti n = refl
group-domain_of ClockDomain.host_monotonic n = ground arith
group-domain_of ClockDomain.cupti_normalized_to_host_monotonic n = ground arith

domain_of_idem :
    (first : ClockDomain) (n : Bool) → domain_of first n ≡ domain_of (domain_of first n) n
domain_of_idem ClockDomain.cupti n = refl
domain_of_idem ClockDomain.host_monotonic n = ground arith
domain_of_idem ClockDomain.cupti_normalized_to_host_monotonic n = ground arith

module _ {V : Type 0} where
  abbrev pub IsInGroup : ClockDomain → Event V → Type 0
  IsInGroup d event = clock_group event.clock_domain ≡ clock_group d

  abbrev is_normalized : Event V → Bool
  is_normalized event =
      same_domain event.clock_domain ClockDomain.cupti_normalized_to_host_monotonic

  or_any :
      (first : ClockDomain) (normalized : Bool) (event : Event V) (events : List (Event V))
      → domain_of first ((normalized || is_normalized event) || any is_normalized events)
        ≡ domain_of first (normalized || any is_normalized (event ∷ events))
  or_any first true event events = refl
  or_any first false event events = elim (Bool-cases (is_normalized event)) [
    | inl e ↦ rw e refl
    | inr e ↦ rw e refl
  ]

  clock_loop-ok :
      (first : ClockDomain) (normalized : Bool) (events : List (Event V)) {d : ClockDomain}
      → clock_loop first normalized events ≡ ok d
      → All (IsInGroup first) events
        × (d ≡ domain_of first (normalized || any is_normalized events))
  unfolding clock_loop clock_group
  clock_loop-ok ClockDomain.cupti normalized [] h = ground (arith, h)
  clock_loop-ok ClockDomain.host_monotonic normalized [] h = ground (arith, h)
  clock_loop-ok ClockDomain.cupti_normalized_to_host_monotonic normalized [] h = ground (arith, h)
  clock_loop-ok first normalized (event ∷ events) {d} h =
      elim (Bool-cases (clock_group event.clock_domain == clock_group first)) [
        | inl same ↦
            let tail = normalized || is_normalized event in
            let step : clock_loop first normalized (event ∷ events) ≡ clock_loop first tail events =
              rw same refl in
            let rest = clock_loop-ok first tail events (sym step ∙ h) in
            let group : IsInGroup first event = ground (arith, same) in
            ((group, rest.0), rest.1 ∙ or_any first normalized event events)
        | inr other ↦
            let step : clock_loop first normalized (event ∷ events)
                ≡ err (clock_domains_differ first event.clock_domain) =
              rw other refl in
            absurd (ground (arith, step, h))
      ]

  clock_loop-All :
      (first : ClockDomain) (normalized : Bool) (events : List (Event V))
      → All (IsInGroup first) events
      → (d : ClockDomain) × (clock_loop first normalized events ≡ ok d)
  unfolding clock_loop clock_group
  clock_loop-All ClockDomain.cupti normalized [] h = (_, refl)
  clock_loop-All ClockDomain.host_monotonic normalized [] h =
      (domain_of ClockDomain.host_monotonic normalized, ground arith)
  clock_loop-All ClockDomain.cupti_normalized_to_host_monotonic normalized [] h =
      (domain_of ClockDomain.host_monotonic normalized, ground arith)
  clock_loop-All first normalized (event ∷ events) h =
      let same : (clock_group event.clock_domain == clock_group first) ≡ true =
        ground (arith, h.0) in
      rw same (clock_loop-All first (normalized || is_normalized event) events h.1)

  -- The clock of the selected events: the domain that the code names, and events that all compare
  -- with it.
  pub record Agrees (events : List (Event V)) (d : ClockDomain) : Type 0 where
    pub in_group : All (IsInGroup d) events
    pub named : d ≡ domain_of d (any is_normalized events)
    pub some_event : 0 < length events

  clock_of-Agrees :
      (events : List (Event V)) (d : ClockDomain) → clock_of events ≡ ok d → Agrees events d
  clock_of-Agrees [] d h = absurd (ground (arith, h))
  clock_of-Agrees (event ∷ events) d h =
      let first = event.clock_domain in
      let normalized = is_normalized event || any is_normalized events in
      let looped = clock_loop-ok first (is_normalized event) events h in
      let group : clock_group d ≡ clock_group first =
        ap clock_group looped.1 ∙ group-domain_of first normalized in
      let m = any is_normalized (event ∷ events) in
      let named : d ≡ domain_of first m = looped.1 ∙ or_any first false event events in
      record {
        in_group = (
          sym group,
          All-imp (λ (e : Event V) (k : IsInGroup first e). k ∙ sym group) events looped.0,
        );
        named = named ∙ domain_of_idem first m ∙ ap (λ x. domain_of x m) (sym named);
        some_event = omega arith;
      }

  -- If `common_clock_domain` finds a domain, there is an event, all the events are in the clock
  -- group of that domain, and in the group of the host clock it is the normalized CUPTI domain
  -- exactly when one of the events is normalized.
  pub common_clock_domain-Agrees :
      (starts ends : List (Event V)) (d : ClockDomain)
      → common_clock_domain starts ends ≡ ok d
      → Agrees (starts ++ ends) d
  unfolding common_clock_domain
  common_clock_domain-Agrees starts ends d h = clock_of-Agrees (starts ++ ends) d h

  -- If there is an event and all the events are in the clock group of one domain,
  -- `common_clock_domain` finds a domain.
  pub common_clock_domain-All :
      (starts ends : List (Event V)) (d : ClockDomain)
      → 0 < length (starts ++ ends)
      → All (IsInGroup d) (starts ++ ends)
      → (found : ClockDomain) × (common_clock_domain starts ends ≡ ok found)
  unfolding common_clock_domain
  common_clock_domain-All starts ends d n h = of_all (starts ++ ends) n h
    where
      of_all :
          (events : List (Event V))
          → 0 < length events
          → All (IsInGroup d) events
          → (found : ClockDomain) × (clock_of events ≡ ok found)
      of_all [] n h = absurd (omega arith)
      of_all (event ∷ events) n h =
          clock_loop-All event.clock_domain (is_normalized event) events
            (All-imp (λ (e : Event V) (k : IsInGroup d e). k ∙ sym h.0) events h.1)
