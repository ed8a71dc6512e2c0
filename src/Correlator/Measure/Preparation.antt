-- ===== src/Correlator/Measure/Preparation.antt =====
-- What `measure` of xprobe/correlator/src/lib.rs has checked before it matches events.
use xprobe.Prelude.{
  ◌≤◌, ◌≡◌, inl, inr, Bool, true, not, Option, List, arith, ltb, leb, ◌==◌, Bool-cases, length,
  select, all, All, All-select, All-both, All-select_test, length-select-le, All-append_left,
  All-append_right,
}
use xprobe.Rust.Sort.{All-sort_by, length-sort_by}
use xprobe.Rust.Str.{Text}
use xprobe.Rust.Result.{ok, OnOk, OnOk-get, Result-cases}
use xprobe.Protocol.Event.{Event, ClockDomain}
use xprobe.Correlator.Pairs.{sort_events}
use xprobe.Correlator.Selector.{Selector, parse}
use xprobe.Correlator.Policy.{matches, validate_policy}
use xprobe.Correlator.Checks.{
  MeasureOptions, validate_options, apply_duration_window, common_clock_domain,
}
use xprobe.Correlator.Measure.{Prepared, prepare, prepare_selected}
use xprobe.Correlator.Checks.Clock.{IsInGroup, common_clock_domain-Agrees}
use xprobe.Correlator.Checks.Window.{apply_duration_window-All}

module _ {V R : Type 0} (as_str : V → Option Text) (regex_new : Text → Option R)
    (is_match : R → Text → Bool) (P : Event V → Type 0) where
  -- An event that a selector matches, of a clock group.
  abbrev pub IsSelected : Selector R → ClockDomain → Event V → Type 0
  IsSelected selector domain e =
      (P e × (matches as_str is_match selector e ≡ true)) × IsInGroup domain e

  pub record IsPrepared (events : List (Event V)) (options : MeasureOptions) (p : Prepared V)
      : Type 0 where
    pub start_selector : Selector R
    pub end_selector : Selector R
    pub start_parsed : parse regex_new options.start_selector ≡ ok start_selector
    pub end_parsed : parse regex_new options.end_selector ≡ ok end_selector
    pub supported : validate_policy start_selector end_selector options.match_policy ≡ ok tt
    pub few : length events ≤ options.max_events
    pub undropped : options.dropped_events ≡ 0
    pub starts_selected : All (IsSelected start_selector p.clock_domain) p.starts
    pub ends_selected : All (IsSelected end_selector p.clock_domain) p.ends
    pub fewer : length p.starts ≤ length events

  matched_All :
      (selector : Selector R) (events : List (Event V))
      → All P events
      → All
          (λ e. P e × (matches as_str is_match selector e ≡ true))
          (sort_events (select (matches as_str is_match selector) events))
  unfolding sort_events
  matched_All selector events h =
      let test = matches as_str is_match selector in
      All-sort_by _ _ (select test events) (
        All-both (λ e a b. (a, b)) (select test events) (All-select P test events h)
          (All-select_test test events))

  fewer_starts :
      (selector : Selector R) (events : List (Event V))
      → length (sort_events (select (matches as_str is_match selector) events)) ≤ length events
  unfolding sort_events
  fewer_starts selector events =
      let test = matches as_str is_match selector in
      omega (
        arith,
        length-sort_by (λ a b. leb a.timestamp_ns b.timestamp_ns) (select test events),
        length-select-le test events,
      )

  -- The steps of `prepare` after the tests of the limits.
  selected-OnOk :
      (events : List (Event V)) (options : MeasureOptions)
      → All P events
      → length events ≤ options.max_events
      → options.dropped_events ≡ 0
      → OnOk (IsPrepared events options) (prepare_selected as_str regex_new is_match events options)
  unfolding prepare_selected OnOk
  selected-OnOk events options all few undropped =
      elim (Result-cases (parse regex_new options.start_selector)) [
        | inr (x, h) ↦ rw (h, prepare_selected) tt
        | inl (s, start_parsed) ↦
            rw (start_parsed, prepare_selected)
              (elim (Result-cases (parse regex_new options.end_selector)) [
                | inr (x, h) ↦ rw h tt
                | inl (e, end_parsed) ↦
                    rw end_parsed (elim (Result-cases (validate_policy s e options.match_policy)) [
                      | inr (x, h) ↦ rw h tt
                      | inl (tt, supported) ↦
                          let starts = sort_events (select (matches as_str is_match s) events) in
                          let ends = sort_events (select (matches as_str is_match e) events) in
                          rw supported (elim (Result-cases (common_clock_domain starts ends)) [
                            | inr (x, h) ↦ rw h tt
                            | inl (domain, clock) ↦
                                rw clock
                                  (elim (Result-cases
                                    (apply_duration_window starts ends options.duration)) [
                                      | inr (x, h) ↦ rw h tt
                                      | inl (kept, window) ↦
                                          let agrees =
                                            (common_clock_domain-Agrees starts ends domain
                                              clock).in_group in
                                          let both =
                                            apply_duration_window-All (IsSelected s domain)
                                              (IsSelected e domain) starts ends options.duration
                                              window
                                              (All-both (λ e a b. (a, b)) starts
                                                (matched_All s events all)
                                                (All-append_left (IsInGroup domain) starts ends
                                                  agrees))
                                              (All-both (λ e a b. (a, b)) ends
                                                (matched_All e events all)
                                                (All-append_right (IsInGroup domain) starts ends
                                                  agrees)) in
                                          rw window (record {
                                            start_selector = s;
                                            end_selector = e;
                                            start_parsed = start_parsed;
                                            end_parsed = end_parsed;
                                            supported = supported;
                                            few = few;
                                            undropped = undropped;
                                            starts_selected = both.0.0;
                                            ends_selected = both.0.1;
                                            fewer = omega (arith, both.1, fewer_starts s events);
                                          })
                                    ])
                          ])
                    ])
              ])
      ]

  prepare-OnOk :
      (events : List (Event V)) (options : MeasureOptions)
      → All P events
      → OnOk (IsPrepared events options) (prepare as_str regex_new is_match events options)
  unfolding prepare OnOk
  prepare-OnOk events options all = elim (Result-cases (validate_options options)) [
    | inr (e, h) ↦ rw (h, prepare) tt
    | inl (u, valid) ↦
        rw (valid, prepare)
          (elim (Bool-cases (ltb options.max_events (length events))) [
            | inl h ↦ rw h tt
            | inr few ↦ rw few (elim (Bool-cases (not (options.dropped_events == 0))) [
              | inl h ↦ rw h tt
              | inr undropped ↦ rw undropped (
                  selected-OnOk events options all (ground (arith, few))
                    (ground (arith, undropped)))
            ])
          ])
  ]

  pub prepare-IsPrepared :
      (events : List (Event V)) (options : MeasureOptions) (p : Prepared V)
      → All P events
      → prepare as_str regex_new is_match events options ≡ ok p
      → IsPrepared events options p
  prepare-IsPrepared events options p all = OnOk-get _ (prepare-OnOk events options all)
