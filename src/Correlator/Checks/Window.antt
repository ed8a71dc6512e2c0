-- ===== src/Correlator/Checks/Window.antt =====
-- `apply_duration_window` of xprobe/correlator/src/lib.rs: which events a duration keeps.
use xprobe.Prelude.{
  ℕ, ◌+◌, ◌≤◌, ◌<◌, min, ◌≡◌, refl, inl, inr, Bool, true, false, Option, none, some, List, [], ◌∷◌,
  ◌++◌, arith, ltb, leb, ◌==◌, leb→le, Bool-cases, Option-cases, length, select, any, All,
  All-append, All-select, All-imp, Ordered, All-select_test, length-select-le,
}
use xprobe.Rust.Words.{u64_mod, checked_add}
use xprobe.Rust.Result.{ok, OnOk, OnOk-get}
use xprobe.Protocol.Event.{Event}
use xprobe.Correlator.Checks.{first_timestamp, no_later, apply_duration_window}

module _ {V : Type 0} where
  abbrev pub InTime : Event V → Event V → Type 0
  InTime a b = a.timestamp_ns ≤ b.timestamp_ns

  -- The events of the first `duration` nanoseconds.
  pub record IsWindow (duration : ℕ) (starts ends kept_starts kept_ends : List (Event V))
      : Type 0 where
    pub earliest : ℕ
    pub is_earliest : All (λ e. earliest ≤ e.timestamp_ns) (starts ++ ends)
    pub attained : any (λ e. e.timestamp_ns == earliest) (starts ++ ends) ≡ true
    pub within : All (λ e. e.timestamp_ns ≤ earliest + duration) (kept_starts ++ kept_ends)
    pub starts_kept : kept_starts ≡ select (λ e. leb e.timestamp_ns (earliest + duration)) starts
    pub ends_kept : kept_ends ≡ select (λ e. leb e.timestamp_ns (earliest + duration)) ends

  -- What `first_timestamp` is for lists in order.
  record IsFirst (starts ends : List (Event V)) (r : Option ℕ) : Type 0 where
    first : ℕ
    is_first : r ≡ some first
    below : All (λ e. first ≤ e.timestamp_ns) (starts ++ ends)
    attained : any (λ e. e.timestamp_ns == first) (starts ++ ends) ≡ true

  any-right :
      (p : Event V → Bool) (xs : List (Event V)) (y : Event V) (ys : List (Event V))
      → p y ≡ true
      → any p (xs ++ y ∷ ys) ≡ true
  any-right p [] y ys h = rw h refl
  any-right p (x ∷ xs) y ys h = ground (arith, any-right p xs y ys h)

  weaken :
      (t : ℕ) (e : Event V) (l : List (Event V))
      → t ≤ e.timestamp_ns
      → All (InTime e) l
      → All (λ x. t ≤ x.timestamp_ns) l
  weaken t e l h = All-imp (λ (x : Event V) (k : InTime e x). omega arith) l

  first_timestamp-IsFirst :
      (starts ends : List (Event V))
      → Ordered InTime starts
      → Ordered InTime ends
      → 0 < length (starts ++ ends)
      → IsFirst starts ends (first_timestamp starts ends)
  first_timestamp-IsFirst [] [] o p n = absurd (omega arith)
  first_timestamp-IsFirst (s ∷ starts) [] o p n = record {
    first = s.timestamp_ns;
    is_first = refl;
    below = All-append (λ e. s.timestamp_ns ≤ e.timestamp_ns) (s ∷ starts) [] (omega arith, o.0) tt;
    attained = ground arith;
  }
  first_timestamp-IsFirst [] (e ∷ ends) o p n = record {
    first = e.timestamp_ns;
    is_first = refl;
    below = (omega arith, p.0);
    attained = ground arith;
  }
  first_timestamp-IsFirst (s ∷ starts) (e ∷ ends) o p n =
      let t = min s.timestamp_ns e.timestamp_ns in
      record {
        first = t;
        is_first = refl;
        below =
            All-append (λ x. t ≤ x.timestamp_ns) (s ∷ starts) (e ∷ ends)
              (omega arith, weaken t s starts (omega arith) o.0)
              (omega arith, weaken t e ends (omega arith) p.0);
        attained = elim (Bool-cases (s.timestamp_ns == t)) [
          | inl h ↦ rw h refl
          | inr h ↦ rw h (any-right (λ x. x.timestamp_ns == t) starts e ends (ground (arith, h)))
        ];
      }

  attained-lt :
      (t d : ℕ) (l : List (Event V))
      → any (λ e. e.timestamp_ns == t) l ≡ true
      → All (λ e. e.timestamp_ns + d < u64_mod) l
      → t + d < u64_mod
  attained-lt t d [] h k = cc
  attained-lt t d (e ∷ l) h k = ground (arith, h, k.0, attained-lt t d l)

  -- For starts and ends in order of time, not both empty, and a duration that overflows with no
  -- timestamp, `apply_duration_window` succeeds and keeps exactly the starts and the ends that
  -- are at most the duration after the earliest event.
  pub apply_duration_window-IsWindow :
      (starts ends : List (Event V)) (duration : ℕ)
      → Ordered InTime starts
      → Ordered InTime ends
      → 0 < length (starts ++ ends)
      → duration < u64_mod
      → All (λ e. e.timestamp_ns + duration < u64_mod) (starts ++ ends)
      → (kept : List (Event V) × List (Event V)) × (apply_duration_window starts ends
            (some duration)
          ≡ ok kept)
        × IsWindow duration starts ends kept.0 kept.1
  unfolding apply_duration_window checked_add
  apply_duration_window-IsWindow starts ends duration o p n small fits =
      let f = first_timestamp-IsFirst starts ends o p n in
      let last = f.first + duration in
      let bound = attained-lt f.first duration (starts ++ ends) f.attained fits in
      let in_range : leb u64_mod duration ≡ false = ground (arith, small) in
      let no_overflow : ltb last u64_mod ≡ true = ground (arith, bound) in
      let keep = select (no_later last) in
      let test =
        All-imp (λ (e : Event V) (h : no_later last e ≡ true). leb→le e.timestamp_ns last h) in
      (
        (keep starts, keep ends),
        rw (f.is_first, apply_duration_window) (rw in_range (rw no_overflow refl)),
        record {
          earliest = f.first;
          is_earliest = f.below;
          attained = f.attained;
          within =
              All-append (λ e. e.timestamp_ns ≤ last) (keep starts) (keep ends)
                (test (keep starts) (All-select_test (no_later last) starts))
                (test (keep ends) (All-select_test (no_later last) ends));
          starts_kept = refl;
          ends_kept = refl;
        },
      )

  -- What a window keeps of two properties and of the number of starts.
  abbrev Keeps : (P Q : Event V → Type 0) → ℕ → List (Event V) × List (Event V) → Type 0
  Keeps P Q n kept = (All P kept.0 × All Q kept.1) × (length kept.0 ≤ n)

  window-Keeps :
      (P Q : Event V → Type 0) (starts ends : List (Event V)) (duration : Option ℕ)
      → All P starts
      → All Q ends
      → OnOk (Keeps P Q (length starts)) (apply_duration_window starts ends duration)
  unfolding apply_duration_window OnOk checked_add
  window-Keeps P Q starts ends none a b = ((a, b), omega arith)
  window-Keeps P Q starts ends (some d) a b = elim (Option-cases (first_timestamp starts ends)) [
    | inl e ↦ rw (e, apply_duration_window) ((a, b), omega arith)
    | inr (t, e) ↦
        rw (e, apply_duration_window)
          (elim (Bool-cases (leb u64_mod d)) [
            | inl large ↦ rw large tt
            | inr small ↦ rw small (elim (Bool-cases (ltb (t + d) u64_mod)) [
              | inl fits ↦ rw fits (
                (All-select P (no_later (t + d)) starts a, All-select Q (no_later (t + d)) ends b),
                length-select-le (no_later (t + d)) starts,
              )
              | inr over ↦ rw over tt
            ])
          ])
  ]

  -- Whatever holds of all the events holds of those that a window keeps, which are no more.
  pub apply_duration_window-All :
      (P Q : Event V → Type 0) (starts ends : List (Event V)) (duration : Option ℕ)
      {kept : List (Event V) × List (Event V)}
      → apply_duration_window starts ends duration ≡ ok kept
      → All P starts
      → All Q ends
      → (All P kept.0 × All Q kept.1) × (length kept.0 ≤ length starts)
  apply_duration_window-All P Q starts ends duration h a b =
      OnOk-get (Keeps P Q (length starts)) (window-Keeps P Q starts ends duration a b) h
