-- ===== src/Cli/Hints/Parsing.antt =====
-- The hints of xprobe/cli/src/main.rs, parsed by xprobe/correlator/src/lib.rs.
use xprobe.Prelude.{
  ℕ, ◌≡◌, refl, ap, ◌∙◌, subst, inl, inr, Bool, true, false, Option, none, some, [], ◌∷◌, ◌++◌,
  arith, ◌==◌, Bool-cases,
}
use mathlib.Core.Option
use xprobe.Rust.Str.{Text, text, is_ascii_alphanumeric}
use xprobe.Rust.Result.{ok}
use xprobe.Protocol.Event.{EventType, MemcpyKind}
use xprobe.Correlator.Selector.{Selector, kernel, memcpy, memset, parse}
use xprobe.Correlator.Regex.{is_special, regex_literal}
use xprobe.Cli.Hints.{
  hint_suffix, kernel_pattern, Activity, Group, aggregate_selector_hints, needs_escape,
  escape_selector_regex,
}

special_not_alphanumeric : (c : ℕ) → needs_escape c ≡ true → is_ascii_alphanumeric c ≡ false
unfolding needs_escape is_ascii_alphanumeric
special_not_alphanumeric c h = ground (arith, h)

plain_not_special :
    (c : ℕ) → needs_escape c ≡ false → (is_special c ≡ false) × ((c == b'\\') ≡ false)
unfolding needs_escape is_special
plain_not_special c h = ground (arith, h)

regex_literal-plain :
    (c : ℕ) (s : Text)
    → needs_escape c ≡ false
    → regex_literal (c ∷ s) ≡ Option.map (◌∷◌ c) (regex_literal s)
unfolding regex_literal
regex_literal-plain c [] h = let p = plain_not_special c h in rw p.1 (rw p.0 refl)
regex_literal-plain c (d ∷ s) h = let p = plain_not_special c h in rw p.1 (rw p.0 refl)

-- `regex_literal` reads back every text that `escape_selector_regex` has escaped.
pub regex_literal-escape_selector_regex :
    (name : Text) → regex_literal (escape_selector_regex name) ≡ some name
unfolding regex_literal escape_selector_regex
regex_literal-escape_selector_regex [] = refl
regex_literal-escape_selector_regex (c ∷ name) = elim (Bool-cases (needs_escape c)) [
  | inl e ↦
      rw e (rw (special_not_alphanumeric c e) (rw (regex_literal-escape_selector_regex name) refl))
  | inr e ↦ rw e (
      regex_literal-plain c (escape_selector_regex name) e
      ∙ ap (Option.map (◌∷◌ c)) (regex_literal-escape_selector_regex name))
]

-- The kind that a memcpy hint names; an unknown kind is left out.
abbrev pub named_kind : Option MemcpyKind → Option MemcpyKind
named_kind (some MemcpyKind.unknown) = none
named_kind kind = kind

-- The selectors that the hints of a group stand for; `r` is the compiled name.
abbrev pub hinted : {R : Type 0} → R → Group → Selector R × Selector R
hinted r group = elim group.activity [
  | Activity.kernel ↦
      (kernel EventType.gpu_kernel_start (some r), kernel EventType.gpu_kernel_end (some r))
  | Activity.memcpy ↦ (
    memcpy EventType.gpu_memcpy_start (named_kind group.memcpy_kind),
    memcpy EventType.gpu_memcpy_end (named_kind group.memcpy_kind),
  )
  | Activity.memset ↦ (memset EventType.gpu_memset_start, memset EventType.gpu_memset_end)
]

module _ {R : Type 0} (regex_new : Text → Option R) (r : R) where
  Parses : Group → Option (Text × Text) → Type 0
  Parses group none = Unit
  Parses group (some hints) =
      (parse regex_new hints.0 ≡ ok (hinted r group).0)
      × (parse regex_new hints.1 ≡ ok (hinted r group).1)

  kernel_parses :
      (pattern : Text)
      → regex_new (b'^' ∷ pattern) ≡ some r
      → (parse regex_new (text "cuda:kernel_start:name~^" ++ pattern)
          ≡ ok (kernel EventType.gpu_kernel_start (some r)))
        × (parse regex_new (text "cuda:kernel_end:name~^" ++ pattern)
            ≡ ok (kernel EventType.gpu_kernel_end (some r)))
  unfolding parse
  kernel_parses pattern h = (rw h refl, rw h refl)

  hints-Parses :
      (activity : Activity) (name : Option Text) (name_complete : Option Bool)
      (kind : Option MemcpyKind)
      → ((n : Text) → name ≡ some n → regex_new (kernel_pattern n name_complete) ≡ some r)
      → (let group : Group = record {
        activity = activity;
        name = name;
        name_complete = name_complete;
        memcpy_kind = kind;
      } in
          Parses group (aggregate_selector_hints group))
  unfolding Parses aggregate_selector_hints kernel_pattern parse
  hints-Parses Activity.kernel none name_complete kind compiles = tt
  hints-Parses Activity.kernel (some n) name_complete kind compiles =
      kernel_parses (escape_selector_regex n ++ hint_suffix name_complete) (compiles n refl)
  hints-Parses Activity.memcpy name name_complete none compiles = (refl, refl)
  hints-Parses Activity.memcpy name name_complete (some MemcpyKind.unknown) compiles = (refl, refl)
  hints-Parses Activity.memcpy name name_complete (some MemcpyKind.host_to_device) compiles =
      (refl, refl)
  hints-Parses Activity.memcpy name name_complete (some MemcpyKind.device_to_host) compiles =
      (refl, refl)
  hints-Parses Activity.memcpy name name_complete (some MemcpyKind.device_to_device) compiles =
      (refl, refl)
  hints-Parses Activity.memcpy name name_complete (some MemcpyKind.host_to_host) compiles =
      (refl, refl)
  hints-Parses Activity.memcpy name name_complete (some MemcpyKind.peer_to_peer) compiles =
      (refl, refl)
  hints-Parses Activity.memset name name_complete kind compiles = (refl, refl)

  -- Whenever an aggregate group has selector hints, the correlator parses both, to the start and
  -- the end of the group's activity: with its memcpy kind, if it is a known one, or with the
  -- expression made from the kernel's name, if it compiles, whatever characters the name has.
  pub aggregate_selector_hints-parse :
      (group : Group) (hints : Text × Text)
      → ((n : Text)
          → group.name ≡ some n
          → regex_new (kernel_pattern n group.name_complete) ≡ some r)
      → aggregate_selector_hints group ≡ some hints
      → (parse regex_new hints.0 ≡ ok (hinted r group).0)
        × (parse regex_new hints.1 ≡ ok (hinted r group).1)
  unfolding Parses
  aggregate_selector_hints-parse group hints compiles h =
      subst (Parses group) h
        (hints-Parses group.activity group.name group.name_complete group.memcpy_kind compiles)
