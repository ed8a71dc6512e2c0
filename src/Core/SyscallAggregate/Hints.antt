-- ===== src/Core/SyscallAggregate/Hints.antt =====
-- The selectors that xprobe/core/src/syscall_aggregate.rs suggests, read by `parse_linux_selector` of
-- xprobe/core/src/validate.rs.
use xprobe.Prelude.{
  ℕ, ◌≡◌, ◌≢◌, refl, sym, ap, ◌∙◌, subst, Bool, true, ◌&&◌, ◌||◌, inl, inr, Option, some, List, [],
  ◌∷◌, ◌++◌, arith, ◌==◌, is_some_and, all, All, All-imp, All-of_all, Option-cases, if-cases,
  some-injective, append_assoc,
}
use xprobe.Rust.Str.{Text, text, text_eq, split, is_ascii_alphanumeric, is_ascii_digit}
use xprobe.Rust.Result.{ok}
use xprobe.Correlator.Statistics.{Float}
use xprobe.Protocol.Event.{EventType, HostProbeKind}
use xprobe.Core.Policy.{EndpointKind}
use xprobe.Core.SyscallNumbers.{syscall_number, syscall_numbers, number_in}
use xprobe.Core.SyscallAggregate.Names.{syscall_name, syscall_names, lookup}
use xprobe.Core.SyscallAggregate.{RawSyscallGroup, normalize_group, syscall_hint}
use xprobe.Core.Validate.Linux.{
  linux_selector, valid_tracepoint_component, parse_linux_selector, linux_fields, syscall_selector,
}

split-word :
    (sep : ℕ) (p rest : Text)
    → All (λ c. c ≢ sep) p
    → split sep (p ++ sep ∷ rest) ≡ p ∷ split sep rest
unfolding split
split-word sep [] rest h = ground arith
split-word sep (c ∷ p) rest h = rw (split-word sep p rest h.1) (ground (arith, h.0))

-- A row of the table of names: a component of a tracepoint, with the number that the other table
-- gives it.
abbrev is_row : ℕ × Text → Bool
is_row (number, name) =
    valid_tracepoint_component name && is_some_and (syscall_number name) (λ n. n == number)

rows : all is_row syscall_names ≡ true
unfolding syscall_names valid_tracepoint_component syscall_number syscall_numbers number_in text_eq
    is_ascii_alphanumeric is_ascii_digit
rows = refl

lookup-row :
    (number : ℕ) (table : List (ℕ × Text)) {name : Text}
    → All (λ row. is_row row ≡ true) table
    → lookup number table ≡ some name
    → is_row (number, name) ≡ true
unfolding lookup
lookup-row number [] a h = cc
lookup-row number ((key, first) ∷ rest) {name} a h = elim (if-cases (number == key) h) [
  | inl (e, same) ↦
      subst (λ (row : ℕ × Text). is_row row ≡ true) {x = (key, first)} {y = (number, name)}
        (ground (arith, some-injective same)) a.0
  | inr (e, later) ↦ lookup-row number rest {name = name} a.1 later
]

-- A character of a component is no colon.
component-no_colon : (c : ℕ) → (is_ascii_alphanumeric c || c == b'_') ≡ true → c ≢ b':'
unfolding is_ascii_alphanumeric is_ascii_digit
component-no_colon c h e = ground (arith, h)

valid-no_colon : (name : Text) → valid_tracepoint_component name ≡ true → All (λ c. c ≢ b':') name
unfolding valid_tracepoint_component
valid-no_colon name h =
    All-imp component-no_colon name
      (All-of_all (λ byte. is_ascii_alphanumeric byte || byte == b'_') name (ground arith))

fields-entry :
    (name : Text) (n : ℕ)
    → valid_tracepoint_component name ≡ true
    → syscall_number name ≡ some n
    → linux_fields (text "syscall" ∷ name ∷ text "entry" ∷ [])
      ≡ ok (
        linux_selector EventType.syscall_entry HostProbeKind.syscall
            (text "syscalls")
            name
            (some n),
        EndpointKind.syscall_entry name,
      )
unfolding linux_fields syscall_selector text_eq
fields-entry name n valid number = rw (valid, linux_fields) (rw number refl)

fields-exit :
    (name : Text) (n : ℕ)
    → valid_tracepoint_component name ≡ true
    → syscall_number name ≡ some n
    → linux_fields (text "syscall" ∷ name ∷ text "exit" ∷ [])
      ≡ ok (
        linux_selector EventType.syscall_exit HostProbeKind.syscall (text "syscalls") name (some n),
        EndpointKind.syscall_exit name,
      )
unfolding linux_fields syscall_selector text_eq
fields-exit name n valid number = rw (valid, linux_fields) (rw number refl)

split-hint :
    (name boundary : Text)
    → All (λ c. c ≢ b':') name
    → split b':' (syscall_hint boundary name) ≡ text "syscall" ∷ name ∷ split b':' boundary
unfolding split
split-hint name boundary h =
    ap (λ s. text "syscall" ∷ split b':' s) (append_assoc name (text ":") boundary)
    ∙ ap (λ l. text "syscall" ∷ l) (split-word b':' name boundary h)

-- The hints of a group: selectors of the system call with its number, or none without a name.
pub record Reads (number : ℕ) (entry exit : Option Text) : Type 0 where
  pub entry_hint :
      (hint : Text)
      → entry ≡ some hint
      → (name : Text) × (parse_linux_selector hint
          ≡ ok (
            linux_selector EventType.syscall_entry HostProbeKind.syscall
                (text "syscalls")
                name
                (some number),
            EndpointKind.syscall_entry name,
          ))
  pub exit_hint :
      (hint : Text)
      → exit ≡ some hint
      → (name : Text) × (parse_linux_selector hint
          ≡ ok (
            linux_selector EventType.syscall_exit HostProbeKind.syscall
                (text "syscalls")
                name
                (some number),
            EndpointKind.syscall_exit name,
          ))

row_split :
    (valid : Bool) (number : Option ℕ) (n : ℕ)
    → (valid && is_some_and number (λ m. m == n)) ≡ true
    → (valid ≡ true) × (number ≡ some n)
row_split valid number n h = ground (arith, h)

-- What the tables say of a name.
row_facts :
    (number : ℕ) (name : Text)
    → syscall_name number ≡ some name
    → (valid_tracepoint_component name ≡ true) × (syscall_number name ≡ some number)
unfolding syscall_name
row_facts number name h =
    let row =
      lookup-row number syscall_names {name = name} (All-of_all is_row syscall_names rows) h in
    row_split (valid_tracepoint_component name) (syscall_number name) number row

module _ (f : Float) where
  -- Whenever a system call group has selector hints, the validation parses the entry hint to the
  -- entry and the exit hint to the exit of a system call with the number of the group.
  pub normalize_group-Reads :
      (group : RawSyscallGroup)
      → Reads group.syscall_number
          (normalize_group f group).entry_selector_hint
          (normalize_group f group).exit_selector_hint
  unfolding normalize_group parse_linux_selector split
  normalize_group-Reads group = elim (Option-cases (syscall_name group.syscall_number)) [
    | inl e ↦
        rw (e, normalize_group) (record { entry_hint = λ hint h. cc; exit_hint = λ hint h. cc })
    | inr (name, e) ↦
        let (valid, number) = row_facts group.syscall_number name e in
        let clear = valid-no_colon name valid in
        rw (e, normalize_group)
          (record {
            entry_hint = λ hint h. (
              name,
              ap parse_linux_selector (sym (some-injective h))
                  ∙ ap linux_fields (split-hint name (text "entry") clear)
                  ∙ fields-entry name group.syscall_number valid number,
            );
            exit_hint = λ hint h. (
              name,
              ap parse_linux_selector (sym (some-injective h))
                  ∙ ap linux_fields (split-hint name (text "exit") clear)
                  ∙ fields-exit name group.syscall_number valid number,
            );
          })
  ]
