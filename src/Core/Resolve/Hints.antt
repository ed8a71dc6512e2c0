-- ===== src/Core/Resolve/Hints.antt =====
-- The probes that xprobe/core/src/cpu_sampling_analysis.rs suggests, read by `parse_selector` of
-- xprobe/core/src/resolve.rs.
use xprobe.Prelude.{
  ℕ, zero, suc, ◌/◌, ◌%◌, ◌<◌, ◌≡◌, ◌≢◌, refl, ap, ◌∙◌, false, none, some, [], ◌∷◌, ◌++◌, arith,
  ltb, inl, inr, is_empty, All, Bool-cases, append_assoc,
}
use xprobe.Rust.Str.{Text, text, text_eq, strip_prefix, split_once, rsplit_once}
use xprobe.Rust.Words.{u64_mod}
use xprobe.Rust.Fmt.{lower_hex, hex_at, hex_char, from_str_radix_16-lower_hex}
use xprobe.Rust.Result.{ok}
use xprobe.Core.CpuAnalysis.Hotspots.{probe_at}
use xprobe.Core.Resolve.Probe.{
  Boundary, ProbeTarget, parse_selector, parse_boundary, split_binary, parse_target,
}

abbrev pub NoColon : Text → Type 0
NoColon s = All (λ c. c ≢ b':') s

hex_char-NoColon : (d : ℕ) → d < 16 → hex_char d ≢ b':'
unfolding hex_char
hex_char-NoColon d h e = ground arith

hex_at-NoColon : (fuel n : ℕ) (rest : Text) → NoColon rest → NoColon (hex_at fuel n rest)
unfolding hex_at
hex_at-NoColon zero n rest h = h
hex_at-NoColon (suc fuel) n rest h =
    let here = hex_char-NoColon (n % 16) (omega arith) in
    elim (Bool-cases (ltb n 16)) [
      | inl e ↦ rw e (here, h)
      | inr e ↦ rw e (hex_at-NoColon fuel (n / 16) (hex_char (n % 16) ∷ rest) (here, h))
    ]

rsplit_once-none : (sep : ℕ) (s : Text) → All (λ c. c ≢ sep) s → rsplit_once sep s ≡ none
unfolding rsplit_once
rsplit_once-none sep [] h = refl
rsplit_once-none sep (c ∷ s) h = rw (rsplit_once-none sep s h.1) (ground (arith, h.0))

-- The last occurrence, whatever stands before it.
rsplit_once-append :
    (sep : ℕ) (p s : Text) → All (λ c. c ≢ sep) s → rsplit_once sep (p ++ sep ∷ s) ≡ some (p, s)
unfolding rsplit_once
rsplit_once-append sep [] s h = rw (rsplit_once-none sep s h) (ground arith)
rsplit_once-append sep (c ∷ p) s h = rw (rsplit_once-append sep p s h) refl

-- A text without a colon holds no `:symbol=`, also before a hexadecimal offset.
no_symbol : (c : ℕ) (s : Text) → c ≢ b':' → strip_prefix (text ":symbol=") (c ∷ s) ≡ none
unfolding strip_prefix
no_symbol c s h = ground (arith, h)

split_once-clear : (s : Text) → NoColon s → split_once (text ":symbol=") s ≡ none
unfolding split_once strip_prefix
split_once-clear [] h = refl
split_once-clear (c ∷ s) h = rw (no_symbol c s h.0, split_once) (rw (split_once-clear s h.1) refl)

split_once-offset :
    (path hex : Text)
    → NoColon path
    → NoColon hex
    → split_once (text ":symbol=") (path ++ text ":+0x" ++ hex) ≡ none
unfolding split_once strip_prefix
split_once-offset [] hex h k = rw (split_once-clear hex k) refl
split_once-offset (c ∷ path) hex h k =
    rw (no_symbol c (path ++ text ":+0x" ++ hex) h.0, split_once)
      (rw (split_once-offset path hex h.1 k) refl)

abbrev pub boundary_text : Boundary → Text
boundary_text Boundary.entry = text "entry"
boundary_text Boundary.return = text "return"

boundary-NoColon : (boundary : Boundary) → NoColon (boundary_text boundary)
boundary-NoColon Boundary.entry = ground arith
boundary-NoColon Boundary.return = ground arith

module _ (D : Type 0) where
  parse_boundary-text :
      (boundary : Boundary) → parse_boundary {D = D} (boundary_text boundary) ≡ ok boundary
  unfolding parse_boundary text_eq
  parse_boundary-text Boundary.entry = refl
  parse_boundary-text Boundary.return = refl

  split_binary-offset :
      (path hex : Text)
      → NoColon path
      → NoColon hex
      → split_binary {D = D} (path ++ text ":+0x" ++ hex) ≡ ok (path, text "+0x" ++ hex)
  unfolding split_binary
  split_binary-offset path hex h k =
      rw (split_once-offset path hex h k, split_binary)
        (rw
          (ap (rsplit_once b':') (append_assoc path (text ":+0x") hex)
            ∙ rsplit_once-append b':' path (text "+0x" ++ hex)
                ((λ e. ground arith), ((λ e. ground arith), ((λ e. ground arith), k))))
          refl)

  parse_target-offset :
      (n : ℕ)
      → n < u64_mod
      → parse_target {D = D} (text "+0x" ++ lower_hex n) ≡ ok (ProbeTarget.file_offset n)
  unfolding parse_target strip_prefix
  parse_target-offset n h = rw (from_str_radix_16-lower_hex n h) refl

  -- For a path that is not empty and has no colon and an offset that is a u64 value, the
  -- resolution parses the probe that a hotspot suggests back to that path, offset and boundary.
  pub parse_selector-probe_at :
      (path : Text) (n : ℕ) (boundary : Boundary)
      → is_empty path ≡ false
      → NoColon path
      → n < u64_mod
      → parse_selector {D = D} (probe_at path n (boundary_text boundary))
        ≡ ok (record { binary = path; target = ProbeTarget.file_offset n; boundary = boundary })
  unfolding parse_selector probe_at strip_prefix lower_hex
  parse_selector-probe_at path n boundary filled clear h =
      let hex = lower_hex n in
      let word = boundary_text boundary in
      let front = path ++ text ":+0x" ++ hex in
      rw
        (
          ap (rsplit_once b':') (append_assoc front (text ":") word)
              ∙ rsplit_once-append b':' front word (boundary-NoColon boundary),
          parse_selector,
        )
        (rw (parse_boundary-text boundary) (
          rw (split_binary-offset path hex clear (hex_at-NoColon 16 n [] tt))
            (rw filled (rw (parse_target-offset n h) refl))))
