-- ===== src/Core/Usdt/Termination.antt =====
-- The loops of xprobe/core/src/usdt.rs come to an end.
use xprobe.Prelude.{
  ◌&&◌, ℕ, zero, suc, ◌+◌, ◌*◌, ◌/◌, ◌≤◌, ◌≡◌, refl, ap, subst, Bool, inl, inr, Option, none, some,
  List, [], ◌∷◌, arith, ltb, length, Bool-cases, Option-cases,
}
use xprobe.Rust.Str.{Text, text}
use xprobe.Rust.Words.{checked_add, add_u64}
use xprobe.Rust.BTreeMap.{BTreeMap}
use xprobe.Rust.Io.{FileSystem}
use xprobe.Rust.Result.{
  Result, ok, err, ok_or, ◌>>=◌, >>=-ok, ok_or-ok, ok-injective, Result-cases, map_err,
}
use xprobe.Protocol.Process.{ProcessReport}
use xprobe.Core.CpuAnalysis.Symbols.{Components}
use xprobe.Core.Usdt.{
  UsdtError, NoteFile, stap_probe_names, first_python, find_python_gc_probes, add_path,
  add_libraries, has_probe,
}
use xprobe.Core.Usdt.Notes.{
  Names, Note, slice, read_u32, align_four, read_note, add_note, notes_loop, parse_stapsdt_notes,
}

checked_add-sum : (a b : ℕ) {c : ℕ} → checked_add a b ≡ some c → a + b ≡ c
unfolding checked_add
checked_add-sum a b {c} h = ground arith

align_four-le : (value : ℕ) {w : ℕ} → align_four value ≡ ok w → value ≤ w
unfolding align_four
align_four-le value {w} h =
    let (raised, is, h1) =
      >>=-ok (ok_or (checked_add value 3) (text "note alignment overflowed")) _ h in
    let sum =
      checked_add-sum value 3
        (ok_or-ok (checked_add value 3) (text "note alignment overflowed") is) in
    let w_is = ok-injective h1 in omega arith

grows :
    (offset name_start namesz name_end desc_start descsz desc_end next : ℕ)
    → offset + 12 ≡ name_start
    → name_start + namesz ≡ name_end
    → name_end ≤ desc_start
    → desc_start + descsz ≡ desc_end
    → desc_end ≤ next
    → offset + 12 ≤ next
grows offset name_start namesz name_end desc_start descsz desc_end next a b c d e = omega arith

-- The next note starts after the header of this one.
read_note-next :
    (data' : List ℕ) (offset : ℕ) (little_endian : Bool) {note : Note}
    → read_note data' offset little_endian ≡ ok note
    → offset + 12 ≤ note.next
unfolding read_note
read_note-next data' offset little_endian {note} h =
    let (namesz, _, h1) = >>=-ok (read_u32 data' offset little_endian) _ h in
    let (descsz, _, h2) = >>=-ok (read_u32 data' (add_u64 offset 4) little_endian) _ h1 in
    let (name_start, e3, h3) =
      >>=-ok (ok_or (checked_add offset 12) (text "note header offset overflowed")) _ h2 in
    let (name_end, e4, h4) =
      >>=-ok (ok_or (checked_add name_start namesz) (text "note owner length overflowed")) _ h3 in
    let (owner, _, h5) =
      >>=-ok (ok_or (slice data' name_start name_end) (text "note owner exceeds section bounds")) _
        h4 in
    let (desc_start, e6, h6) = >>=-ok (align_four name_end) _ h5 in
    let (desc_end, e7, h7) =
      >>=-ok (ok_or (checked_add desc_start descsz) (text "note descriptor length overflowed")) _
        h6 in
    let (descriptor, _, h8) =
      >>=-ok
        (ok_or (slice data' desc_start desc_end) (text "note descriptor exceeds section bounds")) _
        h7 in
    let (next, e9, h9) = >>=-ok (align_four desc_end) _ h8 in
    let same : next ≡ note.next = ap (λ (n : Note). n.next) (ok-injective h9) in
    subst (λ n. offset + 12 ≤ n) same
      (grows offset name_start namesz name_end desc_start descsz desc_end next
        (checked_add-sum offset 12
          (ok_or-ok (checked_add offset 12) (text "note header offset overflowed") e3))
        (checked_add-sum name_start namesz
          (ok_or-ok (checked_add name_start namesz) (text "note owner length overflowed") e4))
        (align_four-le name_end e6)
        (checked_add-sum desc_start descsz
          (ok_or-ok (checked_add desc_start descsz) (text "note descriptor length overflowed") e7))
        (align_four-le desc_end e9))

further :
    (size offset fuel next : ℕ)
    → size ≤ offset + 12 * suc fuel
    → offset + 12 ≤ next
    → size ≤ next + 12 * fuel
further size offset fuel next a b = omega arith

-- `some` result.
abbrev pub Returns {ℓ} : {A : Type ℓ} → Option A → Type ℓ
Returns {A = A} r = (a : A) × (r ≡ some a)

module _ (utf8_error : List ℕ → Text) where
  notes_loop-Returns :
      (fuel : ℕ) (data' : List ℕ) (offset : ℕ) (little_endian is_64 : Bool) (probes : Names)
      → length data' ≤ offset + 12 * fuel
      → Returns (notes_loop utf8_error (suc fuel) data' offset little_endian is_64 probes)
  unfolding notes_loop
  notes_loop-Returns zero data' offset little_endian is_64 probes h =
      elim (Bool-cases (ltb offset (length data'))) [
        | inr e ↦ rw e (ok probes, refl)
        | inl e ↦ absurd (ground arith)
      ]
  notes_loop-Returns (suc fuel) data' offset little_endian is_64 probes h =
      elim (Bool-cases (ltb offset (length data'))) [
        | inr e ↦ rw e (ok probes, refl)
        | inl e ↦ rw e (elim (Result-cases (read_note data' offset little_endian)) [
          | inr (error, f) ↦ rw f (err error, refl)
          | inl (note, f) ↦ rw f (elim (Result-cases (add_note utf8_error note is_64 probes)) [
            | inr (error, g) ↦ rw g (err error, refl)
            | inl (found, g) ↦
                let step = read_note-next data' offset little_endian f in
                rw g (
                  notes_loop-Returns fuel data' note.next little_endian is_64 found
                    (further (length data') offset fuel note.next h step))
          ])
        ])
      ]

  parse_stapsdt_notes-Returns :
      (data' : List ℕ) (little_endian is_64 : Bool)
      → Returns (parse_stapsdt_notes utf8_error data' little_endian is_64)
  unfolding parse_stapsdt_notes
  parse_stapsdt_notes-Returns data' little_endian is_64 =
      let enough =
        notes_loop-Returns (length data' / 12 + 1) data' 0 little_endian is_64 [] (omega arith) in
      subst (λ n. Returns (notes_loop utf8_error n data' 0 little_endian is_64 []))
        {x = suc (length data' / 12 + 1)} (omega arith) enough

module _ (parse_object : List ℕ → Result NoteFile Text) (utf8_error : List ℕ → Text) where
  stap_probe_names-Returns :
      (fs : FileSystem) (path : Text) → Returns (stap_probe_names parse_object utf8_error fs path)
  unfolding stap_probe_names
  stap_probe_names-Returns fs path =
      elim (Result-cases (
        map_err (UsdtError.read path) (fs.read path) >>= λ bytes.
        map_err (UsdtError.parse_object path) (parse_object bytes))) [
          | inr (error, e) ↦ rw (e, stap_probe_names) (err error, refl)
          | inl (file, e) ↦
              rw (e, stap_probe_names)
                (elim (Option-cases file.section) [
                  | inl f ↦ rw f (ok [], refl)
                  | inr (section, f) ↦ rw f (elim (Result-cases section) [
                    | inr (message, g) ↦ rw g (err (UsdtError.read_section path message), refl)
                    | inl (data', g) ↦
                        let (names, returns) =
                          parse_stapsdt_notes-Returns utf8_error data' file.little_endian
                            file.is_64 in
                        rw g (rw returns (map_err (UsdtError.malformed_note path) names, refl))
                  ])
                ])
        ]

  first_python-Returns :
      (fs : FileSystem) (paths : BTreeMap Components Text)
      → Returns (first_python parse_object utf8_error fs paths)
  unfolding first_python
  first_python-Returns fs [] = (ok none, refl)
  first_python-Returns fs ((key, path) ∷ rest) =
      let (read, returns) = stap_probe_names-Returns fs path in
      rw returns (elim (Result-cases read) [
        | inr (error, e) ↦ rw e (err error, refl)
        | inl (names, e) ↦
            rw e
              (elim (Bool-cases
                (has_probe names (text "gc__start") && has_probe names (text "gc__done"))) [
                  | inl f ↦ rw f (ok (some path), refl)
                  | inr f ↦ rw f (first_python-Returns fs rest)
                ])
      ])

  -- Whatever bytes the files and their note sections hold, the search for the probes of Python
  -- comes to an end with a result: its fuel is enough for the loop over the notes, each of which
  -- advances the offset by its header at least.
  pub find_python_gc_probes-Returns :
      (fs : FileSystem) (report : ProcessReport)
      → Returns (find_python_gc_probes parse_object utf8_error fs report)
  unfolding find_python_gc_probes
  find_python_gc_probes-Returns fs report =
      first_python-Returns fs
        (add_libraries report.loaded_libraries (add_path report.executable []))
