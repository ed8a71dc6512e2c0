-- ===== src/Core/Resolve/Symbols.antt =====
-- The target of a probe in an ELF file: `resolve_probe_target` and `resolve_symbol` of
-- xprobe/core/src/resolve.rs. `demangle` stands for the `cpp_demangle` crate.
use xprobe.Prelude.{
  ℕ, max, Bool, true, false, not, ◌||◌, if◌then◌else◌, Option, none, some, List, [], ◌∷◌, ◌++◌,
  is_some, is_some_and,
}
use xprobe.Rust.Str.{Text, text_eq}
use xprobe.Rust.Ord.{nat_ord}
use xprobe.Rust.BTreeMap.{BTreeMap, get, insert}
use xprobe.Rust.Result.{Result, ok, err, ◌>>=◌, ◌>>◌, ok_or, fail_if}
use xprobe.Core.Object.{
  ObjectFile, ObjectSymbol, demangle_cpp, virtual_address_to_file_offset,
  file_offset_to_virtual_address,
}
use xprobe.Core.Resolve.Probe.{ResolveError, ProbeTarget}

pub record ResolvedSymbol : Type 0 where
  pub mangled : Text
  pub demangled : Option Text
  pub address : ℕ
  pub size : ℕ

abbrev pub Matches : Type 0
Matches = BTreeMap ℕ ResolvedSymbol

-- `entry(address).and_modify(...).or_insert_with(...)`.
unfoldable add_match : ResolvedSymbol → Matches → Matches
unfolding get insert
add_match symbol matches = elim (get symbol.address matches) [
  | some resolved ↦
      insert symbol.address (record resolved { size = max resolved.size symbol.size }) matches
  | none ↦ insert symbol.address symbol matches
]

module _ (demangle : Text → Option Text) where
  -- The match of a symbol: `none` for those that `continue` passes over.
  unfoldable symbol_match :
      (name : Text) → (match_demangled : Bool) → ObjectSymbol → Option ResolvedSymbol
  unfolding demangle_cpp text_eq
  symbol_match name match_demangled symbol =
      if not symbol.is_definition || not symbol.is_text then none else elim symbol.name [
        | none ↦ none
        | some mangled ↦
            let demangled = demangle_cpp demangle mangled in
            let is_match =
              if match_demangled
              then is_some_and demangled (λ d. text_eq d name)
              else text_eq mangled name in
            if is_match
            then some (record {
              mangled = mangled;
              demangled = demangled;
              address = symbol.address;
              size = symbol.size;
            })
            else none
      ]

  unfoldable collect_symbol_matches :
      List ObjectSymbol → (name : Text) → (match_demangled : Bool) → Matches → Matches
  unfolding symbol_match add_match
  collect_symbol_matches [] name match_demangled matches = matches
  collect_symbol_matches (symbol ∷ rest) name match_demangled matches =
      elim (symbol_match name match_demangled symbol) [
        | none ↦ collect_symbol_matches rest name match_demangled matches
        | some found ↦ collect_symbol_matches rest name match_demangled (add_match found matches)
      ]

module _ {D : Type 0} where
  unfoldable select_symbol_match :
      Matches → (name path : Text) → Result (Option ResolvedSymbol) (ResolveError D)
  select_symbol_match [] name path = ok none
  select_symbol_match ((address, symbol) ∷ []) name path = ok (some symbol)
  select_symbol_match (first ∷ second ∷ rest) name path =
      err (ResolveError.ambiguous_symbol name path)

module _ {D : Type 0} (demangle : Text → Option Text) where
  -- One attempt: the only match, or `otherwise` without one.
  abbrev attempt :
      List ObjectSymbol
      → (name path : Text) → (match_demangled : Bool)
      → (otherwise : Result ResolvedSymbol (ResolveError D))
      → Result ResolvedSymbol (ResolveError D)
  unfolding collect_symbol_matches select_symbol_match
  attempt symbols name path match_demangled otherwise =
      select_symbol_match (collect_symbol_matches demangle symbols name match_demangled []) name
        path
      >>= λ found. elim found [ some symbol ↦ ok symbol | none ↦ otherwise ]

  unfoldable resolve_symbol :
      ObjectFile → (name path : Text) → Result ResolvedSymbol (ResolveError D)
  unfolding attempt
  resolve_symbol file name path = attempt (file.dynamic_symbols ++ file.symbols) name path false (
      attempt file.dynamic_symbols name path true
        (attempt file.symbols name path true (err (ResolveError.symbol_not_found name path))))

  unfoldable pub resolve_probe_target :
      ObjectFile → ProbeTarget → (path : Text) → Result (Option ResolvedSymbol × ℕ) (ResolveError D)
  unfolding resolve_symbol virtual_address_to_file_offset file_offset_to_virtual_address
  resolve_probe_target file (ProbeTarget.symbol name) path = do
    resolved ← resolve_symbol file name path
    offset ←
        ok_or (virtual_address_to_file_offset file.segments resolved.address)
          (ResolveError.offset_not_loadable resolved.address path)
    ok (some resolved, offset)
  resolve_probe_target file (ProbeTarget.file_offset offset) path = do
    fail_if (not (is_some (file_offset_to_virtual_address file.segments offset)))
        (ResolveError.offset_not_loadable offset path)
    ok (none, offset)
