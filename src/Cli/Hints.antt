-- ===== src/Cli/Hints.antt =====
-- The selector hints of an aggregate inventory: `escape_selector_regex` and `aggregate_selector_hints`
-- of xprobe/cli/src/main.rs.
pub mod Parsing
pub mod Examples
use xprobe.Prelude.{
  ℕ, zero, suc, ◌+◌, ◌-◌, ◌*◌, ◌/◌, ◌%◌, ◌^◌, ◌≤◌, ◌<◌, min, max, ◌≡◌, refl, sym, ap, ◌∙◌, subst,
  ◌≢◌, ◌↔◌, ◌⊎◌, inl, inr, Bool, true, false, not, ◌&&◌, ◌||◌, Option, none, some, List, [], ◌∷◌,
  ◌++◌, map, arith, ltb, leb, ◌==◌, if◌then◌else◌, ltb→lt, leb→le, Bool-cases, Option-cases,
  is_some, is_some_and, is_none_or, unwrap_or, decided, of_decided, and_then, length, get_elem?,
  take, drop, select, any, all, is_empty, count, length-append, count-append, length-take,
  List-cases, length-map, All, All-append, All-take, All-select, All-imp, All-of_forall, All-both,
  Ordered, All-get_elem?, All-select_test, get_elem?-some, length-select-le,
}
use xprobe.Rust.Str.{Text, text}
use xprobe.Protocol.Event.{MemcpyKind}

-- `"\\.^$|?*+()[]{}".contains(character)`.
unfoldable pub needs_escape : ℕ → Bool
needs_escape c = any (λ d. d == c) (text "\\.^$|?*+()[]{}")

unfoldable pub escape_selector_regex : Text → Text
unfolding needs_escape
escape_selector_regex [] = []
escape_selector_regex (c ∷ name) =
    let rest = escape_selector_regex name in if needs_escape c then b'\\' ∷ c ∷ rest else c ∷ rest

pub data Activity : Type 0 where
  kernel memcpy memset : Activity

-- The fields of `CuptiAggregateGroup` that the hints are made from.
pub record Group : Type 0 where
  pub activity : Activity
  pub name : Option Text
  pub name_complete : Option Bool
  pub memcpy_kind : Option MemcpyKind

abbrev pub kind_hint : MemcpyKind → Option Text
kind_hint MemcpyKind.host_to_device = some (text "HtoD")
kind_hint MemcpyKind.device_to_host = some (text "DtoH")
kind_hint MemcpyKind.device_to_device = some (text "DtoD")
kind_hint MemcpyKind.host_to_host = some (text "HtoH")
kind_hint MemcpyKind.peer_to_peer = some (text "PtoP")
kind_hint MemcpyKind.unknown = none

-- `group.name_complete == Some(true)`.
abbrev pub hint_suffix : Option Bool → Text
hint_suffix (some true) = text "$"
hint_suffix _ = []

abbrev pub kernel_pattern : Text → Option Bool → Text
unfolding escape_selector_regex
kernel_pattern name name_complete =
    text "^" ++ escape_selector_regex name ++ hint_suffix name_complete

-- `none` is a panic: a kernel group without a name.
unfoldable pub aggregate_selector_hints : Group → Option (Text × Text)
unfolding escape_selector_regex kernel_pattern
aggregate_selector_hints group = elim group.activity [
  | Activity.kernel ↦ and_then group.name λ name.
      let pattern = kernel_pattern name group.name_complete in
      some (text "cuda:kernel_start:name~" ++ pattern, text "cuda:kernel_end:name~" ++ pattern)
  | Activity.memcpy ↦ elim (and_then group.memcpy_kind kind_hint) [
    | some kind ↦
        some (text "cuda:memcpy_start:kind=" ++ kind, text "cuda:memcpy_end:kind=" ++ kind)
    | none ↦ some (text "cuda:memcpy_start", text "cuda:memcpy_end")
  ]
  | Activity.memset ↦ some (text "cuda:memset_start", text "cuda:memset_end")
]
