-- ===== src/Cli/Hints/Examples.antt =====
-- The hints of xprobe/cli/src/main.rs for a kernel whose name has characters of expressions.
use xprobe.Prelude.{◌≡◌, refl, sym, ap, true, Option, none, some, [], ◌++◌, unwrap_or}
use xprobe.Rust.Str.{Text, text}
use xprobe.Rust.Result.{ok}
use xprobe.Correlator.Selector.{parse}
use xprobe.Correlator.Regex.{regex_literal}
use xprobe.Cli.Hints.{
  Activity, Group, kernel_pattern, escape_selector_regex, aggregate_selector_hints,
}
use xprobe.Cli.Hints.Parsing.{
  hinted, aggregate_selector_hints-parse, regex_literal-escape_selector_regex,
}

-- `void f<int*>::g(float)`
abbrev name : Text
name = text "f<int*>::g(float)"

abbrev pattern : Text
pattern = text "^f<int\\*>::g\\(float\\)$"

abbrev group : Group
group = record {
  activity = Activity.kernel;
  name = some name;
  name_complete = some true;
  memcpy_kind = none;
}

escaped : kernel_pattern name (some true) ≡ pattern
unfolding kernel_pattern
escaped = refl

abbrev hints : Text × Text
hints = (text "cuda:kernel_start:name~" ++ pattern, text "cuda:kernel_end:name~" ++ pattern)

hints_found : aggregate_selector_hints group ≡ some hints
unfolding aggregate_selector_hints
hints_found = refl

compiles :
    (n : Text) → group.name ≡ some n → some (kernel_pattern n group.name_complete) ≡ some pattern
unfolding kernel_pattern
compiles n h = ap (λ (o : Option Text). some (kernel_pattern (unwrap_or o []) (some true))) (sym h)

aggregate_selector_hints-parse_example :
    (parse some hints.0 ≡ ok (hinted pattern group).0)
    × (parse some hints.1 ≡ ok (hinted pattern group).1)
aggregate_selector_hints-parse_example =
    aggregate_selector_hints-parse some pattern group hints compiles hints_found

regex_literal-escape_selector_regex_example : regex_literal (escape_selector_regex name) ≡ some name
regex_literal-escape_selector_regex_example = regex_literal-escape_selector_regex name
