-- ===== src/Core/Inspect/StartTime.antt =====
-- `parse_start_time` of xprobe/core/src/inspect.rs on a line of `/proc/<pid>/stat`, whose second field
-- is the name of the command in parentheses.
use xprobe.Prelude.{
  ◌==◌, is_empty, ◌&&◌, not, All-of_all, ltb, Bool, true, all, ℕ, ◌≡◌, ◌≢◌, refl, some, List, [],
  ◌∷◌, ◌++◌, arith, get_elem?, All, All-append, All-imp,
}
use xprobe.Rust.Str.{Text, text}
use xprobe.Rust.Words.{u64_mod}
use xprobe.Rust.Fmt.{parse_unsigned}
use xprobe.Rust.Result.{ok}
use xprobe.Rust.Lines.Words.{IsWord, IsGraphic, spaced, split_whitespace-spaced, after_last-append}
use xprobe.Core.Inspect.Fields.{parse_start_time}

-- `pid (command) state ppid ...`
unfoldable pub stat_line : (pid command : Text) → (fields : List Text) → Text
unfolding spaced
stat_line pid command fields = (pid ++ text " (" ++ command) ++ b')' ∷ spaced fields

-- A printable ASCII character that is neither white space nor a closing parenthesis.
abbrev is_field_char : ℕ → Bool
is_field_char c = ltb 32 c && ltb c 128 && not (c == b')')

abbrev pub is_field : Text → Bool
is_field word = not (is_empty word) && all is_field_char word

record IsField (word : Text) : Type 0 where
  is_word : IsWord word
  open_end : All (λ c. c ≢ b')') word

is_field-IsField : (word : Text) → is_field word ≡ true → IsField word
is_field-IsField word h =
    let chars = All-of_all is_field_char word (ground arith) in
    record {
      is_word = record {
        filled = ground arith;
        graphic =
            All-imp {Q = IsGraphic}
              (λ c (k : is_field_char c ≡ true). record {
                ascii = ground arith;
                visible = ground arith;
              })
              word chars;
      };
      open_end =
          All-imp {Q = λ c. c ≢ b')'}
            (λ c (k : is_field_char c ≡ true) (e : c ≡ b')'). ground arith) word chars;
    }

spaced-no_paren : (fields : List Text) → All IsField fields → All (λ c. c ≢ b')') (spaced fields)
unfolding spaced
spaced-no_paren [] h = ((λ e. ground arith), tt)
spaced-no_paren (f ∷ fields) h = (
  (λ e. ground arith),
  All-append (λ c. c ≢ b')') f (spaced fields) h.0.open_end (spaced-no_paren fields h.1),
)

-- From a stat line with any command, whatever parentheses and spaces it holds, whose following
-- fields are words of printable ASCII that are not empty and hold no closing parenthesis,
-- `parse_start_time` reads the twentieth field after the command, if that is a u64 value.
pub parse_start_time-field :
    (D : Type 0) (pid command path : Text) (fields : List Text) (value : Text) (n : ℕ)
    → all is_field fields ≡ true
    → get_elem? fields 19 ≡ some value
    → parse_unsigned u64_mod value ≡ some n
    → parse_start_time {D = D} (stat_line pid command fields) path ≡ ok n
unfolding parse_start_time stat_line
parse_start_time-field D pid command path fields value n all at reads =
    let h = All-imp is_field-IsField fields (All-of_all is_field fields all) in
    rw
      (after_last-append b')' (pid ++ text " (" ++ command) (spaced fields)
        (spaced-no_paren fields h))
      (rw (split_whitespace-spaced fields (All-imp (λ w (k : IsField w). k.is_word) fields h))
        (rw at (rw reads refl)))
