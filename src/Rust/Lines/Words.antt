-- ===== src/Rust/Lines/Words.antt =====
-- `split_whitespace` on words of ASCII characters between white space, and the last occurrence of a
-- byte.
use xprobe.Prelude.{
  inl, ◌⊎◌, inr, ℕ, ◌<◌, ◌≡◌, ◌≢◌, refl, ap, ◌∙◌, false, not, none, some, List, [], ◌∷◌, ◌++◌,
  arith, select, is_empty, All,
}
use xprobe.Rust.Str.{Text, onto_first}
use xprobe.Rust.Lines.{white_len, split_white, split_whitespace, after_last}

-- An ASCII character that is no white space.
pub record IsGraphic (c : ℕ) : Type 0 where
  pub ascii : c < 128
  pub visible : 32 < c

-- A word: at least one character, none of them white space.
pub record IsWord (word : Text) : Type 0 where
  pub filled : is_empty word ≡ false
  pub graphic : All IsGraphic word

white_len-graphic : (c : ℕ) (s : Text) → IsGraphic c → white_len (c ∷ s) ≡ 0
unfolding white_len
white_len-graphic c [] g = ground (arith, g.ascii, g.visible)
white_len-graphic c (d ∷ []) g = ground (arith, g.ascii, g.visible)
white_len-graphic c (d ∷ e ∷ s) g = ground (arith, g.ascii, g.visible)

-- The space and the line feed.
abbrev pub IsBreak : ℕ → Type 0
IsBreak w = (w ≡ 32) ⊎ (w ≡ 10)

white_len-break : (w : ℕ) (s : Text) → IsBreak w → white_len (w ∷ s) ≡ 1
unfolding white_len
white_len-break w [] h = ground arith
white_len-break w (d ∷ []) h = ground arith
white_len-break w (d ∷ e ∷ s) h = ground arith

-- Up to a break, the characters of a word make one piece.
split_white-word :
    (word : Text) (w : ℕ) (rest : Text)
    → All IsGraphic word
    → IsBreak w
    → split_white 0 (word ++ w ∷ rest) ≡ word ∷ split_white 0 rest
unfolding split_white
split_white-word [] w rest g h = rw (white_len-break w rest h, split_white) refl
split_white-word (c ∷ word) w rest g h =
    rw (white_len-graphic c (word ++ w ∷ rest) g.0, split_white)
      (ap (onto_first c) (split_white-word word w rest g.1 h))

-- Words with a space before each, and a line feed after them.
unfoldable pub spaced : List Text → Text
spaced [] = 10 ∷ []
spaced (word ∷ words) = 32 ∷ word ++ spaced words

-- `filter(|piece| !piece.is_empty())`.
abbrev non_empty : List Text → List Text
non_empty pieces = select (λ piece. not (is_empty piece)) pieces

non_empty-cons :
    (word : Text) (rest : List Text)
    → is_empty word ≡ false
    → non_empty (word ∷ rest) ≡ word ∷ non_empty rest
non_empty-cons word rest h = rw h refl

-- What is left of `spaced` after its first break.
record Broken (words : List Text) : Type 0 where
  at : ℕ
  rest : Text
  is_break : IsBreak at
  text_is : spaced words ≡ at ∷ rest
  pieces : non_empty (split_white 0 rest) ≡ words

spaced-Broken : (words : List Text) → All IsWord words → Broken words
unfolding spaced split_white
spaced-Broken [] h = record {
  at = 10;
  rest = [];
  is_break = inr refl;
  text_is = refl;
  pieces = refl;
}
spaced-Broken (word ∷ words) h =
    let more = spaced-Broken words h.1 in
    record {
      at = 32;
      rest = word ++ spaced words;
      is_break = inl refl;
      text_is = refl;
      pieces =
          ap (λ t. non_empty (split_white 0 (word ++ t))) more.text_is
          ∙ ap non_empty (split_white-word word more.at more.rest h.0.graphic more.is_break)
          ∙ non_empty-cons word (split_white 0 more.rest) h.0.filled
          ∙ ap (◌∷◌ word) more.pieces;
    }

-- `split_whitespace` finds the words.
pub split_whitespace-spaced :
    (words : List Text) → All IsWord words → split_whitespace (spaced words) ≡ words
unfolding split_whitespace split_white
split_whitespace-spaced words h =
    let b = spaced-Broken words h in
    ap (λ t. non_empty (split_white 0 t)) b.text_is
    ∙ ap non_empty (split_white-word [] b.at b.rest tt b.is_break)
    ∙ b.pieces

after_last-none : (sep : ℕ) (s : Text) → All (λ c. c ≢ sep) s → after_last sep s ≡ none
unfolding after_last
after_last-none sep [] h = refl
after_last-none sep (c ∷ s) h = rw (after_last-none sep s h.1) (ground (arith, h.0))

-- The last occurrence, whatever stands before it.
pub after_last-append :
    (sep : ℕ) (p s : Text) → All (λ c. c ≢ sep) s → after_last sep (p ++ sep ∷ s) ≡ some s
unfolding after_last
after_last-append sep [] s h = rw (after_last-none sep s h) (ground arith)
after_last-append sep (c ∷ p) s h = rw (after_last-append sep p s h) refl
