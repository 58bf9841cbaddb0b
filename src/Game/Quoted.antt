-- ===== src/Game/Quoted.antt =====
-- Utils::readQuotedString of common/Utilities.h.
use sfrpg.Base.{
  ℕ, zero, suc, ◌≡◌, refl, Bool, true, false, ◌==◌, if◌then◌else◌, Option, none, some, [], ◌∷◌,
  ◌++◌, Text, codes, length,
}
use sfrpg.Game.Stream.{Stream, stream_of, read_word}

abbrev ends_quoted : Text → Bool
ends_quoted [] = false
ends_quoted (c ∷ []) = c == b'"'
ends_quoted (c ∷ d ∷ t) = ends_quoted (d ∷ t)

-- The loop of Utils::readQuotedString: words are added until the text ends in a quote or the stream is
-- at its end. Each round takes a character at least, but for the last.
unfoldable pub read_quoted_words : (rounds : ℕ) → Text → Stream → Text × Stream
unfolding read_word
read_quoted_words zero l_string s = (l_string, s)
read_quoted_words (suc rounds) l_string s =
    let (str, after) = read_word [] s in
    let more = read_quoted_words rounds (l_string ++ str ++ 32 ∷ []) after in
    if ends_quoted l_string
    then (l_string, s)
    else elim s.rest [ [] ↦ (l_string, s) | c ∷ t ↦ more ]

-- `erase` of the quotes.
unfoldable pub without_quotes : Text → Text
without_quotes [] = []
without_quotes (c ∷ t) = let more = without_quotes t in if c == b'"' then more else c ∷ more

-- Utils::readQuotedString into an empty string; `none` is the exception std::out_of_range.
unfoldable pub read_quoted_string : Stream → Option (Text × Stream)
unfolding read_word read_quoted_words without_quotes
read_quoted_string s =
    let (word, after) = read_word [] s in
    let whole = read_quoted_words (suc (length after.rest)) word after in
    elim word [
      | [] ↦ none
      | c ∷ t ↦
          if c == b'"'
          then some (without_quotes whole.0, whole.1)
          else some (without_quotes (c ∷ t), after)
    ]

-- After the first added word the text ends in a space, so that the loop runs to the end of the stream.
quoted_example :
    read_quoted_string (stream_of (codes "\"a b\" c d"))
    ≡ some (codes "ab c d ", record { rest = []; good = true })
unfolding read_quoted_string
quoted_example = refl
