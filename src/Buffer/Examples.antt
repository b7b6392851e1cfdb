-- ===== src/Buffer/Examples.antt =====
-- The theorems on lines of text at concrete buffers, and runs of the code.
use denora.Prelude.{◌≡◌, ◌++◌, refl, some, [], ◌∷◌, CString, List, is_digit, codes, arith}
use denora.Tokens.Fields.{join}
use denora.Buffer.{is_dropped, split_buf, do_clean_buffer, normalize_buffer}
use denora.Buffer.Splitting.{split_buf_total, split_buf-line, line, AllWords}
use denora.Buffer.Cleaning.{words, do_clean_buffer-words}
use denora.Buffer.Stripping.{normalized, normalize_buffer-color}

mode_line :
    split_buf (codes "MODE #c +o  nick :a b")
    ≡ some (codes "MODE" ∷ codes "#c" ∷ codes "+o" ∷ codes "nick" ∷ codes "a b" ∷ [])
unfolding split_buf
mode_line = refl

cleaned : do_clean_buffer (codes "  a   bc d ") ≡ codes "a bc d"
unfolding do_clean_buffer
cleaned = refl

stripped :
    normalize_buffer (2 ∷ 3 ∷ codes "4,12red" ++ 15 ∷ 31 ∷ []) ≡ some (codes "red" ++ 15 ∷ [])
unfolding normalize_buffer
stripped = refl

abbrev middle : List CString
middle = codes "MODE" ∷ codes "#c" ∷ []

middle-AllWords : AllWords middle
middle-AllWords = omega arith

split_buf-line_example : split_buf (line middle (codes ":a b")) ≡ some (middle ++ codes ":a b" ∷ [])
split_buf-line_example = split_buf-line middle (codes ":a b") middle-AllWords

split_buf_total_example : (args : List CString) × (split_buf (codes "a  b") ≡ some args)
split_buf_total_example = split_buf_total (codes "a  b")

do_clean_buffer-words_example : do_clean_buffer (codes " a  b ") ≡ join 32 (words (codes " a  b "))
do_clean_buffer-words_example = do_clean_buffer-words (codes " a  b ")

normalize_buffer-color_example :
    normalize_buffer (codes "x" ++ 3 ∷ codes "04,12red")
    ≡ some (codes "x" ++ normalized (codes "red"))
unfolding is_dropped is_digit
normalize_buffer-color_example =
    normalize_buffer-color (codes "x") (codes "red") b'0' b'4' b'1' b'2' (refl, tt) refl refl refl
      refl
