-- ===== src/McDonalds/Request.antt =====
-- PA5/src/mcdonalds.c: how `serve_client` reads a request, and `make_burger`.
pub mod RoundTrip
pub mod Text
use sysprog.Base.{
  Bool, true, false, ◌&&◌, ◌||◌, Option, none, some, List, [], ◌∷◌, ◌++◌, ◌==◌, if◌then◌else◌,
  length, ℕ, Bytes,
}
use sysprog.McDonalds.{BurgerType, burger_types, burger_name, max_burgers}

-- The delimiters of `strtok_r`: a space and a newline.
abbrev pub is_delimiter : ℕ → Bool
is_delimiter c = c == 32 || c == 10

-- A word that ends here; delimiters in a row have none between them.
abbrev pub end_word : Bytes → List Bytes → List Bytes
end_word [] ws = ws
end_word (c ∷ word) ws = (c ∷ word) ∷ ws

-- What `strtok_r` gives, one word after the other; `word` is the part of a word read so far. A null
-- byte ends the string.
unfoldable pub words : Bytes → Bytes → List Bytes
words word [] = end_word word []
words word (b ∷ bs) =
    if b == 0
    then end_word word []
    else if is_delimiter b
    then end_word word (words [] bs)
    else words (word ++ b ∷ []) bs

-- `strncmp(word, name, strlen(name)) == 0`
unfoldable pub starts_with : Bytes → Bytes → Bool
starts_with [] word = true
starts_with (c ∷ name) [] = false
starts_with (c ∷ name) (d ∷ word) = c == d && starts_with name word

-- The loop over the burger types.
unfoldable pub find_type : List BurgerType → Bytes → Option BurgerType
find_type [] word = none
find_type (t ∷ ts) word = if starts_with (burger_name t) word then some t else find_type ts word

-- A request: its burgers, an unknown word, or more burgers than `types` has room for.
pub data Request : Type 0 where
  orders : List BurgerType → Request
  unknown : Bytes → Request
  overrun : Request

-- The loop over the words, with the burgers so far.
unfoldable pub parse_words : List Bytes → List BurgerType → Request
parse_words [] ts = orders ts
parse_words (w ∷ ws) ts = elim (find_type burger_types w) [
  | none ↦ unknown w
  | some t ↦ if length ts == max_burgers then overrun else parse_words ws (ts ++ t ∷ [])
]

abbrev pub parse_request : Bytes → Request
parse_request line = parse_words (words [] line) []

-- `*order_str`: NULL, the buffer of the first burger, which has no closing null byte, or a string.
pub data OrderStr : Type 0 where
  unset : OrderStr
  unterminated terminated : Bytes → OrderStr

-- What a `%s` prints: `stray` are the bytes in memory between a buffer without a closing null byte
-- and the next null byte.
abbrev pub printed : Bytes → OrderStr → Bytes
printed stray unset = []
printed stray (unterminated s) = s ++ stray
printed stray (terminated s) = s

unfoldable pub make_burger : Bytes → BurgerType → OrderStr → OrderStr
make_burger stray t unset = unterminated (burger_name t)
make_burger stray t (unterminated s) = terminated ((s ++ stray) ++ 32 ∷ burger_name t)
make_burger stray t (terminated s) = terminated (s ++ 32 ∷ burger_name t)
