-- ===== src/McDonalds/Request/RoundTrip.antt =====
-- PA5/src/client.c and PA5/src/mcdonalds.c: what the server reads from the request of a client.
use sysprog.Base.{
  append_assoc, append-nil, ℕ, zero, suc, ◌+◌, ◌*◌, ◌≤◌, ◌<◌, ◌≡◌, refl, ap, sym, ◌∙◌, none, some,
  List, [], ◌∷◌, ◌++◌, map, ◌==◌, if◌then◌else◌, length, length-append, take, Bytes, arith, ne→==,
}
use sysprog.McDonalds.{
  BurgerType, bigmac, cheese, chicken, bulgogi, burger_name, burger_types, max_burgers,
}
use sysprog.McDonalds.Request.{
  end_word, words, starts_with, find_type, Request, orders, unknown, overrun, parse_words,
  parse_request,
}
use sysprog.McDonalds.Customer.{buf_size, burger_count, choices, write_choices, request_line}

-- The names behind the first, each behind a space.
abbrev pub further : List BurgerType → Bytes
further [] = []
further (t ∷ ts) = 32 ∷ burger_name t ++ further ts

find_type-name : (t : BurgerType) → find_type burger_types (burger_name t) ≡ some t
unfolding find_type starts_with
find_type-name bigmac = refl
find_type-name cheese = refl
find_type-name chicken = refl
find_type-name bulgogi = refl

words-name :
    (t : BurgerType) (bs : Bytes) → words [] (burger_name t ++ bs) ≡ words (burger_name t) bs
unfolding words
words-name bigmac bs = refl
words-name cheese bs = refl
words-name chicken bs = refl
words-name bulgogi bs = refl

end_word-name :
    (t : BurgerType) (ws : List Bytes) → end_word (burger_name t) ws ≡ burger_name t ∷ ws
end_word-name bigmac ws = refl
end_word-name cheese ws = refl
end_word-name chicken ws = refl
end_word-name bulgogi ws = refl

words-further :
    (t : BurgerType) (ts : List BurgerType)
    → words (burger_name t) (further ts ++ 10 ∷ []) ≡ map burger_name (t ∷ ts)
unfolding words
words-further t [] = end_word-name t []
words-further t (u ∷ us) =
    end_word-name t _
    ∙ ap (◌∷◌ (burger_name t)) (
        ap (words []) (append_assoc (burger_name u) (further us) (10 ∷ []))
        ∙ words-name u _
        ∙ words-further u us)

parse_words-known :
    (w : Bytes) (ws : List Bytes) (us : List BurgerType) (t : BurgerType)
    → find_type burger_types w ≡ some t
    → parse_words (w ∷ ws) us
      ≡ (if length us == max_burgers then overrun else parse_words ws (us ++ t ∷ []))
unfolding parse_words
parse_words-known w ws us t e =
    ap {B = Request}
      (λ o. elim o [
        | none ↦ unknown w
        | some t ↦ if length us == max_burgers then overrun else parse_words ws (us ++ t ∷ [])
      ])
      e

parse_words-names :
    (ts us : List BurgerType)
    → length us + length ts ≤ max_burgers
    → parse_words (map burger_name ts) us ≡ orders (us ++ ts)
unfolding parse_words
parse_words-names [] us h = ap orders (sym (append-nil us))
parse_words-names (t ∷ ts) us h =
    parse_words-known (burger_name t) (map burger_name ts) us t (find_type-name t)
    ∙ rw (ne→== (length us) max_burgers (omega arith)) (
        parse_words-names ts (us ++ t ∷ []) (omega (arith, length-append us (t ∷ [])))
        ∙ ap orders (append_assoc us (t ∷ []) ts))

take-all : (n : ℕ) (bs : Bytes) → length bs ≤ n → take n bs ≡ bs
take-all zero [] h = refl
take-all zero (b ∷ bs) h = absurd (omega arith)
take-all (suc n) [] h = refl
take-all (suc n) (b ∷ bs) h = ap (◌∷◌ b) (take-all n bs (omega arith))

length-name : (t : BurgerType) → length (burger_name t) ≤ 7
length-name bigmac = omega arith
length-name cheese = omega arith
length-name chicken = omega arith
length-name bulgogi = omega arith

write_choices-further :
    (i : ℕ) (buffer : Bytes) (ts : List BurgerType)
    → length buffer + 8 * length ts ≤ buf_size
    → write_choices (suc i) buffer ts ≡ buffer ++ further ts
unfolding write_choices
write_choices-further i buffer [] h = sym (append-nil buffer)
write_choices-further i buffer (t ∷ ts) h =
    let more = length-append buffer (32 ∷ burger_name t) in
    let small : length (buffer ++ 32 ∷ burger_name t) ≤ buf_size =
      omega (arith, more, length-name t) in
    ap (λ b. write_choices (suc (suc i)) b ts)
      (take-all buf_size (buffer ++ 32 ∷ burger_name t) small)
    ∙ write_choices-further (suc i) (buffer ++ 32 ∷ burger_name t) ts
        (omega (arith, more, length-name t, h))
    ∙ append_assoc buffer (32 ∷ burger_name t) (further ts)

-- The text of an order: the names with a space between them.
abbrev pub text : List BurgerType → Bytes
text [] = []
text (t ∷ ts) = burger_name t ++ further ts

write_choices-text :
    (welcome : Bytes) (t : BurgerType) (ts : List BurgerType)
    → length (t ∷ ts) ≤ max_burgers
    → write_choices 0 welcome (t ∷ ts) ≡ text (t ∷ ts)
unfolding write_choices
write_choices-text welcome t ts h =
    ap (λ b. write_choices 1 b ts)
      (take-all buf_size (burger_name t) (omega (arith, length-name t)))
    ∙ write_choices-further 0 (burger_name t) ts (omega (arith, length-name t, h))

length-choices : (rand : ℕ → ℕ) (i n : ℕ) → length (choices rand i n) ≡ n
unfolding choices
length-choices rand i zero = refl
length-choices rand i (suc n) = ap suc (length-choices rand (suc i) n)

parse_request-text :
    (t : BurgerType) (ts : List BurgerType)
    → length (t ∷ ts) ≤ max_burgers
    → parse_request (text (t ∷ ts) ++ 10 ∷ []) ≡ orders (t ∷ ts)
parse_request-text t ts h =
    ap (λ ws. parse_words ws [])
      (ap (words []) (append_assoc (burger_name t) (further ts) (10 ∷ []))
        ∙ words-name t _
        ∙ words-further t ts)
    ∙ parse_words-names (t ∷ ts) [] (omega arith)

parse_request-choices :
    (welcome : Bytes) (ts : List BurgerType)
    → 0 < length ts
    → length ts ≤ max_burgers
    → parse_request (write_choices 0 welcome ts ++ 10 ∷ []) ≡ orders ts
parse_request-choices welcome [] h le = absurd (omega arith)
parse_request-choices welcome (t ∷ ts) h le =
    ap (λ b. parse_request (b ++ 10 ∷ [])) (write_choices-text welcome t ts le)
    ∙ parse_request-text t ts le

-- Whatever `rand` answers, and whatever was in the buffer: the server reads from the line that the
-- client sends the burgers that the client chose, one to five.
pub parse_request-request_line :
    (rand : ℕ → ℕ) (welcome : Bytes)
    → (parse_request (request_line rand welcome) ≡ orders (choices rand 0 (burger_count rand)))
      × (0 < length (choices rand 0 (burger_count rand)))
      × (length (choices rand 0 (burger_count rand)) ≤ max_burgers)
parse_request-request_line rand welcome =
    let n = length-choices rand 0 (burger_count rand) in
    (
      parse_request-choices welcome (choices rand 0 (burger_count rand)) (omega (arith, n))
          (omega (arith, n)),
      omega (arith, n),
      omega (arith, n),
    )
