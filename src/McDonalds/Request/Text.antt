-- ===== src/McDonalds/Request/Text.antt =====
-- PA5/src/mcdonalds.c: the string that `make_burger` writes for a request.
use sysprog.Base.{append_assoc, append-nil, ◌≡◌, ap, sym, ◌∙◌, List, [], ◌∷◌, ◌++◌, Bytes}
use sysprog.McDonalds.{BurgerType, burger_name}
use sysprog.McDonalds.Request.{OrderStr, unset, terminated, printed, make_burger}
use sysprog.McDonalds.Request.RoundTrip.{further}

-- The string of a request when the kitchen has made these burgers, in this order.
abbrev pub make_burgers : Bytes → List BurgerType → OrderStr → OrderStr
make_burgers stray [] s = s
make_burgers stray (t ∷ ts) s = make_burgers stray ts (make_burger stray t s)

make_burgers-terminated :
    (stray : Bytes) (ts : List BurgerType) (s : Bytes)
    → make_burgers stray ts (terminated s) ≡ terminated (s ++ further ts)
unfolding make_burger
make_burgers-terminated stray [] s = ap terminated (sym (append-nil s))
make_burgers-terminated stray (t ∷ ts) s =
    make_burgers-terminated stray ts (s ++ 32 ∷ burger_name t)
    ∙ ap terminated (append_assoc s (32 ∷ burger_name t) (further ts))

-- Made one after the other, the burgers of a request give the string that names them in this order,
-- with a space between two names; but behind the first name, whose buffer has no closing null byte,
-- come the stray bytes that follow it in memory.
pub make_burgers-text :
    (stray : Bytes) (t : BurgerType) (ts : List BurgerType)
    → printed stray (make_burgers stray (t ∷ ts) unset) ≡ (burger_name t ++ stray) ++ further ts
unfolding make_burger
make_burgers-text stray t [] = sym (append-nil (burger_name t ++ stray))
make_burgers-text stray t (u ∷ us) =
    ap (printed stray)
      (make_burgers-terminated stray us ((burger_name t ++ stray) ++ 32 ∷ burger_name u))
    ∙ append_assoc (burger_name t ++ stray) (32 ∷ burger_name u) (further us)
