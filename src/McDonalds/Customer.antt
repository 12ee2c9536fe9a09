-- ===== src/McDonalds/Customer.antt =====
-- PA5/src/client.c: the request that `thread_task` writes.
--
-- The answers of `rand` are an argument: `rand i` is the one to the call number `i`.
use sysprog.Base.{ℕ, zero, suc, ◌+◌, ◌%◌, List, [], ◌∷◌, ◌++◌, take, Bytes}
use sysprog.McDonalds.{BurgerType, bigmac, cheese, chicken, bulgogi, burger_name, max_burgers}

abbrev pub buf_size : ℕ
buf_size = 65536

abbrev pub burger_count : (ℕ → ℕ) → ℕ
burger_count rand = rand 0 % max_burgers + 1

-- The burger type of this value.
abbrev pub type_at : ℕ → BurgerType
type_at zero = bigmac
type_at (suc zero) = cheese
type_at (suc (suc zero)) = chicken
type_at (suc (suc (suc n))) = bulgogi

-- The choices of the rounds from `i` on, when so many are left.
unfoldable pub choices : (ℕ → ℕ) → ℕ → ℕ → List BurgerType
choices rand i zero = []
choices rand i (suc left) = type_at (rand (suc i) % 4) ∷ choices rand (suc i) left

-- One round: the string in the buffer behind `strncpy`.
abbrev pub append_burger : ℕ → Bytes → BurgerType → Bytes
append_burger zero buffer t = take buf_size (burger_name t)
append_burger (suc i) buffer t = take buf_size (buffer ++ 32 ∷ burger_name t)

-- The loop from the round `i` on.
unfoldable pub write_choices : ℕ → Bytes → List BurgerType → Bytes
write_choices i buffer [] = buffer
write_choices i buffer (t ∷ ts) = write_choices (suc i) (append_burger i buffer t) ts

-- What `put_line` is given, at the welcome message in the buffer.
abbrev pub request_line : (ℕ → ℕ) → Bytes → Bytes
request_line rand welcome = write_choices 0 welcome (choices rand 0 (burger_count rand)) ++ 10 ∷ []
