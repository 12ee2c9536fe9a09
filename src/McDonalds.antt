-- ===== src/McDonalds.antt =====
-- PA5/src/mcdonalds.c, PA5/src/client.c, PA5/src/burger.h and PA5/src/burger.c: the burger server
-- and its client.
pub mod Orders
pub mod Request
pub mod Threads
pub mod System
pub mod Customer
pub mod Places
use sysprog.Base.{ℕ, List, [], ◌∷◌, Bytes, codes}

pub data BurgerType : Type 0 where
  bigmac cheese chicken bulgogi : BurgerType

-- The values below `BURGER_TYPE_MAX`, in their order.
abbrev pub burger_types : List BurgerType
burger_types = bigmac ∷ cheese ∷ chicken ∷ bulgogi ∷ []

-- `burger_names`
abbrev pub burger_name : BurgerType → Bytes
burger_name bigmac = codes "bigmac"
burger_name cheese = codes "cheese"
burger_name chicken = codes "chicken"
burger_name bulgogi = codes "bulgogi"

abbrev pub customer_max : ℕ
customer_max = 100

abbrev pub max_burgers : ℕ
max_burgers = 5
