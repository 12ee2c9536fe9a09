-- ===== src/Net.antt =====
-- PA5/src/net.c: `put_data`, `get_line` and `put_line` over a socket.
--
-- The answers of `send` and `recv` are an argument, in their order; when they are used up the call
-- still waits, which is `none`. An `int` that counts bytes wraps around at 2 ^ 32. `realloc` succeeds. Bytes are numbers.
pub mod Lines
pub mod Transfer
pub mod RoundTrip
use sysprog.Base.{
  ℕ, zero, suc, ◌+◌, ◌-◌, ◌*◌, ◌%◌, ◌^◌, Bool, true, false, not, ◌&&◌, Option, none, some, List, [],
  ◌∷◌, ◌++◌, ltb, ◌==◌, if◌then◌else◌, length, take, Bytes,
}
use sysprog.Base.Int.{ℤ, pos, negsuc, to_int}

-- What `recv` of one byte answers.
pub data Received : Type 0 where
  byte : ℕ → Received
  interrupted eof error : Received

-- What `send` answers: the number of bytes taken, or a failure.
pub data Sent : Type 0 where
  taken : ℕ → Sent
  send_interrupted send_error : Sent

abbrev pub newline : ℕ
newline = 10

-- The result of `get_line`, the buffer and its size, and what is left to receive.
pub record Got : Type 0 where
  pub res : ℤ
  pub buf : Bytes
  pub cur_len : ℕ
  pub rest : List Received

-- The loop of `get_line` at the last byte `c`, which the source leaves unset at first.
unfoldable pub get_loop : List Received → ℕ → Bytes → ℕ → ℕ → Option Got
get_loop [] c buf n cur_len = none
get_loop (interrupted ∷ es) c buf n cur_len = get_loop es c buf n cur_len
get_loop (eof ∷ es) c buf n cur_len = some record {
  res = if c == newline then to_int n else pos 0;
  buf = buf;
  cur_len = cur_len;
  rest = es;
}
get_loop (error ∷ es) c buf n cur_len = some record {
  res = if c == newline then to_int n else negsuc 0;
  buf = buf;
  cur_len = cur_len;
  rest = es;
}
get_loop (byte b ∷ es) c buf n cur_len =
    let buf' = buf ++ b ∷ [] in
    let cur_len' = if n + 1 == cur_len then cur_len * 2 % 2 ^ 64 else cur_len in
    let rest = get_loop es b buf' (n + 1) cur_len' in
    if b == newline
    then some record { res = to_int (n + 1); buf = buf'; cur_len = cur_len'; rest = es }
    else rest

-- `c` is what the variable holds at the start.
unfoldable pub get_line : ℕ → List Received → ℕ → Option Got
get_line c es cur_len =
    if cur_len == 0
    then some record { res = negsuc 1; buf = []; cur_len = 0; rest = es }
    else get_loop es c [] 0 cur_len

-- The result of a transfer, the bytes that the other side gets, and the answers left.
pub record Put : Type 0 where
  pub res : ℤ
  pub wire : Bytes
  pub left : List Sent

abbrev pub drop : ℕ → Bytes → Bytes
drop zero bs = bs
drop (suc n) [] = []
drop (suc n) (b ∷ bs) = drop n bs

-- The loop of `transfer_data` when it sends: at the total so far and the bytes that went out. A
-- `send` that takes no byte ends it.
unfoldable pub send_loop : List Sent → Bytes → ℕ → Bytes → Option Put
send_loop ss [] res wire = some record { res = to_int res; wire = wire; left = ss }
send_loop [] (b ∷ bs) res wire = none
send_loop (send_interrupted ∷ ss) (b ∷ bs) res wire = send_loop ss (b ∷ bs) res wire
send_loop (send_error ∷ ss) (b ∷ bs) res wire =
    some record { res = negsuc 0; wire = wire; left = ss }
send_loop (taken r ∷ ss) (b ∷ bs) res wire =
    let rest = send_loop ss (drop r (b ∷ bs)) (res + r) (wire ++ take r (b ∷ bs)) in
    if r == 0 then some record { res = to_int res; wire = wire; left = ss } else rest

abbrev pub put_data : List Sent → Bytes → Option Put
put_data ss buf = send_loop ss buf 0 []

-- The bytes in front of the closing null byte, within the first `len`.
pub up_to_null : ℕ → Bytes → Bytes
up_to_null zero bs = []
up_to_null (suc n) [] = []
up_to_null (suc n) (b ∷ bs) = if b == 0 then [] else b ∷ up_to_null n bs

abbrev pub last_byte : Bytes → Option ℕ
last_byte [] = none
last_byte (b ∷ []) = some b
last_byte (b ∷ c ∷ bs) = last_byte (c ∷ bs)

-- What `put_line` does: it refuses a length of 0, reads in front of an empty string, or sends.
pub data PutLine : Type 0 where
  no_length reads_outside still_waits : PutLine
  line_sent : Put → PutLine

-- The result of both transfers, when the first one sent something.
abbrev pub add_results : ℤ → ℤ → ℤ
add_results n (negsuc k) = negsuc k
add_results (pos n) (pos k) = to_int (n + k)
add_results (negsuc n) (pos k) = negsuc n

unfoldable pub join_puts : Put → Option Put → PutLine
join_puts p none = still_waits
join_puts p (some q) =
    line_sent record { res = add_results p.res q.res; wire = p.wire ++ q.wire; left = q.left }

-- The newline behind a string that does not end with one, after `p` went out.
unfoldable pub put_newline : Put → PutLine
unfolding join_puts
put_newline p = join_puts p (put_data p.left (newline ∷ []))

abbrev pub is_positive : ℤ → Bool
is_positive (pos n) = ltb 0 n
is_positive (negsuc n) = false

-- Behind the transfer of a text that ends with the byte `last`.
unfoldable pub end_line : ℕ → Option Put → PutLine
unfolding put_newline
end_line last none = still_waits
end_line last (some p) =
    if is_positive p.res && not (last == newline) then put_newline p else line_sent p

unfoldable pub put_text : List Sent → Bytes → Option ℕ → PutLine
unfolding end_line
put_text ss text none = reads_outside
put_text ss text (some last) = end_line last (put_data ss text)

unfoldable pub put_line : List Sent → Bytes → ℕ → PutLine
unfolding put_text up_to_null
put_line ss buf zero = no_length
put_line ss buf (suc n) = let text = up_to_null (suc n) buf in put_text ss text (last_byte text)
