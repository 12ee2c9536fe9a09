-- ===== src/Net/Lines.antt =====
-- PA5/src/net.c: what `get_line` receives.
use sysprog.Base.{
  append_one, ℕ, ◌+◌, ◌*◌, ◌%◌, ◌^◌, ◌<◌, ◌≡◌, ◌≢◌, refl, ap, ◌∙◌, some, List, [], ◌∷◌, ◌++◌, map,
  All, ◌==◌, if◌then◌else◌, length, Bytes, arith, ne→==,
}
use sysprog.Base.Int.{to_int}
use sysprog.Net.{Received, byte, newline, Got, get_loop, get_line}

-- The line that arrives, the space for it, and what is left for the next call.
pub record IsLine (line : Bytes) (n : ℕ) (before : Bytes) (rest : List Received) (got : Got)
    : Type 0 where
  pub res : got.res ≡ to_int (n + length line + 1)
  pub buf : got.buf ≡ before ++ (line ++ newline ∷ [])
  pub room : n + length line + 1 < got.cur_len
  pub left_over : got.rest ≡ rest

-- The size of the buffer behind a byte stored at `n`.
abbrev grown : ℕ → ℕ → ℕ
grown n cur_len = if n + 1 == cur_len then cur_len * 2 % 2 ^ 64 else cur_len

grown-room :
    (n cur_len : ℕ)
    → n < cur_len
    → cur_len < 2 ^ 63
    → n + 1 < 2 ^ 62
    → (n + 1 < grown n cur_len) × (grown n cur_len < 2 ^ 63)
grown-room n cur_len room small short = (ground arith, ground arith)

get_loop-IsLine :
    (line : Bytes) (c n cur_len : ℕ) (before : Bytes) (rest : List Received)
    → All (λ b. b ≢ newline) line
    → n < cur_len
    → cur_len < 2 ^ 63
    → n + length line + 1 < 2 ^ 62
    → (got : Got) × (get_loop (map byte line ++ byte newline ∷ rest) c before n cur_len ≡ some got)
      × IsLine line n before rest got
unfolding get_loop
get_loop-IsLine [] c n cur_len before rest free room small short =
    let (wide, below) = grown-room n cur_len room small (omega arith) in
    (
      _,
      refl,
      record {
        res = ap to_int (omega arith);
        buf = refl;
        room = omega (arith, wide);
        left_over = refl;
      },
    )
get_loop-IsLine (b ∷ line) c n cur_len before rest free room small short =
    let (wide, below) = grown-room n cur_len room small (omega arith) in
    let (got, runs, is_line) =
      get_loop-IsLine line b (n + 1) (grown n cur_len) (before ++ b ∷ []) rest free.1 wide below
        (omega arith) in
    (
      got,
      rw (ne→== b newline free.0) runs,
      record {
        res = is_line.res ∙ ap to_int (omega arith);
        buf = is_line.buf ∙ append_one before b (line ++ newline ∷ []);
        room = omega (arith, is_line.room);
        left_over = is_line.left_over;
      },
    )

-- A line that arrives whole, byte by byte, is what `get_line` answers, with its newline and its
-- length; the buffer, of any size to begin with, has room for the closing null byte, and what
-- follows the line stays for the next call.
pub get_line-IsLine :
    (line : Bytes) (c cur_len : ℕ) (rest : List Received)
    → All (λ b. b ≢ newline) line
    → 0 < cur_len
    → cur_len < 2 ^ 63
    → length line + 1 < 2 ^ 62
    → (got : Got) × (get_line c (map byte line ++ byte newline ∷ rest) cur_len ≡ some got)
      × IsLine line 0 [] rest got
unfolding get_line
get_line-IsLine line c cur_len rest free room small short =
    let (got, runs, is_line) =
      get_loop-IsLine line c 0 cur_len [] rest free room small (omega arith) in
    (got, rw (ne→== cur_len 0 (omega arith)) runs, is_line)
