-- ===== src/Tests/Lines.antt =====
-- Runs of PA5/src/net.c.
use sysprog.Base.{◌≡◌, ◌++◌, refl, some, [], ◌∷◌, map, arith}
use sysprog.Base.Int.{pos}
use sysprog.Net.{byte, eof, Got, get_line, taken, send_interrupted, Put, put_line, line_sent}
use sysprog.Net.Lines.{IsLine}
use sysprog.Net.RoundTrip.{get_line-put_line}

-- Two bytes, each on its own, and a newline behind an interruption.
get_line-put_line_example :
    (put : Put) × (put_line (taken 1 ∷ taken 1 ∷ send_interrupted ∷ taken 1 ∷ []) (97 ∷ 98 ∷ []) 2
      ≡ line_sent put)
    × (put.res ≡ pos 3)
    × (got : Got) × (get_line 0 (map byte put.wire ++ eof ∷ []) 4 ≡ some got)
    × IsLine (97 ∷ 98 ∷ []) 0 [] (eof ∷ []) got
    × (got.res ≡ pos 3)
get_line-put_line_example =
    get_line-put_line (taken 1 ∷ taken 1 ∷ []) (send_interrupted ∷ taken 1 ∷ []) 97 (98 ∷ []) 0 4
      (eof ∷ []) (omega arith, omega arith, (omega arith, omega arith, refl))
      (omega arith, omega arith, refl) (omega arith, (omega arith, tt))
      (omega arith, (omega arith, tt)) (omega arith) (omega arith) (omega arith)
