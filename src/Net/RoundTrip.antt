-- ===== src/Net/RoundTrip.antt =====
-- PA5/src/net.c: a line that `put_line` sends is the line that `get_line` receives.
use sysprog.Base.{
  ℕ, ◌+◌, ◌-◌, ◌^◌, ◌≤◌, ◌<◌, ◌≡◌, ◌≢◌, refl, sym, ap, ap₂, subst, ◌∙◌, true, not, ◌&&◌, some, List,
  [], ◌∷◌, ◌++◌, map, All, length, append_assoc, append-nil, Bytes, arith, ◌==◌, ne→==, take,
}
use sysprog.Base.Int.{pos, to_int-small, to_int}
use sysprog.Net.{
  Received, byte, newline, Got, get_line, Sent, taken, send_interrupted, send_error, drop,
  send_loop, Put, put_data, up_to_null, last_byte, line_sent, put_newline, put_line, join_puts,
  end_line, put_text, is_positive, add_results,
}
use sysprog.Net.Transfer.{take-drop, length-drop}
use sysprog.Net.Lines.{IsLine, get_line-IsLine}

-- Answers of `send` that take `n` bytes in all, some with each answer, with any interruptions.
abbrev pub Delivers : List Sent → ℕ → Type 0
Delivers [] n = n ≡ 0
Delivers (taken r ∷ ss) n = (0 < r) × (r ≤ n) × Delivers ss (n - r)
Delivers (send_interrupted ∷ ss) n = Delivers ss n
Delivers (send_error ∷ ss) n = ⊥

-- A transfer that has sent all of it, when the answers behind it take `k` bytes.
record Delivered (k : ℕ) (buf : Bytes) (res : ℕ) (wire : Bytes) (put : Put) : Type 0 where
  counted : put.res ≡ to_int (res + length buf)
  arrived : put.wire ≡ wire ++ buf
  next : Delivers put.left k

Delivers-append :
    (ss ts : List Sent) (k : ℕ) → Delivers ss 0 → Delivers ts k → Delivers (ss ++ ts) k
Delivers-append [] ts k d e = e
Delivers-append (taken r ∷ ss) ts k d e = absurd (omega (arith, d.0, d.1))
Delivers-append (send_interrupted ∷ ss) ts k d e = Delivers-append ss ts k d e
Delivers-append (send_error ∷ ss) ts k d e = absurd d

send_nothing :
    (ss : List Sent) (res : ℕ) (wire : Bytes)
    → send_loop ss [] res wire ≡ some record { res = to_int res; wire = wire; left = ss }
unfolding send_loop
send_nothing [] res wire = refl
send_nothing (s ∷ ss) res wire = refl

send_loop-Delivered :
    (ss ts : List Sent) (k : ℕ) (buf : Bytes) (res : ℕ) (wire : Bytes)
    → Delivers ss (length buf)
    → Delivers ts k
    → (put : Put) × (send_loop (ss ++ ts) buf res wire ≡ some put) × Delivered k buf res wire put
unfolding send_loop
send_loop-Delivered ss ts k [] res wire d e = (
  record { res = to_int res; wire = wire; left = ss ++ ts },
  send_nothing (ss ++ ts) res wire,
  record {
    counted = ap to_int (omega arith);
    arrived = sym (append-nil wire);
    next = Delivers-append ss ts k d e;
  },
)
send_loop-Delivered [] ts k (b ∷ bs) res wire d e = absurd (omega arith)
send_loop-Delivered (send_interrupted ∷ ss) ts k (b ∷ bs) res wire d e =
    send_loop-Delivered ss ts k (b ∷ bs) res wire d e
send_loop-Delivered (send_error ∷ ss) ts k (b ∷ bs) res wire d e = absurd d
send_loop-Delivered (taken r ∷ ss) ts k (b ∷ bs) res wire d e =
    let buf = b ∷ bs in
    let (put, runs, is) =
      send_loop-Delivered ss ts k (drop r buf) (res + r) (wire ++ take r buf)
        (subst (Delivers ss) (sym (length-drop r buf)) d.2) e in
    (
      put,
      rw (ne→== r 0 (omega (arith, d.0))) runs,
      record {
        counted = is.counted ∙ ap to_int (omega (arith, length-drop r buf, d.1));
        arrived =
            is.arrived
            ∙ append_assoc wire (take r buf) (drop r buf)
            ∙ ap (λ t. wire ++ t) (take-drop r buf);
        next = is.next;
      },
    )

up_to_null-whole : (bs : Bytes) → All (λ b. b ≢ 0) bs → up_to_null (length bs) bs ≡ bs
unfolding up_to_null
up_to_null-whole [] h = refl
up_to_null-whole (b ∷ bs) h = rw (ne→== b 0 h.0) (ap (◌∷◌ b) (up_to_null-whole bs h.1))

last_byte-other :
    (b : ℕ) (bs : Bytes)
    → All (λ b. b ≢ newline) (b ∷ bs)
    → (last : ℕ) × (last_byte (b ∷ bs) ≡ some last) × (last ≢ newline)
last_byte-other b [] h = (b, refl, h.0)
last_byte-other b (c ∷ bs) h = last_byte-other c bs h.1

map-append :
    (xs : Bytes) (rest : List Received)
    → map byte (xs ++ newline ∷ []) ++ rest ≡ map byte xs ++ byte newline ∷ rest
map-append [] rest = refl
map-append (x ∷ xs) rest = ap (◌∷◌ (byte x)) (map-append xs rest)

end_line-newline :
    (last n : ℕ) (p : Put)
    → p.res ≡ pos n
    → 0 < n
    → last ≢ newline
    → end_line last (some p) ≡ put_newline p
unfolding end_line
end_line-newline last n p e lt ne =
    let positive : is_positive p.res ≡ true = ap is_positive e ∙ ground arith in
    let both : (is_positive p.res && not (last == newline)) ≡ true =
      rw (positive) (ap not (ne→== last newline ne)) in
    rw both refl

put_line-whole :
    (ss ts : List Sent) (b : ℕ) (bs : Bytes)
    → Delivers ss (length (b ∷ bs))
    → Delivers ts 1
    → All (λ b. b ≢ 0) (b ∷ bs)
    → All (λ b. b ≢ newline) (b ∷ bs)
    → length (b ∷ bs) + 1 < 2 ^ 31
    → (put : Put) × (put_line (ss ++ ts) (b ∷ bs) (length (b ∷ bs)) ≡ line_sent put)
      × (put.res ≡ pos (length (b ∷ bs) + 1))
      × (put.wire ≡ (b ∷ bs) ++ newline ∷ [])
unfolding put_line put_text put_newline join_puts
put_line-whole ss ts b bs d e nn nl short =
    let (last, at, other) = last_byte-other b bs nl in
    let (p, sent, is) = send_loop-Delivered ss ts 1 (b ∷ bs) 0 [] d e in
    let counted = is.counted ∙ to_int-small (0 + length (b ∷ bs)) (omega arith) in
    let (q, sent', is') = send_loop-Delivered p.left [] 0 (newline ∷ []) 0 [] is.next refl in
    (
      record { res = add_results p.res q.res; wire = p.wire ++ q.wire; left = q.left },
      ap (λ t. put_text (ss ++ ts) t (last_byte t)) (up_to_null-whole (b ∷ bs) nn)
          ∙ ap (put_text (ss ++ ts) (b ∷ bs)) at
          ∙ ap (end_line last) sent
          ∙ end_line-newline last (0 + length (b ∷ bs)) p counted (omega arith) other
          ∙ ap (join_puts p)
              (ap (λ l. put_data l (newline ∷ [])) (sym (append-nil p.left)) ∙ sent'),
      ap₂ add_results counted (is'.counted ∙ to_int-small 1 (omega arith))
          ∙ to_int-small (0 + length (b ∷ bs) + 1) (omega arith)
          ∙ ap pos (omega arith),
      ap₂ ◌++◌ is.arrived is'.arrived,
    )

-- A text of 1 to 2 ^ 31 - 2 bytes, without null bytes and newlines, of which `send` takes some bytes
-- with each answer until it has taken all, and then a newline, with any interruptions: `put_line`
-- returns the length of the text and 1, and from the bytes that it sent, received one by one,
-- `get_line` reads the text, with a newline, returns the same number, and leaves what follows.
pub get_line-put_line :
    (ss ts : List Sent) (b : ℕ) (bs : Bytes) (c cur_len : ℕ) (rest : List Received)
    → Delivers ss (length (b ∷ bs))
    → Delivers ts 1
    → All (λ b. b ≢ 0) (b ∷ bs)
    → All (λ b. b ≢ newline) (b ∷ bs)
    → 0 < cur_len
    → cur_len < 2 ^ 63
    → length (b ∷ bs) + 1 < 2 ^ 31
    → (put : Put) × (put_line (ss ++ ts) (b ∷ bs) (length (b ∷ bs)) ≡ line_sent put)
      × (put.res ≡ pos (length (b ∷ bs) + 1))
      × (got : Got) × (get_line c (map byte put.wire ++ rest) cur_len ≡ some got)
      × IsLine (b ∷ bs) 0 [] rest got
      × (got.res ≡ pos (length (b ∷ bs) + 1))
get_line-put_line ss ts b bs c cur_len rest d e nn nl room small short =
    let (put, runs, res, wire) = put_line-whole ss ts b bs d e nn nl (omega arith) in
    let (got, gets, is) = get_line-IsLine (b ∷ bs) c cur_len rest nl room small (omega arith) in
    let events : map byte put.wire ++ rest ≡ map byte (b ∷ bs) ++ byte newline ∷ rest =
      ap (λ w. map byte w ++ rest) wire ∙ map-append (b ∷ bs) rest in
    (
      put,
      runs,
      res,
      got,
      ap (λ es. get_line c es cur_len) events ∙ gets,
      is,
      is.res ∙ to_int-small (0 + length (b ∷ bs) + 1) (omega arith) ∙ ap pos (omega arith),
    )
