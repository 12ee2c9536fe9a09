-- ===== src/Net/Transfer.antt =====
-- PA5/src/net.c: what `put_data` sends.
use sysprog.Base.{
  append_assoc, append-nil, ◌⊎◌, inl, inr, Bool-cases, length-append, ℕ, zero, suc, ◌+◌, ◌-◌, ◌≤◌,
  ◌<◌, ◌≡◌, refl, sym, ap, ◌∙◌, subst, some, List, [], ◌∷◌, ◌++◌, ◌==◌, length, take, Bytes, arith,
  ne→==,
}
use sysprog.Base.Int.{to_int, negsuc}
use sysprog.Net.{Sent, taken, send_interrupted, send_error, drop, send_loop, Put, put_data}

-- As `send` documents it, no answer takes more bytes than it was given.
abbrev pub Fits : List Sent → ℕ → Type 0
Fits [] n = Unit {0}
Fits (taken r ∷ ss) n = (r ≤ n) × Fits ss (n - r)
Fits (send_interrupted ∷ ss) n = Fits ss n
Fits (send_error ∷ ss) n = Fits ss n

pub take-drop : (r : ℕ) (bs : Bytes) → take r bs ++ drop r bs ≡ bs
take-drop zero bs = refl
take-drop (suc r) [] = refl
take-drop (suc r) (b ∷ bs) = ap (◌∷◌ b) (take-drop r bs)

length-take : (r : ℕ) (bs : Bytes) → r ≤ length bs → length (take r bs) ≡ r
length-take zero bs h = refl
length-take (suc r) [] h = absurd (omega arith)
length-take (suc r) (b ∷ bs) h = ap suc (length-take r bs (omega arith))

pub length-drop : (r : ℕ) (bs : Bytes) → length (drop r bs) ≡ length bs - r
length-drop zero bs = omega arith
length-drop (suc r) [] = omega arith
length-drop (suc r) (b ∷ bs) = omega (arith, length-drop r bs)

-- The bytes that went out are the front of the buffer, and the result counts them or is -1.
pub record IsPut (buf : Bytes) (res : ℕ) (wire : Bytes) (put : Put) : Type 0 where
  pub front : Bytes
  pub back : Bytes
  pub splits : front ++ back ≡ buf
  pub arrived : put.wire ≡ wire ++ front
  pub counted : (put.res ≡ to_int (res + length front)) ⊎ (put.res ≡ negsuc 0)

nothing-IsPut :
    (buf : Bytes) (res : ℕ) (wire : Bytes) (put : Put)
    → put.wire ≡ wire
    → (put.res ≡ to_int res) ⊎ (put.res ≡ negsuc 0)
    → IsPut buf res wire put
nothing-IsPut buf res wire put w r = record {
  front = [];
  back = buf;
  splits = refl;
  arrived = w ∙ sym (append-nil wire);
  counted = elim r [ inl e ↦ inl (e ∙ ap to_int (omega arith)) | inr e ↦ inr e ];
}

more-IsPut :
    (r : ℕ) (buf : Bytes) (res : ℕ) (wire : Bytes) (put : Put)
    → r ≤ length buf
    → IsPut (drop r buf) (res + r) (wire ++ take r buf) put
    → IsPut buf res wire put
more-IsPut r buf res wire put le p =
    let len : length (take r buf ++ p.front) ≡ r + length p.front =
      length-append (take r buf) p.front ∙ ap (λ k. k + length p.front) (length-take r buf le) in
    record {
      front = take r buf ++ p.front;
      back = p.back;
      splits =
          append_assoc (take r buf) p.front p.back
          ∙ ap (λ t. take r buf ++ t) p.splits
          ∙ take-drop r buf;
      arrived = p.arrived ∙ append_assoc wire (take r buf) p.front;
      counted = elim p.counted [ inl e ↦ inl (e ∙ ap to_int (omega (arith, len))) | inr e ↦ inr e ];
    }

send_loop-IsPut :
    (ss : List Sent) (buf : Bytes) (res : ℕ) (wire : Bytes) (put : Put)
    → Fits ss (length buf)
    → send_loop ss buf res wire ≡ some put
    → IsPut buf res wire put
unfolding send_loop
send_loop-IsPut [] [] res wire put f e =
    nothing-IsPut [] res wire put (ground arith) (inl (ground arith))
send_loop-IsPut (s ∷ ss) [] res wire put f e =
    nothing-IsPut [] res wire put (ground arith) (inl (ground arith))
send_loop-IsPut [] (b ∷ bs) res wire put f e = cc
send_loop-IsPut (send_interrupted ∷ ss) (b ∷ bs) res wire put f e =
    send_loop-IsPut ss (b ∷ bs) res wire put f e
send_loop-IsPut (send_error ∷ ss) (b ∷ bs) res wire put f e =
    nothing-IsPut (b ∷ bs) res wire put (ground arith) (inr (ground arith))
send_loop-IsPut (taken r ∷ ss) (b ∷ bs) res wire put f e = elim (Bool-cases (r == 0)) [
  | inl t ↦
      let e' = rw t at e in nothing-IsPut (b ∷ bs) res wire put (ground arith) (inl (ground arith))
  | inr t ↦ more-IsPut r (b ∷ bs) res wire put f.0 (
      send_loop-IsPut ss (drop r (b ∷ bs)) (res + r) (wire ++ take r (b ∷ bs)) put
        (subst (Fits ss) (sym (length-drop r (b ∷ bs))) f.1) (rw t at e))
]

-- The answers take `n` bytes in all, some with each answer, and none is an error.
abbrev pub Takes : List Sent → ℕ → Type 0
Takes [] n = n ≡ 0
Takes (taken r ∷ ss) n = (0 < r) × (r ≤ n) × Takes ss (n - r)
Takes (send_interrupted ∷ ss) n = Takes ss n
Takes (send_error ∷ ss) n = n ≡ 0

send_loop_whole :
    (ss : List Sent) (buf : Bytes) (res : ℕ) (wire : Bytes)
    → Takes ss (length buf)
    → (put : Put) × (send_loop ss buf res wire ≡ some put)
      × (put.res ≡ to_int (res + length buf))
      × (put.wire ≡ wire ++ buf)
unfolding send_loop
send_loop_whole [] [] res wire f = (_, refl, ap to_int (omega arith), sym (append-nil wire))
send_loop_whole (s ∷ ss) [] res wire f = (_, refl, ap to_int (omega arith), sym (append-nil wire))
send_loop_whole [] (b ∷ bs) res wire f = absurd (omega arith)
send_loop_whole (send_interrupted ∷ ss) (b ∷ bs) res wire f = send_loop_whole ss (b ∷ bs) res wire f
send_loop_whole (send_error ∷ ss) (b ∷ bs) res wire f = absurd (omega arith)
send_loop_whole (taken r ∷ ss) (b ∷ bs) res wire f =
    let buf = b ∷ bs in
    let (put, runs, counted, arrived) =
      send_loop_whole ss (drop r buf) (res + r) (wire ++ take r buf)
        (subst (Takes ss) (sym (length-drop r buf)) f.2) in
    (
      put,
      rw (ne→== r 0 (omega (arith, f.0))) runs,
      counted ∙ ap to_int (omega (arith, length-drop r buf, f.1)),
      arrived ∙ append_assoc wire (take r buf) (drop r buf) ∙ ap (λ t. wire ++ t) (take-drop r buf),
    )

-- However `send` cuts the buffer into parts, and however often it is interrupted: when it takes all
-- of it without an error, `put_data` returns the length of the buffer as an `int`, and the other side gets it
-- unchanged.
pub put_data_whole :
    (ss : List Sent) (buf : Bytes)
    → Takes ss (length buf)
    → (put : Put) × (put_data ss buf ≡ some put)
      × (put.res ≡ to_int (length buf))
      × (put.wire ≡ buf)
put_data_whole ss buf f =
    let (put, runs, counted, arrived) = send_loop_whole ss buf 0 [] f in
    (put, runs, counted ∙ ap to_int (omega arith), arrived)

-- Whatever `send` answers, within its documentation: if `put_data` returns, the bytes that went out
-- are the front of the buffer, and the result is their number or -1.
pub put_data-IsPut :
    (ss : List Sent) (buf : Bytes) (put : Put)
    → Fits ss (length buf)
    → put_data ss buf ≡ some put
    → IsPut buf 0 [] put
put_data-IsPut ss buf put f e = send_loop-IsPut ss buf 0 [] put f e
