-- ===== src/MemMgr/Held/Unique.antt =====
-- PA3/src/memmgr.c: the memory determines the blocks.
use sysprog.Base.{ℕ, ◌+◌, ◌%◌, ◌≡◌, refl, sym, ap, ap₂, ◌∙◌, subst, List, [], ◌∷◌, arith}
use sysprog.MemMgr.Words.{Mem, Status, free, alloc, pack, size_of}
use sysprog.MemMgr.Tiles.{Block, block, tag, IsBlock, Tiles, size_of-tag, Tiles-total}

pack-status : (n : ℕ) (s t : Status) → n % 32 ≡ 0 → pack n s ≡ pack n t → s ≡ t
unfolding pack
pack-status n free free h e = refl
pack-status n free alloc h e = absurd (omega (arith, h, e))
pack-status n alloc free h e = absurd (omega (arith, h, e))
pack-status n alloc alloc h e = refl

tag_unique : (b c : Block) → IsBlock b → IsBlock c → tag b ≡ tag c → b ≡ c
tag_unique b c v w e =
    let size : b.size ≡ c.size = sym (size_of-tag b v) ∙ ap size_of e ∙ size_of-tag c w in
    ap₂ block size
      (pack-status c.size b.status c.status w.1 (subst (λ n. pack n b.status ≡ tag c) size e))

pub Tiles-unique :
    (m : Mem) (p q : ℕ) (xs ys : List Block) → Tiles m p xs q → Tiles m p ys q → xs ≡ ys
Tiles-unique m p q [] [] t u = refl
Tiles-unique m p q [] (c ∷ ys) t u =
    absurd (omega (arith, t, u.0.2.0, Tiles-total m (p + c.size) ys q u.1))
Tiles-unique m p q (b ∷ xs) [] t u =
    absurd (omega (arith, u, t.0.2.0, Tiles-total m (p + b.size) xs q t.1))
Tiles-unique m p q (b ∷ xs) (c ∷ ys) t u =
    let e : b ≡ c = tag_unique b c t.0.2 u.0.2 (sym t.0.0 ∙ u.0.0) in
    ap₂ ◌∷◌ e
      (Tiles-unique m (p + c.size) q xs ys (subst (λ a. Tiles m (p + a.size) xs q) e t.1) u.1)
