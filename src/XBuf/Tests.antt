-- ===== src/XBuf/Tests.antt =====
-- Runs of the buffer, and its theorems at concrete inputs.
use fastpysgi.Base.{
  ℕ, ◌≡◌, refl, Option, some, ◌∷◌, arith, replicate, length-replicate, pos, Bytes, codes,
}
use fastpysgi.XBuf.{XBuf, xbuf_add, xbuf_init2}
use fastpysgi.XBuf.Invariant.{IsValid, Gives}
use fastpysgi.XBuf.Append.{Added, xbuf_add-Added}

-- a heap that never runs out, whose blocks are full of 0xAA
abbrev heap : ℕ → Option Bytes
heap n = some (replicate n 0xAA)

-- a borrowed block of six bytes
abbrev borrowed : XBuf
borrowed = xbuf_init2 (replicate 6 0xAA) 6

unfold_borrowed :
    xbuf_init2 (replicate 6 0xAA) 6
    ≡ record { data_block = some (0 ∷ replicate 5 0xAA); size = 0; capacity = 4 }
unfolding xbuf_init2
unfold_borrowed = refl

adds : (xbuf_add heap (xbuf_add heap borrowed (codes "ab")).1 (codes "c")).0 ≡ pos 3
unfolding xbuf_add xbuf_init2
adds = refl

borrowed-IsValid : IsValid borrowed
unfolding xbuf_init2
borrowed-IsValid = record {
  in_block = λ _. omega arith;
  in_cap = omega arith;
  small = omega arith;
  terminated = refl;
  absent = λ e. cc;
}

heap-Gives : Gives heap
heap-Gives n = (replicate n 0xAA, refl, length-replicate n 0xAA)

xbuf_add-Added_example : Added borrowed (codes "abc") (xbuf_add heap borrowed (codes "abc"))
unfolding xbuf_init2
xbuf_add-Added_example =
    xbuf_add-Added heap borrowed (codes "abc") heap-Gives borrowed-IsValid (omega arith)
