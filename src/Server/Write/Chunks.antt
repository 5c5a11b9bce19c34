-- ===== src/Server/Write/Chunks.antt =====
-- The frames of a chunked response.
use fastpysgi.Base.{
  ℕ, ◌<◌, ◌≡◌, refl, ap, ◌∙◌, inl, inr, Bool, true, false, not, ◌&&◌, [], ◌∷◌, ◌++◌, append-nil,
  arith, ltb, ◌==◌, Bool-cases, length, length-append, take, Bytes, u32, codes,
}
use fastpysgi.Base.Print.{upper_hex}
use fastpysgi.Client.{is_sending, Client}
use fastpysgi.Server.{read_stop, writing}
use fastpysgi.Common.Numerals.{read, upper_hex_lem}
use fastpysgi.Server.Write.{cut, join_cut, wire, stream_write, chunk_head, load_chunk}

-- one chunk as RFC 9112 frames it
abbrev pub frame : Bytes → Bytes
frame b = (upper_hex (length b) ++ codes "\r\n") ++ b ++ codes "\r\n"

positive : (xs : Bytes) (y : ℕ) (ys : Bytes) → ltb 0 (length (xs ++ y ∷ ys)) ≡ true
positive xs y ys = ground (arith, length-append xs (y ∷ ys))

pub u32-small : (n : ℕ) → n < 4294967296 → u32 n ≡ n
u32-small n h = ground arith

take-all : (b : Bytes) → take (length b) b ≡ b
take-all [] = refl
take-all (x ∷ b) = ap (λ t. x ∷ t) (take-all b)

-- a chunk below 4 GiB is sent whole
pub cut-small : (b : Bytes) → length b < 4294967296 → cut b ≡ b
unfolding cut
cut-small b h = ap (λ n. take n b) (u32-small (length b) h) ∙ take-all b

chunk_head-small :
    (b : Bytes) → length b < 4294967296 → chunk_head b ≡ upper_hex (length b) ++ codes "\r\n"
unfolding chunk_head
chunk_head-small b h = ap (λ n. upper_hex n ++ codes "\r\n") (u32-small (length b) h)

wire-load_chunk :
    (x : ℕ) (b : Bytes) (c : Client)
    → c.response.chunked ≡ 1
    → length (x ∷ b) < 4294967296
    → wire (load_chunk (x ∷ b) c) ≡ frame (x ∷ b)
unfolding wire join_cut load_chunk
wire-load_chunk x b c e h =
    rw
      (
        wire,
        e,
        chunk_head-small (x ∷ b) h,
        cut-small (x ∷ b) h,
        positive (upper_hex (length (x ∷ b))) 13 (10 ∷ []),
        positive [] x b,
        append-nil,
      )
      refl

sized :
    (c : Client) (x : ℕ) (b : Bytes)
    → c.response.chunked ≡ 1
    → (ltb 0 (load_chunk (x ∷ b) c).response.headers_size
        && not ((load_chunk (x ∷ b) c).response.headers_size == length (load_chunk (x ∷ b) c).head))
      ≡ false
unfolding load_chunk
sized c x b e = rw e (same (length (chunk_head (x ∷ b))))
  where
    same : (n : ℕ) → (ltb 0 n && not (n == n)) ≡ false
    same n = ground arith

loaded_idle :
    (b : Bytes) (c : Client)
    → is_sending c.state ≡ false
    → is_sending (load_chunk b c).state ≡ false
unfolding load_chunk
loaded_idle b c h = h

-- On an idle connection a chunk of a streamed response that is not empty and below 4 GiB goes out as
-- one write of exactly its frame: its size in hexadecimal, a line end, its bytes and a line end; the
-- size reads back as the number of bytes.
pub chunk_sent :
    (ok : Bool) (x : ℕ) (b : Bytes) (c : Client)
    → c.response.chunked ≡ 1
    → is_sending c.state ≡ false
    → length (x ∷ b) < 4294967296
    → ((stream_write ok (load_chunk (x ∷ b) c)).2 ≡ read_stop ∷ writing (frame (x ∷ b)) ∷ [])
      × (read 16 0 (upper_hex (length (x ∷ b))) ≡ length (x ∷ b))
unfolding stream_write
chunk_sent ok x b c e idle h = (
  elim (Bool-cases ok) [
    | inl o ↦
        rw (stream_write, loaded_idle (x ∷ b) c idle, sized c x b e, wire-load_chunk x b c e h, o)
          refl
    | inr o ↦
        rw (stream_write, loaded_idle (x ∷ b) c idle, sized c x b e, wire-load_chunk x b c e h, o)
          refl
  ],
  upper_hex_lem (length (x ∷ b)),
)
