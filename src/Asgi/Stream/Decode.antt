-- ===== src/Asgi/Stream/Decode.antt =====
-- What a client reads out of a chunked body (RFC 9112 section 7.1), written apart from the server's
-- code, and what it gets from fastwsgi/asgi.c.
use fastpysgi.Base.{
  ℕ, zero, suc, ◌+◌, ◌*◌, ◌<◌, ◌≡◌, refl, ap, ◌∙◌, true, false, ◌&&◌, Option, none, some, List, [],
  ◌∷◌, ◌++◌, map, append_assoc, arith, ◌==◌, if◌then◌else◌, length, take, drop, Bytes,
}
use fastpysgi.Asgi.Stream.Steps.{IsSmall}
use fastpysgi.Asgi.Stream.Whole.{AllSmall}
use fastpysgi.Asgi.Stream.Head.{chunked_head, Begun, streamed}
use fastpysgi.Response.Head.{Header}
use fastpysgi.Asgi.{AsgiHeaders, Asgi}
use fastpysgi.Server.Write.{WriteEvent}
use fastpysgi.Client.{Client}
use fastpysgi.Asgi.Info.{Outside}
use fastpysgi.Base.Print.{to_base, digit_char, upper_hex}
use fastpysgi.Common.Ascii.{hex_to_dig}
use fastpysgi.Common.Numerals.{read, upper_hex_lem}
use fastpysgi.Response.Body.{join}
use fastpysgi.Server.Write.Chunks.{frame}
use fastpysgi.Asgi.Stream.{behind, deliver_all, frames, last_chunk}

-- the size in front of a chunk, up to its CR
unfoldable pub chunk_size : ℕ → Bytes → ℕ × Bytes
chunk_size acc [] = (acc, [])
chunk_size acc (c ∷ cs) = if c == 13 then (acc, c ∷ cs) else chunk_size (acc * 16 + hex_to_dig c) cs

-- the bytes behind CR LF
unfoldable pub strip_crlf : Bytes → Option Bytes
strip_crlf [] = none
strip_crlf (c ∷ []) = none
strip_crlf (c ∷ d ∷ cs) = if c == 13 && d == 10 then some cs else none

-- one chunk, with the decoding of the rest
unfoldable pub one_chunk : (Bytes → Option Bytes) → ℕ × Bytes → Option Bytes
unfolding strip_crlf
one_chunk again (n, r) = elim (strip_crlf r) [
  | none ↦ none
  | some body ↦ elim (n == 0) [
    | true ↦ elim (strip_crlf body) [
      | none ↦ none
      | some behind ↦ if length behind == 0 then some [] else none
    ]
    | false ↦ elim (strip_crlf (drop n body)) [
      | none ↦ none
      | some behind ↦ elim (again behind) [ none ↦ none | some bs ↦ some (take n body ++ bs) ]
    ]
  ]
]

-- the body, if the bytes are chunks with a last one and nothing behind it, in at most `fuel` chunks
unfoldable pub decode_chunks : ℕ → Bytes → Option Bytes
unfolding chunk_size one_chunk
decode_chunks zero bytes = none
decode_chunks (suc fuel) bytes = one_chunk (decode_chunks fuel) (chunk_size 0 bytes)

digit_no_cr : (d : ℕ) → (digit_char d == 13) ≡ false
unfolding digit_char
digit_no_cr d = ground arith

chunk_size-digits :
    (ds : List ℕ) (acc : ℕ) (rest : Bytes)
    → chunk_size acc (map digit_char ds ++ 13 ∷ rest) ≡ (read 16 acc (map digit_char ds), 13 ∷ rest)
unfolding chunk_size read
chunk_size-digits [] acc rest = refl
chunk_size-digits (d ∷ ds) acc rest =
    rw (chunk_size, digit_no_cr d)
      (chunk_size-digits ds (acc * 16 + hex_to_dig (digit_char d)) rest)

chunk_size-upper_hex :
    (n : ℕ) (rest : Bytes) → chunk_size 0 (upper_hex n ++ 13 ∷ rest) ≡ (n, 13 ∷ rest)
unfolding upper_hex
chunk_size-upper_hex n rest =
    chunk_size-digits (to_base 16 (suc n) n) 0 rest ∙ ap (λ k. (k, 13 ∷ rest)) (upper_hex_lem n)

take-length : (xs ys : Bytes) → take (length xs) (xs ++ ys) ≡ xs
take-length [] ys = refl
take-length (x ∷ xs) ys = ap (λ l. x ∷ l) (take-length xs ys)

drop-length : (xs ys : Bytes) → drop (length xs) (xs ++ ys) ≡ ys
drop-length [] ys = refl
drop-length (x ∷ xs) ys = drop-length xs ys

frame-eq :
    (b rest : Bytes) → frame b ++ rest ≡ upper_hex (length b) ++ 13 ∷ 10 ∷ (b ++ 13 ∷ 10 ∷ rest)
frame-eq b rest = simp append_assoc

nonempty : (x : ℕ) (b : Bytes) → (length (x ∷ b) == 0) ≡ false
nonempty x b = ground arith

decode_chunks-frame :
    (fuel x : ℕ) (b rest body : Bytes)
    → decode_chunks fuel rest ≡ some body
    → decode_chunks (suc fuel) (frame (x ∷ b) ++ rest) ≡ some ((x ∷ b) ++ body)
unfolding decode_chunks one_chunk strip_crlf
decode_chunks-frame fuel x b rest body h =
    rw
      (
        decode_chunks,
        frame-eq (x ∷ b) rest,
        chunk_size-upper_hex (length (x ∷ b)) (10 ∷ ((x ∷ b) ++ 13 ∷ 10 ∷ rest)),
      )
      (rw (one_chunk, nonempty x b)
        (rw (drop-length (x ∷ b) (13 ∷ 10 ∷ rest))
          (rw h (ap (λ t. some (t ++ body)) (take-length (x ∷ b) (13 ∷ 10 ∷ rest))))))

decode_chunks-frames :
    (fuel : ℕ) (bs : List Bytes)
    → length bs < fuel
    → decode_chunks fuel (frames bs ++ last_chunk) ≡ some (join bs)
unfolding frames join decode_chunks one_chunk strip_crlf chunk_size hex_to_dig
decode_chunks-frames zero bs h = absurd (omega arith)
decode_chunks-frames (suc fuel) [] h = refl
decode_chunks-frames (suc fuel) ([] ∷ bs) h = decode_chunks-frames (suc fuel) bs (omega arith)
decode_chunks-frames (suc fuel) ((x ∷ b) ∷ bs) h = rw append_assoc (
    decode_chunks-frame fuel x b (frames bs ++ last_chunk) (join bs)
      (decode_chunks-frames fuel bs (omega arith)))

module _ (out : Outside) (hd : AsgiHeaders) (hs : List Header) (name : Bytes) where
  -- An application that sends its body in messages, the first of them not empty and all of them
  -- below 2 GiB, and awaits each, on a connection whose writes succeed: the bytes on the wire are the head of a chunked
  -- response and a body from which a client reads exactly the bytes of the messages, in order. The
  -- object is then closed to further messages, and no future is left open.
  pub stream_received :
      (ev : WriteEvent) (x : ℕ) (b : Bytes) (bs : List Bytes) (last : Bytes) (a : Asgi) (c : Client)
      → ev.status_ok ≡ true
      → Begun out hd hs name a c
      → AllSmall ((x ∷ b) ∷ bs)
      → IsSmall last
      → let pieces = (x ∷ b) ∷ (bs ++ last ∷ []) in
        let (bytes, a', c') = deliver_all out ev ((x ∷ b) ∷ bs) last a c in
        (body : Bytes) × (bytes
          ≡ chunked_head out a.send_status name c.request.keep_alive hs ++ body)
        × (decode_chunks (suc (length pieces)) body ≡ some (join pieces))
        × (a'.latest_chunk ≡ true)
        × (a'.send_future ≡ false)
  stream_received ev x b bs last a c ok s small end_small =
      let pieces = (x ∷ b) ∷ (bs ++ last ∷ []) in
      let (bytes, closed, free) = streamed out hd hs name ev x b bs last a c ok s small end_small in
      (
        frames pieces ++ last_chunk,
        bytes,
        decode_chunks-frames (suc (length pieces)) pieces (omega arith),
        closed,
        free,
      )
