-- ===== src/Asgi/Stream/Whole.antt =====
-- A whole body in chunks.
use fastpysgi.Base.{
  ℕ, ◌+◌, ◌≡◌, refl, sym, ap, ◌∙◌, true, false, List, [], ◌∷◌, ◌++◌, append-nil, append_assoc,
  arith, ◌==◌, Bytes,
}
use fastpysgi.Server.Write.Chunks.{frame}
use fastpysgi.Server.Write.{wire, WriteEvent}
use fastpysgi.Client.{Client, resp_bild, resp_send}
use fastpysgi.Server.Status.{with_state}
use fastpysgi.Request.Reset.{reset_head_buffer, reset_response_preload}
use fastpysgi.Server.{read_stop, writing}
use fastpysgi.Asgi.{Asgi}
use fastpysgi.Asgi.Info.{Outside}
use fastpysgi.Asgi.Send.{
  footer_last_chunk, push_chunk, place_footer, place_chunk, with_size_line, send_chunk, asgi_send,
  returns, placed,
}
use fastpysgi.Asgi.Stream.{
  written, body_message, after_write, settle, deliver, deliver_all, frames, last_chunk,
}
use fastpysgi.Asgi.Stream.Steps.{
  Streaming, wrote, send_placed-eq, counted, asgi_send-eq, with_chunk, ended_chunks, IsSmall,
  wire-middle, wire-last, wire-end, after_piece, after_middle, after_last,
}

abbrev with_last : ℕ → Bytes → Client → Client
with_last x b c = push_chunk footer_last_chunk (ended_chunks (with_chunk (x ∷ b) c))

abbrev begun_state : Client → Client
begun_state c = with_state resp_bild c

module _ (x : ℕ) (b : Bytes) (a : Asgi) (c : Client) (s : Streaming a c) where
  place-middle : place_chunk false (x ∷ b) (begun_state c) ≡ placed (with_chunk (x ∷ b) c)
  unfolding place_chunk
  place-middle = rw (place_chunk, s.no_chunk) refl

  place-last : place_chunk true (x ∷ b) (begun_state c) ≡ placed (with_last x b c)
  unfolding place_chunk place_footer
  place-last = rw (place_chunk, place_footer, s.no_chunk) refl

  module _ (out : Outside) where
    send-middle :
        asgi_send out true (body_message false (x ∷ b)) a c
        ≡ wrote (counted false (x ∷ b) a) (with_size_line (with_chunk (x ∷ b) c))
    unfolding send_chunk
    send-middle =
        asgi_send-eq out false (x ∷ b) a c s
        ∙ ap (λ p. send_chunk out true (counted false (x ∷ b) a) p (begun_state c)) place-middle
        ∙ send_placed-eq out (counted false (x ∷ b) a) (with_chunk (x ∷ b) c) s.head_sent refl
            (rw s.chunks refl)

    send-last :
        asgi_send out true (body_message true (x ∷ b)) a c
        ≡ wrote (counted true (x ∷ b) a) (with_size_line (with_last x b c))
    unfolding send_chunk
    send-last =
        asgi_send-eq out true (x ∷ b) a c s
        ∙ ap (λ p. send_chunk out true (counted true (x ∷ b) a) p (begun_state c)) place-last
        ∙ send_placed-eq out (counted true (x ∷ b) a) (with_last x b c) s.head_sent refl refl

module _ (out : Outside) (a : Asgi) (c : Client) (s : Streaming a c) where
  send-skip :
      asgi_send out true (body_message false []) a c
      ≡ (returns, counted false [] a, begun_state c, [])
  unfolding send_chunk place_chunk
  send-skip = asgi_send-eq out false [] a c s

  send-end :
      asgi_send out true (body_message true []) a c
      ≡ wrote (counted true [] a) (with_size_line (ended_chunks (begun_state c)))
  unfolding send_chunk place_chunk place_footer
  send-end =
      asgi_send-eq out true [] a c s
      ∙ send_placed-eq out (counted true [] a) (ended_chunks (begun_state c)) s.head_sent refl refl

-- the state behind a piece that was sent
abbrev sent_piece : ℕ → Bytes → Client → Client
sent_piece x b c = after_piece (with_state resp_send (with_size_line (with_chunk (x ∷ b) c)))

abbrev resolved : Asgi → Asgi
resolved a = record a { send_future = false }

begun-next : (n : ℕ) → (n + 1 == 1) ≡ false → (n + 1 + 1 == 1) ≡ false
begun-next n h = ground arith

skip-Streaming :
    (a : Asgi) (c : Client) → Streaming a c → Streaming (counted false [] a) (begun_state c)
skip-Streaming a c s = record {
  known = s.known;
  head_sent = s.head_sent;
  open_end = s.open_end;
  begun = begun-next a.num_body s.begun;
  chunks = s.chunks;
  no_chunk = s.no_chunk;
  no_size = s.no_size;
}

piece-Streaming :
    (x : ℕ) (b : Bytes) (a : Asgi) (c : Client)
    → Streaming a c
    → Streaming (resolved (counted false (x ∷ b) a)) (sent_piece x b c)
unfolding reset_head_buffer reset_response_preload
piece-Streaming x b a c s = record {
  known = s.known;
  head_sent = s.head_sent;
  open_end = s.open_end;
  begun = begun-next a.num_body s.begun;
  chunks = s.chunks;
  no_chunk = refl;
  no_size = refl;
}

-- every piece is small
abbrev pub AllSmall : List Bytes → Type 0
AllSmall [] = Unit {0}
AllSmall (b ∷ bs) = IsSmall b × AllSmall bs

module _ (out : Outside) (ev : WriteEvent) (ok : ev.status_ok ≡ true) where
  deliver-middle :
      (x : ℕ) (b : Bytes) (a : Asgi) (c : Client)
      → Streaming a c
      → IsSmall (x ∷ b)
      → deliver out ev (body_message false (x ∷ b)) a c
        ≡ (frame (x ∷ b), resolved (counted false (x ∷ b) a), sent_piece x b c)
  unfolding deliver settle written
  deliver-middle x b a c s small =
      ap (settle out ev) (send-middle x b a c s out)
      ∙ ap (after_write (read_stop ∷ writing (wire (with_size_line (with_chunk (x ∷ b) c))) ∷ [])) (
          after_middle out.srv ev (counted false (x ∷ b) a)
            (with_state resp_send (with_size_line (with_chunk (x ∷ b) c))) ok s.open_end s.chunks)
      ∙ rw (wire-middle x b a c s small, append-nil) refl

  deliver-skip :
      (a : Asgi) (c : Client)
      → Streaming a c
      → deliver out ev (body_message false []) a c ≡ ([], counted false [] a, begun_state c)
  unfolding deliver settle written
  deliver-skip a c s = ap (settle out ev) (send-skip out a c s)

  -- the bytes of the last write, for what it puts on the wire
  ends :
      (a : Asgi) (c : Client)
      → c.response.chunked ≡ 2
      → let (bytes, a', c') = settle out ev (wrote (record a { latest_chunk = true }) c) in
        (bytes ≡ wire c) × (a'.latest_chunk ≡ true) × (a'.send_future ≡ false)
  unfolding settle written
  ends a c k =
      let object = after_last out.srv ev a (with_state resp_send c) ok k in
      (append-nil (wire c), ap (λ z. z.latest_chunk) object, ap (λ z. z.send_future) object)

  deliver-last :
      (last : Bytes) (a : Asgi) (c : Client)
      → Streaming a c
      → IsSmall last
      → let (bytes, a', c') = deliver out ev (body_message true last) a c in
        (bytes ≡ frames (last ∷ []) ++ last_chunk)
        × (a'.latest_chunk ≡ true)
        × (a'.send_future ≡ false)
  unfolding deliver frames
  deliver-last [] a c s small =
      let (bytes, closed, free) =
        ends (counted true [] a) (with_size_line (ended_chunks (begun_state c))) refl in
      rw (deliver, send-end out a c s) (bytes ∙ wire-end a c s, closed, free)
  deliver-last (x ∷ b) a c s small =
      let (bytes, closed, free) =
        ends (counted true (x ∷ b) a) (with_size_line (with_last x b c)) refl in
      rw (deliver, send-last x b a c s out)
        (
          bytes
              ∙ wire-last x b a c s small
              ∙ ap (λ t. t ++ last_chunk) (sym (append-nil (frame (x ∷ b)))),
          closed,
          free,
        )

  pub deliver_all-frames :
      (bs : List Bytes) (last : Bytes) (a : Asgi) (c : Client)
      → Streaming a c
      → AllSmall bs
      → IsSmall last
      → let (bytes, a', c') = deliver_all out ev bs last a c in
        (bytes ≡ frames (bs ++ last ∷ []) ++ last_chunk)
        × (a'.latest_chunk ≡ true)
        × (a'.send_future ≡ false)
  unfolding deliver_all frames
  deliver_all-frames [] last a c s m l = deliver-last last a c s l
  deliver_all-frames ([] ∷ bs) last a c s m l =
      rw (deliver_all, deliver-skip a c s)
        (deliver_all-frames bs last (counted false [] a) (begun_state c) (skip-Streaming a c s) m.1
          l)
  deliver_all-frames ((x ∷ b) ∷ bs) last a c s m l =
      let (bytes, closed, free) =
        deliver_all-frames bs last (resolved (counted false (x ∷ b) a)) (sent_piece x b c)
          (piece-Streaming x b a c s) m.1 l in
      rw (deliver_all, deliver-middle x b a c s m.0)
        (
          ap (λ t. frame (x ∷ b) ++ t) bytes
              ∙ sym (append_assoc (frame (x ∷ b)) (frames (bs ++ last ∷ [])) last_chunk),
          closed,
          free,
        )
