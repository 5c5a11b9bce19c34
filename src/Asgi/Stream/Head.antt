-- ===== src/Asgi/Stream/Head.antt =====
-- The first message of a body in chunks: the head of the response goes out with it.
use fastpysgi.Base.{
  ℕ, ◌+◌, ◌≡◌, refl, ap, ◌∙◌, inr, Bool, true, false, none, some, List, [], ◌∷◌, ◌++◌, append-nil,
  append_assoc, arith, ltb, leb, ◌==◌, length, length-append, ℤ, is_zero, is_pos, pos, Bytes,
  int_max, codes,
}
use fastpysgi.Asgi.Stream.Whole.{AllSmall, deliver_all-frames}
use fastpysgi.Server.Write.{join_cut, wire, WriteEvent}
use fastpysgi.Server.Write.Chunks.{frame}
use fastpysgi.Asgi.Stream.{
  written, body_message, after_write, settle, deliver, deliver_all, frames, last_chunk,
}
use fastpysgi.Server.Status.{with_state}
use fastpysgi.Asgi.Stream.Steps.{
  Streaming, wrote, send_write-eq, counted, zero_plus, positive, IsSmall, cut-IsSmall, after_piece,
  after_middle,
}
use fastpysgi.Asgi.Send.{
  place_first, place_chunk, send_built, send_placed, send_chunk, send_bytes, send_body, asgi_send,
}
use fastpysgi.Response.Body.{add_chunk}
use fastpysgi.Base.Print.{upper_hex}
use fastpysgi.Client.{is_sending, Method, is_head, Client, resp_bild, resp_send}
use fastpysgi.Request.Reset.{reset_head_buffer, reset_response_preload}
use fastpysgi.Response.Head.{
  Header, crlf, hdr, header_lines, server_lines, status_line, is_bodiless, end_chunked, finish_head,
  build_response,
}
use fastpysgi.Server.{read_stop, writing}
use fastpysgi.Asgi.{AsgiHeaders, Asgi}
use fastpysgi.Asgi.Info.{read_headers, Outside, build_head, keep_built, asgi_build_response}

-- The head of a response in chunks, for the headers that were read and the name of the status.
abbrev pub chunked_head : Outside → ℤ → Bytes → Bool → List Header → Bytes
chunked_head out status name keep hs =
    status_line status name
    ++ header_lines out.srv hs
    ++ server_lines out.srv out.date keep hs
    ++ (hdr out.srv (codes "Transfer-Encoding: chunked") ++ crlf ++ crlf)

-- The start of the response is known and acceptable, and nothing of the body has come.
pub record Begun (out : Outside) (hd : AsgiHeaders) (hs : List Header) (name : Bytes) (a : Asgi)
    (c : Client) : Type 0 where
  pub known : is_zero a.send_status ≡ false
  pub head_open : a.start_response ≡ some hd
  pub readable : read_headers hd ≡ inr hs
  pub named : out.status_name a.send_status ≡ some name
  pub with_body : is_bodiless a.send_status c.request.method ≡ false
  pub open_end : a.latest_chunk ≡ false
  pub nothing : a.num_body ≡ 0
  pub no_chunk : c.response.body ≡ []
  pub no_size : c.response.body_preloaded_size ≡ 0

not_head :
    (status : ℤ) (method : Method) → is_bodiless status method ≡ false → is_head method ≡ false
unfolding is_bodiless
not_head status method h = ground arith

pub is_first : (n : ℕ) → n ≡ 0 → (n + 1 == 1) ≡ true
is_first n h = ground arith

pub is_second : (n : ℕ) → n ≡ 0 → (n + 1 + 1 == 1) ≡ false
is_second n h = ground arith

long_head : (xs ys : Bytes) (y : ℕ) (zs : Bytes) → ltb 0 (length (xs ++ (ys ++ y ∷ zs))) ≡ true
long_head xs ys y zs = ground (arith, length-append xs (ys ++ y ∷ zs), length-append ys (y ∷ zs))

regroup : (h s b e : Bytes) → h ++ s ++ b ++ e ≡ h ++ (s ++ b ++ e)
regroup h s b e = simp append_assoc

-- the connection behind a head that is built
abbrev pub with_built : Bytes → Client → Client
with_built h c = record (reset_head_buffer c) {
  head = h;
  response = record (c.response) { headers_size = length h };
}

-- the connection at the begin of a chunked body
abbrev pub started : Client → Client
started c = record (with_state resp_bild c) {
  response = record (c.response) { chunked = 1; body = [] };
}

module _ (out : Outside) (hd : AsgiHeaders) (hs : List Header) (name : Bytes) where
  -- the head and the size behind it
  abbrev pub head_of : ℤ → Client → Bytes
  head_of status c =
      chunked_head out status name c.request.keep_alive hs
      ++ (upper_hex c.response.body_preloaded_size ++ crlf)

  build_head-eq :
      (status : ℤ) (c : Client)
      → read_headers hd ≡ inr hs
      → out.status_name status ≡ some name
      → is_bodiless status c.request.method ≡ false
      → (c.response.chunked == 0) ≡ false
      → leb int_max c.response.body_preloaded_size ≡ false
      → build_head out status hd c
        ≡ (pos (length (head_of status c)), with_built (head_of status c) c)
  unfolding build_head build_response finish_head end_chunked reset_head_buffer
  build_head-eq status c r n b k small =
      rw
        (
          build_head,
          build_response,
          finish_head,
          end_chunked,
          r,
          n,
          b,
          not_head status c.request.method b,
          k,
          small,
        )
        refl

  head_of-pos : (status : ℤ) (c : Client) → is_pos (pos (length (head_of status c))) ≡ true
  unfolding status_line
  head_of-pos status c = ground arith

  asgi_build_response-eq :
      (status : ℤ) (c : Client)
      → read_headers hd ≡ inr hs
      → out.status_name status ≡ some name
      → is_bodiless status c.request.method ≡ false
      → (c.response.chunked == 0) ≡ false
      → leb int_max c.response.body_preloaded_size ≡ false
      → asgi_build_response out status hd c ≡ (pos 0, with_built (head_of status c) c)
  unfolding asgi_build_response keep_built
  asgi_build_response-eq status c r n b k small =
      ap keep_built (build_head-eq status c r n b k small)
      ∙ rw (keep_built, head_of-pos status c) refl

  pub send_placed-chunked :
      (a : Asgi) (c : Client)
      → a.start_response ≡ some hd
      → is_sending c.state ≡ false
      → read_headers hd ≡ inr hs
      → out.status_name a.send_status ≡ some name
      → is_bodiless a.send_status c.request.method ≡ false
      → (c.response.chunked == 0) ≡ false
      → leb int_max c.response.body_preloaded_size ≡ false
      → send_placed out true a c
        ≡ wrote (record a { start_response = none }) (with_built (head_of a.send_status c) c)
  unfolding send_placed send_built reset_head_buffer
  send_placed-chunked a c h idle r n b k small =
      rw (send_placed, h, asgi_build_response-eq a.send_status c r n b k small, send_built)
        (send_write-eq (record a { start_response = none }) (with_built (head_of a.send_status c) c)
          idle refl)

  to_placed :
      (x : ℕ) (b : Bytes) (a : Asgi) (c : Client)
      → Begun out hd hs name a c
      → asgi_send out true (body_message false (x ∷ b)) a c
        ≡ send_placed out true (counted false (x ∷ b) a) (add_chunk (x ∷ b) (started c))
  unfolding asgi_send send_body send_bytes place_first place_chunk send_chunk
  to_placed x b a c s = rw (asgi_send, s.known, s.open_end, is_first a.num_body s.nothing) refl

  -- the connection behind the head and the first piece
  abbrev pub first_sent : ℕ → Bytes → Asgi → Client → Client
  first_sent x b a c =
      let d = add_chunk (x ∷ b) (started c) in with_built (head_of a.send_status d) d

  first_piece :
      (x : ℕ) (b : Bytes) (a : Asgi) (c : Client)
      → Begun out hd hs name a c
      → leb int_max (length (x ∷ b)) ≡ false
      → asgi_send out true (body_message false (x ∷ b)) a c
        ≡ wrote (record (counted false (x ∷ b) a) { start_response = none }) (first_sent x b a c)
  first_piece x b a c s small =
      to_placed x b a c s
      ∙ send_placed-chunked (counted false (x ∷ b) a) (add_chunk (x ∷ b) (started c)) s.head_open
          refl s.readable s.named s.with_body refl (small_piece c b s.no_size small)
    where
      small_piece :
          (c : Client) (b : Bytes)
          → c.response.body_preloaded_size ≡ 0
          → leb int_max (length (x ∷ b)) ≡ false
          → leb int_max (c.response.body_preloaded_size + length (x ∷ b)) ≡ false
      small_piece c b z h = ground arith

  wire-first :
      (x : ℕ) (b : Bytes) (a : Asgi) (c : Client)
      → Begun out hd hs name a c
      → IsSmall (x ∷ b)
      → wire (first_sent x b a c)
        ≡ chunked_head out a.send_status name c.request.keep_alive hs ++ frame (x ∷ b)
  unfolding wire join_cut
  wire-first x b a c s small =
      rw
        (
          wire,
          s.no_size,
          zero_plus (length (x ∷ b)),
          cut-IsSmall (x ∷ b) small,
          positive x b,
          long_head (chunked_head out a.send_status name c.request.keep_alive hs)
              (upper_hex (length (x ∷ b))) 13 (10 ∷ []),
          append-nil,
        )
        (regroup (chunked_head out a.send_status name c.request.keep_alive hs)
          (upper_hex (length (x ∷ b)) ++ crlf) (x ∷ b) crlf)

  -- the object behind the head and the first piece
  abbrev headed : ℕ → Bytes → Asgi → Asgi
  headed x b a = record (counted false (x ∷ b) a) { start_response = none }

  first-Streaming :
      (x : ℕ) (b : Bytes) (a : Asgi) (c : Client)
      → Begun out hd hs name a c
      → Streaming
          (record (headed x b a) { send_future = false })
          (after_piece (with_state resp_send (first_sent x b a c)))
  unfolding reset_head_buffer reset_response_preload
  first-Streaming x b a c s = record {
    known = s.known;
    head_sent = refl;
    open_end = s.open_end;
    begun = is_second a.num_body s.nothing;
    chunks = refl;
    no_chunk = refl;
    no_size = refl;
  }

  deliver-first :
      (ev : WriteEvent) (x : ℕ) (b : Bytes) (a : Asgi) (c : Client)
      → ev.status_ok ≡ true
      → Begun out hd hs name a c
      → leb int_max (length (x ∷ b)) ≡ false
      → deliver out ev (body_message false (x ∷ b)) a c ≡ (
        chunked_head out a.send_status name c.request.keep_alive hs ++ frame (x ∷ b),
        record (headed x b a) { send_future = false },
        after_piece (with_state resp_send (first_sent x b a c)),
      )
  unfolding deliver settle written
  deliver-first ev x b a c ok s small =
      ap (settle out ev) (first_piece x b a c s small)
      ∙ ap (after_write (read_stop ∷ writing (wire (first_sent x b a c)) ∷ [])) (
          after_middle out.srv ev (headed x b a) (with_state resp_send (first_sent x b a c)) ok
            s.open_end refl)
      ∙ rw (wire-first x b a c s small, append-nil) refl

  -- An application that sends its body in messages, the first of them not empty and all below 2 GiB, and
  -- awaits each, on a connection whose writes succeed: the bytes on the wire are the head of a chunked
  -- response, then a frame for each piece that is not empty, in order, then the last chunk; and the
  -- object is closed to further messages with no future left open.
  pub streamed :
      (ev : WriteEvent) (x : ℕ) (b : Bytes) (bs : List Bytes) (last : Bytes) (a : Asgi) (c : Client)
      → ev.status_ok ≡ true
      → Begun out hd hs name a c
      → AllSmall ((x ∷ b) ∷ bs)
      → IsSmall last
      → let (bytes, a', c') = deliver_all out ev ((x ∷ b) ∷ bs) last a c in
        (bytes
          ≡ chunked_head out a.send_status name c.request.keep_alive hs
            ++ (frames (((x ∷ b) ∷ bs) ++ last ∷ []) ++ last_chunk))
        × (a'.latest_chunk ≡ true)
        × (a'.send_future ≡ false)
  unfolding deliver_all frames
  streamed ev x b bs last a c ok s small end_small =
      let (bytes, closed, free) =
        deliver_all-frames out ev ok bs last (record (headed x b a) { send_future = false })
          (after_piece (with_state resp_send (first_sent x b a c))) (first-Streaming x b a c s)
          small.1 end_small in
      rw (deliver_all, deliver-first ev x b a c ok s small.0)
        (
          ap
                (λ t.
                  chunked_head out a.send_status name c.request.keep_alive hs ++ frame (x ∷ b) ++ t)
                bytes
              ∙ regroup2 (chunked_head out a.send_status name c.request.keep_alive hs)
                  (frame (x ∷ b)) (frames (bs ++ last ∷ [])) last_chunk,
          closed,
          free,
        )
    where
      regroup2 : (h s b e : Bytes) → h ++ s ++ (b ++ e) ≡ h ++ (s ++ b ++ e)
      regroup2 h s b e = simp append_assoc
