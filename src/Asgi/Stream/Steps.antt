-- ===== src/Asgi/Stream/Steps.antt =====
-- One message of a body that is being streamed.
use fastpysgi.Base.{
  ℕ, suc, ◌+◌, ◌≡◌, refl, ap, ◌∙◌, inl, inr, Bool, true, false, not, ◌&&◌, ◌||◌, none, [], ◌∷◌,
  ◌++◌, append-nil, append_assoc, arith, ltb, leb, ◌==◌, if◌then◌else◌, Bool-cases, length,
  length-append, is_zero, Bytes, int_max, codes,
}
use fastpysgi.Response.Body.{add_chunk}
use fastpysgi.Asgi.Written.{write_cb_asgi}
use fastpysgi.Server.Write.Chunks.{frame, u32-small, cut-small}
use fastpysgi.Client.{is_sending, Client, Srv, resp_bild, resp_send}
use fastpysgi.Request.Reset.{reset_head_buffer, reset_response_preload}
use fastpysgi.Server.{writing, read_stop, resolve_send}
use fastpysgi.Server.Status.{with_state}
use fastpysgi.Server.Write.{cut, join_cut, wire, stream_write, WriteEvent, count_written}
use fastpysgi.Base.Print.{upper_hex}
use fastpysgi.Asgi.{Asgi}
use fastpysgi.Asgi.Info.{Outside}
use fastpysgi.Asgi.Send.{
  Outcome, footer_last_chunk, push_chunk, place_chunk, size_text, with_size_line, send_write,
  send_placed, send_chunk, send_bytes, send_body, asgi_send, awaits,
}
use fastpysgi.Asgi.Stream.{body_message, last_chunk}

-- The head has been sent, and the body goes on.
pub record Streaming (a : Asgi) (c : Client) : Type 0 where
  pub known : is_zero a.send_status ≡ false
  pub head_sent : a.start_response ≡ none
  pub open_end : a.latest_chunk ≡ false
  pub begun : (a.num_body + 1 == 1) ≡ false
  pub chunks : c.response.chunked ≡ 1
  pub no_chunk : c.response.body ≡ []
  pub no_size : c.response.body_preloaded_size ≡ 0

-- what a write that is accepted gives
abbrev pub wrote : Asgi → Client → Outcome
wrote a c = (
  awaits,
  record a { send_future = true },
  with_state resp_send c,
  read_stop ∷ writing (wire c) ∷ [],
)

head_size_ok : (n : ℕ) → (ltb 0 n && not (n == n)) ≡ false
head_size_ok n = ground arith

pub send_write-eq :
    (a : Asgi) (c : Client)
    → is_sending c.state ≡ false
    → c.response.headers_size ≡ length c.head
    → send_write true a c ≡ wrote a c
unfolding send_write stream_write
send_write-eq a c idle sized =
    rw (send_write, stream_write, idle, sized, head_size_ok (length c.head)) refl

pub send_placed-eq :
    (out : Outside) (a : Asgi) (c : Client)
    → a.start_response ≡ none
    → is_sending c.state ≡ false
    → (c.response.chunked == 0) ≡ false
    → send_placed out true a c ≡ wrote a (with_size_line c)
unfolding send_placed
send_placed-eq out a c h idle k =
    let gone : a ≡ record a { start_response = none } =
      ap (λ o. record a { start_response = o }) h in
    rw (send_placed, h, k)
      (ap (λ z. send_write true z (with_size_line c)) gone
        ∙ send_write-eq (record a { start_response = none }) (with_size_line c) idle refl)

-- the ASGI object behind a body message
abbrev pub counted : Bool → Bytes → Asgi → Asgi
counted latest b a = record a {
  num_body = a.num_body + 1;
  body_size = a.body_size + length b;
  latest_chunk = if latest then true else a.latest_chunk;
}

pub asgi_send-eq :
    (out : Outside) (latest : Bool) (b : Bytes) (a : Asgi) (c : Client)
    → Streaming a c
    → asgi_send out true (body_message latest b) a c
      ≡ send_chunk out true
          (counted latest b a)
          (place_chunk latest b (with_state resp_bild c))
          (with_state resp_bild c)
unfolding asgi_send send_body send_bytes
asgi_send-eq out true b a c s = rw (asgi_send, s.known, s.open_end, s.begun, s.chunks) refl
asgi_send-eq out false b a c s = rw (asgi_send, s.known, s.open_end, s.begun, s.chunks) refl

pub has_length : (xs : Bytes) (y : ℕ) (ys : Bytes) → ltb 0 (length (xs ++ y ∷ ys)) ≡ true
has_length xs y ys = ground (arith, length-append xs (y ∷ ys))

pub zero_plus : (n : ℕ) → 0 + n ≡ n
zero_plus n = omega arith

pub positive : (x : ℕ) (b : Bytes) → ltb 0 (length (x ∷ b)) ≡ true
positive x b = ground arith

-- the connection with a chunk placed
abbrev pub with_chunk : Bytes → Client → Client
with_chunk b c = add_chunk b (with_state resp_bild c)

abbrev pub ended_chunks : Client → Client
ended_chunks c = record c { response = record (c.response) { chunked = 2 } }

-- The size of a piece is below INT_MAX.
abbrev pub IsSmall : Bytes → Type 0
IsSmall b = leb int_max (length b) ≡ false

pub cut-IsSmall : (b : Bytes) → IsSmall b → cut b ≡ b
cut-IsSmall b h = cut-small b (ground (arith, h))

pub cut-footer : cut footer_last_chunk ≡ footer_last_chunk
unfolding cut
cut-footer = refl

pub size_text-IsSmall :
    (x : ℕ) (b : Bytes)
    → IsSmall (x ∷ b)
    → size_text (length (x ∷ b)) ≡ upper_hex (length (x ∷ b)) ++ codes "\r\n"
unfolding size_text
size_text-IsSmall x b h =
    rw (u32-small (length (x ∷ b)) (ground (arith, h)), in_range (length b) h) refl
  where
    in_range :
        (n : ℕ) → leb int_max (suc n) ≡ false → (ltb 0 (suc n) && ltb (suc n) 2147483648) ≡ true
    in_range n k = ground (arith, k)

pub wire-middle :
    (x : ℕ) (b : Bytes) (a : Asgi) (c : Client)
    → Streaming a c
    → IsSmall (x ∷ b)
    → wire (with_size_line (with_chunk (x ∷ b) c)) ≡ frame (x ∷ b)
unfolding wire join_cut
wire-middle x b a c s small =
    rw
      (
        wire,
        s.no_chunk,
        s.no_size,
        s.chunks,
        zero_plus (length (x ∷ b)),
        size_text-IsSmall x b small,
        cut-IsSmall (x ∷ b) small,
        positive x b,
        has_length (upper_hex (length (x ∷ b))) 13 (10 ∷ []),
        append-nil,
      )
      refl

pub wire-last :
    (x : ℕ) (b : Bytes) (a : Asgi) (c : Client)
    → Streaming a c
    → IsSmall (x ∷ b)
    → wire (with_size_line (push_chunk footer_last_chunk (ended_chunks (with_chunk (x ∷ b) c))))
      ≡ frame (x ∷ b) ++ last_chunk
unfolding wire join_cut
wire-last x b a c s small =
    rw
      (
        wire,
        s.no_chunk,
        s.no_size,
        zero_plus (length (x ∷ b)),
        size_text-IsSmall x b small,
        cut-IsSmall (x ∷ b) small,
        cut-footer,
        positive x b,
        has_length (upper_hex (length (x ∷ b))) 13 (10 ∷ []),
        append-nil,
      )
      (simp append_assoc)

pub wire-end :
    (a : Asgi) (c : Client)
    → Streaming a c
    → wire (with_size_line (ended_chunks (with_state resp_bild c))) ≡ last_chunk
unfolding wire size_text
wire-end a c s = rw (wire, s.no_size) refl

-- the write of a piece that is not the last has ended
abbrev pub after_piece : Client → Client
after_piece c =
    with_state resp_send
      (reset_head_buffer (with_state resp_bild (reset_response_preload (count_written c))))

pub after_middle :
    (srv : Srv) (ev : WriteEvent) (a : Asgi) (c : Client)
    → ev.status_ok ≡ true
    → a.latest_chunk ≡ false
    → c.response.chunked ≡ 1
    → write_cb_asgi srv ev true (record a { send_future = true }) c
      ≡ (record a { send_future = false }, after_piece c, resolve_send ∷ [])
unfolding write_cb_asgi
after_middle srv ev a c ok more k = rw (write_cb_asgi, ok, k, more) refl

-- the write of the last piece has ended: the future is resolved and the object is closed to more
pub after_last :
    (srv : Srv) (ev : WriteEvent) (a : Asgi) (c : Client)
    → ev.status_ok ≡ true
    → c.response.chunked ≡ 2
    → (write_cb_asgi srv ev true (record a { send_future = true; latest_chunk = true }) c).0
      ≡ record a { send_future = false; latest_chunk = true }
unfolding write_cb_asgi
after_last srv ev a c ok k =
    elim (Bool-cases (not c.request.keep_alive || not srv.allow_keepalive)) [
      | inl e ↦ rw (write_cb_asgi, ok, k, e) refl
      | inr e ↦ rw (write_cb_asgi, ok, k, e) refl
    ]
