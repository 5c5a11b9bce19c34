-- ===== src/Asgi/Outcomes.antt =====
-- What asgi_send (fastwsgi/asgi.c) leaves on every branch.
use fastpysgi.Base.{
  ◌+◌, ◌≡◌, refl, ◌⊎◌, inl, inr, Bool, true, false, not, ◌&&◌, Option, none, some, [], arith, ltb,
  ◌==◌, if◌then◌else◌, Bool-cases, length, ℤ, is_zero, Bytes,
}
use fastpysgi.Client.{is_sending, is_destroy, Client, resp_bild}
use fastpysgi.Server.Status.{with_state}
use fastpysgi.Server.Write.{stream_write}
use fastpysgi.Asgi.{AsgiHeaders, Asgi}
use fastpysgi.Asgi.Info.{asgi_get_info_from_response, Outside, asgi_build_response}
use fastpysgi.Asgi.Send.{
  Kind, BodyField, Message, Outcome, send_error, check_status, is_start, send_start, place_first,
  Placed, place_chunk, with_size_line, send_write, send_built, send_placed, send_chunk, send_bytes,
  send_body, send_event, asgi_send, not_dict, no_type, type_not_text, response_start, response_body,
  other_type, no_body, body_not_bytes, body_bytes, raises, awaits, returns, skipped, refused,
  placed,
}
use fastpysgi.Asgi.Neat.{Neat, NeatPlaced, first-Neat, place_chunk-Neat, built-Neat}

-- An exception marks the connection for its end; a future that is returned is kept for the end of a
-- write that is in flight; and if the object itself is returned, nothing is asked of libuv.
unfoldable pub Accounted : Outcome → Type 0
Accounted (raises e, a, c, es) = is_destroy c.state ≡ true
Accounted (awaits, a, c, es) = (a.send_future ≡ true) × (is_sending c.state ≡ true)
Accounted (returns, a, c, es) = es ≡ []

sized_head :
    (c : Client)
    → Neat c
    → (ltb 0 c.response.headers_size && not (c.response.headers_size == length c.head)) ≡ false
sized_head c h = ground arith

send_error-Accounted : (e : ℤ) (a : Asgi) (c : Client) → Accounted (send_error e a c)
unfolding Accounted
send_error-Accounted e a c = refl

send_write-Accounted :
    (uv_ok : Bool) (a : Asgi) (c : Client) → Neat c → Accounted (send_write uv_ok a c)
unfolding Accounted send_write stream_write
send_write-Accounted uv_ok a c h = elim (Bool-cases (is_sending c.state)) [
  | inl s ↦ rw (send_write, s) refl
  | inr s ↦ elim (Bool-cases uv_ok) [
    | inl u ↦ rw (send_write, s, sized_head c h, u) (refl, refl)
    | inr u ↦ rw (send_write, s, sized_head c h, u) refl
  ]
]

module _ (out : Outside) where
  send_built-Accounted :
      (uv_ok : Bool) (a : Asgi) (p : ℤ × Client) → Neat p.1 → Accounted (send_built uv_ok a p)
  unfolding send_built
  send_built-Accounted uv_ok a (err, d) h = elim (Bool-cases (is_zero err)) [
    | inl y ↦ rw (send_built, y) (send_write-Accounted uv_ok a d h)
    | inr n ↦ rw (send_built, n) (send_error-Accounted err a d)
  ]

  send_placed-Accounted :
      (uv_ok : Bool) (a : Asgi) (c : Client) → Neat c → Accounted (send_placed out uv_ok a c)
  unfolding send_placed
  send_placed-Accounted uv_ok a c h = by_head a.start_response refl
    where
      by_head :
          (o : Option AsgiHeaders) → a.start_response ≡ o → Accounted (send_placed out uv_ok a c)
      by_head (some hd) e =
          rw (send_placed, e)
            (send_built-Accounted uv_ok (record a { start_response = none })
              (asgi_build_response out a.send_status hd c) (built-Neat out a.send_status hd c))
      by_head none e = elim (Bool-cases (c.response.chunked == 0)) [
        | inl y ↦ rw (send_placed, e, y) (send_write-Accounted uv_ok a c h)
        | inr n ↦ rw (send_placed, e, n) (send_write-Accounted uv_ok a (with_size_line c) refl)
      ]

  send_chunk-Accounted :
      (uv_ok : Bool) (a : Asgi) (p : Placed) (c : Client)
      → NeatPlaced c p
      → Accounted (send_chunk out uv_ok a p c)
  unfolding send_chunk Accounted
  send_chunk-Accounted uv_ok a skipped c h = refl
  send_chunk-Accounted uv_ok a (refused e d) c h = refl
  send_chunk-Accounted uv_ok a (placed d) c h = send_placed-Accounted uv_ok a d h

  send_bytes-Accounted :
      (uv_ok latest : Bool) (body : Bytes) (a : Asgi) (c : Client)
      → Neat c
      → Accounted (send_bytes out uv_ok latest body a c)
  unfolding send_bytes
  send_bytes-Accounted uv_ok latest body a c h =
      go (if a.num_body == 1 then place_first latest body c else c)
        (first-Neat (a.num_body == 1) latest body c h)
    where
      counted_a : Asgi
      counted_a = record a {
        body_size = a.body_size + length body;
        latest_chunk = if latest then true else a.latest_chunk;
      }

      go :
          (d : Client)
          → Neat d
          → Accounted (
              if d.response.chunked == 0
              then send_placed out uv_ok counted_a d
              else send_chunk out uv_ok counted_a (place_chunk latest body d) d)
      go d k = elim (Bool-cases (d.response.chunked == 0)) [
        | inl y ↦ rw y (send_placed-Accounted uv_ok counted_a d k)
        | inr n ↦ rw n (
            send_chunk-Accounted uv_ok counted_a (place_chunk latest body d) d
              (place_chunk-Neat latest body d k))
      ]

  send_body-Accounted :
      (uv_ok : Bool) (m : Message) (a : Asgi) (c : Client)
      → Neat c
      → Accounted (send_body out uv_ok m a c)
  unfolding send_body Accounted
  send_body-Accounted uv_ok m a c h = by_body m.body refl
    where
      b : Asgi
      b = record a { num_body = a.num_body + 1 }

      by_body : (f : BodyField) → m.body ≡ f → Accounted (send_body out uv_ok m a c)
      by_body no_body e =
          rw (send_body, e)
            (send_bytes-Accounted uv_ok (not m.more_body) [] b (with_state resp_bild c) h)
      by_body body_not_bytes e = rw (send_body, e) refl
      by_body (body_bytes bytes) e =
          rw (send_body, e)
            (send_bytes-Accounted uv_ok (not m.more_body) bytes b (with_state resp_bild c) h)

  send_start-Accounted : (m : Message) (a : Asgi) (c : Client) → Accounted (send_start out m a c)
  unfolding send_start Accounted
  send_start-Accounted m a c = elim (Bool-cases (not (is_start m.kind))) [
    | inl y ↦ rw (send_start, y) refl
    | inr n ↦ by_status n (check_status m.status) refl
  ]
    where
      by_status :
          not (is_start m.kind) ≡ false
          → (o : ℤ ⊎ ℤ) → check_status m.status ≡ o
          → Accounted (send_start out m a c)
      by_status n (inl x) e = rw (send_start, n, e) refl
      by_status n (inr x) e =
          elim (Bool-cases (is_zero (asgi_get_info_from_response out.strtoll m.headers c).0)) [
            | inl y ↦ rw (send_start, n, e, y) refl
            | inr z ↦ rw (send_start, n, e, z) refl
          ]

  send_event-Accounted :
      (uv_ok : Bool) (m : Message) (a : Asgi) (c : Client)
      → Neat c
      → Accounted (send_event out uv_ok m a c)
  unfolding send_event Accounted
  send_event-Accounted uv_ok m a c h = elim (Bool-cases (is_zero a.send_status)) [
    | inl y ↦ rw (send_event, y) (send_start-Accounted m a c)
    | inr n ↦ by_kind n m.kind refl
  ]
    where
      open_or_not :
          (b : Bool) → Accounted (if b then (returns, a, c, []) else send_body out uv_ok m a c)
      open_or_not true = refl
      open_or_not false = send_body-Accounted uv_ok m a c h

      by_kind :
          is_zero a.send_status ≡ false
          → (k : Kind) → m.kind ≡ k
          → Accounted (send_event out uv_ok m a c)
      by_kind n not_dict e = rw (send_event, n, e) refl
      by_kind n no_type e = rw (send_event, n, e) refl
      by_kind n type_not_text e = rw (send_event, n, e) refl
      by_kind n response_start e = rw (send_event, n, e) refl
      by_kind n other_type e = rw (send_event, n, e) refl
      by_kind n response_body e = rw (send_event, n, e) (open_or_not a.latest_chunk)

  -- Whatever an ASGI application sends, on a connection whose recorded size of the head is its length,
  -- and whatever libuv answers: an exception marks the connection for its end; a future that is
  -- returned is kept while a write is in flight, whose end completes it; and if the object itself is
  -- returned, nothing is asked of libuv.
  pub asgi_send-Accounted :
      (uv_ok : Bool) (m : Message) (a : Asgi) (c : Client)
      → Neat c
      → Accounted (asgi_send out uv_ok m a c)
  unfolding asgi_send Accounted
  asgi_send-Accounted uv_ok m a c h = by_kind m.kind refl
    where
      by_kind : (k : Kind) → m.kind ≡ k → Accounted (asgi_send out uv_ok m a c)
      by_kind not_dict e = rw (asgi_send, e) refl
      by_kind no_type e = rw (asgi_send, e) refl
      by_kind type_not_text e = rw (asgi_send, e) refl
      by_kind response_start e = rw (asgi_send, e) (send_event-Accounted uv_ok m a c h)
      by_kind response_body e = rw (asgi_send, e) (send_event-Accounted uv_ok m a c h)
      by_kind other_type e = rw (asgi_send, e) (send_event-Accounted uv_ok m a c h)
