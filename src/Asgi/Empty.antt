-- ===== src/Asgi/Empty.antt =====
-- A body without bytes in several messages (fastwsgi/asgi.c).
use fastpysgi.Base.{
  ℕ, zero, suc, ◌≡◌, refl, ap, ◌∙◌, true, false, none, List, [], ◌∷◌, ◌++◌, append-nil,
  append_assoc, Bytes, codes,
}
use fastpysgi.Common.Ascii.{hex_to_dig}
use fastpysgi.Client.{Client}
use fastpysgi.Response.Head.{Header, crlf}
use fastpysgi.Asgi.{AsgiHeaders, Asgi}
use fastpysgi.Asgi.Info.{Outside}
use fastpysgi.Asgi.Send.{
  place_first, place_footer, place_chunk, send_placed, send_chunk, send_bytes, send_body, asgi_send,
  returns,
}
use fastpysgi.Asgi.Stream.{written, body_message, settle, deliver, and_then, deliver_all}
use fastpysgi.Asgi.Stream.Head.{
  chunked_head, Begun, is_first, is_second, with_built, started, head_of, send_placed-chunked,
}
use fastpysgi.Asgi.Stream.Steps.{wrote, counted, has_length, ended_chunks}
use fastpysgi.Asgi.Stream.Decode.{chunk_size, strip_crlf, one_chunk, decode_chunks}
use fastpysgi.Server.Write.{wire, WriteEvent}
use fastpysgi.Base.Print.{to_base, digit_char, upper_hex}

cut_short : (fuel : ℕ) → decode_chunks fuel (codes "0\r\n") ≡ none
unfolding decode_chunks one_chunk strip_crlf chunk_size hex_to_dig
cut_short zero = refl
cut_short (suc fuel) = refl

module _ (out : Outside) (hd : AsgiHeaders) (hs : List Header) (name : Bytes) where
  abbrev ended_empty : Client → Client
  ended_empty c = ended_chunks (started c)

  skipped_first :
      (a : Asgi) (c : Client)
      → Begun out hd hs name a c
      → asgi_send out true (body_message false []) a c
        ≡ (returns, counted false [] a, started c, [])
  unfolding asgi_send send_body send_bytes place_first place_chunk send_chunk
  skipped_first a c s = rw (asgi_send, s.known, s.open_end, is_first a.num_body s.nothing) refl

  last_empty :
      (a : Asgi) (c : Client)
      → Begun out hd hs name a c
      → asgi_send out true (body_message true []) (counted false [] a) (started c)
        ≡ send_placed out true (counted true [] (counted false [] a)) (ended_empty c)
  unfolding asgi_send send_body send_bytes place_chunk place_footer send_chunk
  last_empty a c s = rw (asgi_send, s.known, s.open_end, is_second a.num_body s.nothing) refl

  -- the connection behind the head of a body that has no bytes
  abbrev ended_head : Asgi → Client → Client
  ended_head a c = with_built (head_of out hd hs name a.send_status (ended_empty c)) (ended_empty c)

  send_empty :
      (a : Asgi) (c : Client)
      → Begun out hd hs name a c
      → asgi_send out true (body_message true []) (counted false [] a) (started c)
        ≡ wrote
            (record (counted true [] (counted false [] a)) { start_response = none })
            (ended_head a c)
  send_empty a c s =
      last_empty a c s
      ∙ send_placed-chunked out hd hs name (counted true [] (counted false [] a)) (ended_empty c)
          s.head_open refl s.readable s.named s.with_body refl (rw s.no_size refl)

  wire-empty :
      (a : Asgi) (c : Client)
      → Begun out hd hs name a c
      → wire (ended_head a c)
        ≡ chunked_head out a.send_status name c.request.keep_alive hs ++ codes "0\r\n"
  unfolding wire upper_hex to_base digit_char
  wire-empty a c s =
      rw
        (
          wire,
          s.no_size,
          has_length (chunked_head out a.send_status name c.request.keep_alive hs) 48 crlf,
        )
        (simp (append_assoc, append-nil))

  two_empty :
      (ev : WriteEvent) (a : Asgi) (c : Client)
      → Begun out hd hs name a c
      → (deliver_all out ev ([] ∷ []) [] a c).0 ≡ wire (ended_head a c)
  unfolding deliver_all deliver settle written
  two_empty ev a c s =
      ap
        (λ o. (and_then (λ a' c'. deliver out ev (body_message true []) a' c') (settle out ev o)).0)
        (skipped_first a c s)
      ∙ ap (λ o. (settle out ev o).0) (send_empty a c s)
      ∙ append-nil (wire (ended_head a c))

  -- An application that sends its body in messages but whose first two messages, the last among them,
  -- hold no byte, on an idle connection: the bytes on the wire are the head of a chunked response and
  -- the size of the last chunk without the line end that closes the body, so a client that reads the
  -- body finds it unfinished however long it reads.
  pub empty_stream_unfinished :
      (ev : WriteEvent) (a : Asgi) (c : Client) (fuel : ℕ)
      → Begun out hd hs name a c
      → let bytes = (deliver_all out ev ([] ∷ []) [] a c).0 in
        (body : Bytes) × (bytes
          ≡ chunked_head out a.send_status name c.request.keep_alive hs ++ body)
        × (decode_chunks fuel body ≡ none)
  empty_stream_unfinished ev a c fuel s =
      (codes "0\r\n", two_empty ev a c s ∙ wire-empty a c s, cut_short fuel)
