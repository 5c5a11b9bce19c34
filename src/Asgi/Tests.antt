-- ===== src/Asgi/Tests.antt =====
-- The theorems on the responses of ASGI applications (fastwsgi/asgi.c) at concrete inputs.
use fastpysgi.Base.{◌≡◌, refl, true, false, none, some, [], ◌∷◌, ◌++◌, pos, Bytes, codes}
use fastpysgi.Samples.{srv, client}
use fastpysgi.Asgi.{Asgi, new_asgi, items}
use fastpysgi.Asgi.Info.{header_pairs, read_headers, Outside}
use fastpysgi.Asgi.Stream.{body_message, deliver_all}
use fastpysgi.Asgi.Stream.Head.{chunked_head, Begun}
use fastpysgi.Asgi.Stream.Decode.{decode_chunks, stream_received}
use fastpysgi.Asgi.Outcomes.{Accounted, asgi_send-Accounted}
use fastpysgi.Asgi.Send.{asgi_send}
use fastpysgi.Asgi.Empty.{empty_stream_unfinished}
use fastpysgi.Response.Head.{is_bodiless}
use fastpysgi.Response.Body.{join}
use fastpysgi.Server.Write.{WriteEvent}

abbrev out : Outside
out = record {
  srv = srv;
  status_name = λ n. some (codes "OK");
  date = codes "Thu, 01 Jan 1970 00:00:00 GMT";
  strtoll = λ b. pos 0;
}

-- the object behind `http.response.start` with status 200 and no headers
abbrev begun : Asgi
begun = record new_asgi { send_status = pos 200; start_response = some (items []) }

abbrev event : WriteEvent
event = record { status_ok = true; now = 5000; uv_write_ok = true; uv_read_ok = true }

begun-Begun : Begun out (items []) [] (codes "OK") begun client
unfolding read_headers header_pairs is_bodiless
begun-Begun = record {
  known = refl;
  head_open = refl;
  readable = refl;
  named = refl;
  with_body = refl;
  open_end = refl;
  nothing = refl;
  no_chunk = refl;
  no_size = refl;
}

stream_received_example :
    let (bytes, a', c') = deliver_all out event (codes "ab" ∷ [] ∷ []) (codes "c") begun client in
    (body : Bytes) × (bytes ≡ chunked_head out (pos 200) (codes "OK") true [] ++ body)
    × (decode_chunks 4 body ≡ some (codes "abc"))
    × (a'.latest_chunk ≡ true)
    × (a'.send_future ≡ false)
unfolding join
stream_received_example =
    stream_received out (items []) [] (codes "OK") event 97 (codes "b") ([] ∷ []) (codes "c") begun
      client refl begun-Begun (refl, (refl, tt)) refl

empty_stream_unfinished_example :
    let bytes = (deliver_all out event ([] ∷ []) [] begun client).0 in
    (body : Bytes) × (bytes ≡ chunked_head out (pos 200) (codes "OK") true [] ++ body)
    × (decode_chunks 3 body ≡ none)
empty_stream_unfinished_example =
    empty_stream_unfinished out (items []) [] (codes "OK") event begun client 3 begun-Begun

asgi_send-Accounted_example :
    Accounted (asgi_send out false (body_message true (codes "abc")) begun client)
asgi_send-Accounted_example =
    asgi_send-Accounted out false (body_message true (codes "abc")) begun client refl
