-- ===== src/Request/Limits.antt =====
-- The limits on what a client can make the server hold.
use fastpysgi.Base.{◌+◌, ◌≤◌, ◌<◌, ◌≡◌, ◌≢◌, none, ◌++◌, arith, length, length-append, Bytes, codes}
use fastpysgi.Client.{Client, Srv}
use fastpysgi.Request.{proceed, abort}
use fastpysgi.Request.Url.{on_url}
use fastpysgi.Request.Header.{on_header_field}
use fastpysgi.Request.Body.{on_body}

-- The URL in the head buffer stays below 16 KiB, and a chunk is refused only with 414.
pub on_url_bound :
    (chunk : Bytes) (c : Client)
    → length c.head < 16384
    → let (verdict, d) = on_url chunk c in
      (length d.head < 16384) × (verdict ≡ abort → d.error ≡ 414)
unfolding on_url
on_url_bound chunk c h = ground (arith, length-append c.head chunk)

-- The head buffer with a header field stays below 32 KiB and the prefix, whatever the parser hands
-- over, and a part of a name is refused only with 431.
pub on_header_field_bound :
    (chunk : Bytes) (c : Client)
    → length c.head < 32768 + 5
    → let (verdict, d) = on_header_field chunk c in
      (length d.head < 32768 + 5) × (verdict ≡ abort → d.error ≡ 431)
unfolding on_header_field
on_header_field_bound chunk c h = ground (
  arith,
  length-append c.head chunk,
  length-append c.head (codes "HTTP_"),
  length-append (c.head ++ codes "HTTP_") chunk,
)

-- A body within the limit stays within it, and a chunk that is accepted on an open stream adds its
-- length.
pub on_body_bound :
    (srv : Srv) (chunk : Bytes) (c : Client)
    → c.request.wsgi_input_size ≤ srv.max_content_length
    → let (verdict, d) = on_body srv chunk c in
      (d.request.wsgi_input_size ≤ srv.max_content_length)
      × (verdict ≡ proceed
          → c.request.wsgi_input ≢ none
          → d.request.wsgi_input_size ≡ c.request.wsgi_input_size + length chunk)
unfolding on_body
on_body_bound srv chunk c h = ground arith
