-- ===== src/Response/Tests.antt =====
-- Runs of the response code (fastwsgi/request.c), and its theorems at concrete inputs.
use fastpysgi.Base.{
  ◌≡◌, refl, inl, true, false, Option, none, some, List, [], ◌∷◌, arith, ℤ, neg, is_pos, pos, Bytes,
  codes,
}
use fastpysgi.Client.{Client}
use fastpysgi.Samples.{srv, response, client}
use fastpysgi.Response.Body.{
  Item, join, wsgi_iterator_get_next_chunk, preload_loop, announce, chunk,
}
use fastpysgi.Response.Head.{end_head, place_body, finish_head, build_response}
use fastpysgi.Response.Preload.{Counts, Kept, preload_loop-Kept}

abbrev two_chunks : List Item
two_chunks = chunk (codes "ab") ∷ chunk [] ∷ chunk (codes "c") ∷ []

fresh-Counts : Counts client
unfolding join
fresh-Counts = record { started = refl; sized = refl; few = omega arith }

preload_loop-Kept_example :
    Kept false client two_chunks (preload_loop 50 262144 false 0 client two_chunks)
preload_loop-Kept_example =
    preload_loop-Kept 262144 false 50 0 client two_chunks (inl fresh-Counts) (omega arith)

loads_all : (preload_loop 50 262144 false 0 client two_chunks).0 ≡ true
unfolding preload_loop wsgi_iterator_get_next_chunk
loads_all = refl

abbrev names : ℤ → Option Bytes
names _ = some (codes "OK")

abbrev date : Bytes
date = codes "Thu, 01 Jan 1970 00:00:00 GMT"

built : is_pos (build_response srv names date true (pos 200) [] none (neg 1) client).0 ≡ true
unfolding build_response finish_head place_body end_head
built = ground arith

-- a body of 5 bytes at hand for a Content-Length of 3
abbrev too_long : Client
too_long = record client {
  response = record (response) { wsgi_content_length = pos 3; body_preloaded_size = 5 };
}

refuses_too_long : (announce true too_long).0 ≡ neg 14
unfolding announce
refuses_too_long = refl
