-- ===== src/Request/Tests.antt =====
-- The theorems on the parser's callbacks (fastwsgi/request.c) at concrete inputs.
use fastpysgi.Base.{ℕ, ◌≡◌, refl, ◌≢◌, true, false, none, some, [], ◌++◌, map, arith, pos, codes}
use fastpysgi.Client.{Client, http_pri, stream}
use fastpysgi.Samples.{codecs, srv, request, client, with_head}
use fastpysgi.Common.Ascii.{ascii_to_lower}
use fastpysgi.Request.Environ.{put_environ, set_path_wsgi}
use fastpysgi.Request.Url.{Parser}
use fastpysgi.Request.Header.{convert}
use fastpysgi.Request.Body.{on_body, on_message_complete}
use fastpysgi.Request.Names.{convert_injective}
use fastpysgi.Request.Input.{asgi_body, wsgi_value}
use fastpysgi.Request.Upload.{Holds, on_body-Holds, on_message_complete_exact}
use fastpysgi.Request.Mount.{set_path_wsgi_root}

abbrev parser : Parser
parser = record {
  method = http_pri;
  method_name = codes "POST";
  is_request = true;
  http_major = 1;
  http_minor = 1;
  content_length = 0;
  should_keep_alive = true;
}

fresh-Holds : Holds client []
fresh-Holds = record { size_eq = refl; bytes_held = refl; closed_empty = λ _. refl }

on_body-Holds_example : Holds (on_body srv (codes "abc") client).1 ([] ++ codes "abc")
unfolding on_body
on_body-Holds_example = on_body-Holds srv (codes "abc") [] client fresh-Holds refl

-- the connection behind the three bytes of its body
abbrev uploaded : Client
uploaded = record client {
  request = record (request) { wsgi_input = some (codes "abc"); wsgi_input_size = 3 };
}

uploaded-Holds : Holds uploaded (codes "abc")
uploaded-Holds = record { size_eq = refl; bytes_held = refl; closed_empty = λ e. cc }

on_message_complete_exact_example :
    let r = (on_message_complete codecs srv parser (codes "127.0.0.1") uploaded).1 in
    (uploaded.error ≡ 0)
    × (asgi_body r ≡ codes "abc")
    × (wsgi_value r
        ≡ (elim (uploaded.request.headers) [ none ↦ none | some d ↦ some (stream (codes "abc")) ]))
    × ((n : ℕ) → uploaded.request.http_content_length ≡ pos n → n ≡ 3)
unfolding on_message_complete
on_message_complete_exact_example =
    on_message_complete_exact codecs srv parser (codes "127.0.0.1") (codes "abc") uploaded
      uploaded-Holds refl

convert_injective_example : map ascii_to_lower (codes "Host") ≡ map ascii_to_lower (codes "hOST")
unfolding convert
convert_injective_example = convert_injective false (codes "Host") (codes "hOST") refl refl refl

abbrev named : Client
named = with_head (codes "HTTP_X_Y") client

not_root : codes "/app/x" ≢ codes "/app"
not_root = cc

set_path_wsgi_root_example :
    (codes "/app/x" ≢ codes "/app"
      → set_path_wsgi codecs (codes "/app") client (codes "/app/x") ≡ (pos 404, client))
    × (codes "/app/x" ≡ codes "/app"
        → set_path_wsgi codecs (codes "/app") client (codes "/app/x")
          ≡ put_environ client (codes "PATH_INFO") (codes "/"))
set_path_wsgi_root_example =
    set_path_wsgi_root codecs (codes "/app") (codes "/app/x") client (omega arith)
      (omega arith, (omega arith, (omega arith, (omega arith, (omega arith, (omega arith, tt))))))
      refl refl
