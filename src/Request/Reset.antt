-- ===== src/Request/Reset.antt =====
-- The reset functions of fastwsgi/request.c.
use fastpysgi.Base.{none, [], ltb, if◌then◌else◌, pos}
use fastpysgi.Client.{Client}

unfoldable pub reset_head_buffer : Client → Client
reset_head_buffer c = record c {
  request = record (c.request) { current_key_len = 0; current_val_len = 0 };
  head = [];
  response = record (c.response) { headers_size = 0 };
}

-- A stream that has grown beyond 1 MiB is not kept for the next request.
unfoldable pub reset_wsgi_input : Client → Client
reset_wsgi_input c = record c {
  request = record (c.request) {
    wsgi_input = if ltb 1048576 c.request.wsgi_input_size then none else c.request.wsgi_input;
    wsgi_input_size = 0;
  };
}

unfoldable pub reset_response_preload : Client → Client
reset_response_preload c = record c {
  response = record (c.response) { body = []; body_preloaded_size = 0 };
}

-- The object that the application returned and its iterator are closed here too; they are not part
-- of this state.
unfoldable pub reset_response_body : Client → Client
unfolding reset_response_preload
reset_response_body c =
    let d = reset_response_preload c in
    record d {
      response = record (d.response) {
        body_total_size = pos 0;
        body_total_written = 0;
        chunked = 0;
      };
    }
