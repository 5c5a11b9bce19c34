-- ===== src/Samples.antt =====
-- A server with the default options and a connection, for tests and examples.
use fastpysgi.Base.{ℕ, true, false, none, some, [], neg, pos, Bytes, codes}
use fastpysgi.Client.{
  Request, Response, Client, Srv, Codecs, resting, msg_begin, req_parse, http_pri,
}

-- codecs for texts that are ASCII
abbrev pub codecs : Codecs
codecs = record { utf8_strict = λ b. some b; utf8_ignore = λ b. b; latin1 = λ b. b }

abbrev pub srv : Srv
srv = record {
  asgi_app = false;
  allow_keepalive = true;
  resp_hdr_lower = false;
  req_hdr_lower = false;
  add_header_date = true;
  header_server = codes "FastPySGI";
  read_buffer_size = 65536;
  max_headers_num = 100;
  max_content_length = 1000;
  max_chunk_size = 262144;
  read_req_timeout = 10000;
  curr_req_timeout = 60000;
  next_req_timeout = 0;
  root_path = [];
  def_env = [];
  def_scope = [];
}

abbrev pub request : Request
request = record {
  load_state = msg_begin;
  http_content_length = pos 3;
  chunked = false;
  keep_alive = true;
  expect_continue = false;
  method = http_pri;
  current_key_len = 0;
  current_val_len = 0;
  headers_num = 0;
  headers = some [];
  host = none;
  wsgi_input = none;
  wsgi_input_size = 0;
  parser_locked = false;
  start_time = 1000;
  update_time = 2000;
}

abbrev pub response : Response
response = record {
  headers_size = 0;
  wsgi_content_length = neg 1;
  body = [];
  body_preloaded_size = 0;
  body_total_size = pos 0;
  body_total_written = 0;
  chunked = 0;
  last_chunk_time = 0;
}

-- a connection on which a request has begun
abbrev pub client : Client
client = record {
  rx = record { status = resting; pkt = 0; raw_total = 0; total = 0; buf = []; parsed_size = 0 };
  state = req_parse;
  request = request;
  response = response;
  error = 0;
  head = [];
  asgi = none;
}

abbrev pub with_head : Bytes → Client → Client
with_head h c = record c { head = h }

-- a connection with a response of this state of chunks
abbrev pub with_chunked : ℕ → Client → Client
with_chunked n c = record c { response = record (c.response) { chunked = n } }
