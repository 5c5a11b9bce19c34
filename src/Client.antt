-- ===== src/Client.antt =====
-- The state of one connection (fastwsgi/server.h, `struct client`) and the options of the server that
-- the handlers read (`struct srv`, `struct server`). A byte buffer is the list of its contents: XBuf
-- shows that the real buffer behaves so while there is memory. Texts are their UTF-8 bytes.
use fastpysgi.Base.{
  ℕ, Bool, true, false, Option, none, some, List, [], ◌∷◌, if◌then◌else◌, ℤ, Bytes, bytes_eq,
}

pub data RxStatus : Type 0 where
  resting reading freezed rx_fail rx_done : RxStatus

-- `load_state_t`, in the order of the enumeration
pub data LoadState : Type 0 where
  ls_wait msg_begin msg_url msg_headers msg_body msg_end ls_ok : LoadState

-- `load_state >= LS_MSG_END`
abbrev pub at_end : LoadState → Bool
at_end msg_end = true
at_end ls_ok = true
at_end _ = false

-- `load_state == LS_OK`
abbrev pub is_loaded : LoadState → Bool
is_loaded ls_ok = true
is_loaded _ = false

pub data ClientState : Type 0 where
  unknown accept req_read req_parse app_call resp_bild resp_send resp_sended resp_end destroy :
      ClientState

abbrev pub is_sending : ClientState → Bool
is_sending resp_send = true
is_sending _ = false

abbrev pub is_destroy : ClientState → Bool
is_destroy destroy = true
is_destroy _ = false

-- `client_action_t`
pub data Action : Type 0 where
  ca_ok ca_close ca_shutdown : Action

-- The methods that the code tests for; `http_other` is any other method by its number.
pub data Method : Type 0 where
  http_pri http_head http_options http_connect : Method
  http_other : ℕ → Method

abbrev pub is_head : Method → Bool
is_head http_head = true
is_head _ = false

-- A value of an environ or scope dictionary: a text, or the request's input stream.
pub data Value : Type 0 where
  text : Bytes → Value
  stream : Bytes → Value

abbrev pub Dict : Type 0
Dict = List (Bytes × Value)

-- The ASGI object of a request: `scope` with its list of headers, and the progress of the response.
pub record Scope : Type 0 where
  pub entries : Dict
  pub headers : List (Bytes × Bytes)

pub record Rx : Type 0 where
  pub status : RxStatus
  pub pkt : ℕ
  pub raw_total : ℕ
  pub total : ℕ
  pub buf : Bytes
  pub parsed_size : ℕ

-- `http_content_length` and `wsgi_content_length` are -1 when the header is absent.
pub record Request : Type 0 where
  pub load_state : LoadState
  pub http_content_length : ℤ
  pub chunked : Bool
  pub keep_alive : Bool
  pub expect_continue : Bool
  pub method : Method
  pub current_key_len : ℕ
  pub current_val_len : ℕ
  pub headers_num : ℕ
  pub headers : Option Dict
  pub host : Option Bytes
  pub wsgi_input : Option Bytes
  pub wsgi_input_size : ℕ
  pub parser_locked : Bool
  pub start_time : ℕ
  pub update_time : ℕ

-- `chunked` is 0, 1 (sending chunks) or 2 (the last chunk is sent). `body` holds the chunks
-- `body[0 .. body_chunk_num)`, `body_total_size` is -111 for a generator not started.
pub record Response : Type 0 where
  pub headers_size : ℕ
  pub wsgi_content_length : ℤ
  pub body : List Bytes
  pub body_preloaded_size : ℕ
  pub body_total_size : ℤ
  pub body_total_written : ℕ
  pub chunked : ℕ
  pub last_chunk_time : ℕ

pub record Client : Type 0 where
  pub rx : Rx
  pub state : ClientState
  pub request : Request
  pub response : Response
  pub error : ℕ
  pub head : Bytes
  pub asgi : Option Scope

-- `client->asgi != NULL`
abbrev pub is_asgi : Client → Bool
is_asgi c = elim (c.asgi) [ none ↦ false | some s ↦ true ]

-- The options of `g_srv`; `add_header_server` is the length of `header_server`.
pub record Srv : Type 0 where
  pub asgi_app : Bool
  pub allow_keepalive : Bool
  pub resp_hdr_lower : Bool
  pub req_hdr_lower : Bool
  pub add_header_date : Bool
  pub header_server : Bytes
  pub read_buffer_size : ℕ
  pub max_headers_num : ℕ
  pub max_content_length : ℕ
  pub max_chunk_size : ℕ
  pub read_req_timeout : ℕ
  pub curr_req_timeout : ℕ
  pub next_req_timeout : ℕ
  pub root_path : Bytes
  pub def_env : Dict
  pub def_scope : Dict

-- `PyDict_SetItem`
unfoldable pub set_item : Dict → Bytes → Value → Dict
set_item [] k v = (k, v) ∷ []
set_item ((j, w) ∷ d) k v = if bytes_eq j k then (k, v) ∷ d else (j, w) ∷ set_item d k v

unfoldable pub get_item : Dict → Bytes → Option Value
get_item [] k = none
get_item ((j, w) ∷ d) k = if bytes_eq j k then some w else get_item d k

-- What the server uses of Python's codecs. The "ignore" and Latin-1 modes never fail on bytes.
pub record Codecs : Type 0 where
  pub utf8_strict : Bytes → Option Bytes
  pub utf8_ignore : Bytes → Bytes
  pub latin1 : Bytes → Bytes
