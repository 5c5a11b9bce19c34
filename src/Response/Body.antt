-- ===== src/Response/Body.antt =====
-- The body that a WSGI application returns (fastwsgi/request.c). Python objects enter as data: an
-- iterator is the list of what it will yield.
use fastpysgi.Base.{
  ℕ, zero, suc, ◌+◌, code, ◌⊎◌, inl, inr, Bool, true, false, not, ◌&&◌, ◌||◌, Option, none, some,
  List, [], ◌∷◌, ◌++◌, ltb, leb, ◌==◌, if◌then◌else◌, length, get_or, ℤ, neg, is_zero, is_pos,
  pos_part, int_eq, llong_max, pos, Bytes, codes, bytes_eq,
}
use fastpysgi.Client.{Client}
use fastpysgi.Request.Header.{same_name}
use fastpysgi.Request.Reset.{reset_response_preload}

-- One step of an iterator: bytes, an object that is no bytes, or an exception.
pub data Item : Type 0 where
  chunk : Bytes → Item
  not_bytes raised : Item

pub data WsgiBody : Type 0 where
  bytes_body : Bytes → WsgiBody
  generator iterator : List Item → WsgiBody
  not_iterable : WsgiBody

-- the bytes of the preloaded chunks in order, as the loop of stream_write sends them
unfoldable pub join : List Bytes → Bytes
join [] = []
join (b ∷ bs) = b ++ join bs

-- what a call that reads the iterator leaves: its result, the connection and the rest of the items
abbrev pub Pulled : Type 0
Pulled = Option Bytes × Client × List Item

abbrev pub with_total : ℤ → Client → Client
with_total n c = record c { response = record (c.response) { body_total_size = n } }

-- the loop over the iterator: empty items are skipped
unfoldable pub next_item : Client → List Item → Pulled
next_item c [] = (none, c, [])
next_item c (chunk (b ∷ bs) ∷ items) = (some (b ∷ bs), c, items)
next_item c (chunk [] ∷ items) = next_item c items
next_item c (not_bytes ∷ items) = (none, record c { error = 11 }, items)
next_item c (raised ∷ items) = (none, record c { error = 11 }, items)

abbrev pub generator_mark : ℤ
generator_mark = neg 111

-- the chunk that a generator has given before its start
abbrev first_chunk : Client → Option Bytes
first_chunk c = elim (c.response.body) [
  | [] ↦ none
  | b ∷ bs ↦ if c.response.body_preloaded_size == 0 then none else some b
]

unfoldable pub wsgi_iterator_get_next_chunk : Client → List Item → Pulled
unfolding next_item reset_response_preload
wsgi_iterator_get_next_chunk c items =
    if int_eq c.response.body_total_size generator_mark
    then (first_chunk c, with_total (pos 0) (reset_response_preload c), items)
    else next_item c items

-- `max_preloaded_body_chunks`
abbrev pub max_preloaded_body_chunks : ℕ
max_preloaded_body_chunks = 48

abbrev pub add_chunk : Bytes → Client → Client
add_chunk b c = record c {
  response = record (c.response) {
    body = c.response.body ++ b ∷ [];
    body_preloaded_size = c.response.body_preloaded_size + length b;
  };
}

-- One round of the loop of wsgi_body_preload, on what the iterator gave; `again` is the next round.
-- The flag of the result is `fully_loaded`. Of a file only as much is read as fits the largest chunk.
unfoldable pub preload_round :
    ℕ
    → Bool
    → ℕ
    → (ℕ → Client → List Item → Bool × Client × List Item)
    → Pulled
    → Bool × Client × List Item
preload_round max_chunk_size is_filelike prev_size again (none, d, rest) = (true, d, rest)
preload_round max_chunk_size is_filelike prev_size again (some b, d, rest) =
    let e = add_chunk b d in
    if length e.response.body == max_preloaded_body_chunks + 1
    then (false, e, rest)
    else if is_filelike && leb max_chunk_size (e.response.body_preloaded_size + prev_size)
    then (false, e, rest)
    else again (length b) e rest

-- The loop, with the size of the chunk before.
unfoldable pub preload_loop : ℕ → ℕ → Bool → ℕ → Client → List Item → Bool × Client × List Item
unfolding preload_round
preload_loop zero max_chunk_size is_filelike prev_size c items = (false, c, items)
preload_loop (suc fuel) max_chunk_size is_filelike prev_size c items =
    preload_round max_chunk_size is_filelike prev_size
      (preload_loop fuel max_chunk_size is_filelike) (wsgi_iterator_get_next_chunk c items)

-- What is announced for a body of which `loaded` bytes are at hand: the code returned and the total.
unfoldable pub announce : Bool → Client → ℤ × Client
announce fully_loaded c =
    let size = c.response.body_preloaded_size in
    let limit = c.response.wsgi_content_length in
    if not (c.error == 0)
    then (neg 13, c)
    else if fully_loaded
    then if is_pos limit && ltb (pos_part limit) size
      then (neg 14, c)
      else (pos 1, with_total (pos size) c)
    else if int_eq (pos size) limit
    then (pos 1, with_total limit c)
    else if is_pos limit
    then (pos 1, with_total limit c)
    else (pos 2, record c { response = record (c.response) { chunked = 1 } })

-- A body that is a bytes object.
unfoldable pub preload_bytes : Bytes → Client → ℤ × Client
preload_bytes [] c = (
  pos 0,
  record c { response = record (c.response) { body_total_size = pos 0; body_preloaded_size = 0 } },
)
preload_bytes (b ∷ bs) c = (
  pos 1,
  record c {
    response = record (c.response) {
      body = (b ∷ bs) ∷ [];
      body_total_size = pos (length (b ∷ bs));
      body_preloaded_size = length (b ∷ bs);
    };
  },
)

-- A body that is iterated. At most `max_preloaded_body_chunks + 1` chunks are read, so the fuel never
-- runs out.
unfoldable pub preload_items : ℕ → Bool → List Item → Client → ℤ × Client × List Item
unfolding preload_loop announce wsgi_iterator_get_next_chunk
preload_items max_chunk_size is_filelike items c =
    let (fully_loaded, d, rest) =
      preload_loop (max_preloaded_body_chunks + 2) max_chunk_size is_filelike 0 c items in
    let (code, e) = announce fully_loaded d in
    if is_zero c.response.wsgi_content_length
    then (
      pos 0,
      record c {
        response = record (c.response) { body_total_size = pos 0; body_preloaded_size = 0 };
      },
      items,
    )
    else (code, e, rest)

-- `wsgi_body_preload`, on the items left of an iterated body
unfoldable pub wsgi_body_preload : ℕ → Bool → WsgiBody → List Item → Client → ℤ × Client × List Item
unfolding preload_bytes preload_items
wsgi_body_preload max_chunk_size filelike (bytes_body b) items c =
    let (code, d) = preload_bytes b c in (code, d, items)
wsgi_body_preload max_chunk_size filelike not_iterable items c = (neg 1, c, items)
wsgi_body_preload max_chunk_size filelike _ items c = preload_items max_chunk_size filelike items c

-- `key_len == 14 && key[7] == '-' && strcasecmp(key, "Content-Length") == 0`
unfoldable pub is_content_length : Bytes → Bool
unfolding same_name
is_content_length key =
    length key == 14 && get_or key 7 0 == b'-' && same_name key (codes "Content-Length")

abbrev pub with_content_length : ℤ → Client → Client
with_content_length n c = record c { response = record (c.response) { wsgi_content_length = n } }

-- The value of a Content-Length header: -2 if it is empty, -3 if it is no positive number. `strtoll`
-- is the C library's.
unfoldable pub parse_length : (Bytes → ℤ) → Bytes → ℤ ⊎ ℤ
parse_length strtoll v =
    if length v == 0
    then inl (neg 2)
    else if bytes_eq v (codes "0")
    then inr (pos 0)
    else if not (is_pos (strtoll v)) || int_eq (strtoll v) llong_max
    then inl (neg 3)
    else inr (strtoll v)

unfoldable pub info_loop : (Bytes → ℤ) → List (Bytes × Bytes) → Client → ℤ × Client
unfolding parse_length is_content_length
info_loop strtoll [] c = (pos 0, c)
info_loop strtoll ((k, v) ∷ hs) c = elim (is_content_length k) [
  | false ↦ info_loop strtoll hs c
  | true ↦ elim (parse_length strtoll v) [
    | inl e ↦ (e, c)
    | inr n ↦ info_loop strtoll hs (with_content_length n c)
  ]
]

-- `get_info_from_wsgi_response`: the last Content-Length header counts.
unfoldable pub get_info_from_wsgi_response :
    (Bytes → ℤ) → List (Bytes × Bytes) → Client → ℤ × Client
unfolding info_loop
get_info_from_wsgi_response strtoll hs c = info_loop strtoll hs (with_content_length (neg 1) c)
