-- ===== src/Asgi/Info.antt =====
-- asgi_get_info_from_response and asgi_build_response of fastwsgi/asgi.c.
use fastpysgi.Base.{
  ◌⊎◌, inl, inr, true, false, Option, none, some, List, [], ◌∷◌, if◌then◌else◌, ℤ, neg, is_pos,
  int_eq, pos, Bytes,
}
use fastpysgi.Client.{Client, Srv}
use fastpysgi.Request.Reset.{reset_head_buffer, reset_response_body}
use fastpysgi.Response.Body.{is_content_length, with_content_length, parse_length, not_iterable}
use fastpysgi.Response.Head.{Header, build_response}
use fastpysgi.Asgi.{HeaderItem, AsgiHeaders, no_headers, not_iterable, items}

-- the codes of this function for the two errors of a length
abbrev length_code : ℤ → ℤ
length_code e = if int_eq e (neg 2) then neg 22 else neg 33

info_items : (Bytes → ℤ) → List HeaderItem → Client → ℤ × Client
unfolding parse_length is_content_length
info_items strtoll [] c = (pos 0, c)
info_items strtoll (h ∷ hs) c = elim h.name [
  | none ↦ (neg 10, c)
  | some k ↦ elim h.value [
    | none ↦ (neg 11, c)
    | some v ↦ elim (is_content_length k) [
      | false ↦ info_items strtoll hs c
      | true ↦ elim (parse_length strtoll v) [
        | inl e ↦ (length_code e, c)
        | inr n ↦ info_items strtoll hs (with_content_length n c)
      ]
    ]
  ]
]

-- `asgi_get_info_from_response`: the last Content-Length header counts.
unfoldable pub asgi_get_info_from_response : (Bytes → ℤ) → AsgiHeaders → Client → ℤ × Client
unfolding info_items
asgi_get_info_from_response strtoll no_headers c = (neg 4, with_content_length (neg 1) c)
asgi_get_info_from_response strtoll not_iterable c = (neg 5, with_content_length (neg 1) c)
asgi_get_info_from_response strtoll (items hs) c =
    info_items strtoll hs (with_content_length (neg 1) c)

-- the headers that build_response reads, or its error code
unfoldable pub header_pairs : List HeaderItem → Option (List Header)
header_pairs [] = some []
header_pairs (h ∷ hs) = elim h.name [
  | none ↦ none
  | some k ↦ elim h.value [
    | none ↦ none
    | some v ↦ elim (header_pairs hs) [ none ↦ none | some ps ↦ some ((k, v) ∷ ps) ]
  ]
]

unfoldable pub read_headers : AsgiHeaders → ℤ ⊎ List Header
unfolding header_pairs
read_headers no_headers = inl (neg 4)
read_headers not_iterable = inl (neg 5)
read_headers (items hs) = elim (header_pairs hs) [ none ↦ inl (neg 59) | some ps ↦ inr ps ]

-- what comes from outside the connection when a head is built
pub record Outside : Type 0 where
  pub srv : Srv
  pub status_name : ℤ → Option Bytes
  pub date : Bytes
  pub strtoll : Bytes → ℤ

-- build_response on the headers of the application. A head that cannot be built is thrown away by the
-- caller, so what was written of it does not matter.
unfoldable pub build_head : Outside → ℤ → AsgiHeaders → Client → ℤ × Client
unfolding build_response read_headers
build_head out status headers c = elim (read_headers headers) [
  | inl e ↦ (elim (out.status_name status) [ none ↦ neg 3 | some n ↦ e ], c)
  | inr hs ↦
      build_response out.srv out.status_name out.date c.request.keep_alive status hs none (neg 1) c
]

-- a length that is 0 or the code of an error leaves no response
unfoldable pub keep_built : ℤ × Client → ℤ × Client
unfolding reset_head_buffer reset_response_body
keep_built (len, d) =
    if is_pos len then (pos 0, d) else (len, reset_response_body (reset_head_buffer d))

-- `asgi_build_response`: 0, or the length or code that stands for a failure
unfoldable pub asgi_build_response : Outside → ℤ → AsgiHeaders → Client → ℤ × Client
unfolding build_head keep_built
asgi_build_response out status headers c = keep_built (build_head out status headers c)
