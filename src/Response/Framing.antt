-- ===== src/Response/Framing.antt =====
-- What build_response leaves for stream_write.
use mathlib.Core.Bool.{false≢true}
use fastpysgi.Base.{
  ◌≡◌, refl, inl, inr, Bool, true, false, not, Option, none, some, List, [], ◌++◌, leb, ◌==◌,
  if◌then◌else◌, Bool-cases, length, ℤ, is_pos, pos, Bytes, int_max,
}
use fastpysgi.Client.{Method, is_head, Client, Srv}
use fastpysgi.Request.Reset.{reset_head_buffer, reset_response_preload, reset_response_body}
use fastpysgi.Response.Head.{
  Header, header_lines, server_lines, status_line, is_bodiless, push_head, end_head, end_chunked,
  place_body, finish_head, build_response,
}

-- the head is complete, and its recorded size is its length
pub record Ready (size : ℤ) (c : Client) : Type 0 where
  pub returned : size ≡ pos (length c.head)
  pub recorded : c.response.headers_size ≡ length c.head

end_head-Ready :
    (srv : Srv) (size : ℤ) (c : Client)
    → let (n, d) = end_head srv size c in is_pos n ≡ true → Ready n d
unfolding end_head
end_head-Ready srv size c h = record { returned = refl; recorded = refl }

end_chunked-Ready :
    (srv : Srv) (c : Client) → let (n, d) = end_chunked srv c in is_pos n ≡ true → Ready n d
unfolding end_chunked
end_chunked-Ready srv c h = elim (Bool-cases (leb int_max c.response.body_preloaded_size)) [
  | inl b ↦ absurd (false≢true (rw (end_chunked, b) at h))
  | inr b ↦ rw (end_chunked, b) (record { returned = refl; recorded = refl })
]

finish_head-Ready :
    (srv : Srv) (method : Method) (own : Option Bytes) (size : ℤ) (c : Client)
    → let (n, d) = finish_head srv method own size c in is_pos n ≡ true → Ready n d
unfolding finish_head
finish_head-Ready srv method own size c h = elim (Bool-cases (is_head method)) [
  | inl b ↦
      rw (finish_head, b)
        (end_head-Ready srv c.response.wsgi_content_length (reset_response_body c)
          (rw (finish_head, b) at h))
  | inr b ↦ elim (Bool-cases (not (c.response.chunked == 0))) [
    | inl k ↦ rw (finish_head, b, k) (end_chunked-Ready srv c (rw (finish_head, b, k) at h))
    | inr k ↦
        rw (finish_head, b, k)
          (end_head-Ready srv (place_body own size c).response.body_total_size
            (place_body own size c) (rw (finish_head, b, k) at h))
  ]
]

-- A response that is built has a head whose length is the size that is returned and recorded, as
-- stream_write asks for.
pub build_response-Ready :
    (srv : Srv) (status_name : ℤ → Option Bytes) (date : Bytes) (keep : Bool) (status : ℤ)
    (hs : List Header) (body : Option Bytes) (size : ℤ) (c : Client)
    → is_pos (build_response srv status_name date keep status hs body size c).0 ≡ true
    → let (n, d) = build_response srv status_name date keep status hs body size c in Ready n d
unfolding build_response
build_response-Ready srv status_name date keep status hs body size c p =
    by_name (status_name status) refl p
  where
    by_name :
        (o : Option Bytes)
        → status_name status ≡ o
        → let (n, d) = build_response srv status_name date keep status hs body size c in
          is_pos n ≡ true → Ready n d
    by_name none e h = absurd (false≢true (rw (build_response, e) at h))
    by_name (some name) e h =
        rw (build_response, e)
          (finish_head-Ready srv c.request.method body
            (if is_bodiless status c.request.method then pos 0 else size)
            (push_head
              (status_line status name ++ header_lines srv hs ++ server_lines srv date keep hs)
              (if is_bodiless status c.request.method
                then reset_response_body (reset_head_buffer c)
                else reset_head_buffer c))
            (rw (build_response, e) at h))

bodiless_finish :
    (srv : Srv) (method : Method) (own : Option Bytes) (c : Client)
    → c.response.chunked ≡ 0
    → (finish_head srv method own (pos 0) c).1.response.body ≡ []
unfolding finish_head place_body reset_response_body reset_response_preload end_head
bodiless_finish srv method own c k = elim (Bool-cases (is_head method)) [
  | inl b ↦ rw (finish_head, b) refl
  | inr b ↦ by_own own b
]
  where
    by_own :
        (o : Option Bytes)
        → is_head method ≡ false
        → (finish_head srv method o (pos 0) c).1.response.body ≡ []
    by_own none b = rw (finish_head, b, k) refl
    by_own (some x) b = rw (finish_head, b, k) refl

-- A status 204 or 304 and an answer to HEAD leave no body to send, whatever the application returned,
-- and whether or not the head can be built.
pub build_response_bodiless :
    (srv : Srv) (status_name : ℤ → Option Bytes) (date : Bytes) (keep : Bool) (status : ℤ)
    (hs : List Header) (body : Option Bytes) (size : ℤ) (c : Client)
    → is_bodiless status c.request.method ≡ true
    → (build_response srv status_name date keep status hs body size c).1.response.body ≡ []
unfolding build_response reset_response_body reset_response_preload
build_response_bodiless srv status_name date keep status hs body size c h =
    by_name (status_name status) refl
  where
    by_name :
        (o : Option Bytes)
        → status_name status ≡ o
        → (build_response srv status_name date keep status hs body size c).1.response.body ≡ []
    by_name none e = rw (build_response, e, h) refl
    by_name (some name) e =
        rw (build_response, e, h)
          (bodiless_finish srv c.request.method body
            (push_head
              (status_line status name ++ header_lines srv hs ++ server_lines srv date keep hs)
              (reset_response_body (reset_head_buffer c)))
            refl)
