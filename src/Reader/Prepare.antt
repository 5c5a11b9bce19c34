-- ===== src/Reader/Prepare.antt =====
-- What process_wsgi_response and create_response (fastwsgi/request.c) leave of the read buffer: all.
use fastpysgi.Base.{
  ℕ, zero, suc, ◌+◌, ◌≡◌, refl, ◌∙◌, ◌⊎◌, inl, inr, Bool, true, false, Option, none, some, List, [],
  ◌∷◌, arith, ltb, if◌then◌else◌, length, take, ℤ, neg, is_zero, int_eq, Bytes,
}
use fastpysgi.Client.{Rx, Client, Srv}
use fastpysgi.Request.Reset.{reset_head_buffer, reset_response_preload, reset_response_body}
use fastpysgi.Response.Body.{
  Item, WsgiBody, Pulled, next_item, generator_mark, wsgi_iterator_get_next_chunk,
  max_preloaded_body_chunks, add_chunk, preload_round, preload_loop, announce, preload_bytes,
  preload_items, wsgi_body_preload, is_content_length, with_content_length, parse_length, info_loop,
  get_info_from_wsgi_response, chunk, not_bytes, raised, bytes_body, generator, iterator,
  not_iterable,
}
use fastpysgi.Response.Head.{
  Header, build_response, StartResponse, start_generator, failed_response, prepare_body,
  process_wsgi_response, create_response,
}
use fastpysgi.Reader.Keep.{either, coded, build_response-rx}

-- what is left with the rest of the items
abbrev pulled : {A : Type 0} → A × Client × List Item → Rx
pulled d = d.1.rx

next_item-rx : (c : Client) (items : List Item) → pulled (next_item c items) ≡ c.rx
unfolding next_item
next_item-rx c [] = refl
next_item-rx c (chunk (b ∷ bs) ∷ items) = refl
next_item-rx c (chunk [] ∷ items) = next_item-rx c items
next_item-rx c (not_bytes ∷ items) = refl
next_item-rx c (raised ∷ items) = refl

pub next_chunk-rx :
    (c : Client) (items : List Item) → pulled (wsgi_iterator_get_next_chunk c items) ≡ c.rx
unfolding wsgi_iterator_get_next_chunk reset_response_preload
next_chunk-rx c items =
    either pulled c.rx (int_eq c.response.body_total_size generator_mark) _ _ refl
      (next_item-rx c items)

preload_round-rx :
    (max : ℕ) (filelike : Bool) (prev : ℕ)
    (again : ℕ → Client → List Item → Bool × Client × List Item)
    → ((n : ℕ) (c : Client) (items : List Item) → pulled (again n c items) ≡ c.rx)
    → (p : Pulled) → pulled (preload_round max filelike prev again p) ≡ pulled p
unfolding preload_round
preload_round-rx max filelike prev again h (none, d, rest) = refl
preload_round-rx max filelike prev again h (some b, d, rest) =
    ground (arith, h (length b) (add_chunk b d) rest)

preload_loop-rx :
    (fuel max : ℕ) (filelike : Bool) (prev : ℕ) (c : Client) (items : List Item)
    → pulled (preload_loop fuel max filelike prev c items) ≡ c.rx
unfolding preload_loop
preload_loop-rx zero max filelike prev c items = refl
preload_loop-rx (suc fuel) max filelike prev c items =
    preload_round-rx max filelike prev (preload_loop fuel max filelike)
      (preload_loop-rx fuel max filelike) (wsgi_iterator_get_next_chunk c items)
    ∙ next_chunk-rx c items

announce-rx : (full : Bool) (c : Client) → coded (announce full c) ≡ c.rx
unfolding announce
announce-rx full c = ground arith

preload_items-rx :
    (max : ℕ) (filelike : Bool) (items : List Item) (c : Client)
    → pulled (preload_items max filelike items c) ≡ c.rx
unfolding preload_items
preload_items-rx max filelike items c =
    either pulled c.rx (is_zero c.response.wsgi_content_length) _ _ refl (
      announce-rx (preloaded.0) (preloaded.1)
      ∙ preload_loop-rx (max_preloaded_body_chunks + 2) max filelike 0 c items)
  where
    preloaded : Bool × Client × List Item
    preloaded = preload_loop (max_preloaded_body_chunks + 2) max filelike 0 c items

preload_bytes-rx : (b : Bytes) (c : Client) → coded (preload_bytes b c) ≡ c.rx
unfolding preload_bytes
preload_bytes-rx [] c = refl
preload_bytes-rx (x ∷ b) c = refl

wsgi_body_preload-rx :
    (max : ℕ) (filelike : Bool) (body : WsgiBody) (items : List Item) (c : Client)
    → pulled (wsgi_body_preload max filelike body items c) ≡ c.rx
unfolding wsgi_body_preload
wsgi_body_preload-rx max filelike (bytes_body b) items c = preload_bytes-rx b c
wsgi_body_preload-rx max filelike not_iterable items c = refl
wsgi_body_preload-rx max filelike (iterator _) items c = preload_items-rx max filelike items c
wsgi_body_preload-rx max filelike (generator _) items c = preload_items-rx max filelike items c

one_header-rx :
    (strtoll : Bytes → ℤ) (k v : Bytes) (hs : List Header) (c : Client)
    → ((d : Client) → coded (info_loop strtoll hs d) ≡ d.rx)
    → coded (info_loop strtoll ((k, v) ∷ hs) c) ≡ c.rx
unfolding info_loop
one_header-rx strtoll k v hs c again = by_name (is_content_length k) refl
  where
    by_value :
        (o : ℤ ⊎ ℤ)
        → is_content_length k ≡ true
        → parse_length strtoll v ≡ o
        → coded (info_loop strtoll ((k, v) ∷ hs) c) ≡ c.rx
    by_value (inl x) e q = rw (info_loop, e, q) refl
    by_value (inr n) e q = rw (info_loop, e, q) (again (with_content_length n c))

    by_name :
        (b : Bool) → is_content_length k ≡ b → coded (info_loop strtoll ((k, v) ∷ hs) c) ≡ c.rx
    by_name false e = rw (info_loop, e) (again c)
    by_name true e = by_value (parse_length strtoll v) e refl

info_loop-rx :
    (strtoll : Bytes → ℤ) (hs : List Header) (c : Client) → coded (info_loop strtoll hs c) ≡ c.rx
unfolding info_loop
info_loop-rx strtoll [] c = refl
info_loop-rx strtoll ((k, v) ∷ hs) c = one_header-rx strtoll k v hs c (info_loop-rx strtoll hs)

module _ (srv : Srv) (strtoll : Bytes → ℤ) where
  prepare_body-rx :
      (filelike : Bool) (body : WsgiBody) (items : List Item) (hs : List Header) (c : Client)
      → pulled (prepare_body srv strtoll filelike body items hs c) ≡ c.rx
  unfolding prepare_body failed_response get_info_from_wsgi_response reset_head_buffer
      reset_response_body reset_response_preload
  prepare_body-rx filelike body items hs c = ground (arith, info, preloaded)
    where
      info : coded (get_info_from_wsgi_response strtoll hs c) ≡ c.rx
      info = info_loop-rx strtoll hs (with_content_length (neg 1) c)

      preloaded :
          pulled (
            wsgi_body_preload srv.max_chunk_size filelike body items
              (get_info_from_wsgi_response strtoll hs c).1)
          ≡ c.rx
      preloaded = wsgi_body_preload-rx srv.max_chunk_size filelike body items _ ∙ info

  start_generator-rx :
      (items : List Item) (c : Client) → pulled (start_generator srv strtoll items c) ≡ c.rx
  unfolding start_generator
  start_generator-rx items c = ground (arith, next_chunk-rx c items)

  pub process_wsgi_response-rx :
      (filelike : Bool) (body : WsgiBody) (hs : List Header) (c : Client)
      → pulled (process_wsgi_response srv strtoll filelike body hs c) ≡ c.rx
  unfolding process_wsgi_response failed_response reset_head_buffer reset_response_body
      reset_response_preload
  process_wsgi_response-rx filelike (bytes_body b) hs c =
      prepare_body-rx filelike (bytes_body b) [] hs (with_content_length (neg 1) c)
  process_wsgi_response-rx filelike (iterator items) hs c =
      prepare_body-rx filelike (iterator items) items hs (with_content_length (neg 1) c)
  process_wsgi_response-rx filelike not_iterable hs c = refl
  process_wsgi_response-rx filelike (generator items) hs c = ground (
    arith,
    prepare_body-rx filelike (generator items) (begun.2) hs (begun.1),
    start_generator-rx items (with_content_length (neg 1) c),
  )
    where
      begun : Bool × Client × List Item
      begun = start_generator srv strtoll items (with_content_length (neg 1) c)

pub create_response-rx :
    (srv : Srv) (status_name : ℤ → Option Bytes) (atoi : Bytes → ℤ) (date : Bytes)
    (r : StartResponse) (c : Client)
    → (create_response srv status_name atoi date r c).1.rx ≡ c.rx
unfolding create_response reset_head_buffer reset_response_body reset_response_preload
create_response-rx srv status_name atoi date r c = ground (arith, built)
  where
    built :
        coded (
          if ltb (length r.status) 3
          then (neg 2, reset_head_buffer c)
          else build_response srv status_name date c.request.keep_alive
              (atoi (take 3 r.status))
              r.headers
              none
              (neg 1)
              c)
        ≡ c.rx
    built = either coded c.rx (ltb (length r.status) 3) _ _ refl (
        build_response-rx srv status_name date c.request.keep_alive (atoi (take 3 r.status))
          r.headers none (neg 1) c)
