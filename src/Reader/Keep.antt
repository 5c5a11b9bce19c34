-- ===== src/Reader/Keep.antt =====
-- The handlers behind the parser leave the read buffer alone (fastwsgi/request.c and server.c).
use fastpysgi.Base.{
  ◌≡◌, refl, ◌∙◌, Bool, true, false, not, Option, none, some, List, [], ◌++◌, arith, ◌==◌,
  if◌then◌else◌, ℤ, pos, Bytes,
}
use fastpysgi.Client.{Method, is_head, Rx, Client, Srv}
use fastpysgi.Server.Status.{stream_read_start}
use fastpysgi.Server.Write.{stream_write}
use fastpysgi.Request.Reset.{reset_head_buffer, reset_response_preload, reset_response_body}
use fastpysgi.Response.Head.{
  Header, header_lines, server_lines, status_line, is_bodiless, push_head, end_head, end_chunked,
  place_body, finish_head, build_response,
}
use fastpysgi.Reader.{Host, start_reading, send_plain}

pub start_reading-rx : (ok : Bool) (c : Client) → (start_reading ok c).0.rx ≡ c.rx
unfolding start_reading stream_read_start
start_reading-rx ok c = ground arith

pub stream_write-rx : (ok : Bool) (c : Client) → (stream_write ok c).1.rx ≡ c.rx
unfolding stream_write
stream_write-rx ok c = ground arith

end_head-rx : (srv : Srv) (size : ℤ) (c : Client) → (end_head srv size c).1.rx ≡ c.rx
unfolding end_head
end_head-rx srv size c = refl

end_chunked-rx : (srv : Srv) (c : Client) → (end_chunked srv c).1.rx ≡ c.rx
unfolding end_chunked
end_chunked-rx srv c = ground arith

place_body-rx : (own : Option Bytes) (size : ℤ) (c : Client) → (place_body own size c).rx ≡ c.rx
unfolding place_body reset_response_body reset_response_preload
place_body-rx none size c = ground arith
place_body-rx (some b) size c = ground arith

-- both sides of a test
pub either :
    {A : Type 0} (f : A → Rx) (r : Rx) (b : Bool) (x y : A)
    → f x ≡ r
    → f y ≡ r
    → f (if b then x else y) ≡ r
either f r true x y p q = p
either f r false x y p q = q

abbrev pub coded : ℤ × Client → Rx
coded d = d.1.rx

finish_head-rx :
    (srv : Srv) (method : Method) (own : Option Bytes) (size : ℤ) (c : Client)
    → coded (finish_head srv method own size c) ≡ c.rx
unfolding finish_head reset_response_body reset_response_preload
finish_head-rx srv method own size c = either coded c.rx (is_head method) _ _ refl (
    either coded c.rx (not (c.response.chunked == 0)) _ _ (end_chunked-rx srv c)
      (place_body-rx own size c))

pub build_response-rx :
    (srv : Srv) (status_name : ℤ → Option Bytes) (date : Bytes) (keep : Bool) (status : ℤ)
    (hs : List Header) (body : Option Bytes) (size : ℤ) (c : Client)
    → coded (build_response srv status_name date keep status hs body size c) ≡ c.rx
unfolding build_response reset_response_body reset_response_preload reset_head_buffer
build_response-rx srv status_name date keep status hs body size c =
    by_name (status_name status) refl
  where
    cleared :
        (if is_bodiless status c.request.method
          then reset_response_body (reset_head_buffer c)
          else reset_head_buffer c).rx
        ≡ c.rx
    cleared = either (λ (d : Client). d.rx) c.rx (is_bodiless status c.request.method) _ _ refl refl

    by_name :
        (o : Option Bytes)
        → status_name status ≡ o
        → coded (build_response srv status_name date keep status hs body size c) ≡ c.rx
    by_name none e = rw (build_response, e) cleared
    by_name (some name) e =
        rw (build_response, e)
          (finish_head-rx srv c.request.method body
              (if is_bodiless status c.request.method then pos 0 else size)
              (push_head
                (status_line status name ++ header_lines srv hs ++ server_lines srv date keep hs)
                (if is_bodiless status c.request.method
                  then reset_response_body (reset_head_buffer c)
                  else reset_head_buffer c))
            ∙ cleared)

pub send_plain-rx :
    (host : Host) (ok keep : Bool) (status : ℤ) (c : Client)
    → (send_plain host ok keep status c).0.rx ≡ c.rx
unfolding send_plain
send_plain-rx host ok keep status c = ground (arith, stream_write-rx ok built, built-rx)
  where
    built : Client
    built = (build_response host.srv host.status_name host.date keep status [] none (pos 0) c).1

    built-rx : built.rx ≡ c.rx
    built-rx = build_response-rx host.srv host.status_name host.date keep status [] none (pos 0) c
