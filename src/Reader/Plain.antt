-- ===== src/Reader/Plain.antt =====
-- The plain answers that the server sends itself (fastwsgi/server.c), as one write.
use mathlib.Core.Bool.{false≢true}
use fastpysgi.Base.{
  ℕ, ◌≡◌, refl, sym, ap, ◌∙◌, inl, inr, Bool, true, false, not, ◌&&◌, none, some, List, [], ◌∷◌,
  ◌++◌, append-nil, arith, ltb, ◌==◌, if◌then◌else◌, Bool-cases, branch, length, ℤ, pos, Bytes,
}
use fastpysgi.Response.Head.{
  crlf, header_lines, server_lines, status_line, length_line, is_bodiless, push_head, end_head,
  place_body, finish_head, build_response,
}
use fastpysgi.Request.Reset.{reset_head_buffer, reset_response_body}
use fastpysgi.Reader.{Host, send_plain}
use fastpysgi.Client.{is_sending, Action, Method, is_head, Client, Srv}
use fastpysgi.Server.{Effect, read_stop, writing}
use fastpysgi.Server.Write.{wire, stream_write}

-- A connection that is not writing, whose head is built, and nothing more.
pub record HeadOnly (head : Bytes) (c : Client) : Type 0 where
  pub head_eq : c.head ≡ head
  pub size_eq : c.response.headers_size ≡ length c.head
  pub no_body : c.response.body_preloaded_size ≡ 0
  pub no_chunks : (c.response.chunked == 1) ≡ false
  pub idle : is_sending c.state ≡ false

same_size : (n : ℕ) → (ltb 0 n && not (n == n)) ≡ false
same_size n = ground arith

-- it goes out as one write
head_written :
    (ok : Bool) (head : Bytes) (c : Client)
    → HeadOnly head c
    → ltb 0 (length head) ≡ true
    → (stream_write ok c).2 ≡ read_stop ∷ writing head ∷ []
unfolding stream_write wire
head_written ok head c h some_bytes =
    let P = λ (r : Action × Client × List Effect). r.2 ≡ read_stop ∷ writing head ∷ [] in
    branch P (is_sending c.state) (λ k. absurd (false≢true (sym h.idle ∙ k)))
      λ _.
        branch P (ltb 0 c.response.headers_size && not (c.response.headers_size == length c.head))
          (λ k. absurd (false≢true (sym guard ∙ k))) (λ _. branch P ok (λ _. sent) (λ _. sent))
  where
    guard :
        (ltb 0 c.response.headers_size && not (c.response.headers_size == length c.head)) ≡ false
    guard = ap (λ n. ltb 0 n && not (n == length c.head)) h.size_eq ∙ same_size (length c.head)

    sent : read_stop ∷ writing (wire c) ∷ [] ≡ read_stop ∷ writing head ∷ []
    sent =
        rw (wire, h.size_eq, h.head_eq, h.no_body, h.no_chunks, some_bytes)
          (ap (λ w. read_stop ∷ writing w ∷ []) (append-nil (head ++ []) ∙ append-nil head))

-- the line of the length and the end of the head
abbrev plain_end : Srv → Method → ℤ → Bytes
plain_end srv method announced =
    length_line srv (if is_head method then announced else pos 0) ++ crlf

-- the text of a plain answer
abbrev pub plain_text : Host → Bool → ℤ → Bytes → Method → ℤ → Bytes
plain_text host keep status name method announced =
    status_line status name
    ++ server_lines host.srv host.date keep []
    ++ plain_end host.srv method announced

finished :
    (srv : Srv) (method : Method) (lines : Bytes) (c : Client)
    → c.head ≡ []
    → (c.response.chunked == 0) ≡ true
    → is_sending c.state ≡ false
    → HeadOnly
        (lines ++ plain_end srv method c.response.wsgi_content_length)
        (finish_head srv method none (pos 0) (push_head lines c)).1
unfolding finish_head end_head place_body reset_response_body
finished srv method lines c e k idle =
    let t = plain_end srv method c.response.wsgi_content_length in
    branch (λ (r : ℤ × Client). HeadOnly (lines ++ t) r.1) (is_head method)
      (λ h. record {
        head_eq = rw (e, h) refl;
        size_eq = refl;
        no_body = refl;
        no_chunks = refl;
        idle = idle;
      })
      λ h.
        branch (λ (r : ℤ × Client). HeadOnly (lines ++ t) r.1) (not (c.response.chunked == 0))
          (λ j. absurd (false≢true (sym (ap not k) ∙ j)))
          λ j. record {
            head_eq = rw (e, h) refl;
            size_eq = refl;
            no_body = refl;
            no_chunks = refl;
            idle = idle;
          }

plain_built :
    (host : Host) (keep : Bool) (status : ℤ) (name : Bytes) (c : Client)
    → host.status_name status ≡ some name
    → (c.response.chunked == 0) ≡ true
    → is_sending c.state ≡ false
    → HeadOnly
        (plain_text host keep status name c.request.method c.response.wsgi_content_length)
        (build_response host.srv host.status_name host.date keep status [] none (pos 0) c).1
unfolding build_response reset_response_body reset_head_buffer header_lines
plain_built host keep status name c n k idle =
    elim (Bool-cases (is_bodiless status c.request.method)) [
      | inl y ↦
          rw (build_response, n, y, append-nil)
            (finished host.srv c.request.method
              (status_line status name ++ server_lines host.srv host.date keep [])
              (reset_response_body (reset_head_buffer c)) refl refl idle)
      | inr m ↦
          rw (build_response, n, m, append-nil)
            (finished host.srv c.request.method
              (status_line status name ++ server_lines host.srv host.date keep [])
              (reset_head_buffer c) refl k idle)
    ]

-- A plain answer on a connection that is not writing and not chunked, for a status that has a name: one
-- write of the status line, the lines of the server and the length.
pub plain_sent :
    (host : Host) (ok keep : Bool) (status : ℤ) (name : Bytes) (c : Client)
    → is_sending c.state ≡ false
    → (c.response.chunked == 0) ≡ true
    → host.status_name status ≡ some name
    → (send_plain host ok keep status c).1
      ≡ read_stop
        ∷ writing (plain_text host keep status name c.request.method c.response.wsgi_content_length)
        ∷ []
unfolding send_plain status_line
plain_sent host ok keep status name c idle k n =
    let d = (build_response host.srv host.status_name host.date keep status [] none (pos 0) c).1 in
    rw (send_plain, idle)
      (head_written ok
        (plain_text host keep status name c.request.method c.response.wsgi_content_length) d
        (plain_built host keep status name c n k idle) (ground arith))

-- While a write is in flight nothing is sent.
pub plain_not_sent :
    (host : Host) (ok keep : Bool) (status : ℤ) (c : Client)
    → is_sending c.state ≡ true
    → (send_plain host ok keep status c).1 ≡ []
unfolding send_plain
plain_not_sent host ok keep status c h = rw (send_plain, h) refl
