-- ===== src/Request/Upload.antt =====
-- The chunks of a body, from the first callback to the stream that the application reads.
use mathlib.Core.Bool.{false≢true}
use fastpysgi.Base.Memory.{take-append}
use fastpysgi.Base.{
  ℕ, suc, ◌+◌, ◌≡◌, refl, sym, ap, ap₂, ◌∙◌, ◌≢◌, inl, inr, true, false, ◌&&◌, Option, none, some,
  [], ◌∷◌, ◌++◌, append-nil, arith, ltb, ◌==◌, if◌then◌else◌, Bool-cases, length, length-append,
  take, drop, pos, Bytes,
}
use fastpysgi.Request.Url.{Parser}
use fastpysgi.Client.{is_loaded, Value, Client, Srv, Codecs, stream}
use fastpysgi.Request.{proceed}
use fastpysgi.Request.Body.{
  bytesio_write, stream_bytes, body_start, on_body, ended, truncated, set_input, bad_length,
  set_server_values, on_message_complete,
}
use fastpysgi.Request.Input.{
  wsgi_value, asgi_body, KeepsInput, set_server_values-KeepsInput, set_input-value, set_input-body,
}

-- The stream of the connection begins with `acc`, the body so far.
pub record Holds (c : Client) (acc : Bytes) : Type 0 where
  pub size_eq : c.request.wsgi_input_size ≡ length acc
  pub bytes_held : take (length acc) (stream_bytes c.request.wsgi_input) ≡ acc
  pub closed_empty : c.request.wsgi_input ≡ none → acc ≡ []

written_bytes :
    (old acc new : Bytes)
    → take (length acc) old ≡ acc
    → take (length (acc ++ new)) (bytesio_write old (length acc) new) ≡ acc ++ new
unfolding bytesio_write
written_bytes old acc new h = rw h (take-append (acc ++ new) (drop (length acc + length new) old))

start-size : (c : Client) (acc : Bytes) → Holds c acc → body_start c ≡ length acc
start-size c acc h = go (c.request.wsgi_input) h.closed_empty
  where
    go :
        (o : Option Bytes)
        → (o ≡ none → acc ≡ [])
        → elim o [ none ↦ 0 | some s ↦ c.request.wsgi_input_size ] ≡ length acc
    go none e = rw (e refl) refl
    go (some s) e = h.size_eq

some-ne : {s : Bytes} → some s ≢ none
some-ne = cc

suc-eq-zero : (n : ℕ) → (suc n == 0) ≡ false
suc-eq-zero n = ground arith

accepted :
    (srv : Srv) (x : ℕ) (xs : Bytes) (c : Client)
    → (on_body srv (x ∷ xs) c).0 ≡ proceed
    → (ltb srv.max_content_length (body_start c + suc (length xs)) ≡ false)
      × ((c.error == 0) ≡ true)
unfolding on_body
accepted srv x xs c p = ground arith

loaded :
    (codecs : Codecs) (srv : Srv) (p : Parser) (remote : Bytes) (c : Client)
    → is_loaded (on_message_complete codecs srv p remote c).1.request.load_state ≡ true
    → (c.error ≡ 0) × (bad_length c ≡ false)
unfolding on_message_complete
loaded codecs srv p remote c l = elim (Bool-cases (c.error == 0)) [
  | inl z ↦ elim (Bool-cases (bad_length c)) [
    | inl b ↦ absurd (false≢true (rw (on_message_complete, z, b) at l))
    | inr b ↦ (ground arith, b)
  ]
  | inr z ↦ elim (Bool-cases (c.request.expect_continue && c.error == 417)) [
    | inl b ↦ absurd (false≢true (rw (on_message_complete, z, b) at l))
    | inr b ↦ absurd (false≢true (rw (on_message_complete, z, b) at l))
  ]
]

nil_of_length : (xs : Bytes) → length xs ≡ 0 → xs ≡ []
nil_of_length [] h = refl
nil_of_length (x ∷ xs) h = absurd (omega arith)

truncated-acc : (c : Client) (acc : Bytes) → Holds c acc → truncated c ≡ acc
truncated-acc c acc h = elim (Bool-cases (c.request.wsgi_input_size == 0)) [
  | inl z ↦ rw z (sym (nil_of_length acc (ground (arith, h.size_eq))))
  | inr z ↦ rw (z, h.size_eq) h.bytes_held
]

announced :
    (c : Client) (acc : Bytes) (n : ℕ)
    → Holds c acc
    → bad_length c ≡ false
    → c.request.http_content_length ≡ pos n
    → n ≡ length acc
unfolding bad_length
announced c acc n h b e = ground (arith, h.size_eq)

-- On a connection that holds a body, a chunk that the callback accepts is appended to it.
pub on_body-Holds :
    (srv : Srv) (chunk acc : Bytes) (c : Client)
    → Holds c acc
    → (on_body srv chunk c).0 ≡ proceed
    → Holds (on_body srv chunk c).1 (acc ++ chunk)
unfolding on_body
on_body-Holds srv [] acc c h p =
    rw append-nil
      (record { size_eq = h.size_eq; bytes_held = h.bytes_held; closed_empty = h.closed_empty })
on_body-Holds srv (x ∷ xs) acc c h p =
    let (below, clean) = accepted srv x xs c p in
    let start = start-size c acc h in
    rw (on_body, suc-eq-zero (length xs), below, clean)
      (record {
        size_eq = omega (arith, start, length-append acc (x ∷ xs));
        bytes_held =
            rw start (written_bytes (stream_bytes c.request.wsgi_input) acc (x ∷ xs) h.bytes_held);
        closed_empty = λ e. absurd (some-ne e);
      })

-- the result for a request that is handed on
handed_on :
    (codecs : Codecs) (srv : Srv) (p : Parser) (remote : Bytes) (c : Client)
    → (c.error == 0) ≡ true
    → bad_length c ≡ false
    → let r = (on_message_complete codecs srv p remote c).1 in
      let e = set_server_values codecs srv p remote (set_input (ended p c)) in
      (wsgi_value r ≡ wsgi_value e) × (asgi_body r ≡ asgi_body e)
unfolding on_message_complete
handed_on codecs srv p remote c z b = rw (on_message_complete, z, b) (refl, refl)

body_of : (c d : Client) → KeepsInput c d → asgi_body d ≡ asgi_body c
body_of c d k = ap₂ (λ n s. if n == 0 then [] else stream_bytes s) k.size_kept k.stream_kept

-- On a connection that holds the accepted bytes `acc`, a request is handed to the application only
-- if no callback failed and, if its length was announced, only with a body of exactly that length;
-- the body that an ASGI application receives is then `acc`, without bytes of an earlier request, and
-- so is what `wsgi.input` of the environ holds, if there is an environ.
pub on_message_complete_exact :
    (codecs : Codecs) (srv : Srv) (p : Parser) (remote acc : Bytes) (c : Client)
    → Holds c acc
    → is_loaded (on_message_complete codecs srv p remote c).1.request.load_state ≡ true
    → let r = (on_message_complete codecs srv p remote c).1 in
      (c.error ≡ 0)
      × (asgi_body r ≡ acc)
      × (wsgi_value r ≡ (elim (c.request.headers) [ none ↦ none | some d ↦ some (stream acc) ]))
      × ((n : ℕ) → c.request.http_content_length ≡ pos n → n ≡ length acc)
on_message_complete_exact codecs srv p remote acc c h l =
    let (clean, fits) = loaded codecs srv p remote c l in
    let d = ended p c in
    let e = set_server_values codecs srv p remote (set_input d) in
    let kept = set_server_values-KeepsInput codecs srv p remote (set_input d) in
    let (same_value, same_body) = handed_on codecs srv p remote c (ap (λ n. n == 0) clean) fits in
    let cut : truncated d ≡ acc = truncated-acc c acc h in
    (
      clean,
      same_body ∙ body_of (set_input d) e kept ∙ set_input-body d ∙ cut,
      same_value
          ∙ kept.value
          ∙ set_input-value d
          ∙ ap
              (λ b. elim (c.request.headers) as (λ o. Option Value) [
                | none ↦ none
                | some d ↦ some (stream b)
              ])
              cut,
      λ n e. announced c acc n h fits e,
    )
