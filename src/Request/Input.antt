-- ===== src/Request/Input.antt =====
-- What the application gets as the body of a request (fastwsgi/request.c).
use mathlib.Core.Bool.{false≢true}
use fastpysgi.Base.{
  ◌≡◌, refl, sym, ap, ap₂, ◌∙◌, inl, inr, Bool, true, false, ◌&&◌, Option, none, some, [], ◌∷◌,
  arith, ◌==◌, if◌then◌else◌, Bool-cases, branch, length, ℤ, neg, is_neg, pos, Bytes, codes,
  bytes_eq,
}
use fastpysgi.Request.Url.{Parser}
use fastpysgi.Base.Print.{decimal}
use fastpysgi.Client.{Value, Dict, Scope, Client, Srv, set_item, get_item, Codecs, text, stream}
use fastpysgi.Request.Environ.{
  Key, put_environ, put_scope, append_header, set_value_asgi, set_value_wsgi, set_header, path_info,
  query_string, request_method, remote_addr, content_length_key, named,
}
use fastpysgi.Request.Body.{stream_bytes, truncated, set_input, set_server_values}

-- `wsgi.input` of the environ
abbrev pub wsgi_value : Client → Option Value
wsgi_value c = elim (c.request.headers) [ none ↦ none | some d ↦ get_item d (codes "wsgi.input") ]

-- the body as asgi_receive reads it
abbrev pub asgi_body : Client → Bytes
asgi_body c = if c.request.wsgi_input_size == 0 then [] else stream_bytes c.request.wsgi_input

bytes_eq_refl : (b : Bytes) → bytes_eq b b ≡ true
bytes_eq_refl [] = refl
bytes_eq_refl (x ∷ b) = ground (arith, bytes_eq_refl b)

bytes_eq_sound : (a b : Bytes) → bytes_eq a b ≡ true → a ≡ b
bytes_eq_sound [] [] h = refl
bytes_eq_sound [] (y ∷ b) h = absurd (false≢true h)
bytes_eq_sound (x ∷ a) [] h = absurd (false≢true h)
bytes_eq_sound (x ∷ a) (y ∷ b) h =
    ap₂ (λ z t. z ∷ t) (ground (arith, h)) (bytes_eq_sound a b (ground (arith, h)))

get_item-set_item : (d : Dict) (k : Bytes) (v : Value) → get_item (set_item d k v) k ≡ some v
unfolding get_item set_item
get_item-set_item [] k v = rw (bytes_eq_refl k) refl
get_item-set_item ((j, w) ∷ d) k v = elim (Bool-cases (bytes_eq j k)) [
  | inl y ↦ rw (y, bytes_eq_refl k) refl
  | inr n ↦ rw (n, n) (get_item-set_item d k v)
]

get_item-other :
    (d : Dict) (k i : Bytes) (v : Value)
    → bytes_eq k i ≡ false
    → get_item (set_item d k v) i ≡ get_item d i
unfolding get_item set_item
get_item-other [] k i v h = rw h refl
get_item-other ((j, w) ∷ d) k i v h = elim (Bool-cases (bytes_eq j k)) [
  | inl y ↦ rw (y, h, ap (λ t. bytes_eq t i) (bytes_eq_sound j k y) ∙ h) refl
  | inr n ↦ rw n (ap (λ t. if bytes_eq j i then some w else t) (get_item-other d k i v h))
]

-- The input of the application stays as it is.
pub record KeepsInput (c d : Client) : Type 0 where
  pub value : wsgi_value d ≡ wsgi_value c
  pub stream_kept : d.request.wsgi_input ≡ c.request.wsgi_input
  pub size_kept : d.request.wsgi_input_size ≡ c.request.wsgi_input_size

same_input : (c : Client) → KeepsInput c c
same_input c = record { value = refl; stream_kept = refl; size_kept = refl }

both : (c d e : Client) → KeepsInput c d → KeepsInput d e → KeepsInput c e
both c d e p q = record {
  value = q.value ∙ p.value;
  stream_kept = q.stream_kept ∙ p.stream_kept;
  size_kept = q.size_kept ∙ p.size_kept;
}

put_environ-KeepsInput :
    (c : Client) (k v : Bytes)
    → bytes_eq k (codes "wsgi.input") ≡ false
    → KeepsInput c (put_environ c k v).1
unfolding put_environ
put_environ-KeepsInput c k v h = by_headers (c.request.headers) refl
  where
    by_headers :
        (o : Option Dict)
        → c.request.headers ≡ o
        → KeepsInput c
            (elim o as (λ o. ℤ × Client) [
              | none ↦ (neg 3, c)
              | some d ↦ (
                pos 0,
                record c {
                  request = record (c.request) { headers = some (set_item d k (text v)) };
                },
              )
            ]).1
    by_headers none e = same_input c
    by_headers (some d) e = record {
      value = get_item-other d k (codes "wsgi.input") (text v) h ∙ sym (rw e refl);
      stream_kept = refl;
      size_kept = refl;
    }

-- the keys of the values that the server adds
abbrev pub is_added : Key → Bool
is_added request_method = true
is_added remote_addr = true
is_added content_length_key = true
is_added path_info = false
is_added query_string = false
is_added (named n) = false

set_value_wsgi-KeepsInput :
    (codecs : Codecs) (c : Client) (k : Key) (v : Bytes)
    → is_added k ≡ true
    → KeepsInput c (set_value_wsgi codecs c k v).1
unfolding set_value_wsgi
set_value_wsgi-KeepsInput codecs c request_method v h =
    put_environ-KeepsInput c (codes "REQUEST_METHOD") (codecs.utf8_ignore v) refl
set_value_wsgi-KeepsInput codecs c remote_addr v h =
    put_environ-KeepsInput c (codes "REMOTE_ADDR") (codecs.utf8_ignore v) refl
set_value_wsgi-KeepsInput codecs c content_length_key v h =
    put_environ-KeepsInput c (codes "CONTENT_LENGTH") (codecs.utf8_ignore v) refl
set_value_wsgi-KeepsInput codecs c path_info v h = absurd (false≢true h)
set_value_wsgi-KeepsInput codecs c query_string v h = absurd (false≢true h)
set_value_wsgi-KeepsInput codecs c (named n) v h = absurd (false≢true h)

set_value_asgi-KeepsInput :
    (codecs : Codecs) (c : Client) (s : Scope) (k : Key) (v : Bytes)
    → is_added k ≡ true
    → KeepsInput c (set_value_asgi codecs c s k v).1
unfolding set_value_asgi put_scope append_header
set_value_asgi-KeepsInput codecs c s request_method v h = record {
  value = refl;
  stream_kept = refl;
  size_kept = refl;
}
set_value_asgi-KeepsInput codecs c s remote_addr v h = record {
  value = refl;
  stream_kept = refl;
  size_kept = refl;
}
set_value_asgi-KeepsInput codecs c s content_length_key v h = record {
  value = refl;
  stream_kept = refl;
  size_kept = refl;
}
set_value_asgi-KeepsInput codecs c s path_info v h = absurd (false≢true h)
set_value_asgi-KeepsInput codecs c s query_string v h = absurd (false≢true h)
set_value_asgi-KeepsInput codecs c s (named n) v h = absurd (false≢true h)

-- for either kind of application
added-KeepsInput :
    (codecs : Codecs) (c : Client) (k : Key) (v : Bytes) (o : Option Scope)
    → is_added k ≡ true
    → KeepsInput c
        (elim o as (λ o. ℤ × Client) [
          | none ↦ set_value_wsgi codecs c k v
          | some s ↦ set_value_asgi codecs c s k v
        ]).1
added-KeepsInput codecs c k v none h = set_value_wsgi-KeepsInput codecs c k v h
added-KeepsInput codecs c k v (some s) h = set_value_asgi-KeepsInput codecs c s k v h

set_header-KeepsInput :
    (codecs : Codecs) (srv : Srv) (c : Client) (k : Key) (v : Bytes)
    → is_added k ≡ true
    → KeepsInput c (set_header codecs srv c k v).1
unfolding set_header
set_header-KeepsInput codecs srv c request_method v h =
    added-KeepsInput codecs c request_method v c.asgi h
set_header-KeepsInput codecs srv c remote_addr v h =
    added-KeepsInput codecs c remote_addr v c.asgi h
set_header-KeepsInput codecs srv c content_length_key v h =
    added-KeepsInput codecs c content_length_key v c.asgi h
set_header-KeepsInput codecs srv c path_info v h = absurd (false≢true h)
set_header-KeepsInput codecs srv c query_string v h = absurd (false≢true h)
set_header-KeepsInput codecs srv c (named n) v h = absurd (false≢true h)

-- The values that the server adds leave the input alone.
pub set_server_values-KeepsInput :
    (codecs : Codecs) (srv : Srv) (p : Parser) (remote : Bytes) (c : Client)
    → KeepsInput c (set_server_values codecs srv p remote c)
unfolding set_server_values
set_server_values-KeepsInput codecs srv p remote c =
    let d = (set_header codecs srv c request_method p.method_name).1 in
    let first = set_header-KeepsInput codecs srv c request_method p.method_name refl in
    let rest : (e : Client)
        → KeepsInput c e
        → KeepsInput c (
            if e.request.chunked && is_neg e.request.http_content_length
            then (set_header codecs srv e content_length_key (decimal e.request.wsgi_input_size)).1
            else e) =
      λ e k.
        branch (KeepsInput c) (e.request.chunked && is_neg e.request.http_content_length)
          (λ _.
            both c e
              (set_header codecs srv e content_length_key (decimal e.request.wsgi_input_size)).1 k
              (set_header-KeepsInput codecs srv e content_length_key
                (decimal e.request.wsgi_input_size) refl))
          (λ _. k) in
    rest (if length remote == 0 then d else (set_header codecs srv d remote_addr remote).1) (
      branch (KeepsInput c) (length remote == 0) (λ _. first)
        (λ _.
          both c d (set_header codecs srv d remote_addr remote).1 first
            (set_header-KeepsInput codecs srv d remote_addr remote refl)))

-- what set_input gives, for the stream cut to the body
pub set_input-value :
    (c : Client)
    → wsgi_value (set_input c)
      ≡ (elim (c.request.headers) [ none ↦ none | some d ↦ some (stream (truncated c)) ])
unfolding set_input
set_input-value c = by_headers (c.request.headers)
  where
    by_headers :
        (o : Option Dict)
        → (elim (elim o as (λ o. Option Dict) [
          | none ↦ none
          | some d ↦ some (set_item d (codes "wsgi.input") (stream (truncated c)))
        ])
            as (λ o. Option Value) [ none ↦ none | some d ↦ get_item d (codes "wsgi.input") ])
          ≡ (elim o [ none ↦ none | some d ↦ some (stream (truncated c)) ])
    by_headers none = refl
    by_headers (some d) = get_item-set_item d (codes "wsgi.input") (stream (truncated c))

pub set_input-body : (c : Client) → asgi_body (set_input c) ≡ truncated c
unfolding set_input
set_input-body c = elim (Bool-cases (c.request.wsgi_input_size == 0)) [
  | inl y ↦ rw y refl
  | inr n ↦ rw n refl
]
