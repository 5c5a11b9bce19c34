-- ===== src/Asgi/Neat.antt =====
-- The head of a response and its recorded size in fastwsgi/asgi.c.
use mathlib.Core.Bool.{false≢true}
use fastpysgi.Base.{
  ℕ, ◌≡◌, refl, sym, ◌∙◌, inl, inr, Bool, true, false, Option, none, some, List, [], ◌∷◌, leb,
  if◌then◌else◌, Bool-cases, length, ℤ, neg, is_pos, negsuc, Bytes,
}
use fastpysgi.Client.{Client}
use fastpysgi.Request.Reset.{reset_head_buffer, reset_response_preload, reset_response_body}
use fastpysgi.Response.Body.{max_preloaded_body_chunks, add_chunk, not_iterable}
use fastpysgi.Response.Head.{Header}
use fastpysgi.Response.Framing.{Ready, build_response-Ready}
use fastpysgi.Asgi.{AsgiHeaders, no_headers, not_iterable, items}
use fastpysgi.Asgi.Info.{
  header_pairs, read_headers, Outside, build_head, keep_built, asgi_build_response,
}
use fastpysgi.Asgi.Send.{place_first, Placed, place_footer, place_chunk, skipped, refused, placed}

-- The recorded size of the head is its length.
abbrev pub Neat : Client → Type 0
Neat c = c.response.headers_size ≡ length c.head

-- what the placing of a chunk leaves of the head
abbrev pub NeatPlaced : Client → Placed → Type 0
NeatPlaced c skipped = Neat c
NeatPlaced c (refused e d) = Neat d
NeatPlaced c (placed d) = Neat d

place_first-Neat :
    (latest : Bool) (body : Bytes) (c : Client) → Neat c → Neat (place_first latest body c)
unfolding place_first
place_first-Neat true [] c h = h
place_first-Neat true (x ∷ b) c h = h
place_first-Neat false body c h = h

pub first-Neat :
    (b latest : Bool) (body : Bytes) (c : Client)
    → Neat c
    → Neat (if b then place_first latest body c else c)
first-Neat true latest body c h = place_first-Neat latest body c h
first-Neat false latest body c h = h

pub place_chunk-Neat :
    (latest : Bool) (body : Bytes) (c : Client) → Neat c → NeatPlaced c (place_chunk latest body c)
unfolding place_chunk place_footer
place_chunk-Neat false [] c h = h
place_chunk-Neat true [] c h = h
place_chunk-Neat false (x ∷ b) c h =
    elim (Bool-cases (leb max_preloaded_body_chunks (length c.response.body))) [
      | inl y ↦ rw (place_chunk, y) h
      | inr n ↦ rw (place_chunk, n) h
    ]
place_chunk-Neat true (x ∷ b) c h =
    elim (Bool-cases (leb max_preloaded_body_chunks (length c.response.body))) [
      | inl y ↦ rw (place_chunk, y) h
      | inr n ↦
          elim (Bool-cases
            (leb max_preloaded_body_chunks (length (add_chunk (x ∷ b) c).response.body))) [
              | inl z ↦ rw (place_chunk, n, place_footer, z) h
              | inr z ↦ rw (place_chunk, n, place_footer, z) h
            ]
    ]

refused_head :
    (o : Option Bytes) (n : ℕ)
    → is_pos (elim o as (λ x. ℤ) [ none ↦ neg 3 | some b ↦ negsuc n ]) ≡ false
refused_head none n = refl
refused_head (some b) n = refl

module _ (out : Outside) where
  build_head-Ready :
      (status : ℤ) (hd : AsgiHeaders) (c : Client)
      → is_pos (build_head out status hd c).0 ≡ true
      → Ready (build_head out status hd c).0 (build_head out status hd c).1
  unfolding build_head read_headers
  build_head-Ready status no_headers c h =
      absurd (false≢true (sym (refused_head (out.status_name status) 3) ∙ h))
  build_head-Ready status not_iterable c h =
      absurd (false≢true (sym (refused_head (out.status_name status) 4) ∙ h))
  build_head-Ready status (items hs) c h = by_pairs (header_pairs hs) refl
    where
      by_pairs :
          (o : Option (List Header))
          → header_pairs hs ≡ o
          → Ready (build_head out status (items hs) c).0 (build_head out status (items hs) c).1
      by_pairs none e =
          absurd (
            false≢true (sym (refused_head (out.status_name status) 58) ∙ (rw (build_head, e) at h)))
      by_pairs (some ps) e =
          rw (build_head, e)
            (build_response-Ready out.srv out.status_name out.date c.request.keep_alive status ps
              none (neg 1) c (rw (build_head, e) at h))

  keep_built-Neat : (p : ℤ × Client) → (is_pos p.0 ≡ true → Ready p.0 p.1) → Neat (keep_built p).1
  unfolding keep_built reset_head_buffer reset_response_body reset_response_preload
  keep_built-Neat (len, d) h = elim (Bool-cases (is_pos len)) [
    | inl y ↦ rw (keep_built, y) ((h y).recorded)
    | inr n ↦ rw (keep_built, n) refl
  ]

  pub built-Neat :
      (status : ℤ) (hd : AsgiHeaders) (c : Client) → Neat (asgi_build_response out status hd c).1
  unfolding asgi_build_response
  built-Neat status hd c =
      keep_built-Neat (build_head out status hd c) (build_head-Ready status hd c)
