-- ===== src/Response/Length.antt =====
-- What is announced for a body, and what the headers of the application say.
use fastpysgi.Base.{◌≤◌, code, ◌≡◌, ◌≢◌, ◌⊎◌, Bool, true, false, arith, neg, is_pos, pos_part, pos}
use fastpysgi.Client.{Client}
use fastpysgi.Response.Body.{announce}

-- The announcement of a preloaded body: an error of the iterator gives -13; 1 is returned only with
-- a total that is the announced Content-Length, or the exact size of a body that is all at hand and
-- within the announced length; 2 means chunks, and then no length above 0 was announced.
pub announce_lem :
    (fully_loaded : Bool) (c : Client)
    → let (code, d) = announce fully_loaded c in
      (c.error ≢ 0 → (code ≡ neg 13) × (d ≡ c))
      × (code ≡ pos 1
          → (d.response.body_total_size ≡ c.response.wsgi_content_length)
            ⊎ ((fully_loaded ≡ true)
                × (d.response.body_total_size ≡ pos c.response.body_preloaded_size)
                × (is_pos c.response.wsgi_content_length ≡ true
                    → c.response.body_preloaded_size ≤ pos_part c.response.wsgi_content_length)))
      × (code ≡ pos 2
          → (fully_loaded ≡ false)
            × (d.response.chunked ≡ 1)
            × (is_pos c.response.wsgi_content_length ≡ false))
unfolding announce
announce_lem fully_loaded c = ground arith
