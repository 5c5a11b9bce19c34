-- ===== src/Reader/Refusal.antt =====
-- What read_cb of fastwsgi/server.c does with bytes that the parser refuses.
use fastpysgi.Base.{
  ◌≡◌, refl, ap, ◌∙◌, inl, inr, true, false, ◌||◌, none, some, [], ◌∷◌, ◌++◌, arith, ◌==◌,
  if◌then◌else◌, Bool-cases, ℤ, is_zero, int_lt, pos, Bytes,
}
use fastpysgi.Client.{is_sending, is_destroy, Client, ca_shutdown}
use fastpysgi.Server.{read_stop, writing}
use fastpysgi.Reader.{
  Errno, Llhttp, Host, Answers, Turn, send_plain, send_fatal, hpe_ok, hpe_paused, hpe_other,
  hpe_invalid_version,
}
use fastpysgi.Reader.Parse.{parse_error, broken}
use fastpysgi.Reader.Plain.{plain_text, plain_sent, plain_not_sent}
use fastpysgi.Reader.Progress.{finish_destroys}
use fastpysgi.Reader.Handler.{
  close_connection, shutdown_connection, conclude, settle, report, finish, proceed,
}

parse_error-range :
    (e : Errno) (c : Client)
    → int_lt (parse_error e c) (pos 400) || int_lt (pos 599) (parse_error e c) ≡ false
parse_error-range hpe_ok c = ground arith
parse_error-range hpe_paused c = ground arith
parse_error-range hpe_other c = ground arith
parse_error-range (hpe_invalid_version none) c = ground arith
parse_error-range (hpe_invalid_version (some r)) c = ground arith

status_kept : (e : Errno) (c : Client) → is_zero (parse_error e c) ≡ false
status_kept hpe_ok c = ground arith
status_kept hpe_paused c = ground arith
status_kept hpe_other c = ground arith
status_kept (hpe_invalid_version none) c = ground arith
status_kept (hpe_invalid_version (some r)) c = ground arith

shutdown_effects :
    (ans : Answers) (c d : Client) → (shutdown_connection ans c).1 ≡ (shutdown_connection ans d).1
unfolding shutdown_connection close_connection
shutdown_effects ans c d = ground arith

module _ {P : Type 0} (http : Llhttp P) (host : Host) (ans : Answers) where
  report_shutdown : (e : ℤ) (t : Turn P) → report host ans (ca_shutdown, e, t) ≡ (ca_shutdown, t)
  unfolding report
  report_shutdown e t = ground arith

  conclude_effects :
      (t : Turn P) (c : Client)
      → (conclude ans (settle http (ca_shutdown, t))).effects
        ≡ t.effects ++ read_stop ∷ [] ++ (shutdown_connection ans c).1
  unfolding conclude settle
  conclude_effects t c =
      ap (λ es. t.effects ++ read_stop ∷ [] ++ es)
        (shutdown_effects ans (settle http (ca_shutdown, t)).1.client c)

  abbrev answer_text : Errno → Turn P → Bytes → Bytes
  answer_text e t name =
      plain_text host false (parse_error e t.client) name t.client.request.method
        t.client.response.wsgi_content_length

  answer_sent :
      (e : Errno) (t : Turn P) (name : Bytes)
      → host.status_name (parse_error e t.client) ≡ some name
      → (t.client.response.chunked == 0) ≡ true
      → (send_plain host ans.uv_write_ok false (parse_error e t.client) t.client).1 ≡ (
          if is_sending t.client.state then [] else read_stop ∷ writing (answer_text e t name) ∷ [])
  answer_sent e t name n k = elim (Bool-cases (is_sending t.client.state)) [
    | inl y ↦ rw y (plain_not_sent host ans.uv_write_ok false (parse_error e t.client) t.client y)
    | inr idle ↦
        rw idle
          (plain_sent host ans.uv_write_ok false (parse_error e t.client) name t.client idle k n)
  ]

  -- what is asked of libuv, for the answer of send_plain
  broken_effects :
      (e : Errno) (t : Turn P)
      → let status = parse_error e t.client in
        let r = proceed http host ans (broken host ans e t) in
        let (c, sent) = send_plain host ans.uv_write_ok false status t.client in
        (int_lt status (pos 400) || int_lt (pos 599) status ≡ false)
        × (is_destroy r.client.state ≡ true)
        × (r.effects ≡ t.effects ++ sent ++ read_stop ∷ [] ++ (shutdown_connection ans c).1)
  unfolding proceed broken send_fatal finish report settle conclude
  broken_effects e t = (
    parse_error-range e t.client,
    finish_destroys http host ans ca_shutdown (pos 0) fatal refl,
    ap (λ v. (conclude ans (settle http v)).effects) (report_shutdown (pos 0) fatal)
        ∙ conclude_effects fatal
            (send_plain host ans.uv_write_ok false (parse_error e t.client) t.client).0
        ∙ rw (status_kept e t.client) refl,
  )
    where
      fatal : Turn P
      fatal = (send_fatal host ans (parse_error e t.client) t).1

  -- Bytes that the parser refuses, with a status that has a name, on a connection that has not begun a
  -- chunked response: the status is an error of 400 to 599, the connection is on its end, and libuv is
  -- asked for one write of the plain answer with that status and without keep-alive, or for none if a
  -- write is in flight, then to stop reading, then to end the connection, and no more.
  pub broken_answered :
      (e : Errno) (t : Turn P) (name : Bytes)
      → host.status_name (parse_error e t.client) ≡ some name
      → (t.client.response.chunked == 0) ≡ true
      → let status = parse_error e t.client in
        let r = proceed http host ans (broken host ans e t) in
        let answer =
          plain_text host false status name t.client.request.method
            t.client.response.wsgi_content_length in
        (int_lt status (pos 400) || int_lt (pos 599) status ≡ false)
        × (is_destroy r.client.state ≡ true)
        × (r.effects
            ≡ t.effects
              ++ (if is_sending t.client.state then [] else read_stop ∷ writing answer ∷ [])
              ++ read_stop ∷ []
              ++ (shutdown_connection ans t.client).1)
  broken_answered e t name n k =
      let (ranged, ends, asked) = broken_effects e t in
      let c = (send_plain host ans.uv_write_ok false (parse_error e t.client) t.client).0 in
      (
        ranged,
        ends,
        asked
            ∙ ap (λ es. t.effects ++ es ++ read_stop ∷ [] ++ (shutdown_connection ans c).1)
                (answer_sent e t name n k)
            ∙ ap
                (λ es.
                  t.effects
                  ++ (if is_sending t.client.state
                      then []
                      else read_stop ∷ writing (answer_text e t name) ∷ [])
                  ++ read_stop ∷ []
                  ++ es)
                (shutdown_effects ans c t.client),
      )
