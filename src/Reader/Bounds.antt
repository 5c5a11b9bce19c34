-- ===== src/Reader/Bounds.antt =====
-- The read buffer in read_cb (fastwsgi/server.c): what is parsed stays inside it.
use mathlib.Core.Bool.{false≢true}
use fastpysgi.Base.{
  ℕ, ◌+◌, ◌≤◌, ◌<◌, ◌≡◌, refl, sym, ap, ◌∙◌, inl, inr, Bool, true, false, not, arith, ltb, ◌==◌,
  if◌then◌else◌, Bool-cases, length, drop, length-drop, ℤ, is_pos, pos_part, int_lt, pos, negsuc,
  Bytes,
}
use fastpysgi.Reader.Handler.{proceed}
use fastpysgi.Client.{at_end, is_destroy, Rx, reading, ca_shutdown}
use fastpysgi.Reader.{
  Errno, Executed, Llhttp, Host, Answers, Turn, with_rx_status, with_parsed, lock, unparsed,
  or_status, send_fatal, hpe_ok, hpe_paused, hpe_other, hpe_invalid_version,
}
use fastpysgi.Reader.Parse.{
  Parsed, parse_error, judge, drained, frozen, paused, broken, executed, parsing, after, parse,
  stopped,
}
use fastpysgi.Reader.Keep.{start_reading-rx, send_plain-rx}
use fastpysgi.Reader.Progress.{
  Apart, turn_of, goes_on, rx_of, judge-buf, judge-parsed, proceed-rx, proceed_destroys,
}

-- The buffer still holds these bytes, of which more than `prev` are parsed if the connection goes on.
pub record Moved (prev : ℕ) (buf : Bytes) (on : Bool) (r : Rx) : Type 0 where
  pub same : r.buf ≡ buf
  pub inside : r.parsed_size ≤ length buf
  pub no_less : prev ≤ r.parsed_size
  pub further : on ≡ true → prev < r.parsed_size

adds : (prev : ℕ) (add : ℤ) → not (is_pos add) ≡ false → prev < prev + pos_part add
adds prev (pos n) h = ground arith
adds prev (negsuc n) h = absurd (false≢true (sym h))

fits : (xs ys : Bytes) (n : ℕ) → xs ≡ ys → ltb (length xs) n ≡ false → n ≤ length ys
fits xs ys n e h = ground (arith, ap length e)

drop_rest : (n : ℕ) (b : Bytes) → n ≤ length b → n + length (drop n b) ≡ length b
drop_rest n b h = ground (arith, length-drop n b)

module _ {P : Type 0} (http : Llhttp P) (host : Host) (ans : Answers) (prev : ℕ) (buf : Bytes) where
  -- an outcome of the parsing that moved so
  unfoldable pub Fine : Parsed P → Type 0
  Fine o = Moved prev buf (goes_on o) (rx_of o)

  judge-Fine :
      (t : Turn P)
      → t.client.rx.buf ≡ buf
      → t.client.rx.parsed_size ≤ length buf
      → prev < t.client.rx.parsed_size
      → Fine (judge ans t)
  unfolding Fine
  judge-Fine t b i f = record {
    same = judge-buf http host ans t ∙ b;
    inside = rw (judge-parsed http host ans t) i;
    no_less = rw (judge-parsed http host ans t) (omega arith);
    further = λ h. rw (judge-parsed http host ans t) f;
  }

  drained-rx : (t : Turn P) → (drained http ans t).client.rx ≡ (with_rx_status reading t.client).rx
  unfolding drained
  drained-rx t = start_reading-rx ans.uv_read_ok (lock false (with_rx_status reading t.client))

  stop-Fine :
      (t : Turn P)
      → t.client.rx.buf ≡ buf
      → t.client.rx.parsed_size ≤ length buf
      → prev ≤ t.client.rx.parsed_size
      → Fine (stopped (ca_shutdown, pos 0, t))
  unfolding Fine turn_of goes_on
  stop-Fine t b i f = record {
    same = b;
    inside = i;
    no_less = f;
    further = λ h. absurd (false≢true h);
  }

  -- a test, by its outcome
  tested :
      (b : Bool) (x y : Parsed P)
      → (b ≡ true → Fine x)
      → (b ≡ false → Fine y)
      → Fine (if b then x else y)
  tested true x y p q = p refl
  tested false x y p q = q refl

  paused-Fine :
      (given : ℕ) (add : ℤ) (t : Turn P)
      → t.client.rx.buf ≡ buf
      → t.client.rx.parsed_size ≡ prev
      → prev ≤ length buf
      → Fine (paused http ans prev given add t)
  unfolding paused frozen
  paused-Fine given add t b p i =
      tested (not (at_end t.client.request.load_state)) _ _ (λ h. halt)
        (λ h.
          tested (int_lt (pos given) add) _ _ (λ k. halt)
            (λ k.
              tested (not (is_pos add)) _ _ (λ l. halt)
                (λ l.
                  tested (ltb (length t.client.rx.buf) (prev + pos_part add)) _ _ (λ o. halt)
                    (λ o.
                      tested (prev + pos_part add == length t.client.rx.buf) _ _
                        (λ e.
                          judge-Fine (drained http ans u) (ap (λ r. r.buf) (drained-rx u) ∙ b)
                            (rw (drained-rx u) (fits t.client.rx.buf buf (prev + pos_part add) b o))
                            (rw (drained-rx u) (adds prev add l)))
                        (λ e.
                          judge-Fine (frozen u) b
                            (fits t.client.rx.buf buf (prev + pos_part add) b o)
                            (adds prev add l))))))
    where
      u : Turn P
      u = record t { client = with_parsed (prev + pos_part add) t.client }

      halt : Fine (stopped (ca_shutdown, pos 0, t))
      halt = stop-Fine t b (rw p i) (rw p (omega arith))

  broken-Fine :
      (e : Errno) (t : Turn P)
      → t.client.rx.buf ≡ buf
      → t.client.rx.parsed_size ≡ prev
      → prev ≤ length buf
      → Fine (broken host ans e t)
  unfolding broken send_fatal
  broken-Fine e t b p i =
      stop-Fine _ (ap (λ r. r.buf) sent ∙ b) (rw (sent, p) i) (rw (sent, p) (omega arith))
    where
      sent : (send_fatal host ans (parse_error e t.client) t).1.client.rx ≡ t.client.rx
      sent =
          send_plain-rx host ans.uv_write_ok false (or_status 400 (parse_error e t.client)) t.client

  executed-Fine :
      (given : ℕ) (e : Errno) (add : ℤ) (t : Turn P)
      → t.client.rx.buf ≡ buf
      → t.client.rx.parsed_size ≡ prev
      → prev < length buf
      → prev + given ≡ length buf
      → Fine (executed http host ans prev given e add t)
  unfolding executed
  executed-Fine given hpe_ok add t b p i g =
      judge-Fine (record t { client = with_parsed (prev + given) t.client }) b (omega arith)
        (omega arith)
  executed-Fine given hpe_paused add t b p i g = paused-Fine given add t b p (omega arith)
  executed-Fine given hpe_other add t b p i g = broken-Fine hpe_other t b p (omega arith)
  executed-Fine given (hpe_invalid_version r) add t b p i g =
      broken-Fine (hpe_invalid_version r) t b p (omega arith)

  proceed-Moved :
      (o : Parsed P)
      → Fine o
      → let r = proceed http host ans o in
        Moved prev buf (not (is_destroy r.client.state)) r.client.rx
  unfolding Fine
  proceed-Moved o m = record {
    same = ap (λ r. r.buf) (proceed-rx http host ans o) ∙ m.same;
    inside = rw (proceed-rx http host ans o) m.inside;
    no_less = rw (proceed-rx http host ans o) m.no_less;
    further = λ h. rw (proceed-rx http host ans o) (m.further (goes h));
  }
    where
      goes : not (is_destroy (proceed http host ans o).client.state) ≡ true → goes_on o ≡ true
      goes h = elim (Bool-cases (goes_on o)) [
        | inl y ↦ y
        | inr n ↦ absurd (false≢true (rw (proceed_destroys http host ans o n) at h))
      ]

module _ {P : Type 0} (http : Llhttp P) (host : Host) (ans : Answers) where
  parse-Fine :
      (t : Turn P)
      → Apart http
      → t.client.rx.parsed_size < length t.client.rx.buf
      → Fine http host ans t.client.rx.parsed_size t.client.rx.buf (parse http host ans t)
  unfolding parse
  parse-Fine t apart i =
      executed-Fine http host ans t.client.rx.parsed_size t.client.rx.buf
        (length (unparsed t.client)) x.errno x.error_pos (after x t) (ap (λ r. r.buf) kept)
        (ap (λ r. r.parsed_size) kept) i
        (drop_rest t.client.rx.parsed_size t.client.rx.buf (omega arith))
    where
      x : Executed P
      x = http.execute (http.resume t.parser) (parsing t.client) (unparsed t.client)

      kept : x.client.rx ≡ t.client.rx
      kept = apart (http.resume t.parser) (parsing t.client) (unparsed t.client)

  -- parsing and all that follows it
  pub parse-Moved :
      (t : Turn P)
      → Apart http
      → t.client.rx.parsed_size < length t.client.rx.buf
      → let r = proceed http host ans (parse http host ans t) in
        Moved t.client.rx.parsed_size t.client.rx.buf (not (is_destroy r.client.state)) r.client.rx
  parse-Moved t apart i =
      proceed-Moved http host ans t.client.rx.parsed_size t.client.rx.buf (parse http host ans t)
        (parse-Fine t apart i)
