-- ===== src/Reader/Invariant.antt =====
-- read_cb of fastwsgi/server.c between two calls: its progress and the bounds of the read buffer.
use fastpysgi.Base.{
  ℕ, ◌+◌, ◌≤◌, ◌<◌, ◌≡◌, refl, subst, inl, inr, Bool, false, not, ◌++◌, arith, ltb, ◌==◌,
  Bool-cases, length, length-append, ℤ, pos, Bytes,
}
use fastpysgi.Client.{is_destroy, Action, Rx, Client, rx_fail, ca_close, ca_shutdown}
use fastpysgi.Reader.{Llhttp, Host, Answers, Turn, with_rx_status}
use fastpysgi.Reader.Parse.{parse}
use fastpysgi.Reader.Handler.{
  Read, finish, proceed, counted, append_rx, touched, take_in, read_cb, nothing, end_of_file,
  read_failed, buffered, received,
}
use fastpysgi.Reader.Progress.{Apart, finish-rx}
use fastpysgi.Reader.Bounds.{Moved, parse-Moved}

touched-rx : (now : ℕ) (c : Client) → (touched now c).rx ≡ c.rx
touched-rx now c = ground arith

not_eq : (m n : ℕ) → m < n → (m == n) ≡ false
not_eq m n h = ground arith

not_lt : (m n : ℕ) → m ≤ n → ltb n m ≡ false
not_lt m n h = ground arith

not_full :
    (old b : Bytes) (p : ℕ) → p ≤ length old → (length b == 0) ≡ false → p < length (old ++ b)
not_full old b p h k = ground (arith, length-append old b)

small :
    (old b : Bytes) (size : ℕ) → ltb size (length old + length b) ≡ false → length (old ++ b) ≤ size
small old b size h = ground (arith, length-append old b)

-- what the read buffer promises between two calls, for a buffer of this size
abbrev pub Sound : ℕ → Rx → Type 0
Sound size r = (r.parsed_size ≤ length r.buf) × (length r.buf ≤ size)

Moved-Sound :
    (size prev : ℕ) (buf : Bytes) (on : Bool) (r : Rx)
    → length buf ≤ size
    → Moved prev buf on r
    → Sound size r
Moved-Sound size prev buf on r h m = (rw m.same m.inside, rw m.same h)

module _ {P : Type 0} (http : Llhttp P) (host : Host) (ans : Answers) where
  buffered-eq :
      (t : Turn P)
      → t.client.rx.parsed_size < length t.client.rx.buf
      → read_cb http host ans buffered t
        ≡ proceed http host ans
            (parse http host ans (record t { client = touched ans.now t.client }))
  unfolding read_cb
  buffered-eq t i =
      rw
        (
          read_cb,
          not_eq t.client.rx.parsed_size (length t.client.rx.buf) i,
          not_lt t.client.rx.parsed_size (length t.client.rx.buf) (omega arith),
        )
        refl

  -- A parser that leaves the read buffer alone, called on the bytes left in the buffer: the buffer
  -- stays as it is, the parsed part does not get shorter and stays inside, and it gets longer unless
  -- the connection is on its end.
  pub read_cb_advances :
      (t : Turn P)
      → Apart http
      → t.client.rx.parsed_size < length t.client.rx.buf
      → let r = read_cb http host ans buffered t in
        Moved t.client.rx.parsed_size t.client.rx.buf (not (is_destroy r.client.state)) r.client.rx
  read_cb_advances t apart i = rw (buffered-eq t i) (
      subst (λ r. Moved r.parsed_size r.buf on d.rx) same
        (parse-Moved http host ans u apart (rw same i)))
    where
      u : Turn P
      u = record t { client = touched ans.now t.client }

      same : u.client.rx ≡ t.client.rx
      same = touched-rx ans.now t.client

      d : Client
      d = (proceed http host ans (parse http host ans u)).client

      on : Bool
      on = not (is_destroy d.state)

  finish-Sound :
      (act : Action) (e : ℤ) (t : Turn P)
      → Sound host.srv.read_buffer_size t.client.rx
      → Sound host.srv.read_buffer_size (finish http host ans (act, e, t)).client.rx
  finish-Sound act e t s = rw (finish-rx http host ans (act, e, t)) s

  take_in-Sound :
      (b : Bytes) (t : Turn P)
      → Apart http
      → (length b == 0) ≡ false
      → Sound host.srv.read_buffer_size t.client.rx
      → Sound host.srv.read_buffer_size (take_in http host ans b t).client.rx
  unfolding take_in
  take_in-Sound b t apart k s =
      elim (Bool-cases (ltb host.srv.read_buffer_size (length t.client.rx.buf + length b))) [
        | inl y ↦
            rw (take_in, y)
              (finish-Sound ca_shutdown (pos 0)
                (record t { client = with_rx_status rx_fail (counted b t.client) }) s)
        | inr n ↦
            rw (take_in, n)
              (Moved-Sound host.srv.read_buffer_size t.client.rx.parsed_size (t.client.rx.buf ++ b)
                _ _ (small t.client.rx.buf b host.srv.read_buffer_size n)
                (parse-Moved http host ans (record t { client = append_rx b (counted b t.client) })
                  apart (not_full t.client.rx.buf b t.client.rx.parsed_size s.0 k)))
      ]

  -- A parser that leaves the read buffer alone, whatever is read: if before a call the parsed part is
  -- inside the buffer and the buffer within its size, then both hold behind it.
  pub read_cb-Sound :
      (t : Turn P) (r : Read)
      → Apart http
      → Sound host.srv.read_buffer_size t.client.rx
      → Sound host.srv.read_buffer_size (read_cb http host ans r t).client.rx
  unfolding read_cb
  read_cb-Sound t nothing apart s = s
  read_cb-Sound t end_of_file apart s = finish-Sound ca_close (pos 0) t s
  read_cb-Sound t read_failed apart s = finish-Sound ca_shutdown (pos 0) t s
  read_cb-Sound t buffered apart s =
      elim (Bool-cases (t.client.rx.parsed_size == length t.client.rx.buf)) [
        | inl y ↦ rw (read_cb, y) s
        | inr n ↦
            Moved-Sound host.srv.read_buffer_size t.client.rx.parsed_size t.client.rx.buf _ _ s.1 (
              read_cb_advances t apart
                (below t.client.rx.parsed_size (length t.client.rx.buf) s.0 n))
      ]
    where
      below : (m n : ℕ) → m ≤ n → (m == n) ≡ false → m < n
      below m n h k = ground arith
  read_cb-Sound t (received b) apart s = elim (Bool-cases (length b == 0)) [
    | inl y ↦ rw (read_cb, y) s
    | inr n ↦
        rw (read_cb, n)
          (take_in-Sound b (record t { client = touched ans.now t.client }) apart n
            (rw (touched-rx ans.now t.client) s))
  ]
