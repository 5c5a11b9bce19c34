-- ===== src/Reader/Drain.antt =====
-- Requests that wait in the read buffer (fastwsgi/server.c, read_rxbuf_after_send): read_cb and write_cb
-- take turns until none waits.
use fastpysgi.Base.{
  ℕ, zero, suc, ◌-◌, ◌≤◌, ◌<◌, ◌≡◌, refl, ◌∙◌, ◌⊎◌, inl, inr, Bool, true, false, not, ◌&&◌, Option,
  none, some, List, [], ◌∷◌, arith, ltb, if◌then◌else◌, length, Bytes,
}
use fastpysgi.Reader.Invariant.{read_cb_advances}
use fastpysgi.Reader.Bounds.{Moved}
use fastpysgi.Reader.Progress.{Apart}
use fastpysgi.Client.{is_sending, is_destroy, Rx, Client, Srv, resp_bild}
use fastpysgi.Request.Reset.{reset_response_preload, reset_response_body}
use fastpysgi.Response.Body.{Item, Pulled, wsgi_iterator_get_next_chunk}
use fastpysgi.Server.Status.{with_state, is_freezed, stream_read_start}
use fastpysgi.Server.Write.{
  stream_write, WriteEvent, stamp, finish_write, load_chunk, load_last, write_more, next_write,
  count_written, write_cb,
}
use fastpysgi.Reader.{Llhttp, Host, Answers, Turn, step}
use fastpysgi.Reader.Handler.{read_cb, buffered}
use fastpysgi.Reader.Keep.{stream_write-rx}
use fastpysgi.Reader.Prepare.{next_chunk-rx}

-- the turn behind one call of write_cb
unfoldable pub wrote : {P : Type 0} → Srv → WriteEvent → Turn P → Turn P
unfolding write_cb
wrote srv ev t =
    let (c, rest, es) = write_cb srv ev t.items t.client in record (step t (c, es)) { items = rest }

-- The calls of write_cb for these ends of writes, as long as a write is in flight.
unfoldable pub written_out : {P : Type 0} → Srv → List WriteEvent → Turn P → Turn P
unfolding wrote
written_out srv [] t = t
written_out srv (ev ∷ evs) t =
    let rest = written_out srv evs (wrote srv ev t) in if is_sending t.client.state then rest else t

-- `rx.status == RXS_FREEZED`, with bytes left to parse
abbrev pub waiting : Client → Bool
waiting c = is_freezed c.rx.status && ltb c.rx.parsed_size (length c.rx.buf)

-- What happens in each round: the answers to read_cb, and the ends of the writes behind it.
abbrev pub Script : Type 0
Script = ℕ → Answers × List WriteEvent

-- The rounds, until nothing waits or the connection is on its end.
unfoldable pub drain : {P : Type 0} → Llhttp P → Host → Script → ℕ → Turn P → Turn P
unfolding read_cb written_out
drain http host script zero t = t
drain http host script (suc fuel) t =
    let (ans, evs) = script fuel in
    let u = read_cb http host ans buffered t in
    let rest = drain http host script fuel (written_out host.srv evs u) in
    if waiting t.client then if is_destroy u.client.state then u else rest else t

finish_write-rx :
    (srv : Srv) (ev : WriteEvent) (bad : Bool) (c : Client)
    → (finish_write srv ev bad c).0.rx ≡ c.rx
unfolding finish_write reset_response_body reset_response_preload stream_read_start
finish_write-rx srv ev bad c = ground arith

write_more-rx : (srv : Srv) (ev : WriteEvent) (c : Client) → (write_more srv ev c).0.rx ≡ c.rx
unfolding write_more
write_more-rx srv ev c = ground (
  arith,
  stream_write-rx ev.uv_write_ok c,
  finish_write-rx srv ev true (stream_write ev.uv_write_ok c).1,
)

next_write-rx :
    (srv : Srv) (ev : WriteEvent) (items : List Item) (c : Client)
    → (next_write srv ev items c).0.rx ≡ c.rx
unfolding next_write
next_write-rx srv ev items c = by_got (pulled_now.0) refl
  where
    pulled_now : Pulled
    pulled_now = wsgi_iterator_get_next_chunk (record (with_state resp_bild c) { error = 0 }) items

    d : Client
    d = pulled_now.1

    kept : d.rx ≡ c.rx
    kept = next_chunk-rx (record (with_state resp_bild c) { error = 0 }) items

    by_got : (o : Option Bytes) → pulled_now.0 ≡ o → (next_write srv ev items c).0.rx ≡ c.rx
    by_got none e =
        rw (next_write, e)
          (ground (
            arith,
            finish_write-rx srv ev true d,
            finish_write-rx srv ev false d,
            write_more-rx srv ev (load_last d),
            kept,
          ))
    by_got (some b) e = rw (next_write, e) (write_more-rx srv ev (load_chunk b d) ∙ kept)

write_cb-rx :
    (srv : Srv) (ev : WriteEvent) (items : List Item) (c : Client)
    → (write_cb srv ev items c).0.rx ≡ c.rx
unfolding write_cb reset_response_preload
write_cb-rx srv ev items c = ground (
  arith,
  finish_write-rx srv ev true (reset_response_preload c),
  finish_write-rx srv ev true (counted_now),
  finish_write-rx srv ev false (stamp ev.now counted_now),
  next_write-rx srv ev items counted_now,
)
  where
    counted_now : Client
    counted_now = reset_response_preload (count_written c)

module _ {P : Type 0} where
  written_out-rx :
      (srv : Srv) (evs : List WriteEvent) (t : Turn P)
      → (written_out srv evs t).client.rx ≡ t.client.rx
  unfolding written_out wrote
  written_out-rx srv [] t = refl
  written_out-rx srv (ev ∷ evs) t =
      ground (arith, written_out-rx srv evs (wrote srv ev t), write_cb-rx srv ev t.items t.client)

-- the connection is on its end, or nothing waits
unfoldable pub Ended : {P : Type 0} → Turn P → Type 0
Ended t = (is_destroy t.client.state ≡ true) ⊎ (waiting t.client ≡ false)

tested :
    {P : Type 0} (b : Bool) (x y : Turn P)
    → (b ≡ true → Ended x)
    → (b ≡ false → Ended y)
    → Ended (if b then x else y)
tested true x y p q = p refl
tested false x y p q = q refl

idle-Ended : {P : Type 0} (t : Turn P) → waiting t.client ≡ false → Ended t
unfolding Ended
idle-Ended t h = inr h

gone-Ended : {P : Type 0} (t : Turn P) → is_destroy t.client.state ≡ true → Ended t
unfolding Ended
gone-Ended t h = inl h

all_parsed :
    (c : Client)
    → c.rx.parsed_size ≤ length c.rx.buf
    → length c.rx.buf - c.rx.parsed_size ≤ 0
    → waiting c ≡ false
all_parsed c i f = ground arith

some_left : (c : Client) → waiting c ≡ true → c.rx.parsed_size < length c.rx.buf
some_left c h = ground arith

is_not : (b : Bool) → b ≡ false → not b ≡ true
is_not b h = ground arith

less_left : (n p q fuel : ℕ) → p < q → n - p ≤ suc fuel → n - q ≤ fuel
less_left n p q fuel h f = omega arith

module _ {P : Type 0} (http : Llhttp P) (host : Host) (script : Script) where
  -- A parser that leaves the read buffer alone, whatever libuv and Python answer: of the rounds in
  -- which read_cb parses the bytes that wait in the buffer and the writes behind it end, at most as
  -- many happen as bytes wait; then nothing waits or the connection is on its end.
  pub drain_ends :
      (fuel : ℕ) (t : Turn P)
      → Apart http
      → t.client.rx.parsed_size ≤ length t.client.rx.buf
      → length t.client.rx.buf - t.client.rx.parsed_size ≤ fuel
      → Ended (drain http host script fuel t)
  unfolding drain
  drain_ends zero t apart i f = idle-Ended t (all_parsed t.client i f)
  drain_ends (suc fuel) t apart i f =
      tested (waiting t.client) _ _
        (λ w.
          let m = read_cb_advances http host (script fuel).0 t apart (some_left t.client w) in
          tested (is_destroy round.client.state) _ _ (gone-Ended round) (λ k.
            drain_ends fuel (written_out host.srv (script fuel).1 round) apart (inside_still m)
              (fewer m (is_not _ k))))
        (idle-Ended t)
    where
      round : Turn P
      round = read_cb http host (script fuel).0 buffered t

      later : Rx
      later = (written_out host.srv (script fuel).1 round).client.rx

      kept : later ≡ round.client.rx
      kept = written_out-rx host.srv (script fuel).1 round

      on : Bool
      on = not (is_destroy round.client.state)

      inside_still :
          Moved t.client.rx.parsed_size t.client.rx.buf on round.client.rx
          → later.parsed_size ≤ length later.buf
      inside_still m = rw (kept, m.same) m.inside

      fewer :
          Moved t.client.rx.parsed_size t.client.rx.buf on round.client.rx
          → on ≡ true
          → length later.buf - later.parsed_size ≤ fuel
      fewer m k =
          rw (kept, m.same)
            (less_left (length t.client.rx.buf) t.client.rx.parsed_size round.client.rx.parsed_size
              fuel (m.further k) f)
