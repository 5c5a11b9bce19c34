-- ===== src/Asgi/Stream.antt =====
-- A body in several messages (fastwsgi/asgi.c) as the bytes on the wire.
pub mod Steps
pub mod Whole
pub mod Head
pub mod Decode
use fastpysgi.Base.{Bool, true, false, not, List, [], ◌∷◌, ◌++◌, Bytes, codes}
use fastpysgi.Client.{Client}
use fastpysgi.Server.{Effect, writing}
use fastpysgi.Server.Write.{WriteEvent}
use fastpysgi.Server.Write.Chunks.{frame}
use fastpysgi.Asgi.{Asgi, no_headers}
use fastpysgi.Asgi.Info.{Outside}
use fastpysgi.Asgi.Send.{
  Message, Outcome, asgi_send, response_body, no_status, body_bytes, raises, awaits, returns,
}
use fastpysgi.Asgi.Written.{Ended, write_cb_asgi}

-- The bytes that the effects write.
unfoldable pub written : List Effect → Bytes
written [] = []
written (writing b ∷ es) = b ++ written es
written (_ ∷ es) = written es

-- A body message.
abbrev pub body_message : Bool → Bytes → Message
body_message latest b = record {
  kind = response_body;
  status = no_status;
  headers = no_headers;
  body = body_bytes b;
  more_body = not latest;
}

abbrev pub Progress : Type 0
Progress = Bytes × Asgi × Client

abbrev pub after_write : List Effect → Ended → Progress
after_write effects (a, c, _) = (written effects, a, c)

-- The end of the write, if there was one, and the bytes written.
unfoldable pub settle : Outside → WriteEvent → Outcome → Progress
unfolding write_cb_asgi written
settle out ev (awaits, a, c, effects) = after_write effects (write_cb_asgi out.srv ev true a c)
settle out ev (returns, a, c, effects) = (written effects, a, c)
settle out ev (raises e, a, c, effects) = (written effects, a, c)

-- One message and the end of its write: the application awaits each `send`.
unfoldable pub deliver : Outside → WriteEvent → Message → Asgi → Client → Progress
unfolding asgi_send settle
deliver out ev m a c = settle out ev (asgi_send out true m a c)

abbrev pub behind : Bytes → Progress → Progress
behind now (later, a, c) = (now ++ later, a, c)

abbrev pub and_then : (Asgi → Client → Progress) → Progress → Progress
and_then next (now, a, c) = behind now (next a c)

-- Messages with more to come, and the last one.
unfoldable pub deliver_all : Outside → WriteEvent → List Bytes → Bytes → Asgi → Client → Progress
unfolding deliver
deliver_all out ev [] last a c = deliver out ev (body_message true last) a c
deliver_all out ev (b ∷ bs) last a c =
    and_then (deliver_all out ev bs last) (deliver out ev (body_message false b) a c)

-- The chunks of RFC 9112 section 7.1: a frame for each piece that is not empty.
unfoldable pub frames : List Bytes → Bytes
frames [] = []
frames ([] ∷ bs) = frames bs
frames ((x ∷ b) ∷ bs) = frame (x ∷ b) ++ frames bs

-- The end of a chunked body.
abbrev pub last_chunk : Bytes
last_chunk = codes "0\r\n\r\n"
