-- ===== src/Process/Accepted.antt =====
-- What init_server (fastwsgi/server.c) accepts.
use mathlib.Core.Bool.{false≢true}
use fastpysgi.Base.{
  ℕ, zero, suc, ◌+◌, ◌≤◌, ◌<◌, ◌≡◌, refl, sym, ap, ◌∙◌, Bool, true, false, not, ◌||◌, Option, none,
  some, List, arith, ltb, branch, length, take, ℤ, is_neg, is_zero, is_pos, int_eq, llong_min, pos,
  negsuc, Bytes, int_max, codes,
}
use fastpysgi.Common.Attributes.{ListAttr, get_obj_attr_bindlist}
use fastpysgi.Server.Options.{or_env, positive_or, options_bounds}
use fastpysgi.Process.{zero_proc, InitAnswers, InitResult, init_srv}
use fastpysgi.Process.Start.{Opened, InitEnd, init_srv-InitEnd}
use fastpysgi.Process.Settings.{
  Options, Settings, read_settings, bindlist_number, Hosts, add_host, next_host, read_hosts, Inited,
  proc_of, call_srv, root_refused, with_hosts, with_number, init_server, hosts, bad_host, null_host,
  refused, crashed, called,
}

-- Some tuple of the list counts as read, but gives no host.
abbrev pub LacksHost : Option ListAttr → Type 0
LacksHost bindlist =
    (i : ℕ) × (is_pos (get_obj_attr_bindlist bindlist i).0 ≡ true)
    × ((get_obj_attr_bindlist bindlist i).1 ≡ none)

abbrev HostsOf : Option ListAttr → ℕ → Hosts → Type 0
HostsOf bindlist n (hosts hs) = length hs ≡ n
HostsOf bindlist n bad_host = Unit {0}
HostsOf bindlist n null_host = LacksHost bindlist

add_host-HostsOf :
    (bindlist : Option ListAttr) (n : ℕ) (h : Bytes) (p : ℤ) (r : Hosts)
    → HostsOf bindlist n r
    → HostsOf bindlist (suc n) (add_host h p r)
add_host-HostsOf bindlist n h p (hosts hs) e = ap suc e
add_host-HostsOf bindlist n h p bad_host e = tt
add_host-HostsOf bindlist n h p null_host e = e

not_refused : (rc : ℤ) → not (is_pos rc) ≡ false → is_pos rc ≡ true
not_refused rc h = ground (arith, h)

next_host-HostsOf :
    (bindlist : Option ListAttr) (n idx : ℕ) (t : ℤ × Option Bytes × ℤ) (r : Hosts)
    → get_obj_attr_bindlist bindlist idx ≡ t
    → HostsOf bindlist n r
    → HostsOf bindlist (suc n) (next_host t r)
unfolding next_host
next_host-HostsOf bindlist n idx (rc, none, port) r same e =
    branch (HostsOf bindlist (suc n)) (not (is_pos rc)) (λ h. tt)
      (λ h. (idx, ap (λ t. is_pos t.0) same ∙ not_refused rc h, ap (λ t. t.1) same))
next_host-HostsOf bindlist n idx (rc, some b, port) r same e =
    branch (HostsOf bindlist (suc n)) (not (is_pos rc)) (λ h. tt)
      (λ h. add_host-HostsOf bindlist n (take 63 b) port r e)

read_hosts-HostsOf :
    (bindlist : Option ListAttr) (idx n : ℕ) → HostsOf bindlist n (read_hosts bindlist idx n)
unfolding read_hosts
read_hosts-HostsOf bindlist idx zero = refl
read_hosts-HostsOf bindlist idx (suc n) =
    next_host-HostsOf bindlist n idx (get_obj_attr_bindlist bindlist idx)
      (read_hosts bindlist (idx + 1) n) refl (read_hosts-HostsOf bindlist (idx + 1) n)

-- the bounds of the options that have some
pub record InBounds (o : Options) (s : Settings) : Type 0 where
  pub chunk_low : 2048 ≤ s.max_chunk_size
  pub chunk_high : s.max_chunk_size ≤ 67108864
  pub content : s.max_content_length < int_max
  pub timer : 0 < s.svc_timer_interval
  pub buffer :
      is_neg (
          or_env
            (o.attr_int (codes "read_buffer_size"))
            (o.env_int (codes "FASTPYSGI_READ_BUFFER_SIZE")))
        ≡ false
      → (32768 ≤ s.read_buffer_size) × (s.read_buffer_size ≤ 4194304)

positive_or-pos : (d : ℕ) (v : ℤ) → 0 < d → 0 < positive_or d v
unfolding positive_or
positive_or-pos d (pos n) h = ground arith
positive_or-pos d (negsuc n) h = h

read_settings-InBounds : (o : Options) → InBounds o (read_settings o)
unfolding read_settings
read_settings-InBounds o =
    let chunk =
      options_bounds (o.attr_int (codes "max_chunk_size"))
        (o.env_int (codes "FASTPYSGI_MAX_CHUNK_SIZE")) in
    let content =
      options_bounds (o.attr_int (codes "max_content_length"))
        (o.env_int (codes "FASTPYSGI_MAX_CONTENT_LENGTH")) in
    let buffer =
      options_bounds (o.attr_int (codes "read_buffer_size"))
        (o.env_int (codes "FASTPYSGI_READ_BUFFER_SIZE")) in
    record {
      chunk_low = chunk.0;
      chunk_high = chunk.1;
      content = content.2;
      timer = positive_or-pos 3000 (o.attr_int (codes "svc_timer_interval")) (omega arith);
      buffer = buffer.3;
    }

-- What init_server did: a refusal has a negative code; else one to four servers with options in their
-- bounds are started, and with the code 0 every one of them listens, with another nothing is kept.
abbrev pub Accepted : InitAnswers → Options → Inited → Type 0
Accepted a o (refused e) = is_neg e ≡ true
Accepted a o crashed = LacksHost o.bindlist
Accepted a o (called hr hs s ops p) =
    (1 ≤ length hs)
    × (length hs ≤ 4)
    × InBounds o s
    × (is_zero hr ≡ true → (p.inited ≡ true) × ((j : ℕ) → j < length hs → Opened a ops j))
    × (is_zero hr ≡ false → p ≡ zero_proc)

call_srv-Accepted :
    (a : InitAnswers) (o : Options) (hs : List (Bytes × ℤ)) (s : Settings) (r : InitResult)
    → 1 ≤ length hs
    → length hs ≤ 4
    → InBounds o s
    → InitEnd a (length hs) r
    → Accepted a o (call_srv hs s r)
call_srv-Accepted a o hs s (hr, ops, p) lo hi b e =
    branch (Accepted a o) (is_zero hr)
      (λ h. (lo, hi, b, λ k. (sym e.coded ∙ h, e.opened h), λ k. absurd (false≢true (sym k ∙ h))))
      (λ h. (lo, hi, b, λ k. absurd (false≢true (sym h ∙ k)), λ k. refl))

with_hosts-Accepted :
    (struct_size : ℕ) (a : InitAnswers) (o : Options) (n : ℕ) (hs : Hosts)
    → HostsOf o.bindlist n hs
    → 1 ≤ n
    → n ≤ 4
    → Accepted a o (with_hosts struct_size a o hs)
unfolding with_hosts
with_hosts-Accepted struct_size a o n bad_host e lo hi = refl
with_hosts-Accepted struct_size a o n null_host e lo hi = e
with_hosts-Accepted struct_size a o n (hosts hs) e lo hi =
    let s = read_settings o in
    let P = Accepted a o in
    branch P (int_eq (o.attr_int (codes "backlog")) llong_min) (λ h. refl)
      λ h.
        branch P (root_refused struct_size o.root_path) (λ k. refl)
          λ k.
            call_srv-Accepted a o hs s (init_srv a (proc_of o s (length hs))) (omega (arith, e))
              (omega (arith, e)) (read_settings-InBounds o)
              (init_srv-InitEnd a (proc_of o s (length hs)) refl)

with_number-Accepted :
    (struct_size : ℕ) (a : InitAnswers) (o : Options) (v : ℤ)
    → Accepted a o (with_number struct_size a o v)
unfolding with_number
with_number-Accepted struct_size a o (negsuc n) = refl
with_number-Accepted struct_size a o (pos n) =
    branch (Accepted a o) (ltb n 1 || ltb 4 n) (λ h. refl)
      λ h.
        with_hosts-Accepted struct_size a o n (read_hosts o.bindlist 0 n)
          (read_hosts-HostsOf o.bindlist 0 n) (ground arith) (ground arith)

-- Whatever the options say and libuv answers: init_server refuses with a negative code, or a tuple of
-- the list of addresses counts as read but gives no host, through which it reads, or it starts one to
-- four servers, with a chunk of 2 KiB to 64 MiB, a length of a body below INT_MAX, a timer above 0 and
-- a read buffer of 32 KiB to 4 MiB unless that option is negative. With the result 0 each of the
-- servers was asked to bind and to listen and did so, with another the state of the server is cleared.
pub init_server-Accepted :
    (struct_size : ℕ) (a : InitAnswers) (o : Options) (inited : Bool)
    → Accepted a o (init_server struct_size a o inited)
unfolding init_server
init_server-Accepted struct_size a o inited =
    let P = Accepted a o in
    branch P inited (λ h. refl)
      λ h.
        branch P (int_eq (o.attr_int (codes "loglevel")) llong_min) (λ k. refl)
          λ k.
            branch P (not o.app) (λ l. refl)
              (λ l. with_number-Accepted struct_size a o (bindlist_number o.bindlist))
