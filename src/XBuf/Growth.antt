-- ===== src/XBuf/Growth.antt =====
-- The ways in which a buffer grows.
use fastpysgi.Base.{
  ℕ, ◌+◌, ◌^◌, ◌≤◌, ◌<◌, ◌≡◌, refl, ◌≢◌, inl, inr, Bool, true, false, Option, none, some, arith,
  Bool-cases, length, set, length-set, Bytes, u64, u32, sext, sge,
}
use fastpysgi.Base.Memory.{get_or-set_self}
use fastpysgi.XBuf.{XBuf, new_cap, owns, bytes_of, moved, xbuf_resize, xbuf_expand}
use fastpysgi.XBuf.Invariant.{
  contents, IsValid, Gives, new_cap_lem, length-moved, moved-contents, moved_terminated,
}

-- A buffer that replaced `b`, with room for `need` bytes; the flag says that the old block was freed.
pub record Grown (b : XBuf) (need : ℕ) (r : XBuf × Bool) : Type 0 where
  pub valid : IsValid r.0
  pub same : contents r.0 ≡ contents b
  pub size_eq : r.0.size ≡ b.size
  pub room : need ≤ r.0.capacity
  pub present : r.0.data_block ≢ none
  pub freed_owned : r.1 ≡ true → owns b ≡ true

abbrev pub resized : XBuf → Bytes → ℕ → XBuf × Bool
resized b mem cap = elim (b.data_block) [
  | none ↦ (record b { data_block = some (set mem 0 0); capacity = u32 cap }, false)
  | some d ↦ (record b { data_block = some (moved b mem); capacity = u32 cap }, owns b)
]

pub size-le-block :
    {b : XBuf} → IsValid b → b.data_block ≢ none → b.size ≤ length (bytes_of b.data_block)
size-le-block v h = omega (arith, v.in_block h, v.in_cap)

pub some-ne-none : {d : Bytes} → some d ≢ none
some-ne-none = cc

unfoldable pub buf : Option Bytes → ℕ → ℕ → XBuf
buf o size capacity = record { data_block = o; size = size; capacity = capacity }

pub resized-Grown :
    (o : Option Bytes) (size capacity : ℕ) (mem : Bytes) (need cap : ℕ)
    → IsValid (buf o size capacity)
    → size ≤ need
    → need ≤ cap
    → cap < 2 ^ 30
    → length mem ≡ cap + 2
    → Grown (buf o size capacity) need (resized (buf o size capacity) mem cap)
unfolding buf
resized-Grown none size capacity mem need cap v s n c m =
    let zero_size = (v.absent refl).0 in
    record {
      valid = record {
        in_block = λ _. omega (arith, length-set mem 0 0);
        in_cap = omega arith;
        small = omega arith;
        terminated = rw zero_size (get_or-set_self mem 0 0 (omega arith));
        absent = λ e. absurd (some-ne-none e);
      };
      same = rw zero_size;
      size_eq = refl;
      room = omega arith;
      present = some-ne-none;
      freed_owned = λ e. cc;
    }
resized-Grown (some d) size capacity mem need cap v s n c m =
    let b = buf (some d) size capacity in
    let fits : size < length mem = omega arith in
    record {
      valid = record {
        in_block = λ _. omega (arith, length-moved b mem fits);
        in_cap = omega arith;
        small = omega arith;
        terminated = moved_terminated b mem fits;
        absent = λ e. absurd (some-ne-none e);
      };
      same = moved-contents b mem fits (size-le-block v some-ne-none);
      size_eq = refl;
      room = omega arith;
      present = some-ne-none;
      freed_owned = λ e. e;
    }

pub need_exact : (size n : ℕ) → size + n + 8 < 2 ^ 29 → u64 (sext size + n + 8) ≡ size + n + 8
need_exact size n h = ground arith

pub Grown-weaken :
    {b : XBuf} {need n : ℕ} {r : XBuf × Bool} → Grown b need r → n ≤ need → Grown b n r
Grown-weaken g h = record {
  valid = g.valid;
  same = g.same;
  size_eq = g.size_eq;
  room = omega (arith, g.room);
  present = g.present;
  freed_owned = g.freed_owned;
}

pub below_capacity :
    (need capacity : ℕ)
    → need < 2 ^ 29
    → capacity < 2 ^ 30
    → sge need (sext capacity) ≡ false
    → need < capacity
below_capacity need capacity n c h = ground arith

pub stays :
    (b : XBuf) (n need : ℕ)
    → IsValid b
    → need ≡ b.size + n + 8
    → need < 2 ^ 29
    → sge need (sext b.capacity) ≡ false
    → Grown b (b.size + n) (b, false)
stays b n need v e s keep =
    let below = below_capacity need b.capacity s v.small keep in
    record {
      valid = v;
      same = refl;
      size_eq = refl;
      room = omega arith;
      present = λ gone. omega (arith, (v.absent gone).1);
      freed_owned = λ h. cc;
    }

module _ (malloc : ℕ → Option Bytes) (gives : Gives malloc) where
  pub xbuf_resize-Grown :
      (b : XBuf) (need : ℕ) (addon : Bool)
      → IsValid b
      → b.size ≤ need
      → need < 2 ^ 29
      → (r : XBuf × Bool) × (xbuf_resize malloc b need addon ≡ some r) × Grown b need r
  unfolding xbuf_resize buf
  xbuf_resize-Grown b need addon v s n =
      let cap = new_cap need addon in
      let (odd, enough, small) = new_cap_lem need addon n in
      let (mem, given, long) = gives (u64 (cap + 2)) in
      (
        resized b mem cap,
        rw (xbuf_resize, given) (split b mem cap),
        resized-Grown b.data_block b.size b.capacity mem need cap v s enough small (omega arith),
      )
    where
      split :
          (b : XBuf) (mem : Bytes) (cap : ℕ)
          → elim (b.data_block) [
            | none ↦ some (record b { data_block = some (set mem 0 0); capacity = u32 cap }, false)
            | some d ↦
                some (record b { data_block = some (moved b mem); capacity = u32 cap }, owns b)
          ]
            ≡ some (resized b mem cap)
      split b mem cap = ground arith

  pub xbuf_expand-Grown :
      (b : XBuf) (n : ℕ)
      → IsValid b
      → b.size + n + 8 < 2 ^ 29
      → (r : XBuf × Bool) × (xbuf_expand malloc b n ≡ some r) × Grown b (b.size + n) r
  unfolding xbuf_expand
  xbuf_expand-Grown b n v s =
      let need = u64 (sext b.size + n + 8) in
      let exact : need ≡ b.size + n + 8 = need_exact b.size n s in
      elim (Bool-cases (sge need (sext b.capacity))) [
        | inl grow ↦
            let (r, done, grown) = xbuf_resize-Grown b need true v (omega arith) (omega arith) in
            (r, rw grow done, Grown-weaken grown (omega arith))
        | inr keep ↦ ((b, false), rw keep, stays b n need v exact (omega arith) keep)
      ]
