-- ===== src/Response/Preload.antt =====
-- Preloading loses nothing and mixes nothing up.
use fastpysgi.Base.{
  ℕ, zero, suc, ◌+◌, ◌≤◌, ◌≡◌, refl, sym, ◌∙◌, subst, ◌⊎◌, inl, inr, Bool, true, false, ◌&&◌, none,
  some, List, [], ◌∷◌, ◌++◌, append-nil, append_assoc, arith, leb, ◌==◌, Bool-cases, length,
  length-append, int_eq, pos, Bytes,
}
use fastpysgi.Client.{Client}
use fastpysgi.Request.Reset.{reset_response_preload}
use fastpysgi.Response.Body.{
  Item, join, Pulled, with_total, next_item, generator_mark, wsgi_iterator_get_next_chunk,
  max_preloaded_body_chunks, add_chunk, preload_loop, chunk, not_bytes, raised,
}

-- The bytes that an iterator yields before it ends or fails.
unfoldable pub payload : List Item → Bytes
payload [] = []
payload (chunk b ∷ items) = b ++ payload items
payload (not_bytes ∷ items) = []
payload (raised ∷ items) = []

-- what a call of `next_item` owes
Takes : Client → List Item → Pulled → Type 0
Takes c items (none, d, rest) = (payload items ≡ []) × (d.response ≡ c.response)
Takes c items (some b, d, rest) = (payload items ≡ b ++ payload rest) × (d ≡ c)

next_item-Takes : (c : Client) (items : List Item) → Takes c items (next_item c items)
unfolding next_item Takes payload
next_item-Takes c [] = (refl, refl)
next_item-Takes c (chunk (b ∷ bs) ∷ items) = (refl, refl)
next_item-Takes c (chunk [] ∷ items) = next_item-Takes c items
next_item-Takes c (not_bytes ∷ items) = (refl, refl)
next_item-Takes c (raised ∷ items) = (refl, refl)

join-concat : (bs : List Bytes) (b : Bytes) → join (bs ++ b ∷ []) ≡ join bs ++ b
unfolding join
join-concat [] b = append-nil b
join-concat (x ∷ bs) b = rw (join-concat bs b) (sym (append_assoc x (join bs) b))

-- The counters of the response describe its chunks.
pub record Counts (c : Client) : Type 0 where
  pub started : int_eq c.response.body_total_size generator_mark ≡ false
  pub sized : c.response.body_preloaded_size ≡ length (join c.response.body)
  pub few : length c.response.body ≤ max_preloaded_body_chunks

add_chunk-sized :
    (c : Client) (b : Bytes)
    → c.response.body_preloaded_size ≡ length (join c.response.body)
    → (add_chunk b c).response.body_preloaded_size ≡ length (join (add_chunk b c).response.body)
add_chunk-sized c b h = rw join-concat (omega (arith, length-append (join c.response.body) b))

-- What the loop owes: the chunks at hand and the items left are the whole payload, and all of it is at
-- hand if `fully_loaded`. It stops early only with all places taken, or on a file.
pub record Kept (is_filelike : Bool) (c : Client) (items : List Item)
    (r : Bool × Client × List Item) : Type 0 where
  pub loaded : r.0 ≡ true → join r.1.response.body ≡ join c.response.body ++ payload items
  pub rest_left :
      r.0 ≡ false → join r.1.response.body ++ payload r.2 ≡ join c.response.body ++ payload items
  pub sized : r.1.response.body_preloaded_size ≡ length (join r.1.response.body)
  pub bounded : length r.1.response.body ≤ max_preloaded_body_chunks + 1
  pub stopped :
      r.0 ≡ false
      → (length r.1.response.body ≡ max_preloaded_body_chunks + 1) ⊎ (is_filelike ≡ true)

get_next-eq :
    (c : Client) (items : List Item)
    → int_eq c.response.body_total_size generator_mark ≡ false
    → wsgi_iterator_get_next_chunk c items ≡ next_item c items
unfolding wsgi_iterator_get_next_chunk
get_next-eq c items h = rw (wsgi_iterator_get_next_chunk, h)

-- the iterator is at its end
Kept-end :
    (is_filelike : Bool) (c d : Client) (items rest : List Item)
    → Counts c
    → payload items ≡ []
    → d.response ≡ c.response
    → Kept is_filelike c items (true, d, rest)
Kept-end is_filelike c d items rest k p e = record {
  loaded = λ _. rw (p, e, append-nil);
  rest_left = λ h. cc;
  sized = rw e k.sized;
  bounded = rw e (omega (arith, k.few));
  stopped = λ h. cc;
}

regroup :
    (c : Client) (b : Bytes) (items rest : List Item)
    → payload items ≡ b ++ payload rest
    → join (add_chunk b c).response.body ++ payload rest ≡ join c.response.body ++ payload items
regroup c b items rest p =
    rw (join-concat, p) (append_assoc (join c.response.body) b (payload rest))

length-add_chunk :
    (c : Client) (b : Bytes) → length (add_chunk b c).response.body ≡ length c.response.body + 1
length-add_chunk c b = length-append c.response.body (b ∷ [])

-- the loop stops behind a chunk
Kept-stop :
    (is_filelike : Bool) (c : Client) (b : Bytes) (items rest : List Item)
    → Counts c
    → payload items ≡ b ++ payload rest
    → (length (add_chunk b c).response.body ≡ max_preloaded_body_chunks + 1) ⊎ (is_filelike ≡ true)
    → Kept is_filelike c items (false, add_chunk b c, rest)
Kept-stop is_filelike c b items rest k p why = record {
  loaded = λ h. cc;
  rest_left = λ _. regroup c b items rest p;
  sized = add_chunk-sized c b k.sized;
  bounded = omega (arith, length-add_chunk c b, k.few);
  stopped = λ _. why;
}

-- the loop goes on behind a chunk
Kept-next :
    (is_filelike : Bool) (c : Client) (b : Bytes) (items rest : List Item)
    (r : Bool × Client × List Item)
    → payload items ≡ b ++ payload rest
    → Kept is_filelike (add_chunk b c) rest r
    → Kept is_filelike c items r
Kept-next is_filelike c b items rest r p k = record {
  loaded = λ h. k.loaded h ∙ regroup c b items rest p;
  rest_left = λ h. k.rest_left h ∙ regroup c b items rest p;
  sized = k.sized;
  bounded = k.bounded;
  stopped = k.stopped;
}

-- A generator has given its first chunk, which is not empty, and is about to start.
pub record AtMark (c : Client) : Type 0 where
  pub marked : int_eq c.response.body_total_size generator_mark ≡ true
  pub x : ℕ
  pub b : Bytes
  pub at_hand : c.response.body ≡ (x ∷ b) ∷ []
  pub sized : c.response.body_preloaded_size ≡ length (x ∷ b)

-- the state behind the first call
abbrev unmarked : Client → Client
unmarked c = with_total (pos 0) (reset_response_preload c)

unmarked-Counts : (c : Client) → Counts (unmarked c)
unfolding reset_response_preload join
unmarked-Counts c = record { started = refl; sized = refl; few = omega arith }

-- what the loop owes for the first chunk, it owes for the generator
Kept-first :
    (is_filelike : Bool) (c : Client) (x : ℕ) (b : Bytes) (items : List Item)
    (r : Bool × Client × List Item)
    → c.response.body ≡ (x ∷ b) ∷ []
    → Kept is_filelike (unmarked c) (chunk (x ∷ b) ∷ items) r
    → Kept is_filelike c items r
unfolding reset_response_preload join payload
Kept-first is_filelike c x b items r h k = record {
  loaded = λ l. k.loaded l ∙ same;
  rest_left = λ l. k.rest_left l ∙ same;
  sized = k.sized;
  bounded = k.bounded;
  stopped = k.stopped;
}
  where
    same :
        join (unmarked c).response.body ++ payload (chunk (x ∷ b) ∷ items)
        ≡ join c.response.body ++ payload items
    same = rw (h, append-nil) refl

module _ (max_chunk_size : ℕ) (is_filelike : Bool) where
  -- one round of the loop, for the result `r` of reading the next chunk
  one_round :
      (fuel prev_size : ℕ) (c : Client) (items : List Item) (r : Pulled)
      → wsgi_iterator_get_next_chunk c items ≡ r
      → Takes c items r
      → Counts c
      → ((b : Bytes) (rest : List Item)
          → length (add_chunk b c).response.body ≤ max_preloaded_body_chunks
          → Kept is_filelike
              (add_chunk b c)
              rest
              (preload_loop fuel max_chunk_size is_filelike (length b) (add_chunk b c) rest))
      → Kept is_filelike c items
          (preload_loop (suc fuel) max_chunk_size is_filelike prev_size c items)
  unfolding preload_loop Takes
  one_round fuel prev_size c items (none, d, rest) e t k ih =
      rw (preload_loop, e) (Kept-end is_filelike c d items rest k t.0 t.1)
  one_round fuel prev_size c items (some b, d, rest) e t k ih =
      elim (Bool-cases (length (add_chunk b c).response.body == max_preloaded_body_chunks + 1)) [
        | inl full ↦
            rw (preload_loop, e, t.1, full)
              (Kept-stop is_filelike c b items rest k t.0 (inl (ground arith)))
        | inr room ↦
            elim (Bool-cases (
              is_filelike
              && leb max_chunk_size ((add_chunk b c).response.body_preloaded_size + prev_size))) [
                | inl enough ↦
                    rw (preload_loop, e, t.1, room, enough)
                      (Kept-stop is_filelike c b items rest k t.0 (inr (ground arith)))
                | inr more ↦
                    rw (preload_loop, e, t.1, room, more)
                      (Kept-next is_filelike c b items rest _ t.0
                        (ih b rest (ground (arith, length-add_chunk c b, k.few))))
              ]
      ]

  -- the rounds from the state of a started iterator
  started_loop-Kept :
      (fuel prev_size : ℕ) (c : Client) (items : List Item)
      → Counts c
      → max_preloaded_body_chunks + 1 ≤ fuel + length c.response.body
      → Kept is_filelike c items (preload_loop fuel max_chunk_size is_filelike prev_size c items)
  started_loop-Kept zero prev_size c items k f = absurd (omega (arith, k.few))
  started_loop-Kept (suc fuel) prev_size c items k f =
      one_round fuel prev_size c items (next_item c items) (get_next-eq c items k.started)
        (next_item-Takes c items) k
        λ b rest few.
          started_loop-Kept fuel (length b) (add_chunk b c) rest
            (record { started = k.started; sized = add_chunk-sized c b k.sized; few = few })
            (omega (arith, length-add_chunk c b))

  -- a loop whose first call gives the chunk at hand is one over this chunk and the items
  first_round_lem :
      (fuel prev_size : ℕ) (c : Client) (items : List Item)
      → AtMark c
      → (x : ℕ) × (b : Bytes) × (c.response.body ≡ (x ∷ b) ∷ [])
        × (preload_loop (suc fuel) max_chunk_size is_filelike prev_size c items
            ≡ preload_loop
                (suc fuel)
                max_chunk_size
                is_filelike
                prev_size
                (unmarked c)
                (chunk (x ∷ b) ∷ items))
  unfolding preload_loop wsgi_iterator_get_next_chunk next_item
  first_round_lem fuel prev_size c items m =
      (m.x, m.b, m.at_hand, rw (preload_loop, m.marked, m.at_hand, m.sized, ne m.b) refl)
    where
      ne : (b : Bytes) → (suc (length b) == 0) ≡ false
      ne b = ground arith

  -- Preloading with fuel for every place, from the state of a started iterator or of a generator that
  -- gave its first chunk before its start: every byte that it yields, that chunk included, is either at
  -- hand, in order, or still to come; the recorded size is the size of the chunks; at most 49 chunks
  -- are held; and it stops early only when they are or on a file.
  pub preload_loop-Kept :
      (fuel prev_size : ℕ) (c : Client) (items : List Item)
      → Counts c ⊎ AtMark c
      → max_preloaded_body_chunks + 1 ≤ fuel
      → Kept is_filelike c items (preload_loop fuel max_chunk_size is_filelike prev_size c items)
  preload_loop-Kept fuel prev_size c items (inl k) f =
      started_loop-Kept fuel prev_size c items k (omega arith)
  preload_loop-Kept zero prev_size c items (inr m) f = absurd (omega arith)
  preload_loop-Kept (suc fuel) prev_size c items (inr m) f =
      let (x, b, at_hand, same) = first_round_lem fuel prev_size c items m in
      subst (Kept is_filelike c items) (sym same) (
        Kept-first is_filelike c x b items _ at_hand (
          started_loop-Kept (suc fuel) prev_size (unmarked c) (chunk (x ∷ b) ∷ items)
            (unmarked-Counts c) (omega arith)))
