-- ===== src/StartResponse/References.antt =====
-- The references of fastwsgi/start_response.c: which are taken, and whether each release is of one.
use mathlib.Core.Bool.{false≢true}
use fastpysgi.Base.{
  ℕ, ◌≡◌, refl, ◌∙◌, subst, Bool, true, false, ◌&&◌, Option, none, some, List, [], ◌∷◌, ◌++◌, map,
  append-nil, append_assoc, arith, ◌==◌, if◌then◌else◌,
}
use fastpysgi.StartResponse.{
  StatusArg, HeadersArg, ExcArg, Ref, CallState, create_start_response, Args, RefOp, refs, is_valid,
  cleared, unpacked, start_response_call, start_response_dealloc, life, wrong_number, given, incref,
  decref,
}

-- without the first reference to the object, if there is one
unfoldable pub remove : ℕ → List ℕ → Option (List ℕ)
remove x [] = none
remove x (y ∷ ys) =
    if x == y then some ys else elim (remove x ys) [ none ↦ none | some zs ↦ some (y ∷ zs) ]

-- The references that are held behind the operations; `none` if one is released that is not held.
unfoldable pub run_refs : List RefOp → List ℕ → Option (List ℕ)
unfolding remove
run_refs [] held = some held
run_refs (incref x ∷ ops) held = run_refs ops (held ++ x ∷ [])
run_refs (decref x ∷ ops) held = elim (remove x held) [
  | none ↦ none
  | some rest ↦ run_refs ops rest
]

-- No call is refused once its arguments are unpacked.
unfoldable pub none_refused : List Args → CallState → Bool
unfolding start_response_call
none_refused [] c = true
none_refused (wrong_number ∷ calls) c = none_refused calls (cleared c)
none_refused (given s h e ∷ calls) c =
    is_valid c.called s h e && none_refused calls (record (unpacked s h e c) { called = true })

same_id : (n : ℕ) → (n == n) ≡ true
same_id n = ground arith

release_all :
    (xs : List ℕ) (ops : List RefOp) → run_refs (map decref xs ++ ops) xs ≡ run_refs ops []
unfolding run_refs remove
release_all [] ops = refl
release_all (x ∷ xs) ops = rw (run_refs, remove, same_id x) (release_all xs ops)

take_all :
    (xs held : List ℕ) (ops : List RefOp)
    → run_refs (map incref xs ++ ops) held ≡ run_refs ops (held ++ xs)
unfolding run_refs
take_all [] held ops = rw append-nil refl
take_all (x ∷ xs) held ops = take_all xs (held ++ x ∷ []) ops ∙ rw append_assoc refl

both : (a b : Bool) → a && b ≡ true → (a ≡ true) × (b ≡ true)
both true true h = (refl, refl)
both true false h = absurd (false≢true h)
both false b h = absurd (false≢true h)

-- However often the application calls start_response, if no call is refused once its arguments are
-- unpacked: from the references in the fields, every reference that is released is held, and when the
-- object is gone none is held.
pub life-balanced :
    (calls : List Args) (c : CallState)
    → none_refused calls c ≡ true
    → run_refs (life calls c) (refs c) ≡ some []
unfolding life start_response_call start_response_dealloc none_refused run_refs
life-balanced [] c h =
    subst (λ ops. run_refs ops (refs c) ≡ some []) (append-nil (map decref (refs c)))
      (release_all (refs c) [])
life-balanced (wrong_number ∷ calls) c h =
    release_all (refs c) (life calls (cleared c)) ∙ life-balanced calls (cleared c) h
life-balanced (given s t e ∷ calls) c h =
    let (v, rest) = both (is_valid c.called s t e) _ h in
    rw (life, start_response_call, v)
      (rw append_assoc (
        release_all (refs c) (map incref (refs d) ++ life calls d)
        ∙ take_all (refs d) [] (life calls d)
        ∙ life-balanced calls d rest))
  where
    d : CallState
    d = record (unpacked s t e c) { called = true }

-- A call of a new object that is refused for its arguments, and the end of the object: a reference is
-- released that the object never took.
pub refused_unbalanced :
    (s : Ref StatusArg) (h : Ref HeadersArg) (e : Option (Ref ExcArg))
    → is_valid false s h e ≡ false
    → run_refs (life (given s h e ∷ []) create_start_response) [] ≡ none
unfolding life start_response_call start_response_dealloc run_refs remove
refused_unbalanced s h e v = rw (life, start_response_call, v) refl
