-- ===== src/StartResponse.antt =====
-- fastwsgi/start_response.c: the callable that a WSGI application gets, with the references that it
-- takes and releases. An object is its number and what the code asks of it.
pub mod References
mod Tests
use fastpysgi.Base.{
  ℕ, Bool, true, false, not, ◌&&◌, Option, none, some, List, [], ◌∷◌, ◌++◌, map, leb, ◌==◌,
  if◌then◌else◌,
}

-- an item of the headers
pub record HeaderArg : Type 0 where
  pub is_tuple : Bool
  pub size : ℕ
  pub name_is_text : Bool
  pub value_is_text : Bool

-- the first argument: a text of some length, or anything else
pub data StatusArg : Type 0 where
  status_text : ℕ → StatusArg
  status_other : StatusArg

pub data HeadersArg : Type 0 where
  header_list : List HeaderArg → HeadersArg
  headers_other : HeadersArg

-- the third argument: None, a tuple of some size, or anything else
pub data ExcArg : Type 0 where
  exc_none exc_other : ExcArg
  exc_tuple : ℕ → ExcArg

pub record Ref (A : Type 0) : Type 0 where
  pub id : ℕ
  pub what : A

-- `StartResponse`
pub record CallState : Type 0 where
  pub status : Option (Ref StatusArg)
  pub headers : Option (Ref HeadersArg)
  pub exc_info : Option (Ref ExcArg)
  pub called : Bool

-- `create_start_response`
abbrev pub create_start_response : CallState
create_start_response = record { status = none; headers = none; exc_info = none; called = false }

-- The positional arguments of a call: not two or three of them, or these.
pub data Args : Type 0 where
  wrong_number : Args
  given : Ref StatusArg → Ref HeadersArg → Option (Ref ExcArg) → Args

-- `Py_INCREF` and `Py_DECREF` of an object
pub data RefOp : Type 0 where
  incref decref : ℕ → RefOp

-- the number of a reference that may be NULL
abbrev pub id_of : {A : Type 0} → Option (Ref A) → List ℕ
id_of none = []
id_of (some r) = r.id ∷ []

-- the references in the fields, in their order
abbrev pub refs : CallState → List ℕ
refs s = id_of s.status ++ (id_of s.headers ++ id_of s.exc_info)

abbrev pub is_valid_status : StatusArg → Bool
is_valid_status (status_text n) = leb 3 n
is_valid_status status_other = false

abbrev pub is_valid_header_tuple : HeaderArg → Bool
is_valid_header_tuple h = h.is_tuple && h.size == 2 && h.name_is_text && h.value_is_text

unfoldable pub all_valid : List HeaderArg → Bool
all_valid [] = true
all_valid (h ∷ hs) = is_valid_header_tuple h && all_valid hs

abbrev pub is_valid_headers : HeadersArg → Bool
is_valid_headers (header_list hs) = all_valid hs
is_valid_headers headers_other = false

-- `is_valid_exc_info`: a second call needs a tuple
abbrev pub is_valid_exc_info : Bool → Option (Ref ExcArg) → Bool
is_valid_exc_info called none = not called
is_valid_exc_info called (some r) = elim (r.what) [
  | exc_none ↦ not called
  | exc_tuple n ↦ n == 3
  | exc_other ↦ false
]

-- what `start_response_call` asks of the arguments
abbrev pub is_valid : Bool → Ref StatusArg → Ref HeadersArg → Option (Ref ExcArg) → Bool
is_valid called s h e =
    is_valid_status s.what && is_valid_headers h.what && is_valid_exc_info called e

-- `Py_CLEAR` of the three fields
abbrev pub cleared : CallState → CallState
cleared s = record s { status = none; headers = none; exc_info = none }

-- the fields behind PyArg_UnpackTuple, which takes no references
abbrev pub unpacked : Ref StatusArg → Ref HeadersArg → Option (Ref ExcArg) → CallState → CallState
unpacked s h e c = record c { status = some s; headers = some h; exc_info = e }

-- `start_response_call`: the flag is false if it raises or refuses
unfoldable pub start_response_call : Args → CallState → Bool × CallState × List RefOp
start_response_call wrong_number c = (false, cleared c, map decref (refs c))
start_response_call (given s h e) c =
    let d = unpacked s h e c in
    if is_valid c.called s h e
    then (true, record d { called = true }, map decref (refs c) ++ map incref (refs d))
    else (false, d, map decref (refs c))

-- `start_response_dealloc`
unfoldable pub start_response_dealloc : CallState → List RefOp
start_response_dealloc c = map decref (refs c)

-- The calls of an application and the end of the object.
unfoldable pub life : List Args → CallState → List RefOp
unfolding start_response_call start_response_dealloc
life [] c = start_response_dealloc c
life (a ∷ more) c = let (ok, d, ops) = start_response_call a c in ops ++ life more d
