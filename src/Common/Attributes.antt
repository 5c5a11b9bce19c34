-- ===== src/Common/Attributes.antt =====
-- The readers of fastwsgi/common.c: options that are attributes of a Python object or variables of the
-- environment, and the search for a line end.
use fastpysgi.Base.{
  ℕ, zero, suc, ◌+◌, ◌-◌, ◌%◌, min, not, ◌&&◌, ◌||◌, Option, none, some, List, [], ◌∷◌, ltb, ◌==◌,
  if◌then◌else◌, length, get_elem?, get_or, drop, ℤ, neg, is_pos, int_eq, int_lt, llong_min,
  llong_max, pos, negsuc, Bytes,
}

-- the number in the text of a variable, by `strtoll` for a base
abbrev pub read_number : (ℕ → Bytes → ℤ) → Bytes → ℤ
read_number strtoll b =
    if ltb 2 (length b) && get_or b 0 0 == b'0' && get_or b 1 0 == b'x'
    then strtoll 16 (drop 2 b)
    else strtoll 10 b

-- a number that counts as set
abbrev pub accept_number : ℤ → ℤ
accept_number v = if not (is_pos v) || int_eq v llong_max then llong_min else v

-- `get_env_int`, on the answer of uv_os_getenv (`none`: not found or another error), with `strtoll` of
-- the C library for a base.
unfoldable pub get_env_int : (ℕ → Bytes → ℤ) → Option Bytes → ℤ
get_env_int strtoll none = llong_min
get_env_int strtoll (some b) =
    if length b == 0
    then llong_min
    else if length b == 1 && get_or b 0 0 == b'0'
    then pos 0
    else accept_number (read_number strtoll b)

-- An attribute, as far as the readers tell values apart. `py_int` is the value that
-- PyLong_AsSsize_t gives, `py_text` the UTF-8 bytes.
pub data Attr : Type 0 where
  py_true py_false py_none py_other : Attr
  py_int : ℤ → Attr
  py_text : Bytes → Attr

-- `get_obj_attr_int`; `none` is an attribute that is not there
unfoldable pub get_obj_attr_int : Option Attr → ℤ
get_obj_attr_int (some py_true) = pos 1
get_obj_attr_int (some py_false) = pos 0
get_obj_attr_int (some (py_int n)) = n
get_obj_attr_int _ = llong_min

-- `get_obj_attr_str`
unfoldable pub get_obj_attr_str : Option Attr → Option Bytes
get_obj_attr_str (some (py_text b)) = some b
get_obj_attr_str _ = none

-- an item of the list in an attribute
pub data Item : Type 0 where
  item_none item_other : Item
  item_tuple : List Attr → Item

-- an attribute that should be a list of tuples
pub data ListAttr : Type 0 where
  list_none list_other : ListAttr
  list_of : List Item → ListAttr

-- the first `n` of the attributes, NULL where there is none
unfoldable pub fill : ℕ → List Attr → List (Option Attr)
fill zero xs = []
fill (suc n) [] = none ∷ fill n []
fill (suc n) (x ∷ xs) = some x ∷ fill n xs

-- the tuple at an index, into a buffer of `bufsize`
unfoldable pub read_tuple : ℕ → Option Item → ℤ × List (Option Attr)
unfolding fill
read_tuple bufsize none = (neg 4, [])
read_tuple bufsize (some item_none) = (neg 42, [])
read_tuple bufsize (some item_other) = (neg 6, [])
read_tuple bufsize (some (item_tuple xs)) =
    if length xs == 0
    then (neg 7, [])
    else if bufsize == 0
    then (neg 8, [])
    else (pos (min bufsize (length xs)), fill bufsize xs)

-- `get_obj_attr_list_tup`: the number of tuples for a negative index, else the number of values read
-- and the buffer; a buffer is given with every index that is not negative.
unfoldable pub get_obj_attr_list_tup : Option ListAttr → ℤ → ℕ → ℤ × List (Option Attr)
unfolding read_tuple
get_obj_attr_list_tup none idx bufsize = (neg 1, [])
get_obj_attr_list_tup (some list_none) idx bufsize = (neg 41, [])
get_obj_attr_list_tup (some list_other) idx bufsize = (neg 2, [])
get_obj_attr_list_tup (some (list_of [])) idx bufsize = (neg 3, [])
get_obj_attr_list_tup (some (list_of (x ∷ xs))) (negsuc n) bufsize = (pos (length (x ∷ xs)), [])
get_obj_attr_list_tup (some (list_of (x ∷ xs))) (pos n) bufsize =
    read_tuple bufsize (get_elem? (x ∷ xs) n)

-- the text of a value, NULL if it is none
abbrev pub text_of : Option Attr → Option Bytes
text_of (some (py_text b)) = some b
text_of _ = none

-- the cast to a 32-bit `int`
abbrev pub to_int : ℤ → ℤ
to_int (pos n) =
    let m = n % 4294967296 in if ltb m 2147483648 then pos m else negsuc (4294967295 - m)
to_int (negsuc n) =
    let m = n % 4294967296 in if ltb m 2147483648 then negsuc m else pos (4294967295 - m)

-- a port: -1 for what is no number
abbrev pub port_of : Option Attr → ℤ
port_of none = pos 0
port_of (some (py_int n)) = to_int n
port_of (some py_true) = pos 1
port_of (some py_false) = pos 0
port_of (some _) = neg 1

-- the host and the port, of a tuple of two values at least
abbrev pub host_and_port : ℤ × List (Option Attr) → ℤ × Option Bytes × ℤ
host_and_port (hr, h ∷ p ∷ xs) =
    if int_lt hr (pos 2) then (hr, none, pos 0) else (hr, text_of h, port_of p)
host_and_port (hr, _) = (hr, none, pos 0)

-- `get_obj_attr_bindlist`, for an index that is not negative: the code, the host and the port
unfoldable pub get_obj_attr_bindlist : Option ListAttr → ℕ → ℤ × Option Bytes × ℤ
unfolding get_obj_attr_list_tup
get_obj_attr_bindlist attr idx =
    let (size, _) = get_obj_attr_list_tup attr (neg 1) 0 in
    if int_lt size (pos 1)
    then (neg 3, none, pos 0)
    else host_and_port (get_obj_attr_list_tup attr (pos idx) 2)

-- the loop of find_crlf, with the index of the first byte
unfoldable pub find_from : ℕ → Bytes → Option ℕ
find_from i (c ∷ d ∷ bs) =
    let rest = find_from (i + 1) (d ∷ bs) in if c == 13 && d == 10 then some i else rest
find_from i (c ∷ []) = none
find_from i [] = none

-- `find_crlf`, as an index into the bytes
unfoldable pub find_crlf : Bytes → Option ℕ
unfolding find_from
find_crlf bs = find_from 0 bs
