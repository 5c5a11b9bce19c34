-- ===== src/StartResponse/Tests.antt =====
-- The theorems on start_response (fastwsgi/start_response.c) at concrete inputs.
use fastpysgi.Base.{◌≡◌, refl, true, none, some, List, [], ◌∷◌}
use fastpysgi.StartResponse.{
  StatusArg, HeadersArg, ExcArg, Ref, create_start_response, Args, all_valid, life, status_text,
  header_list, exc_tuple, wrong_number, given,
}
use fastpysgi.StartResponse.References.{run_refs, none_refused, life-balanced, refused_unbalanced}

abbrev ok_status : Ref StatusArg
ok_status = record { id = 1; what = status_text 6 }

abbrev short_status : Ref StatusArg
short_status = record { id = 2; what = status_text 2 }

abbrev one_header : Ref HeadersArg
one_header = record {
  id = 3;
  what =
      header_list
        (record { is_tuple = true; size = 2; name_is_text = true; value_is_text = true } ∷ []);
}

abbrev exc : Ref ExcArg
exc = record { id = 4; what = exc_tuple 3 }

-- a call, a call with too few arguments, and one with an exception
abbrev three_calls : List Args
three_calls =
    given ok_status one_header none ∷ wrong_number ∷ given ok_status one_header (some exc) ∷ []

life-balanced_example : run_refs (life three_calls create_start_response) [] ≡ some []
unfolding none_refused all_valid
life-balanced_example = life-balanced three_calls create_start_response refl

refused_unbalanced_example :
    run_refs (life (given short_status one_header none ∷ []) create_start_response) [] ≡ none
refused_unbalanced_example = refused_unbalanced short_status one_header none refl
