-- ===== src/Common/Uri/Tests.antt =====
-- Runs of the percent decoder (fastwsgi/common.c), and its theorems at concrete inputs.
use fastpysgi.Base.{◌≡◌, refl, true, some, [], ◌++◌, arith, take, neg, pos, codes}
use fastpysgi.Common.Uri.Reference.{decode, ok}
use fastpysgi.Common.Uri.Inplace.{Agrees, uri_percent_decode_inplace_lem}
use fastpysgi.Common.Uri.Output.{
  Clean, percent_encode, decode_inplace-percent_encode, decode_inplace-Clean,
}
use fastpysgi.Common.Uri.{uri_percent_decode_inplace}

decodes_space :
    uri_percent_decode_inplace (codes "/a%20b") 6 true 100 ≡ some (pos 4, codes "/a b0b")
unfolding uri_percent_decode_inplace
decodes_space = refl

keeps_slash :
    uri_percent_decode_inplace (codes "%2fx%41") 7 true 100 ≡ some (pos 5, codes "%2fxA41")
unfolding uri_percent_decode_inplace
keeps_slash = refl

rejects_control :
    uri_percent_decode_inplace (codes "/a%0a") 5 true 100 ≡ some (neg 11, codes "/a%0a")
unfolding uri_percent_decode_inplace
rejects_control = refl

rejects_short : uri_percent_decode_inplace (codes "/a%4") 4 true 100 ≡ some (neg 1, codes "/a%4")
unfolding uri_percent_decode_inplace
rejects_short = refl

uri_percent_decode_inplace_lem_example :
    Agrees []
      (codes "?q")
      (decode true 100 0 (codes "/a%20b"))
      (uri_percent_decode_inplace (codes "/a%20b" ++ codes "?q") 6 true 100)
uri_percent_decode_inplace_lem_example =
    uri_percent_decode_inplace_lem true 100 (codes "/a%20b") (codes "?q")

decode_inplace-percent_encode_example :
    Agrees []
      (codes "?q")
      (ok (codes "/a"))
      (uri_percent_decode_inplace (percent_encode (codes "/a") ++ codes "?q") 4 true 100)
decode_inplace-percent_encode_example =
    decode_inplace-percent_encode true 100 (codes "/a") (codes "?q")
      (omega arith, omega arith, (omega arith, omega arith, tt))

decode_inplace-Clean_example : Clean (take 4 (codes "/a b0b"))
unfolding uri_percent_decode_inplace
decode_inplace-Clean_example =
    decode_inplace-Clean true 100 4 (codes "/a%20b") [] (codes "/a b0b") (omega arith)
      (omega arith, (omega arith, (omega arith, (omega arith, (omega arith, (omega arith, tt))))))
      refl
