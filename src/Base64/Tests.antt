-- ===== src/Base64/Tests.antt =====
-- Runs of src/base64.cc on small texts.
use angel.Prelude.{◌≡◌, refl, [], ◌∷◌, codes, arith}
use angel.Base64.{encode, decode, feed, alphabet, line_break, map_char, standard, mime, url_safe}
use angel.Base64.RoundTrip.{NoZeroSextet, AreBytes, decode-encode}
use angel.Base64.Skipped.{decode-encode_loses}

hello : encode standard (codes "hello, world") ≡ codes "aGVsbG8sIHdvcmxk"
unfolding encode alphabet line_break
hello = refl

hello_back : decode standard (codes "aGVsbG8sIHdvcmxk") ≡ codes "hello, world"
unfolding decode feed
hello_back = refl

padded : encode url_safe (codes "ab~~") ≡ codes "YWJ-fg=="
unfolding encode alphabet line_break
padded = refl

padded_back : decode url_safe (codes "YWJ-fg==") ≡ codes "ab~~"
unfolding decode feed
padded_back = refl

hello-NoZeroSextet : NoZeroSextet (codes "hello")
hello-NoZeroSextet =
    ((omega arith, omega arith, omega arith, omega arith), (omega arith, omega arith, omega arith))

hello-AreBytes : AreBytes (codes "hello")
hello-AreBytes = (omega arith, (omega arith, (omega arith, (omega arith, (omega arith, tt)))))

decode-encode_example : decode mime (encode mime (codes "hello")) ≡ codes "hello"
decode-encode_example = decode-encode mime (codes "hello") hello-AreBytes hello-NoZeroSextet

capital_a : map_char standard b'A' ≡ 0
unfolding map_char
capital_a = refl

decode-encode_loses_example : decode url_safe (encode url_safe (0 ∷ 1 ∷ 2 ∷ [])) ≡ []
decode-encode_loses_example =
    decode-encode_loses url_safe 0 1 2 (omega arith) (omega arith) (omega arith)
