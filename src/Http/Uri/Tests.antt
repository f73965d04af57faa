-- ===== src/Http/Uri/Tests.antt =====
-- Tests of addresses of src/httplib/httplib.cc.
use angel.Prelude.{◌≡◌, refl, [], ◌∷◌, true, codes}
use angel.Buffer.Search.{is_prefix, search_first}
use angel.Util.{search, split, split_from, svtoi, decimal, in_range, is_digit}
use angel.Http.Uri.{
  Uri, parsed, reversed, number, decode, emplace, parse_args, parse_params, clear, parse_fragment,
  parse_query, parse_path, parse_host, parse_scheme, parse,
}

abbrev empty : Uri
empty = record { scheme = []; host = []; port = number 0; path = []; params = []; fragment = [] }

parse_full :
    parse (codes "http://a:8080/p?x=1&y=2#f") empty
    ≡ parsed true (record {
      scheme = codes "http";
      host = codes "a";
      port = number 8080;
      path = codes "/p";
      params = (codes "x", codes "1") ∷ (codes "y", codes "2") ∷ [];
      fragment = codes "f";
    })
unfolding parse clear search search_first is_prefix parse_scheme parse_host svtoi decimal in_range
    is_digit parse_path decode parse_query parse_params parse_args split split_from emplace
    parse_fragment
parse_full = refl

-- A '#' before the '?'.
parse_reversed : parse (codes "http://a/#?x=1") empty ≡ reversed
unfolding parse clear search search_first is_prefix parse_scheme parse_host svtoi decimal in_range
    is_digit parse_path decode parse_query parse_params parse_args split split_from emplace
    parse_fragment
parse_reversed = refl
