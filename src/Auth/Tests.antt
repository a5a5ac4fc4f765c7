-- ===== src/Auth/Tests.antt =====
-- Runs of the digest authentication.
use httpxp.Auth.Header.{digit, digits, nc_value, resolve_qop, split_qop, drop_space, zeros}
use httpxp.Auth.Parse.{parse_http_list, list_parts, finish_part}
use httpxp.Exceptions.Result.{ok}
use httpxp.Prelude.{
  [], codes, is_space, list_beq, lstrip, refl, rstrip, some, split, strip, ◌∷◌, ◌≡◌, nat_eq,
}

nc_26 : nc_value 26 ≡ codes "0000001a"
unfolding nc_value digits digit zeros
nc_26 = refl

listed :
    parse_http_list (codes "realm=\"a, b\", nonce=\"c\"")
    ≡ codes "realm=\"a, b\"" ∷ codes "nonce=\"c\"" ∷ []
unfolding parse_http_list list_parts finish_part strip lstrip rstrip is_space
listed = refl

chosen : resolve_qop (some (codes "auth-int, auth")) ≡ ok (some (codes "auth"))
unfolding resolve_qop split_qop drop_space split list_beq
chosen = refl
