-- ===== src/UrlParse/Port/Normal.antt =====
-- A normalised port.
use httpxp.Prelude.{Option, Text, [], arith, none, some, true, ◌∷◌, ◌≡◌, ◌≢◌}
use httpxp.Exceptions.Result.{ok}
use httpxp.UrlParse.Port.{
  ℤ, int_eq, default_port, is_default, parsed_port, normalize_given, normalize_port,
}

int_eq_refl : (p : ℤ) → int_eq p p ≡ true
unfolding int_eq
int_eq_refl (ℤ.pos n) = ground arith
int_eq_refl (ℤ.negsuc n) = ground arith

parsed_port-default :
    (p : Option ℤ) (scheme : Text) (q : ℤ)
    → parsed_port p scheme ≡ ok (some q)
    → (p ≡ some q) × (default_port scheme ≢ some q)
unfolding parsed_port is_default
parsed_port-default none scheme q h = cc
parsed_port-default (some p) scheme q h = ground (arith, int_eq_refl q)

-- A port that is kept is the number that the text stands for, and is not the default of the scheme.
pub normalize_port_lem :
    (int_of : Text → Option ℤ) (port scheme : Text) (q : ℤ)
    → normalize_port int_of (some port) scheme ≡ ok (some q)
    → (int_of port ≡ some q) × (default_port scheme ≢ some q)
unfolding normalize_port normalize_given
normalize_port_lem int_of [] scheme q h = cc
normalize_port_lem int_of (c ∷ port) scheme q h = parsed_port-default (int_of (c ∷ port)) scheme q h
