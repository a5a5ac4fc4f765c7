-- ===== src/UrlParse/Port.antt =====
-- `normalize_port` of httpxp/_urlparse.py, and Python's `int` as far as a port needs it.
mod Normal
use httpxp.Prelude.{
  Bool, Option, Text, [], codes, false, if◌then◌else◌, is_nil, list_beq, ltb, none, some, suc, true,
  zero, ℕ, ◌%◌, ◌+◌, ◌/◌, ◌==◌, ◌∷◌, nat_eq, list_eq,
}
use httpxp.Exceptions.{invalid_url}
use httpxp.Exceptions.Result.{Result, ok, err}

-- `negsuc n` is -(n + 1).
pub data ℤ : Type 0 where
  pos : ℕ → ℤ
  negsuc : ℕ → ℤ

unfoldable pub int_eq : ℤ → ℤ → Bool
int_eq (pos m) (pos n) = m == n
int_eq (negsuc m) (negsuc n) = m == n
int_eq _ _ = false

-- `==` on ports that may be `None`
unfoldable pub port_eq : Option ℤ → Option ℤ → Bool
port_eq none none = true
port_eq (some p) (some q) = int_eq p q
port_eq _ _ = false

-- `str(n)` with fuel, in front of what is already written
digits_from : ℕ → ℕ → Text → Text
digits_from zero n s = s
digits_from (suc fuel) n s =
    let here = (b'0' + n % 10) ∷ s in
    let more = digits_from fuel (n / 10) here in if ltb n 10 then here else more

nat_to_str : ℕ → Text
nat_to_str n = digits_from (suc n) n []

-- `str(port)`
unfoldable pub int_to_str : ℤ → Text
unfolding nat_to_str digits_from
int_to_str (pos n) = nat_to_str n
int_to_str (negsuc n) = b'-' ∷ nat_to_str (n + 1)

-- `{...}.get(scheme)`
pub default_port : Text → Option ℤ
default_port scheme =
    if scheme == codes "ftp"
    then some (pos 21)
    else if scheme == codes "http"
    then some (pos 80)
    else if scheme == codes "https"
    then some (pos 443)
    else if scheme == codes "ws"
    then some (pos 80)
    else if scheme == codes "wss"
    then some (pos 443)
    else none

is_default : ℤ → Option ℤ → Bool
is_default p none = false
is_default p (some d) = int_eq p d

parsed_port : Option ℤ → Text → Result (Option ℤ)
parsed_port none scheme = err invalid_url
parsed_port (some p) scheme = if is_default p (default_port scheme) then ok none else ok (some p)

-- `int` of a text is a parameter: it fails on what Python refuses.
module _ (int_of : Text → Option ℤ) where
  normalize_given : Text → Text → Result (Option ℤ)
  normalize_given port scheme = if is_nil port then ok none else parsed_port (int_of port) scheme

  unfoldable pub normalize_port : Option Text → Text → Result (Option ℤ)
  unfolding normalize_given parsed_port is_default default_port int_eq list_beq
  normalize_port none scheme = ok none
  normalize_port (some port) scheme = normalize_given port scheme
