-- ===== src/Auth/Count.antt =====
-- The count of the requests for a challenge, as the header writes it.
use httpxp.Prelude.{
  Bool-cases, Bytes, [], arith, if◌then◌else◌, inl, inr, length, ltb, refl, suc, zero, ℕ, ◌%◌, ◌*◌,
  ◌++◌, ◌+◌, ◌-◌, ◌/◌, ◌<◌, ◌∙◌, ◌∷◌, ◌≡◌,
}
use httpxp.Auth.Header.{digit, digits, nc_value, zeros}

-- the number that hexadecimal digits in lower case stand for, behind others
abbrev digit_value : ℕ → ℕ
digit_value c = if ltb c 58 then c - 48 else c - 87

abbrev hex_value : ℕ → Bytes → ℕ
hex_value acc [] = acc
hex_value acc (c ∷ s) = hex_value (acc * 16 + digit_value c) s

-- What hexadecimal digits stand for.
abbrev pub from_hex : Bytes → ℕ
from_hex s = hex_value 0 s

hex_value-append :
    (acc c : ℕ) (s : Bytes) → hex_value acc (s ++ c ∷ []) ≡ hex_value acc s * 16 + digit_value c
hex_value-append acc c [] = refl
hex_value-append acc c (d ∷ s) = hex_value-append (acc * 16 + digit_value d) c s

digit_value-digit : (d : ℕ) → d < 16 → digit_value (digit d) ≡ d
unfolding digit
digit_value-digit d h = ground arith

digits-value : (fuel n : ℕ) → n < fuel → hex_value 0 (digits 16 fuel n) ≡ n
unfolding digits
digits-value zero n h = absurd (omega arith)
digits-value (suc fuel) n h = elim (Bool-cases (ltb n 16)) [
  | inl e ↦ rw e (omega (arith, digit_value-digit n (ground arith)))
  | inr e ↦ rw e (
      hex_value-append 0 (digit (n % 16)) (digits 16 fuel (n / 16))
      ∙ omega (
        arith,
        digits-value fuel (n / 16) (ground arith),
        digit_value-digit (n % 16) (omega arith),
      ))
]

zeros-value : (k : ℕ) (s : Bytes) → hex_value 0 (zeros k ++ s) ≡ hex_value 0 s
unfolding zeros
zeros-value zero s = refl
zeros-value (suc k) s = zeros-value k s

-- The count that a header shows is read back from it, so two counts are never shown alike.
pub from_hex-nc_value : (n : ℕ) → from_hex (nc_value n) ≡ n
unfolding nc_value
from_hex-nc_value n =
    zeros-value (8 - length (digits 16 (suc n) n)) (digits 16 (suc n) n)
    ∙ digits-value (suc n) n (omega arith)
