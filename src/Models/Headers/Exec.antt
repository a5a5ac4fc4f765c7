-- ===== src/Models/Headers/Exec.antt =====
-- The object, and actions on it that may raise.
use httpxp.Prelude.{List, Option}
use httpxp.Exceptions.{key_error}
use httpxp.Exceptions.Result.{Result, ok, err}
use httpxp.Codec.{Encoding}
use httpxp.Models.Headers.Entries.{Entry}

pub record Headers : Type 0 where
  pub entries : List Entry
  pub encoding : Option Encoding

abbrev pub M : Type 0 → Type 0
M A = Headers → Result A × Headers

-- the rest of an action, unless the first part raised
abbrev pub continue : {A B : Type 0} → Result A × Headers → (A → M B) → Result B × Headers
continue (ok a, h) f = f a h
continue (err e, h) f = (err e, h)

infixl 5 ◌>>=◌ ◌>>◌
abbrev pub ◌>>=◌ : {A B : Type 0} → M A → (A → M B) → M B
◌>>=◌ m f h = continue (m h) f

abbrev pub ◌>>◌ : {A B : Type 0} → M A → M B → M B
◌>>◌ m k = m >>= λ _. k

abbrev pub pure : {A : Type 0} → A → M A
pure a h = (ok a, h)

abbrev pub lift : {A : Type 0} → Result A → M A
lift r h = (r, h)

-- a reading of the entries
abbrev pub gets : {A : Type 0} → (List Entry → A) → M A
gets f h = (ok (f h.entries), h)

abbrev pub modify : (List Entry → List Entry) → M (Unit {0})
modify f h = (ok tt, record h { entries = f h.entries })

-- `except KeyError`
abbrev pub caught : {A : Type 0} → Result A × Headers → M A → Result A × Headers
caught (err key_error, h) k = k h
caught (r, h) k = (r, h)
