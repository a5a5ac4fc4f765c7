-- ===== src/Utils.antt =====
-- httpxp/_utils.py
use httpxp.Prelude.{Bool, Text, [], codes, false, true}

-- `PrimitiveData`; a number stands with what `str` makes of it
pub data Primitive : Type 0 where
  str number : Text → Primitive
  bool : Bool → Primitive
  null : Primitive

unfoldable pub primitive_value_to_str : Primitive → Text
primitive_value_to_str (bool true) = codes "true"
primitive_value_to_str (bool false) = codes "false"
primitive_value_to_str null = []
primitive_value_to_str (str s) = s
primitive_value_to_str (number s) = s
