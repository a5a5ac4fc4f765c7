-- ===== src/Config/Defaults.antt =====
-- Which numbers a timeout is built of.
use httpxp.Prelude.{Option, ap, inl, inr, none, refl, ◌≡◌, ◌⊎◌}
use httpxp.Config.{
  value_error, err, missing, Keywords, Setting, all_set, from_keywords, init, is_unset, or_default,
  seconds, set_to, unset, with_default,
}
use httpxp.Exceptions.Result.{ok}

module _ {S : Type 0} where
  -- the number that a keyword gives, or else the default
  abbrev pub chosen : Option S → Setting S → Option S
  chosen default unset = default
  chosen default (set_to x) = x

  -- A keyword that gives a number.
  abbrev pub IsGiven : Setting S → Type 0
  IsGiven unset = ⊥
  IsGiven (set_to x) = Unit

  abbrev pub AllGiven : Keywords S → Type 0
  AllGiven k = IsGiven k.connect × IsGiven k.read × IsGiven k.write × IsGiven k.pool

  abbrev keywords : Setting S → Setting S → Setting S → Setting S → Keywords S
  keywords c r w p = record { connect = c; read = r; write = w; pool = p }

  or_default-eq : (default : Option S) (x : Setting S) → or_default default x ≡ chosen default x
  unfolding or_default
  or_default-eq default unset = refl
  or_default-eq default (set_to x) = refl

  seconds-default :
      (default : Option S) (c r w p : Setting S)
      → with_default default (keywords c r w p) ≡ record {
        connect = chosen default c;
        read = chosen default r;
        write = chosen default w;
        pool = chosen default p;
      }
  unfolding with_default
  seconds-default default c r w p =
      simp
        (
          or_default-eq default c,
          or_default-eq default r,
          or_default-eq default w,
          or_default-eq default p,
        )
        refl

  -- With a default every number is that of its keyword where this is given and the default
  -- otherwise.
  pub init-seconds :
      (default : Option S) (c r w p : Setting S)
      → init (seconds default) (record { connect = c; read = r; write = w; pool = p })
        ≡ ok (record {
          connect = chosen default c;
          read = chosen default r;
          write = chosen default w;
          pool = chosen default p;
        })
  unfolding init from_keywords all_set with_default or_default is_unset
  init-seconds default unset r w p = ap ok (seconds-default default unset r w p)
  init-seconds default (set_to a) unset w p = ap ok (seconds-default default (set_to a) unset w p)
  init-seconds default (set_to a) (set_to b) unset p =
      ap ok (seconds-default default (set_to a) (set_to b) unset p)
  init-seconds default (set_to a) (set_to b) (set_to c) unset =
      ap ok (seconds-default default (set_to a) (set_to b) (set_to c) unset)
  init-seconds default (set_to a) (set_to b) (set_to c) (set_to d) = refl

  -- Without a default the four keywords are the numbers if all are given, and otherwise the
  -- constructor raises ValueError.
  pub init-missing :
      (c r w p : Setting S)
      → AllGiven (record { connect = c; read = r; write = w; pool = p })
          × (init missing (record { connect = c; read = r; write = w; pool = p })
              ≡ ok (record {
                connect = chosen none c;
                read = chosen none r;
                write = chosen none w;
                pool = chosen none p;
              }))
        ⊎ (AllGiven (record { connect = c; read = r; write = w; pool = p }) → ⊥)
          × (init missing (record { connect = c; read = r; write = w; pool = p }) ≡ err value_error)
  unfolding init from_keywords all_set with_default or_default is_unset
  init-missing unset r w p = inr ((λ g. g.0), refl)
  init-missing (set_to a) unset w p = inr ((λ g. g.1), refl)
  init-missing (set_to a) (set_to b) unset p = inr ((λ g. g.2), refl)
  init-missing (set_to a) (set_to b) (set_to c) unset = inr ((λ g. g.3), refl)
  init-missing (set_to a) (set_to b) (set_to c) (set_to d) = inl ((tt, tt, tt, tt), refl)
