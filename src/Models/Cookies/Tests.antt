-- ===== src/Models/Cookies/Tests.antt =====
-- Runs on a jar of three cookies, and the theorems on cookies at an input.
use httpxp.Models.Cookies.{Jar, set}
use httpxp.Prelude.{[], codes, list_eq}

abbrev jar : Jar
jar = set (codes "a") (codes "3") (codes "y.org") (codes "/") (
    set (codes "b") (codes "2") (codes "x.org") (codes "/")
      (set (codes "a") (codes "1") (codes "x.org") (codes "/") []))
