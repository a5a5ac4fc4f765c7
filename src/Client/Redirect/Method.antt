-- ===== src/Client/Redirect/Method.antt =====
-- The method of the request that follows a redirect.
use httpxp.Prelude.{
  ==_iff, Text, arith, codes, if◌then◌else◌, list_beq, not, ℕ, ◌&&◌, ◌==◌, ◌||◌, ◌≡◌, nat_eq,
  list_eq,
}
use httpxp.Client.Redirect.{redirect_method}

abbrev head : Text
head = codes "HEAD"

abbrev post : Text
post = codes "POST"

-- A redirect turns a method into GET exactly on a 302 or 303 for another method than HEAD, and on a
-- 301 for POST; any other method, status or combination keeps the method.
pub redirect_method_lem :
    (method : Text) (status : ℕ)
    → redirect_method method status ≡ (
        if (not (method == head) && (status == 302 || status == 303))
          || (method == post && status == 301)
        then codes "GET"
        else method)
unfolding redirect_method list_beq
redirect_method_lem method status = ground (arith, ==_iff method head, ==_iff method post)
