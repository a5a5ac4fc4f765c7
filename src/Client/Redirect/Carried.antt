-- ===== src/Client/Redirect/Carried.antt =====
-- The headers that a redirect carries over.
use httpxp.Prelude.{
  Bool, Bytes, List, Text, [], codes, if◌then◌else◌, not, ◌&&◌, ◌==◌, ◌||◌, ◌∷◌, ◌≡◌, nat_eq,
  list_eq,
}
use httpxp.Exceptions.Result.{Result, ok}
use httpxp.Models.Headers
use httpxp.Models.Headers.Entries.{values_for}
use httpxp.Models.Headers.Exec.{Headers, M}
use httpxp.Models.Headers.Ascii.{AsciiEntries}
use httpxp.Urls.Url
use httpxp.Urls.Url.{Url}

-- On ASCII headers the action succeeds, keeps them ASCII, and changes the values of each name so.
pub record Acts (m : M (Unit {0})) (f : Bytes → List Bytes → List Bytes) : Type 0 where
  pub succeeds : (h : Headers) → AsciiEntries h.entries → (m h).0 ≡ ok tt
  pub invariant : (h : Headers) → AsciiEntries h.entries → AsciiEntries (m h).1.entries
  pub values :
      (h : Headers)
      → AsciiEntries h.entries
      → (j : Bytes) → values_for j (m h).1.entries ≡ f j (values_for j h.entries)

abbrev Change : Type 0
Change = Bytes → List Bytes → List Bytes

abbrev dropping : Bytes → Change
dropping k j vs = if k == j then [] else vs

abbrev setting : Bytes → Bytes → Change
setting k v j vs = if k == j then v ∷ [] else vs

-- What the redirect makes of the values of a name.
pub carried : Bool → Bool → Bool → Text → Bytes → List Bytes → List Bytes
carried cross upgrade switch netloc name values =
    if codes "cookie" == name
    then []
    else if switch && (codes "transfer-encoding" == name || codes "content-length" == name)
    then []
    else if cross && codes "host" == name
    then netloc ∷ []
    else if cross && not upgrade && codes "authorization" == name
    then []
    else values
