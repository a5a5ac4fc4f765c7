-- ===== src/Models/Cookies.antt =====
-- `Cookies` of httpxp/_models.py over the `CookieJar` of Python's http.cookiejar, which keeps the
-- cookies in dictionaries by domain, path and name.
mod Matching
mod Stored
mod Tests
use httpxp.Prelude.{
  Bool, List, Option, Text, [], codes, concat, if◌then◌else◌, is_nil, keep, length, map, none, not,
  some, true, ℕ, ◌&&◌, ◌==◌, ◌∷◌, nat_eq, list_eq,
}
use httpxp.Dict
use httpxp.Dict.{Dict}
use httpxp.Exceptions.{assertion_error, cookie_conflict, key_error}
use httpxp.Exceptions.Result.{Result, ok, err, ◌>>=◌}

-- the fields of a cookie that the program reads; the others are the same in every cookie it makes
pub record Cookie : Type 0 where
  pub name : Text
  -- `None` for a cookie without a "="
  pub value : Option Text
  pub domain : Text
  pub path : Text

abbrev pub Jar : Type 0
Jar = Dict (Dict (Dict Cookie))

abbrev pub or_empty {ℓ} : {V : Type ℓ} → Option (Dict V) → Dict V
or_empty none = []
or_empty (some d) = d

-- `CookieJar.set_cookie`
pub set_cookie : Cookie → Jar → Jar
set_cookie c jar =
    let paths = or_empty (Dict.lookup c.domain jar) in
    let names = or_empty (Dict.lookup c.path paths) in
    Dict.put c.domain (Dict.put c.path (Dict.put c.name c names) paths) jar

values {ℓ} : {V : Type ℓ} → Dict V → List V
values d = map (λ item. item.1) d

-- the iteration over a `CookieJar`
pub cookies : Jar → List Cookie
cookies jar = concat (map (λ paths. concat (map values (values paths))) (values jar))

-- `del d[k]`
del {ℓ} : {V : Type ℓ} → Text → Dict V → Result (Dict V)
del k d = if Dict.has k d then ok (Dict.without k d) else err key_error

abbrev or_key_error {ℓ} : {V : Type ℓ} → Option V → Result V
or_key_error none = err key_error
or_key_error (some v) = ok v

-- `d[k]`
get_item {ℓ} : {V : Type ℓ} → Text → Dict V → Result V
get_item k d = or_key_error (Dict.lookup k d)

-- `CookieJar.clear` with three arguments, and with fewer
pub clear_cookie : Text → Text → Text → Jar → Result Jar
clear_cookie domain path name jar = do
  paths ← get_item domain jar
  names ← get_item path paths
  left ← del name names
  ok (Dict.put domain (Dict.put path left paths) jar)

clear_path : Text → Text → Jar → Result Jar
clear_path domain path jar = do
  paths ← get_item domain jar
  left ← del path paths
  ok (Dict.put domain left jar)

-- `CookieTypes`
pub data CookieTypes : Type 0 where
  absent : CookieTypes
  mapping : Dict Text → CookieTypes
  pairs : List (Text × Text) → CookieTypes
  cookies_of : Jar → CookieTypes
  jar_of : Jar → CookieTypes

pub set : Text → Text → Text → Text → Jar → Jar
set name value domain path jar =
    set_cookie (record { name = name; value = some value; domain = domain; path = path }) jar

set_all : List (Text × Text) → Jar → Jar
set_all [] jar = jar
set_all ((key, value) ∷ l) jar = set_all l (set key value [] (codes "/") jar)

set_cookies : List Cookie → Jar → Jar
set_cookies [] jar = jar
set_cookies (c ∷ cs) jar = set_cookies cs (set_cookie c jar)

-- the constructor
pub init : CookieTypes → Jar
init absent = []
init (mapping l) = set_all l []
init (pairs l) = set_all l []
init (cookies_of jar) = set_cookies (cookies jar) []
init (jar_of jar) = jar

fits : Option Text → Text → Bool
fits none s = true
fits (some t) s = s == t

-- the tests of `get` and `delete` on a cookie
pub is_wanted : Text → Option Text → Option Text → Cookie → Bool
is_wanted name domain path c = c.name == name && (fits domain c.domain && fits path c.path)

-- a cookie that is wanted, when another may have been found
found : Option Text → Option Text → Result (Option Text)
found none value = ok value
found (some _) value = err cookie_conflict

-- the loop of `get`, on the value found so far
search_cookies : Text → Option Text → Option Text → List Cookie → Option Text → Result (Option Text)
search_cookies name domain path [] value = ok value
search_cookies name domain path (c ∷ cs) value =
    let next = search_cookies name domain path cs in
    if is_wanted name domain path c then (do v ← found value c.value; next v) else next value

or_else : Option Text → Option Text → Option Text
or_else none default = default
or_else (some v) default = some v

pub get : Text → Option Text → Option Text → Option Text → Jar → Result (Option Text)
get name default domain path jar = do
  value ← search_cookies name domain path (cookies jar) none
  ok (or_else value default)

clear_all : List Cookie → Jar → Result Jar
clear_all [] jar = ok jar
clear_all (c ∷ cs) jar = do left ← clear_cookie c.domain c.path c.name jar; clear_all cs left

pub delete : Text → Option Text → Option Text → Jar → Result Jar
delete name (some domain) (some path) jar = clear_cookie domain path name jar
delete name domain path jar = clear_all (keep (is_wanted name domain path) (cookies jar)) jar

pub clear : Option Text → Option Text → Jar → Result Jar
clear none none jar = ok []
clear none (some path) jar = err assertion_error
clear (some domain) none jar = del domain jar
clear (some domain) (some path) jar = clear_path domain path jar

pub update : CookieTypes → Jar → Jar
update types jar = set_cookies (cookies (init types)) jar

-- `__getitem__`
pub get_value : Text → Jar → Result Text
get_value name jar = do value ← get name none none none jar; or_key_error value

-- `__len__`, `__iter__` and `__bool__`
pub len : Jar → ℕ
len jar = length (cookies jar)

pub names : Jar → List Text
names jar = map (λ c. c.name) (cookies jar)

pub is_true : Jar → Bool
is_true jar = not (is_nil (cookies jar))
