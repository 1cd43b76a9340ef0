-- ===== src/A2a/Bound.antt =====
-- The directory of peers (transport/a2a/directory.go) under any calls of Bind.
use ai_solo_startup_framewor.Common.{
  String, ◌≡◌, Option, none, some, List, [], ◌∷◌, arith, eq_iff, eq_self,
}
use ai_solo_startup_framewor.Common.Dict.{lookup, lookup-put}
use ai_solo_startup_framewor.A2a.Directory.{
  PeerDirectory, bind, is_bound, found, base_url, found_or,
}

-- The directory after a sequence of calls of Bind, whatever they return.
abbrev pub bind_all : List (String × String) → PeerDirectory → PeerDirectory
bind_all [] d = d
bind_all ((role, url) ∷ l) d = bind_all l (bind role url d).1

found_or-found : (o : Option String) (u : String) → found_or o ≡ found u → o ≡ some u
unfolding found_or
found_or-found none u h = cc
found_or-found (some v) u h = ground (arith, h)

bind-keeps :
    (role other url u : String) (d : PeerDirectory)
    → base_url role d ≡ found u
    → base_url role (bind other url d).1 ≡ found u
unfolding bind base_url is_bound found_or
bind-keeps role other url u d h = ground (
  arith,
  h,
  found_or-found (lookup role d.bound) u,
  lookup-put other role url d.bound,
  eq_iff other role,
)

bind_all-keeps :
    (l : List (String × String)) (role u : String) (d : PeerDirectory)
    → base_url role d ≡ found u
    → base_url role (bind_all l d) ≡ found u
bind_all-keeps [] role u d h = h
bind_all-keeps ((other, url) ∷ l) role u d h =
    bind_all-keeps l role u (bind other url d).1 (bind-keeps role other url u d h)

bind-base_url :
    (role url : String) (d : PeerDirectory)
    → (bind role url d).0 ≡ none
    → base_url role (bind role url d).1 ≡ found url
unfolding bind base_url found_or
bind-base_url role url d h = ground (arith, h, lookup-put role role url d.bound, eq_self role)

-- A URL that was bound without an error is the role's base URL from then on, whatever calls of Bind
-- follow, for this role or another.
pub bind-base_url_kept :
    (role url : String) (d : PeerDirectory) (l : List (String × String))
    → (bind role url d).0 ≡ none
    → base_url role (bind_all l (bind role url d).1) ≡ found url
bind-base_url_kept role url d l h =
    bind_all-keeps l role url (bind role url d).1 (bind-base_url role url d h)
