-- ===== src/A2a/Directory.antt =====
-- transport/a2a/directory.go: the base URL of each declared role, published once.
use ai_solo_startup_framewor.Common.{
  String, Bool, true, false, Option, none, some, List, [], ◌∷◌, contains, if◌then◌else◌,
}
use ai_solo_startup_framewor.Common.Dict.{Dict, lookup, put}

-- PeerDirectory; the mutex is left out because each call is one step.
pub record PeerDirectory : Type 0 where
  pub declared : List String
  pub bound : Dict String

unfoldable pub declare : List String → List String → Option (List String)
declare declared [] = some declared
declare declared (role ∷ roles) =
    if contains declared role then none else declare (role ∷ declared) roles

unfoldable pub with_declared : Option (List String) → Option PeerDirectory
with_declared none = none
with_declared (some declared) = some (record { declared = declared; bound = [] })

-- NewPeerDirectory: none is the error of a duplicate role.
unfoldable pub new_peer_directory : List String → Option PeerDirectory
unfolding with_declared declare
new_peer_directory roles = with_declared (declare [] roles)

pub data DirectoryError : Type 0 where
  unknown_role not_registered already_bound : DirectoryError

unfoldable pub is_bound : Option String → Bool
is_bound none = false
is_bound (some url) = true

-- Bind, with the directory after it; an error leaves the directory alone.
unfoldable pub bind : String → String → PeerDirectory → Option DirectoryError × PeerDirectory
unfolding is_bound
bind role url d =
    if contains d.declared role
    then if is_bound (lookup role d.bound)
      then (some already_bound, d)
      else (none, record d { bound = put role url d.bound })
    else (some unknown_role, d)

pub data Url : Type 0 where
  found : String → Url
  missing : DirectoryError → Url

unfoldable pub found_or : Option String → Url
found_or none = missing not_registered
found_or (some url) = found url

-- BaseURL
unfoldable pub base_url : String → PeerDirectory → Url
unfolding found_or
base_url role d =
    if contains d.declared role then found_or (lookup role d.bound) else missing unknown_role
