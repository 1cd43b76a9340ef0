-- ===== src/A2a/Server.antt =====
-- transport/a2a/server.go: who may call a supervisor. The HTTP server, the handler of the a2a library
-- and its task store are not modelled.
use Prim.Native.Char.{code}
use ai_solo_startup_framewor.Common.{
  String, Option, none, some, List, [], ◌∷◌, ◌==◌, eqb, if◌then◌else◌,
}

abbrev pub bearer_prefix : String
bearer_prefix = "Bearer "

pub data Refusal : Type 0 where
  missing_header invalid_token empty_tenant wrong_tenant : Refusal

-- What an interceptor decides.
pub data Decision : Type 0 where
  admitted : Decision
  refused : Refusal → Decision

-- strings.CutPrefix(s, prefix); none where the prefix is missing.
unfoldable pub cut_prefix : String → String → Option String
cut_prefix s String.[] = some s
cut_prefix String.[] (String.◌∷◌ d p) = none
cut_prefix (String.◌∷◌ c s) (String.◌∷◌ d p) =
    if eqb (code c) (code d) then cut_prefix s p else none

unfoldable pub check_token : String → Option String → Decision
check_token token none = refused invalid_token
check_token token (some claimed) = if claimed == token then admitted else refused invalid_token

-- The values of the Authorization header.
unfoldable pub check_header : String → List String → Decision
unfolding check_token cut_prefix
check_header token [] = refused missing_header
check_header token (v ∷ vs) = check_token token (cut_prefix v bearer_prefix)

-- authInterceptor.Before: `none` is a call without service parameters, from the same process.
unfoldable pub authenticate : String → Option (List String) → Decision
unfolding check_header
authenticate token none = admitted
authenticate token (some values) = check_header token values

-- tenantInterceptor.Before
unfoldable pub check_tenant : String → String → Decision
check_tenant tenant claimed =
    if claimed == ""
    then refused empty_tenant
    else if claimed == tenant
    then admitted
    else refused wrong_tenant

unfoldable pub and_then : Decision → Decision → Decision
and_then admitted d = d
and_then (refused r) d = refused r

-- The interceptors of New, in their order.
unfoldable pub intercept : String → String → Option (List String) → String → Decision
unfolding authenticate check_tenant and_then
intercept token tenant values claimed =
    and_then (authenticate token values) (check_tenant tenant claimed)
