-- ===== src/Address.antt =====
-- core/address/address.go: `{agent-name}/{tenant}`, the lookup key of an agent.
pub mod RoundTrip
use Prim.Native.Nat.{compare, Ordering}
use Prim.Native.Char.{Char, code}
use Prim.Native.String.{◌++◌}
use ai_solo_startup_framewor.Common.{
  String, Bool, true, false, Option, none, some, ◌==◌, if◌then◌else◌,
}

pub data AddressError : Type 0 where
  empty_name empty_tenant invalid_format name_with_slash tenant_with_slash : AddressError

pub data Result : Type 0 where
  ok : String → Result
  err : AddressError → Result

abbrev pub is_slash : Char → Bool
is_slash c = elim (compare (code c) b'/') [ Ordering.eq ↦ true | _ ↦ false ]

abbrev pub cut_rest : Char → Option (String × String) → Option (String × String)
cut_rest c none = none
cut_rest c (some (a, b)) = some (String.◌∷◌ c a, b)

-- strings.Index(s, "/") with the slices before and after it; `none` is the index -1.
unfoldable pub cut_slash : String → Option (String × String)
cut_slash String.[] = none
cut_slash (String.◌∷◌ c s) = if is_slash c then some ("", s) else cut_rest c (cut_slash s)

-- strings.Contains(s, "/")
unfoldable pub has_slash : String → Bool
has_slash String.[] = false
has_slash (String.◌∷◌ c s) = if is_slash c then true else has_slash s

-- New
unfoldable pub new : String → String → Result
new name tenant =
    if name == ""
    then err empty_name
    else if has_slash name
    then err name_with_slash
    else if tenant == ""
    then err empty_tenant
    else if has_slash tenant
    then err tenant_with_slash
    else ok (name ++ ("/" ++ tenant))

-- Parse, after the slash was looked for.
parse_cut : String → Option (String × String) → Result
parse_cut s none = err invalid_format
parse_cut s (some (name, tenant)) =
    if name == ""
    then err empty_name
    else if tenant == ""
    then err empty_tenant
    else if has_slash tenant
    then err invalid_format
    else ok s

-- Parse
unfoldable pub parse : String → Result
unfolding parse_cut
parse s = parse_cut s (cut_slash s)

name_of : Option (String × String) → String
name_of none = ""
name_of (some (a, b)) = a

tenant_of : Option (String × String) → String
tenant_of none = ""
tenant_of (some (a, b)) = b

-- A2AAddress.Name, A2AAddress.Tenant
unfoldable pub name : String → String
unfolding name_of
name a = name_of (cut_slash a)

unfoldable pub tenant : String → String
unfolding tenant_of
tenant a = tenant_of (cut_slash a)
