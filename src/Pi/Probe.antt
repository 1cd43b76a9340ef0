-- ===== src/Pi/Probe.antt =====
-- The startup probe of the declared MCP servers and the allowlist of tools (adapters/pi/mcp_probe.go,
-- adapters/pi/adapter.go). What a server answers is a parameter: an error of the connection, or the
-- tools of its listing in order, which may break off. The error texts are constructors.
use Prim.Native.Nat.{Ordering}
use Prim.Native.String.{compare}
use ai_solo_startup_framewor.Common.{
  String, Bool, true, false, Option, none, some, List, [], ◌∷◌, ◌++◌, map, contains, if◌then◌else◌,
}
use ai_solo_startup_framewor.Common.Dict.{Dict, lookup, put}
use ai_solo_startup_framewor.Port.{kind_finish_task}
use ai_solo_startup_framewor.Schema.Names.{normalize}
use ai_solo_startup_framewor.Pi.Flat.{tool_name, is_unambiguous_tool, is_ambiguous_server}

pub data ProbeError : Type 0 where
  ambiguous_kind ambiguous_server ambiguous_tool duplicate_tool no_tools : ProbeError
  probe_failed probe_timed_out : ProbeError

pub data Probed (A : Type 0) : Type 0 where
  ok : A → Probed A
  err : ProbeError → Probed A

infixl 5 ◌>>=◌ ◌>>◌
unfoldable pub ◌>>=◌ : {A B : Type 0} → Probed A → (A → Probed B) → Probed B
ok a >>= f = f a
err e >>= f = err e

abbrev pub ◌>>◌ : {B : Type 0} → Probed (Unit {0}) → Probed B → Probed B
m >> k = m >>= λ _. k

-- The error of a session; `true` when the probe's own deadline has passed.
pub data Failure : Type 0 where
  failure : Bool → Failure

-- The tools that `range session.Tools` visits.
pub data Listing : Type 0 where
  listed : Listing
  broken : Failure → Listing
  tool : String → Listing → Listing

pub data Session : Type 0 where
  refused : Failure → Session
  connected : Listing → Session

-- The local function fail of probeServer.
unfoldable pub fail : {A : Type 0} → Failure → Probed A
fail (failure true) = err probe_timed_out
fail (failure false) = err probe_failed

-- sort.Strings
unfoldable pub insert_sorted : String → List String → List String
insert_sorted s [] = s ∷ []
insert_sorted s (t ∷ l) = elim (compare s t) [ Ordering.gt ↦ t ∷ insert_sorted s l | _ ↦ s ∷ t ∷ l ]

unfoldable pub sort : List String → List String
unfolding insert_sorted
sort [] = []
sort (s ∷ l) = insert_sorted s (sort l)

-- The loop of probeServer; `tools` holds the flat names so far, which are the keys of byNormalized.
unfoldable pub list_tools : String → List String → Listing → Probed (List String)
unfolding is_unambiguous_tool normalize tool_name fail
list_tools server tools listed = ok tools
list_tools server tools (broken f) = fail f
list_tools server tools (tool name l) =
    if is_unambiguous_tool (normalize name)
    then if contains tools (tool_name server name)
      then err duplicate_tool
      else list_tools server (tools ++ tool_name server name ∷ []) l
    else err ambiguous_tool

unfoldable pub check_some : List String → Probed (List String)
unfolding sort
check_some [] = err no_tools
check_some (t ∷ ts) = ok (sort (t ∷ ts))

-- probeServer
unfoldable pub probe_server : String → Session → Probed (List String)
unfolding list_tools check_some fail ◌>>=◌
probe_server name (refused f) = fail f
probe_server name (connected l) = do tools ← list_tools name [] l; check_some tools

unfoldable pub check_kinds : List String → Probed (Unit {0})
unfolding is_unambiguous_tool normalize
check_kinds [] = ok tt
check_kinds (k ∷ ks) =
    if is_unambiguous_tool (normalize k) then check_kinds ks else err ambiguous_kind

unfoldable pub check_names : List String → Probed (Unit {0})
unfolding is_ambiguous_server normalize
check_names [] = ok tt
check_names (n ∷ ns) =
    if is_ambiguous_server (normalize n) then err ambiguous_server else check_names ns

-- The loop of ProbeMCP over the servers.
unfoldable pub probe_servers :
    (String → Session) → Dict (List String) → List String → Probed (Dict (List String))
unfolding probe_server ◌>>=◌
probe_servers session probed [] = ok probed
probe_servers session probed (n ∷ ns) = do
  tools ← probe_server n (session n)
  probe_servers session (put n tools probed) ns

-- ProbeMCP: the value of a.mcpTools; an error leaves the field as it was.
unfoldable pub probe_mcp :
    (String → Session) → List String → List String → Probed (Dict (List String))
unfolding check_kinds check_names probe_servers ◌>>=◌
probe_mcp session kinds names = do
  check_kinds kinds
  check_names names
  probe_servers session [] names

-- requireProbed: whether every declared server was probed.
unfoldable pub require_probed : Dict (List String) → List String → Bool
require_probed probed [] = true
require_probed probed (n ∷ ns) = elim (lookup n probed) [
  | none ↦ false
  | some tools ↦ require_probed probed ns
]

-- Adding to a Go set, as a list without repetition.
unfoldable pub add_kind : String → List String → List String
add_kind k set = if contains set k then set else set ++ k ∷ []

unfoldable pub add_kinds : List String → List String → List String
unfolding add_kind
add_kinds [] set = set
add_kinds (k ∷ ks) set = add_kinds ks (add_kind k set)

-- frameworkTools
unfoldable pub framework_tools : List String → List String
unfolding add_kinds tool_name sort
framework_tools kinds = sort (map (tool_name "framework") (add_kinds kinds (kind_finish_task ∷ [])))

-- a.mcpTools[name], nil when missing
unfoldable pub or_nil : Option (List String) → List String
or_nil none = []
or_nil (some tools) = tools

unfoldable pub tools_of : String → Dict (List String) → List String
unfolding or_nil
tools_of name probed = or_nil (lookup name probed)

unfoldable pub declared_tools : Dict (List String) → List String → List String
unfolding tools_of
declared_tools probed [] = []
declared_tools probed (n ∷ ns) = tools_of n probed ++ declared_tools probed ns

-- toolsAllowlist before strings.Join.
unfoldable pub tools_allowlist : Bool → List String → Dict (List String) → List String → List String
unfolding framework_tools declared_tools
tools_allowlist with_framework kinds probed names =
    "read,bash,edit,write"
    ∷ ((if with_framework then framework_tools kinds else []) ++ declared_tools probed names)
