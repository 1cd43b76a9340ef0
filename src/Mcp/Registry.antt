-- ===== src/Mcp/Registry.antt =====
-- transport/mcp/registry.go: tokens, and the invocations that they stand for. An invocation is shared
-- by the registry's entry and by the adapter's handle, so it lives in a heap under its address. Times
-- are numbers; a token's text comes from crypto/rand, so `mint` takes it.
use ai_solo_startup_framewor.Common.{
  ℕ, suc, String, Bool, true, false, Option, none, some, List, [], ◌==◌, ltb, eqb, if◌then◌else◌,
}
use ai_solo_startup_framewor.Common.Dict.{Dict, lookup, put, remove}
use ai_solo_startup_framewor.Port.{ActionIntent}
use ai_solo_startup_framewor.Mcp.Sink.{Sink, new_sink, read}

-- invocation
pub record Invocation : Type 0 where
  pub tenant : String
  pub agent : String
  pub task_id : String
  pub exp : ℕ
  pub sink : Sink
  pub dedupe : Dict String
  pub contacted : Bool
  pub delegated : Bool

-- Registry with the heap of the invocations; the next free address comes last.
pub record Registry : Type 0 where
  pub entries : Dict ℕ
  pub heap : ℕ → Invocation
  pub next : ℕ

-- Handle
pub record Handle : Type 0 where
  pub inv : ℕ
  pub token : String
  pub drained : Bool

-- An assignment through a pointer.
unfoldable pub write : ℕ → Invocation → (ℕ → Invocation) → ℕ → Invocation
write a inv heap b = if eqb a b then inv else heap b

unfoldable pub new_invocation : String → String → String → ℕ → Invocation
unfolding new_sink
new_invocation tenant agent task_id exp = record {
  tenant = tenant;
  agent = agent;
  task_id = task_id;
  exp = exp;
  sink = new_sink 0;
  dedupe = [];
  contacted = false;
  delegated = false;
}

-- Mint
unfoldable pub mint : String → String → String → String → ℕ → Registry → Handle × Registry
unfolding write new_invocation
mint token tenant agent task_id exp r = (
  record { inv = r.next; token = token; drained = false },
  record {
    entries = put token r.next r.entries;
    heap = write r.next (new_invocation tenant agent task_id exp) r.heap;
    next = suc r.next;
  },
)

pub data ResolveError : Type 0 where
  unknown_token token_expired tenant_mismatch : ResolveError

pub data Resolved : Type 0 where
  ok : ℕ → Resolved
  err : ResolveError → Resolved

-- The checks of Resolve on an entry that was found.
unfoldable pub admit : ℕ → String → Registry → ℕ → Resolved
admit now claimed r a =
    if ltb (r.heap a).exp now
    then err token_expired
    else if (r.heap a).tenant == claimed
    then ok a
    else err tenant_mismatch

unfoldable pub admit_entry : ℕ → String → Registry → Option ℕ → Resolved
unfolding admit
admit_entry now claimed r none = err unknown_token
admit_entry now claimed r (some a) = admit now claimed r a

-- Resolve
unfoldable pub resolve : ℕ → String → String → Registry → Resolved
unfolding admit_entry
resolve now token claimed r = admit_entry now claimed r (lookup token r.entries)

unfoldable pub touch : ℕ → Registry → Registry
unfolding write
touch a r = record r { heap = write a (record (r.heap a) { contacted = true }) r.heap }

unfoldable pub verify_entry : ℕ → Registry → Option ℕ → Bool × Registry
unfolding touch
verify_entry now r none = (false, r)
verify_entry now r (some a) = if ltb (r.heap a).exp now then (false, r) else (true, touch a r)

-- TokenVerifier: whether the token is accepted; an accepted one marks the invocation.
unfoldable pub verify : ℕ → String → Registry → Bool × Registry
unfolding verify_entry
verify now token r = verify_entry now r (lookup token r.entries)

-- Handle.Contacted
unfoldable pub contacted : Handle → Registry → Bool
contacted h r = (r.heap h.inv).contacted

-- Handle.Drain; a nil slice is the empty list.
unfoldable pub drain : Handle → Registry → List ActionIntent × Handle × Registry
unfolding read
drain h r = if h.drained then ([], h, r) else (
  read (r.heap h.inv).sink,
  record h { drained = true },
  record r { entries = remove h.token r.entries },
)
