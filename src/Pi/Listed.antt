-- ===== src/Pi/Listed.antt =====
-- What the startup probe keeps of the servers' tools (adapters/pi/mcp_probe.go).
use Prim.Native.Nat.{Ordering}
use Prim.Native.String.{compare}
use ai_solo_startup_framewor.Common.{
  String, true, false, some, List, [], ◌∷◌, ◌++◌, ◌==◌, ◌≡◌, refl, subst, inl, inr, All, arith,
  eq_iff, Bool-cases,
}
use ai_solo_startup_framewor.Common.Dict.{Dict, lookup, put, lookup-put}
use ai_solo_startup_framewor.Schema.Names.{normalize}
use ai_solo_startup_framewor.Pi.Flat.{tool_name, is_unambiguous_tool}
use ai_solo_startup_framewor.Pi.Probe.{
  Probed, ok, err, ◌>>=◌, failure, Listing, listed, broken, tool, Session, refused, connected, fail,
  insert_sorted, sort, list_tools, check_some, probe_server, probe_servers,
}

-- The flat name of a tool whose own name passed the check.
pub record IsFlat (server full : String) : Type 0 where
  pub short : String
  pub named : full ≡ tool_name server short
  pub clear : is_unambiguous_tool (normalize short) ≡ true

pub All-append : (P : String → Type 0) (l m : List String) → All P l → All P m → All P (l ++ m)
All-append P [] m h k = k
All-append P (x ∷ l) m h k = (h.0, All-append P l m h.1 k)

insert_sorted-All :
    (P : String → Type 0) (s : String) (l : List String) → P s → All P l → All P (insert_sorted s l)
unfolding insert_sorted
insert_sorted-All P s [] p h = (p, tt)
insert_sorted-All P s (t ∷ l) p h =
    elim (compare s t)
      as (λ o. All P (elim o [ Ordering.gt ↦ t ∷ insert_sorted s l | _ ↦ s ∷ t ∷ l ])) [
        | Ordering.gt ↦ (h.0, insert_sorted-All P s l p h.1)
        | Ordering.eq ↦ (p, h)
        | Ordering.lt ↦ (p, h)
      ]

pub sort-All : (P : String → Type 0) (l : List String) → All P l → All P (sort l)
unfolding sort
sort-All P [] h = tt
sort-All P (s ∷ l) h = insert_sorted-All P s (sort l) h.0 (sort-All P l h.1)

list_tools-IsFlat :
    (server : String) (tools ts : List String) (l : Listing)
    → All (IsFlat server) tools
    → list_tools server tools l ≡ ok ts
    → All (IsFlat server) ts
unfolding list_tools fail
list_tools-IsFlat server tools ts listed h e = subst (All (IsFlat server)) (ground (arith, e)) h
list_tools-IsFlat server tools ts (broken (failure true)) h e = cc
list_tools-IsFlat server tools ts (broken (failure false)) h e = cc
list_tools-IsFlat server tools ts (tool name l) h e =
    list_tools-IsFlat server (tools ++ tool_name server name ∷ []) ts l
      (All-append _ tools _ h
        (record { short = name; named = refl; clear = ground (arith, e) }, tt))
      (ground (arith, e))

check_some-IsFlat :
    (server : String) (tools ts : List String)
    → All (IsFlat server) tools
    → check_some tools ≡ ok ts
    → All (IsFlat server) ts
unfolding check_some
check_some-IsFlat server [] ts h e = cc
check_some-IsFlat server (t ∷ l) ts h e =
    subst (All (IsFlat server)) (ground (arith, e)) (sort-All _ (t ∷ l) h)

tools_or_none : Probed (List String) → List String
tools_or_none (ok ts) = ts
tools_or_none (err e) = []

probe_server-IsFlat :
    (server : String) (s : Session) (ts : List String)
    → probe_server server s ≡ ok ts
    → All (IsFlat server) ts
unfolding probe_server fail tools_or_none ◌>>=◌
probe_server-IsFlat server (refused (failure true)) ts e = cc
probe_server-IsFlat server (refused (failure false)) ts e = cc
probe_server-IsFlat server (connected l) ts e =
    let ls = tools_or_none (list_tools server [] l) in
    check_some-IsFlat server ls ts (list_tools-IsFlat server [] ls l tt (ground (arith, e)))
      (ground (arith, e))

-- Every entry of a.mcpTools holds flat names of tools of its server.
abbrev pub AllFlat : Dict (List String) → Type 0
AllFlat d = (n : String) (ts : List String) → lookup n d ≡ some ts → All (IsFlat n) ts

put-AllFlat :
    (n : String) (ts : List String) (d : Dict (List String))
    → All (IsFlat n) ts
    → AllFlat d
    → AllFlat (put n ts d)
put-AllFlat n ts d h k m us e = elim (Bool-cases (n == m)) [
  | inl f ↦
      subst (λ x. All (IsFlat x) us) ((eq_iff n m).0 f)
        (subst (All (IsFlat n)) (ground (arith, lookup-put n m ts d, e, f)) h)
  | inr f ↦ k m us (ground (arith, lookup-put n m ts d, e, f))
]

pub probe_servers-AllFlat :
    (session : String → Session) (d e : Dict (List String)) (ns : List String)
    → AllFlat d
    → probe_servers session d ns ≡ ok e
    → AllFlat e
unfolding probe_servers tools_or_none ◌>>=◌
probe_servers-AllFlat session d e [] h f = subst AllFlat (ground (arith, f)) h
probe_servers-AllFlat session d e (n ∷ ns) h f =
    let ts = tools_or_none (probe_server n (session n)) in
    probe_servers-AllFlat session (put n ts d) e ns
      (put-AllFlat n ts d (probe_server-IsFlat n (session n) ts (ground (arith, f))) h)
      (ground (arith, f))
