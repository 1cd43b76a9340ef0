-- ===== src/Pi/Allowlist.antt =====
-- What the allowlist of tools can name (adapters/pi/mcp_probe.go, adapters/pi/adapter.go).
use Prim.Native.Char.{code}
use text.Mathlib.TextLemmas.{cons-append}
use ai_solo_startup_framewor.Common.{
  ℕ, String, Bool, true, false, List, [], ◌∷◌, ◌++◌, map, ◌==◌, contains, if◌then◌else◌, ◌≡◌, refl,
  sym, subst, ap, ◌∙◌, ◌⊎◌, inl, inr, All, arith, eq_iff, eq_self, Bool-cases, Option-cases,
}
use ai_solo_startup_framewor.Common.Dict.{Dict, lookup}
use ai_solo_startup_framewor.Port.{kind_finish_task}
use ai_solo_startup_framewor.Schema.Names.{normalize, has_double_low, starts_low, ends_low}
use ai_solo_startup_framewor.Pi.Flat.{
  tool_name, is_unambiguous_tool, is_ambiguous_server, tool_name_unique,
}
use ai_solo_startup_framewor.Pi.Probe.{
  Probed, ok, err, ◌>>=◌, Session, check_kinds, check_names, probe_mcp, add_kind, add_kinds,
  framework_tools, tools_of, or_nil, declared_tools, tools_allowlist,
}
use ai_solo_startup_framewor.Pi.Listed.{
  IsFlat, All-append, sort-All, AllFlat, probe_servers-AllFlat,
}

-- Where the flat name of an allowed tool comes from: the framework, or a declared server.
pub record IsDeclared (names : List String) (full : String) : Type 0 where
  pub server : String
  pub tool_of : IsFlat server full
  pub clear : is_ambiguous_server (normalize server) ≡ false
  pub from : (server ≡ "framework") ⊎ (contains names server ≡ true)

kind_tools-IsDeclared :
    (names kinds : List String)
    → All (λ k. is_unambiguous_tool (normalize k) ≡ true) kinds
    → All (IsDeclared names) (map (tool_name "framework") kinds)
unfolding is_ambiguous_server normalize has_double_low ends_low starts_low
kind_tools-IsDeclared names [] h = tt
kind_tools-IsDeclared names (k ∷ ks) h = (
  record {
    server = "framework";
    tool_of = record { short = k; named = refl; clear = h.0 };
    clear = refl;
    from = inl refl;
  },
  kind_tools-IsDeclared names ks h.1,
)

add_kinds-All :
    (P : String → Type 0) (ks set : List String) → All P ks → All P set → All P (add_kinds ks set)
unfolding add_kinds add_kind
add_kinds-All P [] set h k = k
add_kinds-All P (x ∷ ks) set h k =
    add_kinds-All P ks (add_kind x set) h.1 (elim (Bool-cases (contains set x)) [
      | inl e ↦ rw e k
      | inr e ↦ rw e (All-append P set (x ∷ []) k (h.0, tt))
    ])

check_kinds-All :
    (kinds : List String)
    → check_kinds kinds ≡ ok tt
    → All (λ k. is_unambiguous_tool (normalize k) ≡ true) kinds
unfolding check_kinds
check_kinds-All [] e = tt
check_kinds-All (k ∷ ks) e = (ground (arith, e), check_kinds-All ks (ground (arith, e)))

framework_tools-IsDeclared :
    (names kinds : List String)
    → check_kinds kinds ≡ ok tt
    → All (IsDeclared names) (framework_tools kinds)
unfolding framework_tools is_unambiguous_tool normalize has_double_low starts_low
framework_tools-IsDeclared names kinds e = sort-All _ _ (
    kind_tools-IsDeclared names (add_kinds kinds (kind_finish_task ∷ []))
      (add_kinds-All _ kinds (kind_finish_task ∷ []) (check_kinds-All kinds e) (refl, tt)))

check_names-clear :
    (ns : List String)
    → check_names ns ≡ ok tt
    → All (λ n. is_ambiguous_server (normalize n) ≡ false) ns
unfolding check_names
check_names-clear [] e = tt
check_names-clear (n ∷ ns) e = (ground (arith, e), check_names-clear ns (ground (arith, e)))

server_tools-IsDeclared :
    (names : List String) (n : String) (ts : List String)
    → contains names n ≡ true
    → is_ambiguous_server (normalize n) ≡ false
    → All (IsFlat n) ts
    → All (IsDeclared names) ts
server_tools-IsDeclared names n [] c e h = tt
server_tools-IsDeclared names n (t ∷ ts) c e h = (
  record { server = n; tool_of = h.0; clear = e; from = inr c },
  server_tools-IsDeclared names n ts c e h.1,
)

tools_of-IsDeclared :
    (names : List String) (n : String) (d : Dict (List String))
    → contains names n ≡ true
    → is_ambiguous_server (normalize n) ≡ false
    → AllFlat d
    → All (IsDeclared names) (tools_of n d)
unfolding tools_of or_nil
tools_of-IsDeclared names n d c e h = elim (Option-cases (lookup n d)) [
  | inl f ↦ rw f tt
  | inr (ts, f) ↦ rw f (server_tools-IsDeclared names n ts c e (h n ts f))
]

declared_tools-IsDeclared :
    (names ns : List String) (d : Dict (List String))
    → ((n : String) → contains ns n ≡ true → contains names n ≡ true)
    → All (λ n. is_ambiguous_server (normalize n) ≡ false) ns
    → AllFlat d
    → All (IsDeclared names) (declared_tools d ns)
unfolding declared_tools contains
declared_tools-IsDeclared names [] d c e h = tt
declared_tools-IsDeclared names (n ∷ ns) d c e h =
    All-append _ (tools_of n d) (declared_tools d ns)
      (tools_of-IsDeclared names n d (c n (ground (arith, eq_self n))) e.0 h)
      (declared_tools-IsDeclared names ns d (λ m k. c m (ground (arith, k))) e.1 h)

contains-All :
    (P : String → Type 0) (l : List String) (s : String) → All P l → contains l s ≡ true → P s
unfolding contains
contains-All P [] s h e = cc
contains-All P (x ∷ l) s h e = elim (Bool-cases (x == s)) [
  | inl f ↦ subst P ((eq_iff x s).0 f) h.0
  | inr f ↦ contains-All P l s h.1 (ground (arith, e, f))
]

names_or_none : Probed (Dict (List String)) → Dict (List String)
names_or_none (ok d) = d
names_or_none (err e) = []

mcp_tools-IsDeclared :
    (session : String → Session) (kinds names : List String) (d : Dict (List String)) (b : Bool)
    → probe_mcp session kinds names ≡ ok d
    → All (IsDeclared names) ((if b then framework_tools kinds else []) ++ declared_tools d names)
unfolding probe_mcp lookup ◌>>=◌
mcp_tools-IsDeclared session kinds names d b e =
    All-append _ (if b then framework_tools kinds else []) (declared_tools d names)
      (elim b as (λ c. All (IsDeclared names) (if c then framework_tools kinds else [])) [
        | true ↦ framework_tools-IsDeclared names kinds (ground (arith, e))
        | false ↦ tt
      ])
      (declared_tools-IsDeclared names names d (λ n h. h)
        (check_names-clear names (ground (arith, e)))
        (probe_servers-AllFlat session [] d names (λ n ts f. cc) (ground (arith, e))))

head_code : String → ℕ
head_code String.[] = 0
head_code (String.◌∷◌ c s) = code c

not_builtin : (server short : String) → ("read,bash,edit,write" == tool_name server short) ≡ false
unfolding tool_name head_code
not_builtin server short = elim (Bool-cases ("read,bash,edit,write" == tool_name server short)) [
  | inr e ↦ e
  | inl e ↦ ground (
    arith,
    ap head_code
        ((eq_iff "read,bash,edit,write" (tool_name server short)).0 e ∙ cons-append "m" "cp__" _),
  )
]

-- After a probe that succeeds, a tool that has its flat name on the allowlist belongs to a server
-- whose normalized name is that of the framework's server or of a declared one, whatever the server
-- and the tool are called.
pub allowlist-servers :
    (session : String → Session) (kinds names : List String) (d : Dict (List String)) (b : Bool)
    (server short : String)
    → probe_mcp session kinds names ≡ ok d
    → contains (tools_allowlist b kinds d names) (tool_name server short) ≡ true
    → (n : String) × (normalize server ≡ normalize n)
      × ((n ≡ "framework") ⊎ (contains names n ≡ true))
unfolding tools_allowlist contains
allowlist-servers session kinds names d b server short e h =
    let builtins : ("read,bash,edit,write" == tool_name server short) ≡ false =
      not_builtin server short in
    let w =
      contains-All (IsDeclared names) _ (tool_name server short)
        (mcp_tools-IsDeclared session kinds names d b e) (ground (arith, h, builtins)) in
    let u =
      tool_name_unique w.server w.tool_of.short server short w.clear w.tool_of.clear
        (sym w.tool_of.named) in
    (w.server, u.0, w.from)
