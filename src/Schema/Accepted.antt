-- ===== src/Schema/Accepted.antt =====
-- What resolveMCPServers of config/schema.go accepts.
use ai_solo_startup_framewor.Common.{
  String, true, false, ◌||◌, some, List, [], ◌∷◌, ◌==◌, ◌≡◌, subst, arith, eq_iff, contains, ◌⊎◌,
  All, Bool-cases, inl, inr,
}
use ai_solo_startup_framewor.Common.Dict.{Dict, put, remove, lookup}
use ai_solo_startup_framewor.Schema.Names.{is_mcp_server_name, low_lines, has_double_low, ends_low}
use ai_solo_startup_framewor.Schema.Yaml.{
  Yaml, null, other, text, integer, sequence, mapping, Entries, end_entries, entry, ok, ◌>>=◌,
  refuse_if, Checked-cases,
}
use ai_solo_startup_framewor.Schema.Agent.{McpServer, default_provider, is_null}
use ai_solo_startup_framewor.Schema.Servers.{
  check_server_name, resolve_server, resolve_servers, check_collisions, resolve_mcp_servers,
  resolve_server_map, entries_of,
}

-- The name of a declared server is of the form that the file asks for, is not the framework's own,
-- and can stand in pi's flat name of a tool.
pub record IsGoodName (name : String) : Type 0 where
  pub form : is_mcp_server_name name ≡ true
  pub free : (name == "framework") ≡ false
  pub clear : (has_double_low (low_lines name) || ends_low (low_lines name)) ≡ false

pub record IsGoodServer (entry : String × McpServer) : Type 0 where
  pub named : IsGoodName entry.0
  pub commanded : (entry.1.command == "") ≡ false

-- No two names are the same to pi.
abbrev pub IsApart : Dict McpServer → Type 0
IsApart d =
    (n m : String) (a b : McpServer)
    → lookup n d ≡ some a
    → lookup m d ≡ some b
    → low_lines n ≡ low_lines m
    → n ≡ m

check_server_name-IsGoodName : (name : String) → check_server_name name ≡ ok tt → IsGoodName name
unfolding check_server_name ◌>>=◌ refuse_if
check_server_name-IsGoodName name h = record {
  form = ground (arith, h);
  free = ground (arith, h);
  clear = ground (arith, h);
}

resolve_server-IsGoodServer :
    (name : String) (v : Yaml) (srv : McpServer)
    → resolve_server name v ≡ ok srv
    → IsGoodServer (name, srv)
unfolding resolve_server ◌>>=◌ refuse_if
resolve_server-IsGoodServer name v srv h = record {
  named = check_server_name-IsGoodName name (ground (arith, h));
  commanded = ground (arith, h);
}

All-remove : (k : String) (d : Dict McpServer) → All IsGoodServer d → All IsGoodServer (remove k d)
unfolding remove
All-remove k [] h = tt
All-remove k ((j, v) ∷ d) h = elim (Bool-cases (j == k)) [
  | inl e ↦ rw e (All-remove k d h.1)
  | inr e ↦ rw e (h.0, All-remove k d h.1)
]

resolve_servers-IsGoodServer :
    (out d : Dict McpServer) (m : Entries)
    → All IsGoodServer out
    → resolve_servers out m ≡ ok d
    → All IsGoodServer d
unfolding resolve_servers put ◌>>=◌
resolve_servers-IsGoodServer out d end_entries h e = subst (All IsGoodServer) (ground (arith, e)) h
resolve_servers-IsGoodServer out d (entry name v m) h e =
    elim (Checked-cases (resolve_server name v)) [
      | inl (srv, f) ↦
          resolve_servers-IsGoodServer (put name srv out) d m
            (resolve_server-IsGoodServer name v srv f, All-remove name out h) (rw f at e)
      | inr (x, f) ↦ cc
    ]

check_collisions-seen :
    (seen : List String) (d : Dict McpServer) (n : String) (a : McpServer)
    → check_collisions seen d ≡ ok tt
    → lookup n d ≡ some a
    → contains seen (low_lines n) ≡ false
unfolding check_collisions lookup contains
check_collisions-seen seen [] n a h e = cc
check_collisions-seen seen ((j, v) ∷ d) n a h e =
    ground (arith, check_collisions-seen (low_lines j ∷ seen) d n a, eq_iff j n)

check_collisions-IsApart :
    (seen : List String) (d : Dict McpServer) (n m : String) (a b : McpServer)
    → check_collisions seen d ≡ ok tt
    → lookup n d ≡ some a
    → lookup m d ≡ some b
    → low_lines n ≡ low_lines m
    → n ≡ m
unfolding check_collisions lookup contains
check_collisions-IsApart seen [] n m a b h e f g = cc
check_collisions-IsApart seen ((j, v) ∷ d) n m a b h e f g = ground (
  arith,
  check_collisions-IsApart (low_lines j ∷ seen) d n m a b,
  check_collisions-seen (low_lines j ∷ seen) d n a,
  check_collisions-seen (low_lines j ∷ seen) d m b,
  eq_iff j n,
  eq_iff j m,
  eq_iff (low_lines j) (low_lines n),
  eq_iff (low_lines j) (low_lines m),
)

mapping_of : Yaml → Entries
mapping_of null = end_entries
mapping_of other = end_entries
mapping_of (text s) = end_entries
mapping_of (integer n) = end_entries
mapping_of (sequence l) = end_entries
mapping_of (mapping m) = m

resolve_server_map-ok :
    (raw : Yaml) (provider : String) (d : Dict McpServer)
    → resolve_server_map raw provider ≡ ok d
    → (resolve_servers [] (mapping_of raw) ≡ ok d) × (check_collisions [] d ≡ ok tt)
unfolding resolve_server_map mapping_of entries_of refuse_if ◌>>=◌
resolve_server_map-ok null provider d h = (ground (arith, h), ground (arith, h))
resolve_server_map-ok other provider d h = (ground (arith, h), ground (arith, h))
resolve_server_map-ok (text s) provider d h = (ground (arith, h), ground (arith, h))
resolve_server_map-ok (integer n) provider d h = (ground (arith, h), ground (arith, h))
resolve_server_map-ok (sequence l) provider d h = (ground (arith, h), ground (arith, h))
resolve_server_map-ok (mapping m) provider d h = (ground (arith, h), ground (arith, h))

-- What resolveMCPServers returns was built by the loop and passed the check for collisions.
resolve_mcp_servers-ok :
    (raw : Yaml) (provider : String) (d : Dict McpServer)
    → resolve_mcp_servers raw provider ≡ ok d
    → (d ≡ []) ⊎ ((resolve_servers [] (mapping_of raw) ≡ ok d) × (check_collisions [] d ≡ ok tt))
unfolding resolve_mcp_servers
resolve_mcp_servers-ok raw provider d h = elim (Bool-cases (is_null raw)) [
  | inl e ↦ inl (ground (arith, h))
  | inr e ↦ inr (resolve_server_map-ok raw provider d (ground (arith, h)))
]

pub resolve_mcp_servers-IsGoodServer :
    (raw : Yaml) (provider : String) (d : Dict McpServer)
    → resolve_mcp_servers raw provider ≡ ok d
    → All IsGoodServer d
resolve_mcp_servers-IsGoodServer raw provider d h = elim (resolve_mcp_servers-ok raw provider d h) [
  | inl e ↦ rw e tt
  | inr (e, f) ↦ resolve_servers-IsGoodServer [] d (mapping_of raw) tt e
]

pub resolve_mcp_servers-IsApart :
    (raw : Yaml) (provider : String) (d : Dict McpServer)
    → resolve_mcp_servers raw provider ≡ ok d
    → IsApart d
unfolding lookup
resolve_mcp_servers-IsApart raw provider d h n m a b e f g =
    elim (resolve_mcp_servers-ok raw provider d h) [
      | inl p ↦ ground (arith, p, e)
      | inr (p, q) ↦ check_collisions-IsApart [] d n m a b q e f g
    ]

-- Only an agent of the default provider has servers.
pub resolve_mcp_servers-provider :
    (raw : Yaml) (provider : String) (d : Dict McpServer)
    → resolve_mcp_servers raw provider ≡ ok d
    → (provider == default_provider) ≡ false
    → d ≡ []
unfolding resolve_mcp_servers resolve_server_map ◌>>=◌ refuse_if
resolve_mcp_servers-provider raw provider d h e = ground (arith, h)
