-- ===== src/Schema/Servers.antt =====
-- The mcp_servers of an agent (config/schema.go).
use ai_solo_startup_framewor.Common.{
  String, not, ◌||◌, List, [], ◌∷◌, ◌++◌, ◌==◌, contains, if◌then◌else◌,
}
use ai_solo_startup_framewor.Common.Dict.{Dict, put}
use ai_solo_startup_framewor.Schema.Names.{is_mcp_server_name, low_lines, has_double_low, ends_low}
use ai_solo_startup_framewor.Schema.Yaml.{
  Yaml, null, other, text, integer, sequence, mapping, Items, end_items, item, Entries, end_entries,
  entry, as_text, SchemaError, servers_need_pi, servers_no_map, bad_server_name,
  reserved_server_name, ambiguous_server_name, server_no_map, bad_args, unknown_server_field,
  no_command, colliding_names, Checked, ok, err, ◌>>=◌, ◌>>◌, refuse_if,
}
use ai_solo_startup_framewor.Schema.Agent.{McpServer, default_provider, items_of, is_null, text_of}

-- The checks of a server's name.
unfoldable pub check_server_name : String → Checked (Unit {0})
unfolding is_mcp_server_name low_lines has_double_low ends_low refuse_if ◌>>=◌
check_server_name name = do
  refuse_if (not (is_mcp_server_name name)) bad_server_name
  refuse_if (name == "framework") reserved_server_name
  refuse_if (has_double_low (low_lines name) || ends_low (low_lines name)) ambiguous_server_name

unfoldable pub texts_of : Items → Checked (List String)
unfolding text_of ◌>>=◌
texts_of end_items = ok []
texts_of (item v l) = do s ← text_of bad_args v; rest ← texts_of l; ok (s ∷ rest)

-- The list of a field `args`, added to those there.
unfoldable pub add_args : McpServer → Yaml → Checked McpServer
unfolding items_of texts_of ◌>>=◌
add_args srv v = do
  items ← items_of bad_args v
  texts ← texts_of items
  ok (record srv { args = srv.args ++ texts })

unfoldable pub set_field : McpServer → String → Yaml → Checked McpServer
unfolding as_text add_args
set_field srv k v =
    if k == "command"
    then ok (record srv { command = as_text v })
    else if k == "args"
    then add_args srv v
    else err unknown_server_field

unfoldable pub read_fields : McpServer → Entries → Checked McpServer
unfolding set_field ◌>>=◌
read_fields srv end_entries = ok srv
read_fields srv (entry k v m) = do next ← set_field srv k v; read_fields next m

unfoldable pub entries_of : SchemaError → Yaml → Checked Entries
entries_of e (mapping m) = ok m
entries_of e null = err e
entries_of e other = err e
entries_of e (integer n) = err e
entries_of e (text s) = err e
entries_of e (sequence l) = err e

abbrev pub no_server : McpServer
no_server = record { command = ""; args = [] }

-- One entry of the map.
unfoldable pub resolve_server : String → Yaml → Checked McpServer
unfolding check_server_name entries_of read_fields refuse_if ◌>>=◌
resolve_server name v = do
  check_server_name name
  fields ← entries_of server_no_map v
  srv ← read_fields no_server fields
  refuse_if (srv.command == "") no_command
  ok srv

-- The loop over the map; `out` holds the servers so far.
unfoldable pub resolve_servers : Dict McpServer → Entries → Checked (Dict McpServer)
unfolding resolve_server ◌>>=◌
resolve_servers out end_entries = ok out
resolve_servers out (entry name v m) = do
  srv ← resolve_server name v
  resolve_servers (put name srv out) m

-- The names that pi would take for one another; `seen` holds the keys so far. The source visits the
-- names sorted, which only decides which pair its error names.
unfoldable pub check_collisions : List String → Dict McpServer → Checked (Unit {0})
unfolding low_lines
check_collisions seen [] = ok tt
check_collisions seen ((name, srv) ∷ l) =
    if contains seen (low_lines name)
    then err colliding_names
    else check_collisions (low_lines name ∷ seen) l

unfoldable pub resolve_server_map : Yaml → String → Checked (Dict McpServer)
unfolding refuse_if entries_of resolve_servers check_collisions ◌>>=◌
resolve_server_map raw provider = do
  refuse_if (not (provider == default_provider)) servers_need_pi
  m ← entries_of servers_no_map raw
  out ← resolve_servers [] m
  check_collisions [] out
  ok out

-- resolveMCPServers
unfoldable pub resolve_mcp_servers : Yaml → String → Checked (Dict McpServer)
unfolding is_null resolve_server_map
resolve_mcp_servers raw provider = if is_null raw then ok [] else resolve_server_map raw provider
