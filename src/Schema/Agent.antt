-- ===== src/Schema/Agent.antt =====
-- The fields of an agent's entry that config/schema.go checks: max_rounds, extensions, mcp_servers.
-- The file system and the rules for paths are parameters.
use ai_solo_startup_framewor.Common.{
  ℕ, String, Bool, true, false, not, ◌||◌, Option, none, some, List, [], ◌∷◌, ◌==◌, ltb,
  if◌then◌else◌, starts_with,
}
use ai_solo_startup_framewor.Schema.Yaml.{
  pos, negsuc, Yaml, null, other, text, integer, sequence, mapping, Items, end_items, item,
  SchemaError, extensions_need_pi, extensions_no_list, extension_no_text, empty_extension,
  package_source, bad_extension_path, no_extension_file, bad_max_rounds, Checked, ok, err, ◌>>=◌,
  ◌>>◌, refuse_if,
}

-- path/filepath and os.Stat: Join, Abs (none is an error), and whether Stat succeeds,
-- as it does on a file or a directory.
pub record Files : Type 0 where
  pub join : String → String → String
  pub abs : String → Option String
  pub exists : String → Bool

-- filepath.IsAbs, on Unix
unfoldable pub is_abs : String → Bool
is_abs path = starts_with path "/"

abbrev pub default_provider : String
default_provider = "pi"

abbrev pub default_max_rounds : ℕ
default_max_rounds = 8

abbrev pub max_rounds_limit : ℕ
max_rounds_limit = 50

-- MCPServer
pub record McpServer : Type 0 where
  pub command : String
  pub args : List String

-- resolveMaxRounds
unfoldable pub resolve_max_rounds : Yaml → Checked ℕ
resolve_max_rounds null = ok default_max_rounds
resolve_max_rounds (integer (pos n)) =
    if ltb n 1 || ltb max_rounds_limit n then err bad_max_rounds else ok n
resolve_max_rounds (integer (negsuc n)) = err bad_max_rounds
resolve_max_rounds other = err bad_max_rounds
resolve_max_rounds (text s) = err bad_max_rounds
resolve_max_rounds (sequence l) = err bad_max_rounds
resolve_max_rounds (mapping m) = err bad_max_rounds

abbrev pub builtin_extension_prefix : String
builtin_extension_prefix = "builtin:"

abbrev pub package_source_prefixes : List String
package_source_prefixes = "npm:" ∷ "git:" ∷ "git+" ∷ "http://" ∷ "https://" ∷ "ssh://" ∷ []

unfoldable pub has_prefix_of : List String → String → Bool
has_prefix_of [] s = false
has_prefix_of (p ∷ ps) s = starts_with s p || has_prefix_of ps s

-- A path made absolute against the directory of the company file, where something must exist.
unfoldable pub existing : Files → SchemaError → SchemaError → Option String → Checked String
existing fs bad missing none = err bad
existing fs bad missing (some path) = if fs.exists path then ok path else err missing

unfoldable pub resolve_path : Files → SchemaError → SchemaError → String → String → Checked String
unfolding is_abs existing
resolve_path fs bad missing basedir path =
    existing fs bad missing (fs.abs (if is_abs path then path else fs.join basedir path))

-- One entry of `extensions`.
unfoldable pub resolve_extension : Files → String → String → Checked String
unfolding has_prefix_of resolve_path
resolve_extension fs basedir ext =
    if ext == ""
    then err empty_extension
    else if starts_with ext builtin_extension_prefix
    then ok ext
    else if has_prefix_of package_source_prefixes ext
    then err package_source
    else resolve_path fs bad_extension_path no_extension_file basedir ext

unfoldable pub text_of : SchemaError → Yaml → Checked String
text_of e (text s) = ok s
text_of e null = err e
text_of e other = err e
text_of e (integer n) = err e
text_of e (sequence l) = err e
text_of e (mapping m) = err e

unfoldable pub resolve_items : Files → String → Items → Checked (List String)
unfolding text_of resolve_extension ◌>>=◌
resolve_items fs basedir end_items = ok []
resolve_items fs basedir (item v l) = do
  ext ← text_of extension_no_text v
  path ← resolve_extension fs basedir ext
  paths ← resolve_items fs basedir l
  ok (path ∷ paths)

unfoldable pub items_of : SchemaError → Yaml → Checked Items
items_of e (sequence l) = ok l
items_of e null = err e
items_of e other = err e
items_of e (integer n) = err e
items_of e (text s) = err e
items_of e (mapping m) = err e

unfoldable pub is_null : Yaml → Bool
is_null null = true
is_null other = false
is_null (text s) = false
is_null (integer n) = false
is_null (sequence l) = false
is_null (mapping m) = false

-- resolveExtensions
unfoldable pub resolve_extensions : Files → Yaml → String → String → Checked (List String)
unfolding is_null refuse_if items_of resolve_items ◌>>=◌
resolve_extensions fs raw provider basedir = if is_null raw then ok [] else do
  refuse_if (not (provider == default_provider)) extensions_need_pi
  items ← items_of extensions_no_list raw
  resolve_items fs basedir items
