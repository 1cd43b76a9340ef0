-- ===== src/Schema/Names.antt =====
-- The texts that a company file is checked for (config/schema.go): names of environment variables,
-- names of MCP servers, and how pi reads such a name (adapters/pi/mcp_probe.go).
use Prim.Native.Char.{Char, code}
use ai_solo_startup_framewor.Common.{
  ℕ, String, Bool, true, false, ◌&&◌, ◌||◌, leb, eqb, if◌then◌else◌,
}

abbrev pub between : ℕ → ℕ → Char → Bool
between a b c = leb a (code c) && leb (code c) b

abbrev pub is_low_line : Char → Bool
is_low_line c = eqb (code c) b'_'

abbrev pub is_hyphen : Char → Bool
is_hyphen c = eqb (code c) b'-'

abbrev pub is_digit : Char → Bool
is_digit c = between b'0' b'9' c

abbrev pub is_letter : Char → Bool
is_letter c = between b'A' b'Z' c || between b'a' b'z' c

-- [A-Za-z0-9_]
abbrev pub is_tool_char : Char → Bool
is_tool_char c = is_letter c || is_digit c || is_low_line c

-- [a-z0-9_-]
abbrev pub is_server_char : Char → Bool
is_server_char c = between b'a' b'z' c || is_digit c || is_low_line c || is_hyphen c

unfoldable pub all_tool_chars : String → Bool
all_tool_chars String.[] = true
all_tool_chars (String.◌∷◌ c s) = is_tool_char c && all_tool_chars s

unfoldable pub all_server_chars : String → Bool
all_server_chars String.[] = true
all_server_chars (String.◌∷◌ c s) = is_server_char c && all_server_chars s

-- envVarName.MatchString
unfoldable pub is_env_var_name : String → Bool
unfolding all_tool_chars
is_env_var_name String.[] = false
is_env_var_name (String.◌∷◌ c s) = (is_letter c || is_low_line c) && all_tool_chars s

-- mcpServerName.MatchString
unfoldable pub is_mcp_server_name : String → Bool
unfolding all_server_chars
is_mcp_server_name String.[] = false
is_mcp_server_name (String.◌∷◌ c s) = (between b'a' b'z' c || is_digit c) && all_server_chars s

-- strings.ReplaceAll(name, "-", "_")
unfoldable pub low_lines : String → String
low_lines String.[] = ""
low_lines (String.◌∷◌ c s) =
    if is_hyphen c then String.◌∷◌ "_" (low_lines s) else String.◌∷◌ c (low_lines s)

-- normalize of adapters/pi
unfoldable pub normalize : String → String
normalize String.[] = ""
normalize (String.◌∷◌ c s) =
    if is_tool_char c then String.◌∷◌ c (normalize s) else String.◌∷◌ "_" (normalize s)

-- strings.HasPrefix(s, "_")
unfoldable pub starts_low : String → Bool
starts_low String.[] = false
starts_low (String.◌∷◌ c s) = is_low_line c

-- strings.HasSuffix(s, "_")
unfoldable pub ends_low : String → Bool
ends_low String.[] = false
ends_low (String.◌∷◌ c String.[]) = is_low_line c
ends_low (String.◌∷◌ c (String.◌∷◌ d s)) = ends_low (String.◌∷◌ d s)

-- strings.Contains(s, "__")
unfoldable pub has_double_low : String → Bool
unfolding starts_low
has_double_low String.[] = false
has_double_low (String.◌∷◌ c s) = (is_low_line c && starts_low s) || has_double_low s
