-- ===== src/Pi/Flat.antt =====
-- The flat names of tools (adapters/pi/mcp_probe.go): mcp__<server>__<tool> parses one way.
use Prim.Native.Char.{Char}
use Prim.Native.String.{◌++◌}
use text.Mathlib.TextLemmas.{nil-append, cons-append, append_cancel_left}
use ai_solo_startup_framewor.Common.{
  String, Bool, true, false, ◌≡◌, refl, sym, ap, ◌∙◌, arith, if◌then◌else◌,
}
use ai_solo_startup_framewor.Schema.Names.{
  normalize, starts_low, ends_low, has_double_low, is_low_line,
}

-- s + "__" + t
abbrev pub separated : String → String → String
separated s t = s ++ String.◌∷◌ "_" (String.◌∷◌ "_" t)

-- toolName
unfoldable pub tool_name : String → String → String
unfolding normalize
tool_name server tool = "mcp__" ++ separated (normalize server) (normalize tool)

-- unambiguousTool
unfoldable pub is_unambiguous_tool : String → Bool
is_unambiguous_tool norm =
    if has_double_low norm then false else if starts_low norm then false else true

-- The check of a server's name, the part of ProbeMCP before a server is asked.
unfoldable pub is_ambiguous_server : String → Bool
is_ambiguous_server norm = if has_double_low norm then true else ends_low norm

-- `separated` by clauses.
joined : String → String → String
joined String.[] t = String.◌∷◌ "_" (String.◌∷◌ "_" t)
joined (String.◌∷◌ c s) t = String.◌∷◌ c (joined s t)

separated-joined : (s t : String) → separated s t ≡ joined s t
unfolding joined
separated-joined String.[] t = nil-append _
separated-joined (String.◌∷◌ c s) t = cons-append c s _ ∙ ap (String.◌∷◌ c) (separated-joined s t)

has_double_low-joined : (s t : String) → has_double_low (joined s t) ≡ true
unfolding has_double_low starts_low joined
has_double_low-joined String.[] t = refl
has_double_low-joined (String.◌∷◌ c s) t = ground (arith, has_double_low-joined s t)

tail : String → String
tail String.[] = ""
tail (String.◌∷◌ c s) = s

head : String → Char
head String.[] = "_"
head (String.◌∷◌ c s) = c

split_once :
    (n t m u : String)
    → has_double_low n ≡ false
    → ends_low n ≡ false
    → has_double_low t ≡ false
    → starts_low t ≡ false
    → joined n t ≡ joined m u
    → (m ≡ n) × (u ≡ t)
unfolding has_double_low ends_low starts_low tail head joined
split_once String.[] t String.[] u h k i j e = (refl, sym (ap (λ s. tail (tail s)) e))
split_once String.[] t (String.◌∷◌ c String.[]) u h k i j e =
    ground (arith, ap (λ s. starts_low (tail (tail s))) e)
split_once String.[] t (String.◌∷◌ c (String.◌∷◌ d m)) u h k i j e =
    ground (arith, ap (λ s. has_double_low (tail (tail s))) e, has_double_low-joined m u)
split_once (String.◌∷◌ c String.[]) t String.[] u h k i j e =
    ground (arith, ap (λ s. is_low_line (head s)) e)
split_once (String.◌∷◌ c (String.◌∷◌ d n)) t String.[] u h k i j e =
    ground (arith, ap (λ s. is_low_line (head s)) e, ap (λ s. is_low_line (head (tail s))) e)
split_once (String.◌∷◌ c String.[]) t (String.◌∷◌ d m) u h k i j e =
    let r = split_once "" t m u refl refl i j (ap tail e) in
    (rw r.0 (ap (λ x. String.◌∷◌ x "") (sym (ap head e))), r.1)
split_once (String.◌∷◌ c (String.◌∷◌ b n)) t (String.◌∷◌ d m) u h k i j e =
    let r = split_once (String.◌∷◌ b n) t m u (ground arith) k i j (ap tail e) in
    (rw r.0 (ap (λ x. String.◌∷◌ x (String.◌∷◌ b n)) (sym (ap head e))), r.1)

-- A tool whose normalized server name passes the check of ProbeMCP and whose normalized name passes
-- that of a tool shares its flat name mcp__<server>__<tool> only with tools of equal normalized
-- server name and equal normalized name, whatever the other server and tool are called.
pub tool_name_unique :
    (server tool other_server other_tool : String)
    → is_ambiguous_server (normalize server) ≡ false
    → is_unambiguous_tool (normalize tool) ≡ true
    → tool_name server tool ≡ tool_name other_server other_tool
    → (normalize other_server ≡ normalize server) × (normalize other_tool ≡ normalize tool)
unfolding tool_name is_ambiguous_server is_unambiguous_tool
tool_name_unique server tool other_server other_tool h k e =
    split_once (normalize server) (normalize tool) (normalize other_server) (normalize other_tool)
      (ground (arith, h)) (ground (arith, h)) (ground (arith, k)) (ground (arith, k))
      (sym (separated-joined _ _) ∙ append_cancel_left "mcp__" _ _ e ∙ separated-joined _ _)
