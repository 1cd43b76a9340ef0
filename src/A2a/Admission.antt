-- ===== src/A2a/Admission.antt =====
-- Who gets past the interceptors of transport/a2a/server.go.
use Prim.Native.Char.{code}
use Prim.Native.String.{◌++◌}
use text.Mathlib.TextLemmas.{nil-append, cons-append}
use text.Mathlib.TextEquality.{Char-path}
use ai_solo_startup_framewor.Common.{
  String, false, ◌≡◌, refl, ap, ◌∙◌, ◌↔◌, some, List, [], ◌∷◌, ◌==◌, arith, eq_iff, eq_self, inl,
  inr, Option-cases,
}
use ai_solo_startup_framewor.A2a.Server.{
  admitted, cut_prefix, check_token, check_header, authenticate, check_tenant, and_then, intercept,
  bearer_prefix,
}

cut_prefix-append : (s p r : String) → cut_prefix s p ≡ some r → s ≡ p ++ r
unfolding cut_prefix
cut_prefix-append s String.[] r h = ground (arith, h, nil-append r)
cut_prefix-append String.[] (String.◌∷◌ d p) r h = cc
cut_prefix-append (String.◌∷◌ c s) (String.◌∷◌ d p) r h =
    let e : code c ≡ code d = ground (arith, h) in
    rw (Char-path c d e, cons-append)
      (ap (String.◌∷◌ d) (cut_prefix-append s p r (ground (arith, h))))

append-cut_prefix : (p r : String) → cut_prefix (p ++ r) p ≡ some r
unfolding cut_prefix
append-cut_prefix String.[] r = ap some (nil-append r)
append-cut_prefix (String.◌∷◌ d p) r = rw cons-append (ground (arith, append-cut_prefix p r))

check_header-accepts :
    (token : String) (values : List String)
    → check_header token values ≡ admitted
    → (rest : List String) × (values ≡ (bearer_prefix ++ token) ∷ rest)
unfolding check_header check_token
check_header-accepts token [] h = cc
check_header-accepts token (v ∷ vs) h = elim (Option-cases (cut_prefix v bearer_prefix)) [
  | inl e ↦ cc
  | inr (r, e) ↦ (
    vs,
    ap (λ x. x ∷ vs)
        (cut_prefix-append v bearer_prefix r e
          ∙ ap (λ x. bearer_prefix ++ x) (ground (arith, h, e, eq_iff r token))),
  )
]

header-accepted :
    (token : String) (rest : List String)
    → check_header token ((bearer_prefix ++ token) ∷ rest) ≡ admitted
unfolding check_header check_token
header-accepted token rest = rw (append-cut_prefix bearer_prefix token, eq_self token) refl

-- A call over HTTP is let through just when its first Authorization header is the server's token
-- after "Bearer ", and it names the server's tenant, which is not empty.
pub intercept-admits :
    (token tenant claimed : String) (values : List String)
    → (tenant == "") ≡ false
    → (intercept token tenant (some values) claimed ≡ admitted)
      ↔ (((rest : List String) × (values ≡ (bearer_prefix ++ token) ∷ rest)) × (claimed ≡ tenant))
unfolding intercept authenticate check_tenant and_then
intercept-admits token tenant claimed values n = (
  λ h. (
    check_header-accepts token values (ground (arith, h)),
    ground (arith, h, eq_iff claimed tenant),
  ),
  λ h. rw (h.0.1, header-accepted token h.0.0, h.1, n, eq_self tenant) refl,
)
