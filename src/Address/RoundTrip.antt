-- ===== src/Address/RoundTrip.antt =====
-- Building and reading an address (core/address/address.go).
use Prim.Native.Char.{Char}
use Prim.Native.String.{◌++◌}
use text.Mathlib.TextEquality.{Char-path}
use text.Mathlib.TextLemmas.{nil-append, cons-append}
use ai_solo_startup_framewor.Common.{
  String, ◌≡◌, refl, ap, true, false, Option, some, arith, Bool-cases, Option-cases, inl, inr,
}
use ai_solo_startup_framewor.Address.{ok, is_slash, cut_slash, has_slash, new, parse, name, tenant}

-- The first slash of a text without one, a slash and more is that slash.
cut_slash-append : (s t : String) → has_slash s ≡ false → cut_slash (s ++ ("/" ++ t)) ≡ some (s, t)
unfolding has_slash cut_slash
cut_slash-append String.[] t h = rw (nil-append ("/" ++ t), cons-append, nil-append t)
cut_slash-append (String.◌∷◌ c s) t h = rw cons-append (ground (arith, cut_slash-append s t))

is_slash-eq : (c : Char) (s : String) → is_slash c ≡ true → String.◌∷◌ c s ≡ "/" ++ s
is_slash-eq c s h =
    rw (cons-append, nil-append s) (ap (λ d. String.◌∷◌ d s) (Char-path c _ (ground arith)))

slash_first :
    (c : Char) (s a b : String)
    → is_slash c ≡ true
    → ◌≡◌ {A = Option (String × String)} (some ("", s)) (some (a, b))
    → (String.◌∷◌ c s ≡ a ++ ("/" ++ b)) × (has_slash a ≡ false)
unfolding has_slash
slash_first c s a b slash h =
    let e : "" ≡ a = ground arith in
    let f : s ≡ b = ground arith in rw (← e, ← f) (rw nil-append (is_slash-eq c s slash), refl)

slash_later :
    (c : Char) (s a b a' b' : String)
    → is_slash c ≡ false
    → (s ≡ a' ++ ("/" ++ b')) × (has_slash a' ≡ false)
    → ◌≡◌ {A = Option (String × String)} (some (String.◌∷◌ c a', b')) (some (a, b))
    → (String.◌∷◌ c s ≡ a ++ ("/" ++ b)) × (has_slash a ≡ false)
unfolding has_slash
slash_later c s a b a' b' other parts h =
    let e : String.◌∷◌ c a' ≡ a = ground arith in
    let f : b' ≡ b = ground arith in
    rw (← e, ← f) (rw cons-append (ap (λ r. String.◌∷◌ c r) parts.0), ground arith)

-- What a cut yields: the pieces rebuild the text, and the first has no slash.
cut_slash-parts :
    (s a b : String) → cut_slash s ≡ some (a, b) → (s ≡ a ++ ("/" ++ b)) × (has_slash a ≡ false)
unfolding has_slash cut_slash
cut_slash-parts String.[] a b h = cc
cut_slash-parts (String.◌∷◌ c s) a b h = elim (Bool-cases (is_slash c)) [
  | inl slash ↦ slash_first c s a b slash (rw slash at h)
  | inr other ↦ elim (Option-cases (cut_slash s)) [
    | inl stuck ↦ cc (h, other, stuck)
    | inr (p, found) ↦
        slash_later c s a b p.0 p.1 other (cut_slash-parts s p.0 p.1 found)
          (ground (arith, found, other))
  ]
]

-- An address that `New` builds from a name and a tenant parses, and yields that name and tenant.
pub parse-new : (n t a : String) → new n t ≡ ok a → (parse a ≡ ok a) × (name a ≡ n) × (tenant a ≡ t)
unfolding new parse name tenant
parse-new n t a h = ground (arith, cut_slash-append n t)

-- A text that parses is its own address, and `New` of its name and tenant builds it again.
pub new-parse : (s a : String) → parse s ≡ ok a → (a ≡ s) × (new (name s) (tenant s) ≡ ok s)
unfolding new parse name tenant
new-parse s a h = elim (Option-cases (cut_slash s)) [
  | inl e ↦ ground arith
  | inr (p, e) ↦ ground (arith, cut_slash-parts s p.0 p.1)
]
