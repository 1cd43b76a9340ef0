-- ===== src/Store/Names.antt =====
-- The file name of an address (filenameFor of core/supervisor/store.go).
use Prim.Native.Char.{Char, code}
use Prim.Native.String.{◌++◌}
use text.Mathlib.TextLemmas.{nil-append, cons-append, append_assoc, append_cancel_right}
use ai_solo_startup_framewor.Common.{
  ℕ, ◌≢◌, String, ◌≡◌, refl, sym, ap, ◌∙◌, false, arith, Bool-cases, inl, inr,
}
use ai_solo_startup_framewor.Address.{ok, is_slash, has_slash, new}
use ai_solo_startup_framewor.Store.{replace_slashes, filename_for, tmp_of}

replace_slashes-append :
    (s t : String) → replace_slashes (s ++ t) ≡ replace_slashes s ++ replace_slashes t
unfolding replace_slashes
replace_slashes-append String.[] t = rw (nil-append t, nil-append (replace_slashes t))
replace_slashes-append (String.◌∷◌ c s) t = elim (Bool-cases (is_slash c)) [
  | inl e ↦ rw (cons-append, e) (rw (replace_slashes-append s t) (sym (append_assoc "__" _ _)))
  | inr e ↦ rw (cons-append, e) (rw (replace_slashes-append s t) (sym (cons-append c _ _)))
]

replace_slashes-has_slash : (s : String) → has_slash s ≡ false → replace_slashes s ≡ s
unfolding replace_slashes has_slash
replace_slashes-has_slash String.[] h = refl
replace_slashes-has_slash (String.◌∷◌ c s) h = ground (arith, replace_slashes-has_slash s)

has_slash-append :
    (s t : String) → has_slash s ≡ false → has_slash t ≡ false → has_slash (s ++ t) ≡ false
unfolding has_slash
has_slash-append String.[] t h k = rw nil-append k
has_slash-append (String.◌∷◌ c s) t h k = rw cons-append (ground (arith, has_slash-append s t))

filename_parts :
    (n t : String)
    → has_slash n ≡ false
    → has_slash t ≡ false
    → filename_for (n ++ ("/" ++ t)) ≡ (n ++ ("__" ++ t)) ++ ".json"
unfolding filename_for
filename_parts n t h k =
    ap (λ s. s ++ ".json")
      (rw
        (
          replace_slashes-append n ("/" ++ t),
          replace_slashes-append "/" t,
          replace_slashes-has_slash n h,
          replace_slashes-has_slash t k,
        )
        (unfold replace_slashes in refl))

-- What `New` accepts.
new_parts :
    (n t a : String)
    → new n t ≡ ok a
    → (a ≡ n ++ ("/" ++ t)) × (has_slash n ≡ false) × (has_slash t ≡ false)
unfolding new
new_parts n t a h = (ground arith, ground arith, ground arith)

filename-new : (n t a : String) → new n t ≡ ok a → filename_for a ≡ (n ++ ("__" ++ t)) ++ ".json"
filename-new n t a h = let (e, p, q) = new_parts n t a h in rw e (filename_parts n t p q)

-- Within one tenant, two names have two files.
pub filename-injective :
    (n m t a b : String) → new n t ≡ ok a → new m t ≡ ok b → filename_for a ≡ filename_for b → n ≡ m
filename-injective n m t a b h k e =
    append_cancel_right n m ("__" ++ t)
      (append_cancel_right _ _ ".json" (sym (filename-new n t a h) ∙ e ∙ filename-new m t b k))

-- Across tenants two addresses can share a file: a double underscore reads as the slash.
pub filename-shared :
    (n m t a b : String)
    → new (n ++ ("__" ++ m)) t ≡ ok a
    → new n (m ++ ("__" ++ t)) ≡ ok b
    → filename_for a ≡ filename_for b
filename-shared n m t a b h k =
    filename-new _ t a h ∙ ap (λ s. s ++ ".json") (simp append_assoc) ∙ sym (filename-new n _ b k)

-- The last code point of a text.
last_from : Char → String → ℕ
last_from c String.[] = code c
last_from c (String.◌∷◌ d s) = last_from d s

last_code : String → ℕ
unfolding last_from
last_code String.[] = 0
last_code (String.◌∷◌ c s) = last_from c s

last_from-append : (c d : Char) (s t : String) → last_from c (s ++ String.◌∷◌ d t) ≡ last_from d t
unfolding last_from
last_from-append c d String.[] t = rw nil-append
last_from-append c d (String.◌∷◌ e s) t = rw cons-append (last_from-append e d s t)

last_code-append : (d : Char) (s t : String) → last_code (s ++ String.◌∷◌ d t) ≡ last_from d t
unfolding last_code
last_code-append d String.[] t = rw nil-append
last_code-append d (String.◌∷◌ e s) t = rw cons-append (last_from-append e d s t)

-- No address has another's temporary file as its file.
pub tmp_of-ne-filename_for : (a b : String) → tmp_of (filename_for a) ≢ filename_for b
unfolding filename_for last_from
tmp_of-ne-filename_for a b e =
    let n : last_code (tmp_of (filename_for a)) ≡ b'p' = last_code-append _ (filename_for a) _ in
    let m : last_code (filename_for b) ≡ b'n' = last_code-append _ (replace_slashes b) _ in
    omega (arith, n, m, ap last_code e)
