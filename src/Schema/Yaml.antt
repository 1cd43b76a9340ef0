-- ===== src/Schema/Yaml.antt =====
-- What the decoder of YAML hands to config/schema.go: values of type `any`, and the checks that
-- may fail. The error texts are constructors.
use ai_solo_startup_framewor.Common.{
  ℕ, String, ◌==◌, ◌≡◌, refl, ◌⊎◌, inl, inr, if◌then◌else◌, Bool, true, false,
}

pub data ℤ : Type 0 where
  pos negsuc : ℕ → ℤ

-- A value of type `any`. `null` is nil, also for a key that is missing; `other` is a value of any
-- other type. The entries of a map come in the order in which `range` visits them.
mutual
  pub data Yaml : Type 0 where
    null other : Yaml
    text : String → Yaml
    integer : ℤ → Yaml
    sequence : Items → Yaml
    mapping : Entries → Yaml

  pub data Items : Type 0 where
    end_items : Items
    item : Yaml → Items → Items

  pub data Entries : Type 0 where
    end_entries : Entries
    entry : String → Yaml → Entries → Entries

-- m[key]
unfoldable pub get : String → Entries → Yaml
get key end_entries = null
get key (entry k v m) = if k == key then v else get key m

-- _, ok := m[key]
unfoldable pub has : String → Entries → Bool
has key end_entries = false
has key (entry k v m) = if k == key then true else has key m

-- s, _ := v.(string)
unfoldable pub as_text : Yaml → String
as_text (text s) = s
as_text null = ""
as_text other = ""
as_text (integer n) = ""
as_text (sequence l) = ""
as_text (mapping m) = ""

pub data SchemaError : Type 0 where
  unreadable malformed empty_tenant empty_env inline_secret : SchemaError
  gateways_on_agent unknown_field bad_prompt_path no_prompt_file : SchemaError
  extensions_need_pi extensions_no_list extension_no_text empty_extension : SchemaError
  package_source bad_extension_path no_extension_file : SchemaError
  servers_need_pi servers_no_map bad_server_name reserved_server_name ambiguous_server_name :
      SchemaError
  server_no_map bad_args unknown_server_field no_command colliding_names : SchemaError
  bad_max_rounds : SchemaError

pub data Checked (A : Type 0) : Type 0 where
  ok : A → Checked A
  err : SchemaError → Checked A

infixl 5 ◌>>=◌ ◌>>◌
unfoldable pub ◌>>=◌ : {A B : Type 0} → Checked A → (A → Checked B) → Checked B
ok a >>= f = f a
err e >>= f = err e

abbrev pub ◌>>◌ : {B : Type 0} → Checked (Unit {0}) → Checked B → Checked B
m >> k = m >>= λ _. k

-- An early return of an error.
unfoldable pub refuse_if : Bool → SchemaError → Checked (Unit {0})
refuse_if true e = err e
refuse_if false e = ok tt

pub Checked-cases :
    {A : Type 0} (m : Checked A) → ((a : A) × (m ≡ ok a)) ⊎ ((e : SchemaError) × (m ≡ err e))
Checked-cases (ok a) = inl (a, refl)
Checked-cases (err e) = inr (e, refl)

-- A chain that returns a value returned one at each step.
pub bind-ok :
    {A B : Type 0} (m : Checked A) (f : A → Checked B) (b : B)
    → (m >>= f) ≡ ok b
    → (a : A) × (m ≡ ok a) × (f a ≡ ok b)
unfolding ◌>>=◌
bind-ok (ok a) f b h = (a, refl, h)
bind-ok (err e) f b h = cc
