-- ===== src/Gateway/Opening.antt =====
-- The gateway that a loaded company file opens (gateways/telegram/gateway.go, config/schema.go).
use ai_solo_startup_framewor.Common.{
  String, true, ◌||◌, ◌==◌, ◌≡◌, ◌≢◌, refl, Bool-cases, inl, inr, arith, some, if◌then◌else◌,
}
use ai_solo_startup_framewor.Schema.Names.{is_env_var_name}
use ai_solo_startup_framewor.Schema.Load.{TelegramConfig}
use ai_solo_startup_framewor.Schema.Company.{IsGoodTelegram}
use ai_solo_startup_framewor.Gateway.{
  closed, inline_token, bad_owner_name, new_gateway, new_with_base, with_values,
}

-- The recipient's variable that the composition root uses (cmd/company/wire.go).
unfoldable pub recipient_name : TelegramConfig → String
recipient_name tg = if tg.recipient_env == "" then "TELEGRAM_OWNER_ID" else tg.recipient_env

named_or :
    (s : String)
    → (s == "" || is_env_var_name s) ≡ true
    → is_env_var_name (if s == "" then "TELEGRAM_OWNER_ID" else s) ≡ true
unfolding is_env_var_name
named_or s h = elim (Bool-cases (s == "")) [ inl e ↦ rw e refl | inr e ↦ rw e (rw e at h) ]

pub recipient_name-named :
    (tg : TelegramConfig) → IsGoodTelegram (some tg) → is_env_var_name (recipient_name tg) ≡ true
unfolding recipient_name
recipient_name-named tg h = named_or tg.recipient_env h.1

with_values-named :
    (token owner base : String)
    → (with_values token owner base ≢ closed inline_token)
      × (with_values token owner base ≢ closed bad_owner_name)
unfolding with_values
with_values-named token owner base = (λ e. ground (arith, e), λ e. ground (arith, e))

-- The names in a company file that Load accepted are never refused by the gateway as inline secrets
-- or as names that are none; only an unset variable keeps it closed.
pub new_gateway-named :
    (getenv : String → String) (tg : TelegramConfig)
    → IsGoodTelegram (some tg)
    → (new_gateway getenv tg.token_env (recipient_name tg) ≢ closed inline_token)
      × (new_gateway getenv tg.token_env (recipient_name tg) ≢ closed bad_owner_name)
unfolding new_gateway new_with_base
new_gateway-named getenv tg h = (
  λ e. ground (arith, e, h.0, recipient_name-named tg h, with_values-named _ _ _),
  λ e. ground (arith, e, h.0, recipient_name-named tg h, with_values-named _ _ _),
)
