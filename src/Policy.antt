-- ===== src/Policy.antt =====
-- core/policy: the two-stage classification of action intents and the store of approval tokens.
-- A token's text comes from crypto/rand, so `mint` takes it; the store is a set of texts.
-- `Payload` is payload.go.
pub mod Laws
pub mod Payload
use ai_solo_startup_framewor.Common.{
  String, Bool, true, false, Option, none, some, List, [], ◌∷◌, ◌==◌, contains, if◌then◌else◌,
}
use ai_solo_startup_framewor.Common.Dict.{Dict, lookup}

-- config.Policy
pub record Policy : Type 0 where
  pub risk : String
  pub allowed_roles : List String

pub data ResultKind : Type 0 where
  hard_deny escalate permit : ResultKind

-- ClassificationResult without `Escalate`, which mirrors `Kind`. An empty token is "".
pub record ClassificationResult : Type 0 where
  pub kind : ResultKind
  pub approval_token : String

-- tokenStore.issued
abbrev pub Issued : Type 0
Issued = List String

unfoldable pub mint : String → Issued → Issued
mint token issued = token ∷ issued

-- delete(ts.issued, token)
unfoldable pub discard : String → Issued → Issued
discard token [] = []
discard token (t ∷ ts) = if t == token then discard token ts else t ∷ discard token ts

-- validate: the first part says whether the token was accepted.
unfoldable pub validate : String → Issued → Bool × Issued
unfolding discard
validate token issued =
    if contains issued token then (true, discard token issued) else (false, issued)

denied : ClassificationResult
denied = record { kind = ResultKind.hard_deny; approval_token = "" }

-- Stage 1 (allowed_roles), then stage 2 (risk); `token` is the text that minting would draw.
classify_declared : Policy → String → String → Issued → ClassificationResult × Issued
unfolding denied mint
classify_declared p role token issued =
    if contains p.allowed_roles role
    then (if p.risk == "risky"
        then (record { kind = ResultKind.escalate; approval_token = "" }, issued)
        else (record { kind = ResultKind.permit; approval_token = token }, mint token issued))
    else (denied, issued)

classify_entry : Option Policy → String → String → Issued → ClassificationResult × Issued
unfolding denied classify_declared
classify_entry none role token issued = (denied, issued)
classify_entry (some p) role token issued = classify_declared p role token issued

-- Engine.Classify
unfoldable pub classify :
    Dict Policy → String → String → String → Issued → ClassificationResult × Issued
unfolding classify_entry
classify policies kind role token issued = classify_entry (lookup kind policies) role token issued
