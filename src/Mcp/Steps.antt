-- ===== src/Mcp/Steps.antt =====
-- The steps of a server and of its adapters (transport/mcp/registry.go, transport/mcp/tools.go), and
-- what each does to one invocation.
use ai_solo_startup_framewor.Common.{
  ℕ, ◌≤◌, ◌<◌, ◌≡◌, ◌≢◌, String, true, false, some, List, [], ◌∷◌, ◌==◌, arith, eqb, eq_iff,
  eq_self, if◌then◌else◌, Bool-cases, ◌⊎◌, inl, inr,
}
use ai_solo_startup_framewor.Common.Dict.{lookup, lookup-put, lookup-remove}
use ai_solo_startup_framewor.Mcp.Sink.{default_intent_cap}
use ai_solo_startup_framewor.Mcp.Registry.{
  Invocation, Registry, Handle, write, new_invocation, mint, resolve, admit, admit_entry, drain,
  verify, verify_entry, touch,
}
use ai_solo_startup_framewor.Mcp.Tools.{
  ToolCall, locked_call, resolved_call, call_with, handle_call,
}
use ai_solo_startup_framewor.Mcp.Accepts.{Represents, locked_call-Represents, accepted}

-- A request with a verified token, the time at which it comes and the receipt that it would draw.
pub record Request : Type 0 where
  pub token : String
  pub now : ℕ
  pub receipt : String
  pub call : ToolCall

-- A step of the server or of an adapter.
pub data Step : Type 0 where
  called : Request → Step
  verified : (now : ℕ) (token : String) → Step
  minted : (token tenant agent task_id : String) (exp : ℕ) → Step
  drained : Handle → Step

-- The call as the handler sees it, with the token that the server verified.
abbrev pub carried : Request → ToolCall
carried q = record q.call { token = some q.token }

abbrev pub serve : String → Request → Registry → Registry
serve tenant q r = (handle_call q.now tenant q.receipt (carried q) r).1

-- The registry of a server of this tenant after a step.
abbrev pub step : String → Step → Registry → Registry
step tenant (called q) r = serve tenant q r
step tenant (verified now token) r = (verify now token r).1
step tenant (minted token t agent task_id exp) r = (mint token t agent task_id exp r).1
step tenant (drained h) r = (drain h r).2

abbrev pub steps : String → List Step → Registry → Registry
steps tenant [] r = r
steps tenant (s ∷ ss) r = steps tenant ss (step tenant s r)

-- The calls that carry this token.
abbrev pub calls_of : String → List Step → List ToolCall
calls_of token [] = []
calls_of token (called q ∷ ss) =
    if q.token == token then carried q ∷ calls_of token ss else calls_of token ss
calls_of token (verified now t ∷ ss) = calls_of token ss
calls_of token (minted t a b c e ∷ ss) = calls_of token ss
calls_of token (drained h ∷ ss) = calls_of token ss

-- A request with this token comes before it expires; no other invocation draws or drains the token.
abbrev pub Fair : String → ℕ → Step → Type 0
Fair token exp (called q) = (q.token == token) ≡ true → q.now ≤ exp
Fair token exp (verified now t) = Unit
Fair token exp (minted t a b c e) = (t == token) ≡ false
Fair token exp (drained h) = (h.token == token) ≡ false

-- The token is the only one that leads to its invocation.
pub record Owns (token tenant : String) (exp a : ℕ) (r : Registry) : Type 0 where
  pub entry : lookup token r.entries ≡ some a
  pub below : a < r.next
  pub only : (t : String) → (t == token) ≡ false → lookup t r.entries ≢ some a
  pub tenant_of : (r.heap a).tenant ≡ tenant
  pub exp_of : (r.heap a).exp ≡ exp

locked_call-tenant :
    (token receipt : String) (c : ToolCall) (inv : Invocation)
    → (locked_call token receipt c inv).1.tenant ≡ inv.tenant
unfolding locked_call
locked_call-tenant token receipt c inv = ground arith

locked_call-exp :
    (token receipt : String) (c : ToolCall) (inv : Invocation)
    → (locked_call token receipt c inv).1.exp ≡ inv.exp
unfolding locked_call
locked_call-exp token receipt c inv = ground arith

module _ (token tenant : String) (exp a : ℕ) (r : Registry) (w : Owns token tenant exp a r) where
  serve-entries : (q : Request) → (serve tenant q r).entries ≡ r.entries
  unfolding handle_call call_with resolved_call resolve admit_entry admit
  serve-entries q = ground arith

  serve-next : (q : Request) → (serve tenant q r).next ≡ r.next
  unfolding handle_call call_with resolved_call resolve admit_entry admit
  serve-next q = ground arith

  -- A request with another token leaves the invocation alone.
  serve_other : (q : Request) → (q.token == token) ≡ false → (serve tenant q r).heap a ≡ r.heap a
  unfolding handle_call call_with resolved_call resolve admit_entry admit write
  serve_other q h = ground (arith, w.only q.token h)

  serve_own :
      (q : Request)
      → (q.token == token) ≡ true
      → q.now ≤ exp
      → (serve tenant q r).heap a ≡ (locked_call token q.receipt (carried q) (r.heap a)).1
  unfolding handle_call call_with resolved_call resolve admit_entry admit write
  serve_own q h e =
      ground (arith, w.entry, w.exp_of, w.tenant_of, eq_iff q.token token, eq_self tenant)

  verify-heap :
      (now : ℕ) (t : String)
      → ((verify now t r).1.heap a ≡ r.heap a)
        ⊎ ((verify now t r).1.heap a ≡ record (r.heap a) { contacted = true })
  unfolding verify verify_entry touch write
  verify-heap now t = ground arith

  pub step-Owns : (s : Step) → Fair token exp s → Owns token tenant exp a (step tenant s r)
  unfolding mint drain verify verify_entry touch write new_invocation
  step-Owns (called q) h = record {
    entry = rw (serve-entries q) w.entry;
    below = rw (serve-next q) w.below;
    only = rw (serve-entries q) w.only;
    tenant_of = ground (
      arith,
      w.tenant_of,
      serve_other q,
      serve_own q,
      h,
      locked_call-tenant token q.receipt (carried q) (r.heap a),
    );
    exp_of = ground (
      arith,
      w.exp_of,
      serve_other q,
      serve_own q,
      h,
      locked_call-exp token q.receipt (carried q) (r.heap a),
    );
  }
  step-Owns (verified now t) h = record {
    entry = ground (arith, w.entry);
    below = ground (arith, w.below);
    only = λ k e. ground (arith, w.only k e);
    tenant_of = ground (arith, w.tenant_of, verify-heap now t);
    exp_of = ground (arith, w.exp_of, verify-heap now t);
  }
  step-Owns (minted t b c d e) h = record {
    entry = ground (arith, w.entry, lookup-put t token r.next r.entries);
    below = ground (arith, w.below);
    only = λ k f. ground (arith, w.only k f, w.below, lookup-put t k r.next r.entries);
    tenant_of = ground (arith, w.tenant_of, w.below);
    exp_of = ground (arith, w.exp_of, w.below);
  }
  step-Owns (drained d) h = record {
    entry = ground (arith, w.entry, lookup-remove d.token token r.entries);
    below = ground (arith, w.below);
    only = λ k f. ground (arith, w.only k f, lookup-remove d.token k r.entries);
    tenant_of = ground (arith, w.tenant_of);
    exp_of = ground (arith, w.exp_of);
  }

  pub step-Represents :
      (s : Step) (done : List ToolCall)
      → Fair token exp s
      → Represents token default_intent_cap done (r.heap a)
      → Represents token default_intent_cap
          (accepted token default_intent_cap done (calls_of token (s ∷ [])))
          ((step tenant s r).heap a)
  unfolding mint drain write
  step-Represents (called q) done h p = elim (Bool-cases (q.token == token)) [
    | inr e ↦ rw (serve_other q e, e) p
    | inl e ↦
        rw (serve_own q e (h e), e)
          (locked_call-Represents token q.receipt default_intent_cap done (carried q) (r.heap a) p)
  ]
  step-Represents (verified now t) done h p = elim (verify-heap now t) [
    | inl e ↦ rw e p
    | inr e ↦
        rw e (record { intents = p.intents; capacity = p.capacity; flag = p.flag; keys = p.keys })
  ]
  step-Represents (minted t b c d e) done h p =
      let f : eqb r.next a ≡ false = ground (arith, w.below) in rw f p
  step-Represents (drained d) done h p = elim (Bool-cases d.drained) [
    | inl e ↦ rw e p
    | inr e ↦ rw e p
  ]
