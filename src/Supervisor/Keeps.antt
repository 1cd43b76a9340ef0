-- ===== src/Supervisor/Keeps.antt =====
-- Invariants of the supervisor's methods: one rule for each way to build a method, and the
-- predicates that every elementary step of core/supervisor/supervisor.go keeps.
pub mod Methods
pub mod Tasks
pub mod Executions
use ai_solo_startup_framewor.Common.{
  ℕ, suc, String, Bool, true, false, ◌≡◌, refl, ◌∷◌, if◌then◌else◌,
}
use ai_solo_startup_framewor.Common.Dict.{Dict}
use ai_solo_startup_framewor.Policy.{Issued}
use ai_solo_startup_framewor.Policy.Laws.{Declared}
use ai_solo_startup_framewor.Port.{OutboundMessage, kind_delegate_task}
use ai_solo_startup_framewor.Store
use ai_solo_startup_framewor.Store.{Disk}
use ai_solo_startup_framewor.Task.{TaskRecord}
use ai_solo_startup_framewor.Supervisor.World.{
  Config, Env, Event, Effect, sent, delegated, ran, polled, World, Outcome, ret, panic, stuck, M,
  pure, then_do, ◌>>=◌, ask, perform, raise, out_of_fuel, notify, yield, emit, mint_approval_token,
  validate_token, save, load, save_and_notify, mark_failed,
}

-- `m` keeps `P`, whether it returns, panics or runs out of fuel.
pub record Keeps {A : Type 0} (P : World → Type 0) (m : M A) : Type 0 where
  pub at : (w : World) → P w → P (m w).1

module _ {A : Type 0} {P : World → Type 0} where
  pub Keeps-pure : (a : A) → Keeps P (pure a)
  Keeps-pure a = record { at = λ w h. h }

  pub Keeps-raise : Keeps P (raise {A = A})
  unfolding raise
  Keeps-raise = record { at = λ w h. h }

  pub Keeps-out_of_fuel : Keeps P (out_of_fuel {A = A})
  unfolding out_of_fuel
  Keeps-out_of_fuel = record { at = λ w h. h }

  pub Keeps-if :
      (test : Bool) (hit miss : M A)
      → (test ≡ true → Keeps P hit)
      → (test ≡ false → Keeps P miss)
      → Keeps P (if test then hit else miss)
  Keeps-if true hit miss on_hit on_miss = on_hit refl
  Keeps-if false hit miss on_hit on_miss = on_miss refl

module _ {A B : Type 0} {P : World → Type 0} where
  then_do-keeps :
      (r : Outcome A) (f : A → M B) (w : World)
      → ((a : A) → Keeps P (f a))
      → P w
      → P (then_do r f w).1
  then_do-keeps (ret a) f w k h = (k a).at w h
  then_do-keeps panic f w k h = h
  then_do-keeps stuck f w k h = h

  pub Keeps-bind :
      (first : M A) (next : A → M B)
      → Keeps P first
      → ((a : A) → Keeps P (next a))
      → Keeps P (first >>= next)
  unfolding ◌>>=◌
  Keeps-bind first next by_first by_next = record {
    at = λ w h. then_do-keeps (first w).0 next (first w).1 by_next (by_first.at w h);
  }

-- The effects that executing an intent of this kind may have are allowed.
pub record Acts (Ok : Effect → Type 0) (kind : String) : Type 0 where
  pub sends : (m : OutboundMessage) → Ok (sent kind m)
  pub delegates : (role body : String) → kind ≡ kind_delegate_task → Ok (delegated role body)

-- `P` is kept by every elementary step but those on the lifecycle machine, where only effects in
-- `Ok` are allowed: those of the kinds that the policy permits the role, the provider's runs and
-- the reads of a peer.
pub record Closed (env : Env) (cfg : Config) (P : World → Type 0) (Ok : Effect → Type 0)
    : Type 0 where
  pub asked : (w : World) → P w → P (record w { questions = suc w.questions })
  pub performed : (e : Effect) (w : World) → Ok e → P w → P (record w { effects = e ∷ w.effects })
  pub told : (w : World) → P w → P (record w { notified = suc w.notified })
  pub tokens : (ts : Issued) (w : World) → P w → P (record w { issued = ts })
  pub watched : (ws : Dict (String × String)) (w : World) → P w → P (record w { watchers = ws })
  pub yielded :
      (e : Event) (b : Bool) (w : World)
      → P w
      → P (record w { events = e ∷ w.events; consumer_done = b })
  pub saved :
      (rec : TaskRecord) (w : World)
      → P w
      → P (record w { disk = (Store.save env.faults cfg.addr rec w.disk).1 })
  pub loaded :
      (id : String) (w : World)
      → P w
      → P (record w { disk = (Store.load env.faults cfg.addr id w.disk).1 })
  pub acts : (kind : String) → Declared cfg.policies kind cfg.role false → Acts Ok kind
  pub runs : (id input : String) → Ok (ran id input)
  pub polls : (role id : String) → Ok (polled role id)

module _ (env : Env) (cfg : Config) {P : World → Type 0} {Ok : Effect → Type 0}
    (closed : Closed env cfg P Ok) where
  pub Keeps-ask : {A : Type 0} (f : ℕ → A) → Keeps P (ask f)
  unfolding ask
  Keeps-ask f = record { at = λ w h. closed.asked w h }

  pub Keeps-perform : (e : Effect) → Ok e → Keeps P (perform e)
  unfolding perform
  Keeps-perform e o = record { at = λ w h. closed.performed e w o h }

  pub Keeps-notify : Keeps P notify
  unfolding notify
  Keeps-notify = record { at = λ w h. closed.told w h }

  unless_done :
      (b : Bool) (w : World) (r : Outcome Bool × World)
      → P w
      → P r.1
      → P (if b then (panic, w) else r).1
  unless_done true w r h k = h
  unless_done false w r h k = k

  pub Keeps-yield : (e : Event) → Keeps P (yield env e)
  unfolding yield
  Keeps-yield e = record {
    at = λ w h. unless_done w.consumer_done w _ h (closed.yielded e _ _ (closed.asked w h));
  }

  pub Keeps-emit : (e : Event) → Keeps P (emit env e)
  unfolding emit
  Keeps-emit e = Keeps-bind _ _ (Keeps-yield e) (λ b. Keeps-pure tt)

  pub Keeps-mint : Keeps P (mint_approval_token env)
  unfolding mint_approval_token
  Keeps-mint = record { at = λ w h. closed.tokens _ _ (closed.asked w h) }

  pub Keeps-validate : (t : String) → Keeps P (validate_token env t)
  unfolding validate_token
  Keeps-validate t = record { at = λ w h. closed.tokens _ w h }

  pub Keeps-save : (rec : TaskRecord) → Keeps P (save env cfg rec)
  unfolding save
  Keeps-save rec = record { at = λ w h. closed.saved rec w h }

  pub Keeps-load : (id : String) → Keeps P (load env cfg id)
  unfolding load
  Keeps-load id = record { at = λ w h. closed.loaded id w h }

  pub Keeps-save_and_notify : (rec : TaskRecord) → Keeps P (save_and_notify env cfg rec)
  unfolding save_and_notify
  Keeps-save_and_notify rec = Keeps-bind _ _ (Keeps-save rec) (λ r. Keeps-notify)

  pub Keeps-mark_failed : (rec : TaskRecord) → Keeps P (mark_failed env cfg rec)
  unfolding mark_failed
  Keeps-mark_failed rec = Keeps-save_and_notify _

pub ruleset keeps_rules = (
  Keeps-pure, Keeps-raise, Keeps-bind, Keeps-if, Keeps-ask, Keeps-perform, Keeps-notify,
  Keeps-yield, Keeps-emit, Keeps-mint, Keeps-validate, Keeps-save, Keeps-load,
  Keeps-save_and_notify, Keeps-mark_failed,
)
