-- ===== src/Supervisor/Total.antt =====
-- The methods always come to an end (core/supervisor/supervisor.go): the provider loop has enough
-- fuel, for every record and whatever the surroundings answer.
pub mod Intents
pub mod Loop
pub mod Execute
use ai_solo_startup_framewor.Common.{
  ℕ, zero, suc, ◌+◌, ◌-◌, ◌≤◌, ◌<◌, ◌≡◌, refl, ap, ◌∙◌, sym, String, Bool, true, false, Option,
  none, some, List, [], ◌∷◌, ◌++◌, ◌==◌, arith, eq_self, if◌then◌else◌, length, leb, append_assoc,
}
use ai_solo_startup_framewor.Port.{ContextMessage, ProviderResult}
use ai_solo_startup_framewor.Task.{TaskRecord, PendingIntent, rounds, add_turn}
use ai_solo_startup_framewor.Task.Rounds.{
  Grown, Grown-refl, Grown-trans, Advanced, left, left-Advanced,
}
use ai_solo_startup_framewor.Supervisor.World.{
  Outcome, ret, panic, stuck, M, pure, then_do, ◌>>=◌, ◌>>◌, World, Effect, Event, Config, Env, ask,
  perform, notify, get_resumer, yield, emit, mint_approval_token, validate_token, save, load,
  classify, save_and_notify, mark_failed, raise,
}

-- What holds of a result; running out of fuel is excluded.
abbrev pub Ends : {A : Type 0} → (A → Type 0) → Outcome A → Type 0
Ends R (ret a) = R a
Ends R panic = Unit
Ends R stuck = ⊥

pub record Total {A : Type 0} (R : A → Type 0) (m : M A) : Type 0 where
  pub at : (w : World) → Ends R (m w).0

abbrev pub Anything : {A : Type 0} → A → Type 0
Anything a = Unit

module _ {A : Type 0} {R : A → Type 0} where
  pub Total-pure : (a : A) → R a → Total R (pure a)
  Total-pure a h = record { at = λ w. h }

  pub Total-raise : Total R (raise {A = A})
  unfolding raise
  Total-raise = record { at = λ w. tt }

  pub Total-if :
      (test : Bool) (hit miss : M A)
      → (test ≡ true → Total R hit)
      → (test ≡ false → Total R miss)
      → Total R (if test then hit else miss)
  Total-if true hit miss on_hit on_miss = on_hit refl
  Total-if false hit miss on_hit on_miss = on_miss refl

module _ {A : Type 0} {R S : A → Type 0} where
  pub Total-weaken : (m : M A) → Total R m → ((a : A) → R a → S a) → Total S m
  Total-weaken m km h = record { at = λ w. weaken-at (m w).0 (km.at w) h }
    where
      weaken-at : (r : Outcome A) → Ends R r → ((a : A) → R a → S a) → Ends S r
      weaken-at (ret a) e h = h a e
      weaken-at panic e h = tt
      weaken-at stuck e h = e

module _ {A B : Type 0} {R : A → Type 0} {S : B → Type 0} where
  then_do-Total :
      (r : Outcome A) (f : A → M B) (w : World)
      → Ends R r
      → ((a : A) → R a → Total S (f a))
      → Ends S (then_do r f w).0
  then_do-Total (ret a) f w h k = (k a h).at w
  then_do-Total panic f w h k = tt
  then_do-Total stuck f w h k = h

  pub Total-bind :
      (m : M A) (f : A → M B) → Total R m → ((a : A) → R a → Total S (f a)) → Total S (m >>= f)
  unfolding ◌>>=◌
  Total-bind m f km kf = record { at = λ w. then_do-Total (m w).0 f (m w).1 (km.at w) kf }

module _ {A B : Type 0} {S : B → Type 0} where
  -- A step whose result does not matter.
  pub Total-step :
      (m : M A) (f : A → M B) → Total Anything m → ((a : A) → Total S (f a)) → Total S (m >>= f)
  Total-step m f km kf = Total-bind m f km (λ a _. kf a)

module _ {A : Type 0} {R : A → Type 0} where
  -- Two steps before a result.
  pub Total-two :
      (m n : M (Unit {0})) (a : A)
      → Total Anything m
      → Total Anything n
      → R a
      → Total R (m >> (n >> pure a))
  Total-two m n a km kn h = Total-step m _ km (λ _. Total-step n _ kn (λ _. Total-pure a h))

module _ {A : Type 0} where
  pub Total-done : (a : A) → Total Anything (pure a)
  Total-done a = Total-pure a tt

  pub Total-ask : (f : ℕ → A) → Total Anything (ask f)
  unfolding ask
  Total-ask f = record { at = λ w. tt }

pub Total-perform : (e : Effect) → Total Anything (perform e)
unfolding perform
Total-perform e = record { at = λ w. tt }

pub Total-notify : Total Anything notify
unfolding notify
Total-notify = record { at = λ w. tt }

pub Total-get_resumer : Total Anything get_resumer
unfolding get_resumer
Total-get_resumer = record { at = λ w. tt }

module _ (env : Env) where
  unless_done :
      (b : Bool) (r : Outcome Bool × World) (w : World)
      → Ends Anything r.0
      → Ends Anything (if b then (panic, w) else r).0
  unless_done true r w h = tt
  unless_done false r w h = h

  pub Total-yield : (e : Event) → Total Anything (yield env e)
  unfolding yield
  Total-yield e = record { at = λ w. unless_done w.consumer_done _ w tt }

  pub Total-emit : (e : Event) → Total Anything (emit env e)
  unfolding emit
  Total-emit e = Total-bind _ _ (Total-yield e) (λ b _. Total-pure tt tt)

  pub Total-mint : Total Anything (mint_approval_token env)
  unfolding mint_approval_token
  Total-mint = record { at = λ w. tt }

  pub Total-validate : (t : String) → Total Anything (validate_token env t)
  unfolding validate_token
  Total-validate t = record { at = λ w. tt }

  module _ (cfg : Config) where
    pub Total-save : (rec : TaskRecord) → Total Anything (save env cfg rec)
    unfolding save
    Total-save rec = record { at = λ w. tt }

    pub Total-load : (id : String) → Total Anything (load env cfg id)
    unfolding load
    Total-load id = record { at = λ w. tt }

    pub Total-classify : (kind : String) → Total Anything (classify env cfg kind)
    unfolding classify
    Total-classify kind = record { at = λ w. tt }

    pub Total-save_and_notify : (rec : TaskRecord) → Total Anything (save_and_notify env cfg rec)
    unfolding save_and_notify
    Total-save_and_notify rec = Total-bind _ _ (Total-save rec) (λ r _. Total-notify)

    pub Total-mark_failed : (rec : TaskRecord) → Total Anything (mark_failed env cfg rec)
    unfolding mark_failed
    Total-mark_failed rec = Total-save_and_notify _

pub ruleset total_rules = (
  Total-done, Total-raise, Total-step, Total-if, Total-ask, Total-perform, Total-notify,
  Total-get_resumer, Total-yield, Total-emit, Total-mint, Total-validate, Total-save, Total-load,
  Total-classify, Total-save_and_notify, Total-mark_failed,
)
