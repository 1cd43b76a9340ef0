-- ===== src/Tests/Screens.antt =====
-- The user interface at concrete inputs.
use Prim.Native.Char.{Char, code}
use package.text.Mathlib.TextEquality.{Char-path}
use ai_solo_startup_framewor.Common.{
  All, List, eqb, ap, sym, ◌∙◌, Bool-cases, ◌≡◌, refl, String, true, false, some, [], ◌∷◌, arith,
  inl, inr, if◌then◌else◌,
}
use ai_solo_startup_framewor.Task.{new_record}
use ai_solo_startup_framewor.Ui.Events.{
  new_ui_handler, UiStep, sent, connected, received, ui_steps, sent_since, IsServed,
}
use ai_solo_startup_framewor.Ui.Served.{ui_steps-IsServed}
use ai_solo_startup_framewor.Ui.Adapter.{Runtime, find_task, not_terminal, ui_task}
use ai_solo_startup_framewor.Ui.Company.{Company, runtimes, follow_up, qualify, post_verdict}
use ai_solo_startup_framewor.Ui.Routing.{has_dot, follow_up-mirrors}
use ai_solo_startup_framewor.Ui.Verdicts.{IsRouted, post_verdict-IsRouted}
use ai_solo_startup_framewor.Tests.Samples.{protocol, parked_task, ended_task}

-- Two agents, and an encoding that adds nothing.
abbrev runtime : String → Runtime
runtime name = record {
  name = name;
  tenant = "acme";
  tasks = some (parked_task ∷ ended_task ∷ []);
  takes_message = true;
}

abbrev company : Company
company = record { ceo = runtime "ceo"; others = runtime "dev" ∷ [] }

post_verdict-IsRouted_example :
    IsRouted
      (λ s. s)
      protocol
      company
      "dev.task-1"
      true
      (runtimes company)
      (post_verdict (λ s. s) protocol company "dev.task-1" true)
post_verdict-IsRouted_example = post_verdict-IsRouted (λ s. s) protocol company "dev.task-1" true

-- An injective encoding without dots: "_p" stands for a dot and "_u" for a low line.
abbrev escape : String → String
escape String.[] = ""
escape (String.◌∷◌ c s) =
    if eqb (code c) b'.'
    then String.◌∷◌ "_" (String.◌∷◌ "p" (escape s))
    else if eqb (code c) b'_'
    then String.◌∷◌ "_" (String.◌∷◌ "u" (escape s))
    else String.◌∷◌ c (escape s)

abbrev unescape : String → String
unescape String.[] = ""
unescape (String.◌∷◌ c String.[]) = String.◌∷◌ c ""
unescape (String.◌∷◌ c (String.◌∷◌ d s)) =
    let after = unescape s in
    let next = unescape (String.◌∷◌ d s) in
    if eqb (code c) b'_'
    then String.◌∷◌ (if eqb (code d) b'p' then "." else "_") after
    else String.◌∷◌ c next

unescape_plain :
    (c : Char) (s : String)
    → eqb (code c) b'_' ≡ false
    → unescape (String.◌∷◌ c s) ≡ String.◌∷◌ c (unescape s)
unescape_plain c String.[] h = refl
unescape_plain c (String.◌∷◌ d s) h = rw h refl

unescape-escape : (s : String) → unescape (escape s) ≡ s
unescape-escape String.[] = refl
unescape-escape (String.◌∷◌ c s) = elim (Bool-cases (eqb (code c) b'.')) [
  | inl e ↦
      let p : c ≡ "." = Char-path c "." (ground (arith, e)) in
      rw (e, unescape-escape s) (ap (λ x. String.◌∷◌ x s) (sym p))
  | inr e ↦ elim (Bool-cases (eqb (code c) b'_')) [
    | inl f ↦
        let p : c ≡ "_" = Char-path c "_" (ground (arith, f)) in
        rw (e, f, unescape-escape s) (ap (λ x. String.◌∷◌ x s) (sym p))
    | inr f ↦ rw (e, f, unescape_plain c (escape s) f, unescape-escape s) refl
  ]
]

escape-injective : (s t : String) → escape s ≡ escape t → s ≡ t
escape-injective s t e = sym (unescape-escape s) ∙ ap unescape e ∙ unescape-escape t

escape-has_dot : (s : String) → has_dot (escape s) ≡ false
unfolding has_dot
escape-has_dot String.[] = refl
escape-has_dot (String.◌∷◌ c s) = elim (Bool-cases (eqb (code c) b'.')) [
  | inl e ↦ rw e (escape-has_dot s)
  | inr e ↦ rw e (elim (Bool-cases (eqb (code c) b'_')) [
    | inl f ↦ rw f (escape-has_dot s)
    | inr f ↦ rw (f, e) (escape-has_dot s)
  ])
]

follow_up-mirrors_example :
    (follow_up escape protocol company
      (qualify escape protocol company true "ceo" (ui_task parked_task)).verdict_id
      "once more").error
    ≡ some not_terminal
unfolding find_task qualify new_record ui_task
follow_up-mirrors_example =
    follow_up-mirrors escape protocol company escape-injective escape-has_dot "once more"
      (parked_task ∷ ended_task ∷ []) parked_task refl refl

-- Two clients, the second of whom comes late and is not written to.
abbrev event_steps : List UiStep
event_steps = connected ∷ sent "a" ∷ connected ∷ sent "b" ∷ received 0 ∷ []

ui_steps-IsServed_example :
    All
      (λ c. IsServed (sent_since 0 (λ j. []) event_steps c.number) c)
      (ui_steps event_steps new_ui_handler).clients
ui_steps-IsServed_example = ui_steps-IsServed event_steps
