-- ===== src/Ui/Company.antt =====
-- companyUIAdapter of cmd/company/company_ui.go: the supervisors of a company behind one user
-- interface. base64url is a parameter.
use Prim.Native.String.{◌++◌ as ◌+s+◌}
use ai_solo_startup_framewor.Common.{
  String, Bool, true, false, Option, none, some, List, [], ◌∷◌, ◌++◌, ◌==◌, ◌&&◌, if◌then◌else◌,
}
use ai_solo_startup_framewor.Task.{Protocol, TaskRecord}
use ai_solo_startup_framewor.Ui.Adapter.{
  UiTask, Called, Runtime, refused, list_failed, not_input_required, task_not_found,
  runtime_list_tasks, runtime_post_verdict, runtime_send_task, runtime_follow_up,
}

-- The runtimes of a company: the first is the CEO's, and the list is not empty.
pub record Company : Type 0 where
  pub ceo : Runtime
  pub others : List Runtime

abbrev pub runtimes : Company → List Runtime
runtimes c = c.ceo ∷ c.others

abbrev pub is_single : List Runtime → Bool
is_single [] = true
is_single (rt ∷ rts) = false

module _ (encode : String → String) (protocol : Protocol) (c : Company) where
  -- verdictID
  unfoldable pub verdict_id : String → String → String
  verdict_id agent task =
      if is_single c.others then task else encode agent +s+ ("." +s+ encode task)

  -- The record that ListTasks makes of a listed one.
  unfoldable pub qualify : Bool → String → UiTask → UiTask
  unfolding verdict_id
  qualify first agent t = record t {
    agent = agent;
    verdict_id = verdict_id agent t.task_id;
    can_follow_up = first && protocol.terminal t.state;
    follow_up_of = if t.follow_up_of == "" then "" else verdict_id agent t.follow_up_of;
  }

  unfoldable pub qualify_all : Bool → String → List UiTask → List UiTask
  unfolding qualify
  qualify_all first agent [] = []
  qualify_all first agent (t ∷ ts) = qualify first agent t ∷ qualify_all first agent ts

  unfoldable pub add_listed : Option (List UiTask) → Option (List UiTask) → Option (List UiTask)
  add_listed none rest = none
  add_listed (some ts) none = none
  add_listed (some ts) (some us) = some (ts ++ us)

  unfoldable pub qualified : Bool → Runtime → Option (List UiTask) → Option (List UiTask)
  unfolding qualify_all
  qualified first rt none = none
  qualified first rt (some ts) = some (qualify_all first rt.name ts)

  unfoldable pub list_from : Bool → List Runtime → Option (List UiTask)
  unfolding add_listed qualified runtime_list_tasks
  list_from first [] = some []
  list_from first (rt ∷ rts) =
      add_listed (qualified first rt (runtime_list_tasks rt)) (list_from false rts)

  -- ListTasks
  unfoldable pub list_tasks : Option (List UiTask)
  unfolding list_from
  list_tasks = list_from true (runtimes c)

  -- The task of an agent that has this verdict ID.
  unfoldable pub task_with : String → String → List TaskRecord → Option String
  unfolding verdict_id
  task_with id agent [] = none
  task_with id agent (r ∷ rs) =
      if verdict_id agent r.task_id == id then some r.task_id else task_with id agent rs

  unfoldable pub post_found : Bool → Runtime → Option String → Called → Called
  unfolding runtime_post_verdict
  post_found approve rt none rest = rest
  post_found approve rt (some task) rest = runtime_post_verdict rt task approve

  unfoldable pub post_listed : String → Bool → Runtime → Option (List TaskRecord) → Called → Called
  unfolding post_found task_with
  post_listed id approve rt none rest = refused list_failed
  post_listed id approve rt (some rs) rest = post_found approve rt (task_with id rt.name rs) rest

  unfoldable pub post_from : String → Bool → List Runtime → Called
  unfolding post_listed
  post_from id approve [] = refused not_input_required
  post_from id approve (rt ∷ rts) = post_listed id approve rt rt.tasks (post_from id approve rts)

  -- PostVerdict
  unfoldable pub post_verdict : String → Bool → Called
  unfolding post_from
  post_verdict id approve = post_from id approve (runtimes c)

  -- SendTask
  unfoldable pub send_task : String → Called
  unfolding runtime_send_task
  send_task text = runtime_send_task c.ceo text

  unfoldable pub follow_found : String → Option String → Called
  unfolding runtime_follow_up
  follow_found text none = refused task_not_found
  follow_found text (some task) = runtime_follow_up protocol c.ceo task text

  unfoldable pub follow_listed : String → String → Option (List TaskRecord) → Called
  unfolding follow_found task_with
  follow_listed id text none = refused list_failed
  follow_listed id text (some rs) = follow_found text (task_with id c.ceo.name rs)

  -- FollowUp
  unfoldable pub follow_up : String → String → Called
  unfolding follow_listed
  follow_up id text = follow_listed id text c.ceo.tasks
