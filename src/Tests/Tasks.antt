-- ===== src/Tests/Tasks.antt =====
-- The supervisor at concrete inputs: a task whose provider sends a message and then wants to post.
use Prim.Native.String.{len}
use ai_solo_startup_framewor.Common.{◌≡◌, ◌≢◌, refl, inl, [], arith, ap}
use ai_solo_startup_framewor.Fsm.Laws.{IsSound}
use ai_solo_startup_framewor.Store.{filename_for}
use ai_solo_startup_framewor.Store.Laws.{file}
use ai_solo_startup_framewor.Common.{◌+◌, true, ◌∷◌, ◌++◌, map, length, keep_if}
use ai_solo_startup_framewor.Common.Dict.{lookup, put}
use ai_solo_startup_framewor.Store
use ai_solo_startup_framewor.Task.{TaskState, TaskRecord, new_record}
use ai_solo_startup_framewor.Supervisor.FollowUp.{seeded, seed_record, seed_follow_up}
use ai_solo_startup_framewor.Supervisor.Recovery.{
  filter_working_tasks, filter_input_required_tasks, recover_open_tasks,
}
use ai_solo_startup_framewor.Supervisor.Recovery.Partition.{
  after, resubmission, registration, recover_open_tasks-partition,
}
use ai_solo_startup_framewor.Common.{◌⊎◌}
use ai_solo_startup_framewor.Common.{contains}
use ai_solo_startup_framewor.Policy.Laws.{Declared}
use ai_solo_startup_framewor.Task.{PendingIntent}
use ai_solo_startup_framewor.Supervisor.Intents.{run_intents}
use ai_solo_startup_framewor.Supervisor.Intents.Escalate.{run_intents-escalated_record}
use ai_solo_startup_framewor.Tests.Samples.{policies}
use ai_solo_startup_framewor.Supervisor.Watchers.{watch_tick}
use ai_solo_startup_framewor.Supervisor.Watchers.Wake.{Woken, watch_tick-Woken}
use ai_solo_startup_framewor.Supervisor.World.{polled, ret, load, ask}
use ai_solo_startup_framewor.Supervisor.Resume.{resume_record}
use ai_solo_startup_framewor.Supervisor.Execute.{execute}
use ai_solo_startup_framewor.Supervisor.Safety.{
  Since, ByPolicy, ByVerdict, execute_acts-ByPolicy, resume_acts-ByVerdict,
}
use ai_solo_startup_framewor.Supervisor.Frame.{execute_leaves_other_files, execute_returns_worker}
use ai_solo_startup_framewor.Supervisor.Total.Execute.{execute_returns}
use ai_solo_startup_framewor.Tests.Samples.{
  config, env, world, context, parked_task, ended_task, task, stored_disk, stored_world, no_faults,
  is_terminal,
}

execute_acts-ByPolicy_example : Since (ByPolicy config) [] (execute env config context world).1
execute_acts-ByPolicy_example = execute_acts-ByPolicy env config context world refl

resume_acts-ByVerdict_example :
    ByVerdict config parked_task "approve" []
      (resume_record env config parked_task "approve" world).1
resume_acts-ByVerdict_example = resume_acts-ByVerdict env config parked_task "approve" world

execute_returns_example : (execute env config context world).0 ≡ ret tt
execute_returns_example = execute_returns env config context world

files_apart : filename_for "cmo/acme" ≢ filename_for "designer/acme"
unfolding filename_for
files_apart e = ground (arith, ap len e)

execute_leaves_other_files_example :
    file "designer/acme" (execute env config context world).1.disk ≡ file "designer/acme" world.disk
execute_leaves_other_files_example =
    execute_leaves_other_files env config context world "designer/acme" files_apart

idle_IsSound : IsSound world.fsm
idle_IsSound = grind arith

execute_returns_worker_example : (execute env config context world).1.fsm ≡ world.fsm
execute_returns_worker_example =
    execute_returns_worker env config context world idle_IsSound (inl refl)

all_found :
    (Store.load_all no_faults "cmo/acme" stored_disk).0 ≡ Store.ok (ended_task ∷ parked_task ∷ [])
unfolding Store.load_all Store.load_records lookup filename_for
all_found = refl

recover_open_tasks-partition_example :
    let rs = ended_task ∷ parked_task ∷ [] in
    let working = filter_working_tasks env config rs in
    let parked = filter_input_required_tasks rs in
    ((recover_open_tasks env config stored_world).1.effects
      ≡ after (map resubmission working ++ map registration parked) [])
    × (length working + (length parked + length (keep_if (λ r. is_terminal r.state) rs))
        ≡ length rs)
recover_open_tasks-partition_example =
    recover_open_tasks-partition env config (ended_task ∷ parked_task ∷ []) stored_world all_found

follow_up_found :
    (seed_follow_up env config task ("t0" ∷ []) stored_world).0
    ≡ ret (seeded (seed_record env config task ended_task "t0" 0))
unfolding seed_follow_up load ask Store.load Store.load_records lookup filename_for Store.find
    new_record
follow_up_found = refl

watch_tick-Woken_example :
    let new = (watch_tick env config "t1" "cto" "p1" stored_world).1.effects in
    (new ≡ [])
    ⊎ ((new ≡ polled "cto" "p1" ∷ []) ⊎ Woken env config "t1" "cto" "p1" stored_world new)
watch_tick-Woken_example = watch_tick-Woken env config "t1" "cto" "p1" stored_world

posts : PendingIntent
posts = record { kind = "post"; body = "news"; target = "" }

post_is_risky : Declared policies posts.kind "cmo" true
unfolding lookup contains posts
post_is_risky = record {
  entry = record { risk = "risky"; allowed_roles = "cmo" ∷ [] };
  found = refl;
  allowed = refl;
  risk = refl;
}

-- The record of the task that waits for the verdict on the first post.
abbrev waiting_task : TaskRecord
waiting_task = record task {
  state = TaskState.input_required;
  pending_intent_kind = "post";
  pending_intent_body = "news";
  pending_intent_target = "";
  remaining_intents = posts ∷ [];
}

run_intents-escalated_record_example :
    let w' = (run_intents env config (posts ∷ posts ∷ []) task world).1 in
    (w'.effects ≡ [])
    × (w'.issued ≡ [])
    × ((Store.load no_faults "cmo/acme" "t1" w'.disk).0 ≡ Store.ok waiting_task)
unfolding posts Store.save Store.load_records lookup Store.save_records put filename_for new_record
run_intents-escalated_record_example =
    run_intents-escalated_record env config posts (posts ∷ []) task world "t1" no_faults
      post_is_risky refl refl
