-- ===== src/Tests/Data.antt =====
-- The data components at concrete inputs: addresses, policies, transcripts, the lifecycle machine
-- and the store.
use ai_solo_startup_framewor.Common.{
  ◌≤◌, ◌≡◌, refl, ◌↔◌, String, true, false, if◌then◌else◌, [], ◌∷◌, arith, eqb, ◌==◌, contains,
}
use ai_solo_startup_framewor.Address
use ai_solo_startup_framewor.Address.{ok, new, parse, name, tenant}
use ai_solo_startup_framewor.Policy.{ResultKind, validate, classify, mint}
use ai_solo_startup_framewor.Policy.Laws.{Declared, is_permit, validate_once, classify_decides}
use ai_solo_startup_framewor.Context.{total, assemble_bounded_context}
use ai_solo_startup_framewor.Context.Bound.{assemble_bounded_context_bound}
use ai_solo_startup_framewor.Fsm
use ai_solo_startup_framewor.Fsm.{State, Fsm, new_fsm}
use ai_solo_startup_framewor.Fsm.Laws.{
  ready, started, done, drain, run, IsSound, run-IsSound, new_fsm-IsSound,
}
use ai_solo_startup_framewor.Common.Dict.{lookup, put, remove}
use ai_solo_startup_framewor.Task.{new_record}
use ai_solo_startup_framewor.Store
use ai_solo_startup_framewor.Store.{
  filename_for, Faults, write_failed, rename_failed, task_not_found, save, load, delete, upsert,
  Disk, Content, json,
}
use ai_solo_startup_framewor.Store.Laws.{load-save, load-save_err}
use ai_solo_startup_framewor.Store.Names.{filename-injective}
use ai_solo_startup_framewor.Tests.Samples.{
  policies, no_faults, empty_disk, task, parked_task, says,
}

run-IsSound_example : IsSound (run new_fsm (ready ∷ started ∷ started ∷ drain ∷ done ∷ []))
unfolding new_fsm Fsm.ready Fsm.task_started
run-IsSound_example =
    run-IsSound new_fsm (ready ∷ started ∷ started ∷ drain ∷ done ∷ []) new_fsm-IsSound
      (tt, (tt, tt))

busy : Fsm
busy = record { state = State.working; workers = 2 }

assemble_bounded_context_bound_example :
    total (assemble_bounded_context (says "user" "abc" ∷ says "assistant" "de" ∷ []) 60).messages
    ≤ 60
assemble_bounded_context_bound_example =
    assemble_bounded_context_bound (says "user" "abc" ∷ says "assistant" "de" ∷ []) 60 (omega arith)
      (omega arith)

validate_once_example :
    ((validate "t" ("t" ∷ [])).0 ≡ contains ("t" ∷ []) "t")
    × ((validate "u" (validate "t" ("t" ∷ [])).1).0
        ≡ (if "t" == "u" then false else (validate "u" ("t" ∷ [])).0))
validate_once_example = validate_once "t" "u" ("t" ∷ [])

classify_decides_example :
    let r = classify policies "send_message" "cmo" "t" [] in
    ((r.0.kind ≡ ResultKind.permit) ↔ Declared policies "send_message" "cmo" false)
    × ((r.0.kind ≡ ResultKind.escalate) ↔ Declared policies "send_message" "cmo" true)
    × (r.0.approval_token ≡ (if is_permit r.0.kind then "t" else ""))
    × (r.1 ≡ (if is_permit r.0.kind then mint "t" [] else []))
classify_decides_example = classify_decides policies "send_message" "cmo" "t" []

saved_disk : Disk
saved_disk = record { files = ("cmo__acme.json", json (task ∷ [])) ∷ []; ops = 4 }

save_example : save no_faults "cmo/acme" task empty_disk ≡ (Store.ok tt, saved_disk)
unfolding save saved_disk Store.load_records Store.save_records Store.upsert lookup put remove
    filename_for
save_example = refl

load-save_example : (load no_faults "cmo/acme" "t1" saved_disk).0 ≡ (
    if task.task_id == "t1" then Store.ok task else (load no_faults "cmo/acme" "t1" empty_disk).0)
load-save_example = load-save no_faults "cmo/acme" task empty_disk saved_disk "t1" save_example refl

-- The rename of the next save fails.
no_rename : Faults
no_rename n = eqb n 7

torn_disk : Disk
torn_disk = record {
  files = ("cmo__acme.json.tmp", json (parked_task ∷ [])) ∷ saved_disk.files;
  ops = 8;
}

failed_save_example :
    save no_rename "cmo/acme" parked_task saved_disk ≡ (Store.err rename_failed, torn_disk)
unfolding save saved_disk torn_disk no_rename Store.load_records Store.save_records Store.upsert
    new_record lookup put remove filename_for
failed_save_example = refl

load-save_err_example :
    (load no_faults "cmo/acme" "t1" torn_disk).0 ≡ (load no_faults "cmo/acme" "t1" saved_disk).0
load-save_err_example =
    load-save_err no_rename "cmo/acme" parked_task saved_disk torn_disk rename_failed "t1" no_faults
      failed_save_example refl refl

emptied_disk : Disk
emptied_disk = record { files = ("cmo__acme.json", json []) ∷ []; ops = 8 }

delete_example : delete no_faults "cmo/acme" "t1" saved_disk ≡ (Store.ok tt, emptied_disk)
unfolding delete saved_disk emptied_disk Store.load_records Store.save_records Store.without
    new_record lookup put remove filename_for
delete_example = refl

filename-injective_example : ◌≡◌ {A = String} "cmo" "cmo"
unfolding new Address.has_slash
filename-injective_example =
    filename-injective "cmo" "cmo" "acme" "cmo/acme" "cmo/acme" refl refl refl
