-- ===== src/Store/Saved.antt =====
-- What a task loads after a save, whether the save succeeded or not (core/supervisor/store.go).
use ai_solo_startup_framewor.Common.{
  String, ◌&&◌, ◌≡◌, ◌∙◌, refl, true, false, ◌==◌, eq_self, if◌then◌else◌,
}
use ai_solo_startup_framewor.Task.{TaskRecord}
use ai_solo_startup_framewor.Store.{Disk, Faults, Result, ok, err, save, load}
use ai_solo_startup_framewor.Store.Laws.{is_ok, load-save_reads, load-save_err, save_ok-read}

module _ (faults : Faults) (addr : String) (rec : TaskRecord) (d : Disk) (id : String)
    (reads : Faults) (before : reads d.ops ≡ false) where
  load-saved_as :
      (r : Result (Unit {0})) (d' : Disk)
      → save faults addr rec d ≡ (r, d')
      → reads d'.ops ≡ false
      → (load reads addr id d').0
        ≡ (if is_ok r && (rec.task_id == id) then ok rec else (load reads addr id d).0)
  load-saved_as (ok tt) d' h g = load-save_reads faults addr rec d d' id reads h before g
  load-saved_as (err e) d' h g = load-save_err faults addr rec d d' e id reads h before g

  -- What Load returns after a save, whether the save succeeded or not.
  pub load-saved :
      reads (save faults addr rec d).1.ops ≡ false
      → (load reads addr id (save faults addr rec d).1).0 ≡ (
          if is_ok (save faults addr rec d).0 && (rec.task_id == id)
          then ok rec
          else (load reads addr id d).0)
  load-saved g = load-saved_as (save faults addr rec d).0 (save faults addr rec d).1 refl g

module _ (faults : Faults) (addr : String) (rec : TaskRecord) (d : Disk) where
  saved-read :
      (r : Result (Unit {0})) (d' : Disk)
      → save faults addr rec d ≡ (r, d')
      → is_ok r ≡ true
      → faults d.ops ≡ false
  saved-read (ok tt) d' h s = save_ok-read faults addr rec d d' h
  saved-read (err e) d' h s = cc

  -- A record that was saved is the one that its task loads.
  pub load-saved_own :
      is_ok (save faults addr rec d).0 ≡ true
      → faults (save faults addr rec d).1.ops ≡ false
      → (load faults addr rec.task_id (save faults addr rec d).1).0 ≡ ok rec
  load-saved_own s g =
      let before = saved-read _ _ refl s in
      load-saved faults addr rec d rec.task_id faults before g ∙ rw (s, eq_self rec.task_id) refl
