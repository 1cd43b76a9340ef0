-- ===== src/Store/Isolation.antt =====
-- Operations on one address leave the records of the others alone (core/supervisor/store.go).
use ai_solo_startup_framewor.Common.{String, ◌≡◌, ◌≢◌, ◌∙◌, refl, false, List, arith, eq_iff, ◌==◌}
use ai_solo_startup_framewor.Task.{TaskRecord}
use ai_solo_startup_framewor.Store.{
  Disk, Faults, Result, ok, err, filename_for, tmp_of, load_records, save_records, save, load,
  save_after,
}
use ai_solo_startup_framewor.Store.Laws.{file, save_records-file, load_records-view}
use ai_solo_startup_framewor.Store.Names.{tmp_of-ne-filename_for}

module _ (faults : Faults) (addr b : String) (apart : filename_for addr ≢ filename_for b) where
  names-differ : (filename_for addr == filename_for b) ≡ false
  names-differ = ground (arith, eq_iff (filename_for addr) (filename_for b), apart)

  tmp-differs : (tmp_of (filename_for addr) == filename_for b) ≡ false
  tmp-differs =
      ground
        (arith, eq_iff (tmp_of (filename_for addr)) (filename_for b), tmp_of-ne-filename_for addr b)

  save_records-other :
      (rs : List TaskRecord) (d : Disk) → file b (save_records faults addr rs d).1 ≡ file b d
  save_records-other rs d =
      ground (arith, save_records-file faults addr (filename_for b) rs d tmp-differs, names-differ)

  load_records-other : (d : Disk) → file b (load_records faults addr d).1 ≡ file b d
  load_records-other d = ground (arith, load_records-view faults addr d)

  save_after-other :
      (rec : TaskRecord) (r : Result (List TaskRecord)) (d : Disk)
      → file b (save_after faults addr rec r d).1 ≡ file b d
  unfolding save_after
  save_after-other rec (ok rs) d = save_records-other _ d
  save_after-other rec (err e) d = refl

  pub save-other : (rec : TaskRecord) (d : Disk) → file b (save faults addr rec d).1 ≡ file b d
  unfolding save
  save-other rec d = save_after-other rec _ _ ∙ load_records-other d

  pub load-other : (id : String) (d : Disk) → file b (load faults addr id d).1 ≡ file b d
  unfolding load
  load-other id d = load_records-other d
