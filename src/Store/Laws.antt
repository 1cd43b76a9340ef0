-- ===== src/Store/Laws.antt =====
-- What Save, Load and Delete do to the records of an address (core/supervisor/store.go).
use Prim.Native.String.{len}
use text.Mathlib.TextPositions.{len-append}
use ai_solo_startup_framewor.Common.{
  String, Bool, ◌&&◌, ◌≡◌, refl, ap, true, false, Option, none, some, List, [], ◌∷◌, arith, ◌==◌,
  eq_iff, eq_self, length, ◌≤◌, if◌then◌else◌,
}
use ai_solo_startup_framewor.Common.Dict.{lookup, put, remove, lookup-put, lookup-remove}
use ai_solo_startup_framewor.Task.{TaskRecord}
use ai_solo_startup_framewor.Store.{
  Content, json, garbage, Disk, Faults, Result, StoreError, read_failed, load_after, ok, err,
  task_not_found, filename_for, tmp_of, decode, load_records, save_records, upsert, find, save,
  load, tick, without, delete,
}

-- The file of an address, with no operation of the file system.
abbrev pub file : String → Disk → Option Content
file addr d = lookup (filename_for addr) d.files

-- The records of an address.
abbrev pub view : String → Disk → Result (List TaskRecord)
unfolding decode
view addr d = decode (file addr d)

tmp-ne : (p : String) → (tmp_of p == p) ≡ false
tmp-ne p = ground (arith, eq_iff (tmp_of p) p, len-append p ".tmp", ap len)

pub find-upsert :
    (id : String) (rec : TaskRecord) (rs : List TaskRecord)
    → find id (upsert rec rs) ≡ (if rec.task_id == id then some rec else find id rs)
unfolding find upsert
find-upsert id rec [] = refl
find-upsert id rec (r ∷ rs) = ground (
  arith,
  find-upsert id rec rs,
  eq_iff r.task_id rec.task_id,
  eq_iff r.task_id id,
  eq_iff rec.task_id id,
)

abbrev pub is_ok {ℓ} : {A : Type ℓ} → Result A → Bool
is_ok (ok a) = true
is_ok (err e) = false

-- A save of records replaces the address's file whole if it succeeds, and changes no file but the
-- temporary one if it fails.
pub save_records-file :
    (faults : Faults) (addr q : String) (rs : List TaskRecord) (d : Disk)
    → (tmp_of (filename_for addr) == q) ≡ false
    → let r = save_records faults addr rs d in
      lookup q r.1.files
      ≡ (if is_ok r.0 && (filename_for addr == q) then some (json rs) else lookup q d.files)
unfolding save_records
save_records-file faults addr q rs d h =
    let p : String = filename_for addr in
    let t : String = tmp_of p in
    ground (
      arith,
      lookup-put t q garbage d.files,
      lookup-put t q (json rs) d.files,
      lookup-put t t (json rs) d.files,
      lookup-put p q (json rs) (remove t (put t (json rs) d.files)),
      lookup-remove t q (put t (json rs) d.files),
      eq_iff t t,
    )

find-without :
    (id j : String) (rs : List TaskRecord)
    → find j (without id rs) ≡ (if id == j then none else find j rs)
unfolding find without
find-without id j [] = ground arith
find-without id j (r ∷ rs) =
    ground (arith, find-without id j rs, eq_iff r.task_id id, eq_iff r.task_id j, eq_iff id j)

tmp-ne_self : (addr : String) → (tmp_of (filename_for addr) == filename_for addr) ≡ false
tmp-ne_self addr = tmp-ne (filename_for addr)

view-save_records :
    (faults : Faults) (addr : String) (rs : List TaskRecord) (d : Disk)
    → let r = save_records faults addr rs d in
      view addr r.1 ≡ (if is_ok r.0 then ok rs else view addr d)
unfolding decode
view-save_records faults addr rs d = ground (
  arith,
  save_records-file faults addr (filename_for addr) rs d (tmp-ne_self addr),
  eq_self (filename_for addr),
)

pub load_records-view :
    (faults : Faults) (addr : String) (d : Disk)
    → load_records faults addr d ≡ (if faults d.ops then err read_failed else view addr d, tick d)
unfolding load_records
load_records-view faults addr d = ground arith

-- Load with no fault, of a file's records.
load-view :
    (faults : Faults) (addr id : String) (d : Disk)
    → faults d.ops ≡ false
    → (load faults addr id d).0 ≡ load_after id (view addr d)
unfolding load
load-view faults addr id d h = rw (load_records-view, h)

module _ (faults : Faults) (addr : String) (rec : TaskRecord) (d : Disk) where
  load-save_at :
      (v : Result (List TaskRecord)) (d' : Disk) (id : String)
      → view addr d ≡ v
      → save faults addr rec d ≡ (ok tt, d')
      → load_after id (view addr d')
        ≡ (if rec.task_id == id then ok rec else load_after id (view addr d))
  unfolding save load_after decode
  load-save_at (ok rs) d' id v h = ground (
    arith,
    load_records-view faults addr d,
    view-save_records faults addr (upsert rec rs) (tick d),
    find-upsert id rec rs,
  )
  load-save_at (err e) d' id v h = ground (arith, load_records-view faults addr d)

  save_err-view :
      (v : Result (List TaskRecord)) (d' : Disk) (e : StoreError)
      → view addr d ≡ v
      → save faults addr rec d ≡ (err e, d')
      → view addr d' ≡ view addr d
  unfolding save decode
  save_err-view (ok rs) d' e v h = ground (
    arith,
    load_records-view faults addr d,
    view-save_records faults addr (upsert rec rs) (tick d),
  )
  save_err-view (err e') d' e v h = ground (arith, load_records-view faults addr d)

  pub save_ok-read : (d' : Disk) → save faults addr rec d ≡ (ok tt, d') → faults d.ops ≡ false
  unfolding save
  save_ok-read d' h = ground (arith, load_records-view faults addr d)

  -- After a save that succeeds, Load returns the saved record under its own task id, and under any
  -- other what it returned before.
  pub load-save :
      (d' : Disk) (id : String)
      → save faults addr rec d ≡ (ok tt, d')
      → faults d'.ops ≡ false
      → (load faults addr id d').0
        ≡ (if rec.task_id == id then ok rec else (load faults addr id d).0)
  load-save d' id h e =
      rw (load-view faults addr id d' e, load-view faults addr id d (save_ok-read d' h))
        (load-save_at _ d' id refl h)

  pub load-save_reads :
      (d' : Disk) (id : String) (reads : Faults)
      → save faults addr rec d ≡ (ok tt, d')
      → reads d.ops ≡ false
      → reads d'.ops ≡ false
      → (load reads addr id d').0 ≡ (if rec.task_id == id then ok rec else (load reads addr id d).0)
  load-save_reads d' id reads h f g =
      rw (load-view reads addr id d' g, load-view reads addr id d f) (load-save_at _ d' id refl h)

  -- A save that fails, at whatever step, its own read included, changes no record: a Load whose own
  -- read succeeds returns after it what a Load whose own read succeeds returned before it.
  pub load-save_err :
      (d' : Disk) (e : StoreError) (id : String) (reads : Faults)
      → save faults addr rec d ≡ (err e, d')
      → reads d.ops ≡ false
      → reads d'.ops ≡ false
      → (load reads addr id d').0 ≡ (load reads addr id d).0
  load-save_err d' e id reads h f g =
      rw (load-view reads addr id d' g, load-view reads addr id d f)
        (ap (load_after id) (save_err-view _ d' e refl h))

length-without : (id : String) (rs : List TaskRecord) → length (without id rs) ≤ length rs
unfolding without
length-without id [] = omega arith
length-without id (r ∷ rs) = ground (arith, length-without id rs)

without_all :
    (id : String) (rs : List TaskRecord) → length (without id rs) ≡ length rs → without id rs ≡ rs
unfolding without
without_all id [] h = refl
without_all id (r ∷ rs) h = ground (arith, length-without id rs, without_all id rs)

module _ (faults : Faults) (addr id : String) (d : Disk) where
  load-delete_at :
      (v : Result (List TaskRecord)) (d' : Disk) (j : String)
      → view addr d ≡ v
      → delete faults addr id d ≡ (ok tt, d')
      → load_after j (view addr d')
        ≡ (if id == j then err task_not_found else load_after j (view addr d))
  unfolding delete load_after decode
  load-delete_at (ok rs) d' j v h = ground (
    arith,
    load_records-view faults addr d,
    view-save_records faults addr (without id rs) (tick d),
    find-without id j rs,
    without_all id rs,
  )
  load-delete_at (err e) d' j v h = ground (arith, load_records-view faults addr d)

  delete_ok-read : (d' : Disk) → delete faults addr id d ≡ (ok tt, d') → faults d.ops ≡ false
  unfolding delete
  delete_ok-read d' h = ground (arith, load_records-view faults addr d)

  -- After a delete that succeeds, Load finds no record of the task, and returns of any other task
  -- what it returned before.
  pub load-delete :
      (d' : Disk) (j : String)
      → delete faults addr id d ≡ (ok tt, d')
      → faults d'.ops ≡ false
      → (load faults addr j d').0
        ≡ (if id == j then err task_not_found else (load faults addr j d).0)
  load-delete d' j h e =
      rw (load-view faults addr j d' e, load-view faults addr j d (delete_ok-read d' h))
        (load-delete_at _ d' j refl h)

-- No task has two records.
abbrev pub Distinct : List TaskRecord → Type 0
Distinct [] = Unit
Distinct (r ∷ rs) = (find r.task_id rs ≡ none) × Distinct rs

-- The loop of Save keeps the records of different tasks, one each.
pub upsert-Distinct :
    (rec : TaskRecord) (rs : List TaskRecord) → Distinct rs → Distinct (upsert rec rs)
unfolding upsert find
upsert-Distinct rec [] h = ground arith
upsert-Distinct rec (r ∷ rs) h = ground (
  arith,
  upsert-Distinct rec rs h.1,
  find-upsert r.task_id rec rs,
  eq_iff r.task_id rec.task_id,
  eq_iff rec.task_id r.task_id,
)
