-- ===== src/Store.antt =====
-- core/supervisor/store.go: task records in JSON files, one for each address. A file holds what
-- json.Marshal wrote, or bytes that are not such a text. Every operation of the file system and of
-- the encoder may fail: the `n`-th one does if `faults n` holds.
pub mod Names
pub mod Laws
pub mod Saved
pub mod Isolation
use Prim.Native.String.{◌++◌ as ◌+s+◌}
use ai_solo_startup_framewor.Common.{
  ℕ, suc, String, Bool, true, false, not, Option, none, some, List, [], ◌∷◌, ◌++◌, ◌==◌, keep_if,
  length, eqb, if◌then◌else◌,
}
use ai_solo_startup_framewor.Common.Dict.{Dict, lookup, put, remove}
use ai_solo_startup_framewor.Task.{TaskRecord}
use ai_solo_startup_framewor.Address.{is_slash}

pub data Content : Type 0 where
  json : List TaskRecord → Content
  garbage : Content

-- The store's directory, and the number of operations that were tried so far.
pub record Disk : Type 0 where
  pub files : Dict Content
  pub ops : ℕ

abbrev pub Faults : Type 0
Faults = ℕ → Bool

pub data StoreError : Type 0 where
  task_not_found read_failed unmarshal_failed marshal_failed write_failed rename_failed : StoreError

pub data Result {ℓ} (A : Type ℓ) : Type ℓ where
  ok : A → Result A
  err : StoreError → Result A

-- strings.ReplaceAll(addr, "/", "__")
unfoldable pub replace_slashes : String → String
replace_slashes String.[] = ""
replace_slashes (String.◌∷◌ c s) =
    if is_slash c then "__" +s+ replace_slashes s else String.◌∷◌ c (replace_slashes s)

-- filenameFor; the path is this name in the store's directory.
unfoldable pub filename_for : String → String
unfolding replace_slashes
filename_for addr = replace_slashes addr +s+ ".json"

abbrev pub tmp_of : String → String
tmp_of p = p +s+ ".tmp"

abbrev pub tick : Disk → Disk
tick d = record d { ops = suc d.ops }

-- json.Unmarshal of a file that was read; no file is the empty slice.
decode : Option Content → Result (List TaskRecord)
decode none = ok []
decode (some (json rs)) = ok rs
decode (some garbage) = err unmarshal_failed

-- Store.load: os.ReadFile, then json.Unmarshal.
unfoldable pub load_records : Faults → String → Disk → Result (List TaskRecord) × Disk
unfolding decode
load_records faults addr d =
    if faults d.ops
    then (err read_failed, tick d)
    else (decode (lookup (filename_for addr) d.files), tick d)

-- os.WriteFile of the temporary file: a failed write may leave a part of the bytes.
write_file : Faults → String → Content → Disk → Bool × Disk
write_file faults p c d =
    if faults d.ops
    then (false, record { files = put p garbage d.files; ops = suc d.ops })
    else (true, record { files = put p c d.files; ops = suc d.ops })

move : Option Content → String → String → Dict Content → Bool × Dict Content
move none from to files = (false, files)
move (some c) from to files = (true, put to c (remove from files))

-- os.Rename: it replaces the target, or changes nothing.
rename : Faults → String → String → Disk → Bool × Disk
unfolding move
rename faults from to d =
    if faults d.ops
    then (false, tick d)
    else (let r = move (lookup from d.files) from to d.files in
        (r.0, record { files = r.1; ops = suc d.ops }))

-- Store.save: marshal, write the temporary file, rename it.
rename_step : Faults → String → Disk → Result (Unit {0}) × Disk
unfolding rename
rename_step faults p d =
    let r = rename faults (tmp_of p) p d in if r.0 then (ok tt, r.1) else (err rename_failed, r.1)

write_step : Faults → String → List TaskRecord → Disk → Result (Unit {0}) × Disk
unfolding write_file rename_step
write_step faults p rs d =
    let r = write_file faults (tmp_of p) (json rs) d in
    if r.0 then rename_step faults p r.1 else (err write_failed, r.1)

unfoldable pub save_records : Faults → String → List TaskRecord → Disk → Result (Unit {0}) × Disk
unfolding write_step
save_records faults addr rs d =
    if faults d.ops
    then (err marshal_failed, tick d)
    else write_step faults (filename_for addr) rs (tick d)

-- The loop of Save: replace the first record of the task, or append.
unfoldable pub upsert : TaskRecord → List TaskRecord → List TaskRecord
upsert rec [] = rec ∷ []
upsert rec (r ∷ rs) = if r.task_id == rec.task_id then rec ∷ rs else r ∷ upsert rec rs

-- The loop of Load.
unfoldable pub find : String → List TaskRecord → Option TaskRecord
find id [] = none
find id (r ∷ rs) = if r.task_id == id then some r else find id rs

unfoldable pub save_after :
    Faults → String → TaskRecord → Result (List TaskRecord) → Disk → Result (Unit {0}) × Disk
save_after faults addr rec (ok rs) d = save_records faults addr (upsert rec rs) d
save_after faults addr rec (err e) d = (err e, d)

-- Store.Save
unfoldable pub save : Faults → String → TaskRecord → Disk → Result (Unit {0}) × Disk
unfolding save_after
save faults addr rec d = let r = load_records faults addr d in save_after faults addr rec r.0 r.1

found : Option TaskRecord → Result TaskRecord
found none = err task_not_found
found (some r) = ok r

load_after : String → Result (List TaskRecord) → Result TaskRecord
unfolding found
load_after id (ok rs) = found (find id rs)
load_after id (err e) = err e

-- Store.Load
unfoldable pub load : Faults → String → String → Disk → Result TaskRecord × Disk
unfolding load_after
load faults addr id d = let r = load_records faults addr d in (load_after id r.0, r.1)

-- Store.LoadAll
unfoldable pub load_all : Faults → String → Disk → Result (List TaskRecord) × Disk
load_all faults addr d = load_records faults addr d

-- The loop of Delete.
unfoldable pub without : String → List TaskRecord → List TaskRecord
without id rs = keep_if (λ r. not (r.task_id == id)) rs

unfoldable pub delete_after :
    Faults → String → String → Result (List TaskRecord) → Disk → Result (Unit {0}) × Disk
delete_after faults addr id (err e) d = (err e, d)
delete_after faults addr id (ok rs) d =
    if eqb (length (without id rs)) (length rs)
    then (ok tt, d)
    else save_records faults addr (without id rs) d

-- Store.Delete
unfoldable pub delete : Faults → String → String → Disk → Result (Unit {0}) × Disk
unfolding delete_after
delete faults addr id d = let r = load_records faults addr d in delete_after faults addr id r.0 r.1
