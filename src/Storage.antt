-- ===== src/Storage.antt =====
-- storage.py: `write_atomic` as the system calls it makes. A call may return, raise an OSError or an
-- interrupt, or be the last one before a crash; one that does not return may have had its effect or
-- not, and a write that does not return leaves any prefix of the data. `read` has no outcomes of its
-- own: its calls are taken to succeed on a file that is there.
pub mod Triple
pub mod Crash
pub mod Calm
pub mod Cleanup
use mathlib.Core.Bool.{◌||◌}
use secure_vault.Prelude.{
  ℕ, zero, suc, ◌+◌, Bool, true, false, Option, none, some, map, ltb, ◌==◌, if◌then◌else◌, [],
  Bytes, take,
}

pub record File : Type 0 where
  pub content : Bytes
  pub mode : ℕ
  pub synced : Bool

abbrev pub Files : Type 0
Files = ℕ → Option File

pub data Exception : Type 0 where
  os_error : Exception
  interrupt : Exception

pub data Ending : Type 0 where
  finished : Ending
  raised : Exception → Ending
  crashed : Ending

pub record Outcome : Type 0 where
  pub ending : Ending
  pub amount : ℕ

-- The files, and what becomes of the calls to come.
pub record Disk : Type 0 where
  pub files : Files
  pub outcomes : ℕ → Outcome

abbrev pub Command : Type 0
Command = Disk → Ending × Disk

abbrev pub assign : ℕ → Option File → Files → Files
assign name v files n = if n == name then v else files n

-- The call has its effect if it returns, and otherwise if the outcome says so.
abbrev pub is_finished : Ending → Bool
is_finished finished = true
is_finished _ = false

abbrev pub took_effect : Outcome → Bool
took_effect o = is_finished o.ending || ltb 0 o.amount

abbrev pub call : (Outcome → Files → Files) → Command
call effect d =
    let o = d.outcomes 0 in
    (o.ending, record { files = effect o d.files; outcomes = λ i. d.outcomes (1 + i) })

abbrev pub whole : (Files → Files) → Outcome → Files → Files
whole change o files = if took_effect o then change files else files

abbrev pub no_effect : Outcome → Files → Files
no_effect o files = files

abbrev pub alter : (File → File) → Option File → Option File
alter change none = none
alter change (some f) = some (change f)

abbrev pub change_file : ℕ → (File → File) → Files → Files
change_file name change files = assign name (alter change (files name)) files

-- What comes after a command, by how it ended; nothing comes after a crash.
abbrev pub after : Command → (Exception → Command) → Ending × Disk → Ending × Disk
after next handle (finished, d) = next d
after next handle (raised e, d) = handle e d
after next handle (crashed, d) = (crashed, d)

abbrev pub skip : Command
skip d = (finished, d)

abbrev pub raise : Exception → Command
raise e d = (raised e, d)

infixr 5 ◌>>◌
abbrev pub ◌>>◌ : Command → Command → Command
(first >> next) d = after next raise (first d)

-- `try: body except BaseException: handler; raise`
abbrev pub except_reraise : Command → Command → Command
except_reraise body handler d = after skip (λ e. handler >> raise e) (body d)

-- `try: body finally: last`
abbrev pub try_finally : Command → Command → Command
try_finally body last d = after last (λ e. last >> raise e) (body d)

abbrev pub on_os_error : Command → Exception → Command
on_os_error other os_error = other
on_os_error other interrupt = raise interrupt

-- `try: body except OSError: other`, and `next` where `body` returns
abbrev pub except_os_error : Command → Command → Command → Command
except_os_error body other next d = after next (on_os_error other) (body d)

-- What a call does when the file is missing, and when it is there.
abbrev pub by_file : Command → Command → Option File → Command
by_file missing found none = missing
by_file missing found (some f) = found

abbrev pub if_missing : ℕ → Command → Command → Command
if_missing name missing found d = by_file missing found (d.files name) d

-- `VAULT_FILE_MODE`, 0o600
abbrev pub vault_file_mode : ℕ
vault_file_mode = 384

abbrev pub new_temp : File
new_temp = record { content = []; mode = 384; synced = false }

-- `tempfile.mkstemp` of a name: it opens with O_EXCL and mode 0600.
abbrev pub mkstemp : ℕ → Command
mkstemp tmp = if_missing tmp (call (whole (assign tmp (some new_temp)))) (raise os_error)

abbrev pub set_content : Bytes → File → File
set_content content f = record f { content = content; synced = false }

-- `handle.write`, which leaves some of the data in the buffer, and the close after an exception
abbrev pub write_some : ℕ → Bytes → Command
write_some tmp bytes = call (λ o. change_file tmp (set_content (take o.amount bytes)))

abbrev pub flush : ℕ → Bytes → Command
flush tmp bytes = call (λ o.
    change_file tmp (set_content (if is_finished o.ending then bytes else take o.amount bytes)))

abbrev pub fsync : ℕ → Command
fsync tmp = call (whole (change_file tmp (λ f. record f { synced = true })))

abbrev pub fchmod : ℕ → Command
fchmod tmp = call (whole (change_file tmp (λ f. record f { mode = vault_file_mode })))

-- `with os.fdopen(fd, "wb") as handle: ...`
unfoldable pub write_file : ℕ → Bytes → Command
write_file tmp bytes = call no_effect >> (λ d.
    after (call no_effect) (λ e. write_some tmp bytes >> raise e)
      ((write_some tmp bytes >> flush tmp bytes >> fsync tmp) d))

-- `os.replace(tmp_path, path)`
abbrev pub replace : ℕ → ℕ → Command
replace tmp path = call (whole (λ files. assign path (files tmp) (assign tmp none files)))

-- `_fsync_directory`
unfoldable pub fsync_directory : Command
fsync_directory =
    except_os_error (call no_effect) skip
      (try_finally (except_os_error (call no_effect) skip skip) (call no_effect))

-- `try: os.unlink(tmp_path) except FileNotFoundError: pass`
unfoldable pub unlink : ℕ → Command
unlink tmp =
    if_missing tmp (except_os_error (call no_effect) skip skip) (call (whole (assign tmp none)))

-- `write_atomic`; `has_fchmod` is `hasattr(os, "fchmod")`.
unfoldable pub write_atomic : Bool → ℕ → ℕ → Bytes → Command
write_atomic has_fchmod tmp path bytes =
    mkstemp tmp
    >> except_reraise
        ((if has_fchmod then fchmod tmp else skip)
          >> write_file tmp bytes
          >> replace tmp path
          >> fsync_directory)
        (unlink tmp)

-- `read`: a missing file is an OSError, and no other one is modelled.
abbrev pub content_of : Option File → Option Bytes
content_of none = none
content_of (some f) = some f.content

unfoldable pub read : ℕ → Disk → (Option Bytes) × Disk
read path d = (content_of (d.files path), d)
