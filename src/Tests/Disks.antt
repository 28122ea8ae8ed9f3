-- ===== src/Tests/Disks.antt =====
-- The theorems of storage.py at concrete inputs.
use secure_vault.Prelude.{
  ℕ, ◌≡◌, ◌≢◌, ◌==◌, refl, arith, if◌then◌else◌, true, some, none, [], ◌∷◌, Bytes,
}
use secure_vault.Storage.{
  Files, Disk, finished, raised, os_error, crashed, read, write_atomic, write_file, unlink,
  fsync_directory,
}
use secure_vault.Storage.Crash.{OldOrNew, Written, write_atomic_safe, write_atomic_returns}
use secure_vault.Storage.Cleanup.{IsMild, write_atomic_cleans}
use secure_vault.Storage.Calm.{write_atomic_finishes}

-- An old vault at the name 0; the temporary file has the name 1.
abbrev old_files : Files
old_files n =
    if n == 0 then some record { content = 1 ∷ 2 ∷ []; mode = 384; synced = true } else none

abbrev new_bytes : Bytes
new_bytes = 7 ∷ 8 ∷ 9 ∷ []

abbrev calm : Disk
calm = record { files = old_files; outcomes = λ i. record { ending = finished; amount = 0 } }

-- A crash at the third call, with one byte written.
abbrev crashing : Disk
crashing = record {
  files = old_files;
  outcomes = λ i. record { ending = if i == 3 then crashed else finished; amount = 1 };
}

apart : ◌≢◌ {A = ℕ} 0 1
apart e = omega (arith, e)

write_atomic_safe_example :
    OldOrNew old_files 1 0 new_bytes apart ((write_atomic true 1 0 new_bytes crashing).1.files)
write_atomic_safe_example = write_atomic_safe true 1 0 new_bytes crashing apart

abbrev end : Disk
end = (write_atomic true 1 0 new_bytes calm).1

write_atomic_returns_example :
    Written old_files 1 0 new_bytes apart end.files × (read 0 end ≡ (some new_bytes, end))
unfolding write_atomic write_file fsync_directory
write_atomic_returns_example = write_atomic_returns true 1 0 new_bytes calm end apart refl

write_atomic_finishes_example :
    ((write_atomic true 1 0 new_bytes calm).0 ≡ finished)
    × Written old_files 1 0 new_bytes apart end.files
    × (read 0 end ≡ (some new_bytes, end))
write_atomic_finishes_example = write_atomic_finishes true 1 0 new_bytes calm apart refl (λ i. refl)

-- The disk is full when the buffer is flushed.
abbrev full : Disk
full = record {
  files = old_files;
  outcomes = λ i. record { ending = if i == 4 then raised os_error else finished; amount = 0 };
}

full-IsMild : IsMild full
full-IsMild = (4, λ i other. ground (arith, other))

abbrev full_end : Disk
full_end = (write_atomic true 1 0 new_bytes full).1

write_atomic_cleans_example : full_end.files 1 ≡ none
unfolding write_atomic write_file fsync_directory unlink
write_atomic_cleans_example =
    write_atomic_cleans true 1 0 new_bytes full full_end os_error refl refl full-IsMild refl
