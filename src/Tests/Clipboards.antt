-- ===== src/Tests/Clipboards.antt =====
-- The theorems of clipboard.py at concrete inputs.
use secure_vault.Prelude.{◌≡◌, ◌≢◌, ◌⊎◌, refl, Text, codes, [], some, none, bytes_eq}
use secure_vault.Errors.{keyboard_interrupt, os_error}
use secure_vault.Errors.Result.{ok, err}
use secure_vault.Errors.Action.{Action}
use secure_vault.Clipboard.{
  ClipboardBackend, clear_if_unchanged, copy_and_autoclear, pyperclip_backend,
}
use secure_vault.Clipboard.Clearing.{IsWorking, copy_and_autoclear_clears, copy_and_autoclear_leaks}

-- The state is the text on the clipboard.
abbrev board : ClipboardBackend Text
board = pyperclip_backend record { copy = λ text s. (ok tt, text); paste = λ s. (ok s, s) }

abbrev content : Text → Text
content s = s

board-IsWorking : IsWorking board content
board-IsWorking = record { copies = λ text s. (text, refl, refl); pastes = λ s. (s, refl, refl) }

abbrev secret : Text
secret = codes "hunter2"

-- The wait is cut short by Ctrl-C.
abbrev cut_short : Action Text (Unit {0})
cut_short s = (err keyboard_interrupt, s)

some_text : secret ≢ []
some_text e = cc

copy_and_autoclear_clears_example :
    (content (copy_and_autoclear board secret cut_short none []).1 ≢ secret)
    × ((content (copy_and_autoclear board secret cut_short none []).1 ≡ [])
        ⊎ (content (copy_and_autoclear board secret cut_short none []).1
            ≡ content (cut_short secret).1))
copy_and_autoclear_clears_example =
    copy_and_autoclear_clears board content board-IsWorking secret cut_short none [] secret
      some_text refl

-- The message about the copy goes to a closed pipe.
abbrev broken_pipe : Action Text (Unit {0})
broken_pipe s = (err os_error, s)

copy_and_autoclear_leaks_example :
    ((copy_and_autoclear board secret cut_short (some broken_pipe) []).0 ≡ err os_error)
    × (content (copy_and_autoclear board secret cut_short (some broken_pipe) []).1 ≡ secret)
copy_and_autoclear_leaks_example =
    copy_and_autoclear_leaks board content board-IsWorking secret cut_short broken_pipe [] secret
      os_error refl refl

-- A run in which the user copies something else in the wait.
left_alone : (copy_and_autoclear board secret (λ s. (ok tt, codes "mine")) none []).1 ≡ codes "mine"
unfolding copy_and_autoclear clear_if_unchanged bytes_eq
left_alone = refl
