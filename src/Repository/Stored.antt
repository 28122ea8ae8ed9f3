-- ===== src/Repository/Stored.antt =====
-- What a file on the disk holds for a password, and what opening it gives.
use secure_vault.Prelude.{ℕ, ◌≡◌, ◌∙◌, List, some, Bytes}
use secure_vault.Errors.Result.{ok}
use secure_vault.Kdf.{Argon2Parameters}
use secure_vault.Vault.{Session}
use secure_vault.Vault.Written.{WrittenVault}
use secure_vault.Vault.Opened.{IsOpenWith}
use secure_vault.Storage.{Files, File}
use secure_vault.Entries.{Entry, serialize_entries}
use secure_vault.Repository.{Platform, State}

-- The session of the object's vault.
abbrev pub session_of : State → Session
session_of s = record { vault = s.self.unlocked; world = s.machine.world }

module _ (p : Platform) where
  -- The file is a vault of these entries, sealed with the password.
  pub record Stores (password : Bytes) (path : ℕ) (entries : List Entry) (files : Files)
      : Type 0 where
    pub file : File
    pub found : files path ≡ some file
    pub params : Argon2Parameters
    pub counter : ℕ
    pub body : Bytes
    pub serialized : serialize_entries entries ≡ ok body
    pub written : WrittenVault p.crypto password params counter body file.content

  -- The object has the vault open whose file stands at its path; what it read is what it has in
  -- memory.
  pub record IsSynced (password : Bytes) (s : State) : Type 0 where
    pub body : Bytes
    pub serialized : serialize_entries s.self.entries ≡ ok body
    pub session : IsOpenWith p.crypto password body (session_of s)
    pub stored : Stores password s.self.path s.self.entries s.machine.disk.files

  -- The file at the path is what it was.
  pub same-Stores :
      (password : Bytes) (path : ℕ) (es : List Entry) (files files' : Files)
      → files' path ≡ files path
      → Stores password path es files
      → Stores password path es files'
  same-Stores password path es files files' same h = record {
    file = h.file;
    found = same ∙ h.found;
    params = h.params;
    counter = h.counter;
    body = h.body;
    serialized = h.serialized;
    written = h.written;
  }
