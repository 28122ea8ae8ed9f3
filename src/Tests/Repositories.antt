-- ===== src/Tests/Repositories.antt =====
-- A repository on a stored vault, for the runs and the theorems at concrete inputs.
use secure_vault.Prelude.{
  ℕ, ◌+◌, ◌≤◌, ◌≡◌, ◌≢◌, refl, arith, [], ◌∷◌, ◌++◌, true, false, some, none, length, length-append,
  ◌==◌, if◌then◌else◌, Bytes, codes,
}
use secure_vault.Crypto.{max_text}
use secure_vault.Memory.{World}
use secure_vault.FileFormat.Header.{header_bytes, length-header_bytes}
use secure_vault.FileFormat.RoundTrip.{file_bytes, serialize_lem}
use secure_vault.Json.Printer.{dumps}
use secure_vault.Json.Units.{literal}
use secure_vault.Json.Strings.{escape}
use secure_vault.Vault.Opening.{kek_of, full_bytes}
use secure_vault.Vault.Opened.{IsOpenWith}
use secure_vault.Vault.Written.{WrittenVault}
use secure_vault.Storage.{Disk, Files, File, finished, raised, os_error}
use secure_vault.Locking.{Kernel}
use secure_vault.Entries.{Entry, payload, to_dict}
use secure_vault.Entries.RoundTrip.{serialize_entries_total}
use secure_vault.Repository.{Platform, Machine, State}
use secure_vault.Repository.Stored.{Stores, IsSynced, session_of}
use secure_vault.Repository.Outcomes.{body_of}
use secure_vault.Tests.Toy.{toy, tag, length-tag}
use secure_vault.Tests.Vaults.{costs, password, salt, dek, nonce, blob, start}
use secure_vault.Tests.Bodies.{python, two}

abbrev pub platform : Platform
platform = record { crypto = toy; python = python; has_fchmod = true; has_fcntl = true }

-- The text of two entries sealed under the data key, and the file of it.
abbrev body_blob : Bytes
body_blob = body_of two ++ tag dek nonce (full_bytes costs salt 3)

abbrev pub file : File
file = record {
  content = file_bytes (header_bytes costs salt) 3 nonce blob nonce body_blob;
  mode = 384;
  synced = true;
}

-- The vault stands at the path 5, and the temporary files have the names from 6 on.
abbrev pub files : Files
files n = if n == 5 then some file else none

-- The disk is full when the data of a write is flushed.
abbrev pub full : Disk
full = record {
  files = files;
  outcomes = λ i. record { ending = if i == 4 then raised os_error else finished; amount = 0 };
}

abbrev pub calm : Files → Disk
calm fs = record { files = fs; outcomes = λ i. record { ending = finished; amount = 0 } }

abbrev pub kernel : Kernel
kernel = record { holder = λ n. none; next = 3; fails = λ i. false }

abbrev machine : World → Disk → Kernel → Machine
machine world disk locks = record {
  world = world;
  disk = disk;
  kernel = locks;
  clock = λ i. codes "2";
  temps = λ i. 6 + i;
}

-- An object on this file, which holds the lock by the open file 2.
abbrev pub open_state : Disk → State
open_state disk = record {
  self = record {
    path = 5;
    unlocked = record {
      params = costs;
      salt = salt;
      counter = 3;
      kdf_header = header_bytes costs salt;
      dek_nonce = nonce;
      dek_blob = blob;
      dek = 0;
      plaintext = 1;
      closed = false;
    };
    lock = record { lock_path = 5; fd = some 2 };
    entries = two;
    closed = false;
  };
  machine =
      machine
        (record {
          entropy = λ i. i + 1;
          heap = λ p. if p == 0 then dek else if p == 1 then body_of two else [];
          next = 2;
        })
        disk
        (record { holder = λ n. if n == 5 then some 2 else none; next = 3; fails = λ i. false });
}

pub fits : length (body_of two) ≤ 1000
unfolding dumps payload literal escape to_dict
fits = omega arith

sizes : length body_blob ≡ length (body_of two) + 16
sizes = omega (
  arith,
  length-append (body_of two) (tag dek nonce (full_bytes costs salt 3)),
  length-tag dek nonce (full_bytes costs salt 3),
)

pub two_written : WrittenVault toy password costs 3 (body_of two) file.content
two_written = record {
  salt = salt;
  dek = dek;
  dek_nonce = nonce;
  dek_blob = blob;
  body_nonce = nonce;
  body_blob = body_blob;
  file = record {
    range = omega arith;
    salt_size = refl;
    dek_size = refl;
    hashed = refl;
    wrapped = refl;
    sealed = refl;
    written = serialize_lem (header_bytes costs salt) 3 nonce blob nonce body_blob record {
      header_size = length-header_bytes costs salt refl;
      counter_fits = omega arith;
      dek_nonce_size = refl;
      dek_blob_size = omega (
        arith,
        length-append dek (tag (kek_of toy password costs salt) nonce (header_bytes costs salt)),
        length-tag (kek_of toy password costs salt) nonce (header_bytes costs salt),
      );
      body_nonce_size = refl;
      body_tag = omega (arith, sizes);
      body_fits = omega (arith, sizes, fits);
    };
  };
}

pub two-Stores : Stores platform password 5 two files
two-Stores = record {
  file = file;
  found = refl;
  params = costs;
  counter = 3;
  body = body_of two;
  serialized = serialize_entries_total two;
  written = two_written;
}

pub two-IsOpenWith :
    (disk : Disk) → IsOpenWith toy password (body_of two) (session_of (open_state disk))
two-IsOpenWith disk = record {
  is_open = refl;
  range = omega arith;
  salt_size = refl;
  header_eq = refl;
  dek_size = refl;
  nonce_size = refl;
  hashed = refl;
  wrapped = refl;
  text_eq = refl;
  dek_allocated = omega arith;
  text_allocated = omega arith;
  apart = omega arith;
}

pub open-IsSynced :
    (disk : Disk) → disk.files ≡ files → IsSynced platform password (open_state disk)
open-IsSynced disk same = record {
  body = body_of two;
  serialized = serialize_entries_total two;
  session = two-IsOpenWith disk;
  stored = rw same two-Stores;
}

pub away : ◌≢◌ {A = ℕ} 5 6
away e = omega (arith, e)

-- The write fails, so add_entry raises; the file holds two entries or three.
abbrev pub third : Entry
third = record {
  id = codes "01020304";
  service = codes "s";
  username = codes "u";
  password = codes "p";
  notes = [];
  created_at = codes "2";
  updated_at = codes "2";
}

pub three_fit : length (body_of (two ++ (third ∷ []))) ≤ max_text
unfolding dumps payload literal escape to_dict
three_fit = omega arith

abbrev pub closed_machine : Files → Machine
closed_machine fs = machine start (calm fs) kernel
