-- ===== src/Lib.antt =====
-- A local, encrypted password vault (src/securevault), modelled from its key derivation up.
--
-- An error is a value (Errors), and code with a state is a function from the state to a result
-- and the new state (Errors/Action). The third-party code that the program calls, Argon2 and
-- AES-GCM, is a parameter with laws (Crypto). What Argon2 gives depends on its inputs only, and
-- may be its HashingError; a theorem that needs a key says so by the hypothesis IsHashed
-- (Vault/Opening).
--
--  File             models
--  Errors           src/securevault/errors.py
--  Random           os.urandom, as a sequence of numbers that a call takes the next ones of
--  Kdf              src/securevault/kdf.py
--  Aead             src/securevault/aead.py
--  FileFormat       src/securevault/fileformat.py
--  Memory           src/securevault/memory.py, over a heap of bytearrays
--  Vault            src/securevault/vault.py
--  Storage          src/securevault/storage.py, as system calls over a table of files by name, with
--                   an outcome for each call of write_atomic: it returns, raises, or the machine
--                   crashes in it; read has none, and fails on a missing file only
--  Locking          src/securevault/locking.py, over the kernel's table of exclusive locks; closing an
--                   open file is taken to succeed, as it does for a valid descriptor on a local disk
--  Clipboard        src/securevault/clipboard.py, over a backend, a parameter with laws (IsWorking in
--                   Clipboard/Clearing), and a wait that is any action
--  Utf8, Json       Python's UTF-8 codec, json.dumps and json.loads, as entries.py calls them
--  Entries          src/securevault/entries.py
--  Repository       src/securevault/repository.py: the constructors, _persist and close; its methods on
--                   the entries are in Repository/Changes
--  Processes        processes with repositories on one machine: a step is a method of repository.py, an
--                   open, a create, a close, or an exit, and a process may be killed inside a step
--  Cli              src/securevault/cli.py, over what the user types and a terminal; the commands are
--                   in Cli/Commands and Cli/Copying, their choice in Cli/Running, the options that
--                   they declare in Cli/Options and the entry point in Cli/Main
--  PasswordGen      src/securevault/passwordgen.py, over the numbers of Random; a text is the list
--                   of its code points
--
-- The parts build on each other as in the program: Vault calls Kdf, Aead, FileFormat and Memory,
-- which know nothing of it; Storage and Locking see bytes and paths; Repository puts Vault,
-- Storage, Locking and Entries together, over a machine that has the state of each (Machine); Cli
-- runs a repository and PasswordGen from a terminal, and its command copy a session of Clipboard,
-- which stands alone. What a repository promises is stated over the list of its entries: Stores
-- says that a file is the vault of a list of entries under a password, IsSynced that an open
-- object and its file agree (Repository/Stored), and Changed what any method that changes the
-- list leaves, however it ends (Repository/Outcomes). Prelude holds the helpers that all share,
-- Tests the runs and the theorems at concrete inputs, with a toy instance of Crypto that
-- satisfies its laws (Tests/Toy).
--
-- Two functions have fuel. json.loads takes three times the length of its text and one more, and
-- Json/Fuel shows that it always answers. The loop of add_entry that looks for a new id has a
-- bound as a parameter, and made_entry_total in Repository/Adding shows that it ends if one of
-- the ids within the bound is new; no bound of that kind holds for every outcome of the random
-- source. Every other loop of the code is a recursion on a list or on a number that it counts
-- down. Machine integers stand in the file format only, where a field of w bytes holds its value
-- modulo 256 ^ w and the builders raise beyond it, as struct.pack does. Python's integers are the
-- natural numbers: no modelled operation makes a negative one.
--
-- Python's str of a JSON value that is no text, and whether a JSON number that is no integer
-- equals 1, are parameters (Builtins in Entries).
--
-- The command line's test for a weak password compares a float with 60; the model compares the
-- numbers that it stands for, the pool's size to the power of the length with 2 ^ 60. Python's
-- str.lower, by which list sorts, is a parameter.
--
-- How click splits a command line is not modelled: a command line is a value of Invocation
-- (Cli/Options). What its IntRange makes of a text is a parameter (Click), with the law that what
-- it accepts lies in its range (IsClick).
--
-- Not modelled: the limits of Python's json on nesting and on the digits of an integer, and the
-- docstrings' claims on time and on what an operating system keeps of freed memory.
pub mod Prelude
pub mod Errors
pub mod Random
pub mod Crypto
pub mod Kdf
pub mod Aead
pub mod FileFormat
pub mod Memory
pub mod Vault
pub mod PasswordGen
pub mod Tests
pub mod Storage
pub mod Locking
pub mod Clipboard
pub mod Utf8
pub mod Json
pub mod Entries
pub mod Repository
pub mod Cli
pub mod Processes
