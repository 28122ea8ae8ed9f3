-- ===== src/Memory.antt =====
-- memory.py, and the memory that it works on. A `bytearray` is an object that several names may
-- share and that `wipe` overwrites, so it is an address into a heap; a `bytes` is a value.
pub mod Wipe
use secure_vault.Prelude.{ℕ, ◌+◌, Bool, ◌==◌, if◌then◌else◌, length, replicate, Bytes}
use secure_vault.Errors.Result.{Result, ok, err}
use secure_vault.Errors.Action.{Action, ◌>>=◌, ◌>>◌, modify, pure}
use secure_vault.Random.{Entropy}

-- What the code of one process shares: the random source, and the bytearrays, the next of which
-- stands at `next`.
pub record World : Type 0 where
  pub entropy : Entropy
  pub heap : ℕ → Bytes
  pub next : ℕ

abbrev pub update : (ℕ → Bytes) → ℕ → Bytes → ℕ → Bytes
update f p x q = if p == q then x else f q

-- `bytearray(x)`
abbrev pub bytearray : Bytes → Action World ℕ
bytearray x w = (ok w.next, record w { heap = update w.heap w.next x; next = w.next + 1 })

-- `bytes(b)`
abbrev pub load : ℕ → Action World Bytes
load p w = (ok (w.heap p), w)

abbrev pub with_entropy : {A : Type 0} → Action Entropy A → Action World A
with_entropy m w = let (r, e) = m w.entropy in (r, record w { entropy = e })

-- `try: m finally: cleanup`, for a cleanup that does not raise.
abbrev pub finally : {A : Type 0} → Action World A → (World → World) → Action World A
finally m cleanup w = let (r, w') = m w in (r, cleanup w')

-- The argument of `wipe`: `None`, an immutable object, or a bytearray.
pub data Buffer : Type 0 where
  nothing : Buffer
  immutable : Bytes → Buffer
  mutable : ℕ → Buffer

-- `memset` of the whole buffer. Of no bytes it writes none, so the early return needs no case.
abbrev pub zeros : Bytes → Bytes
zeros x = replicate (length x) 0

unfoldable pub wipe : Buffer → World → World
wipe nothing w = w
wipe (immutable x) w = w
wipe (mutable p) w =
    if length (w.heap p) == 0 then w else record w { heap = update w.heap p (zeros (w.heap p)) }
