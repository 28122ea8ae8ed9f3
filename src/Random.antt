-- ===== src/Random.antt =====
-- `os.urandom` and the choices of `secrets`: a source of randomness is any infinite sequence of
-- numbers, and a call takes the next ones. A theorem over every source holds for every outcome.
use secure_vault.Prelude.{ℕ, zero, suc, ◌+◌, ◌%◌, ◌≡◌, refl, ap, [], ◌∷◌, arith}
use secure_vault.Prelude.{length, Bytes, IsBytes}
use secure_vault.Prelude.{◌-◌, List, get_or, swap}
use secure_vault.Errors.{index_error}
use secure_vault.Errors.Result.{ok, err}
use secure_vault.Errors.Action.{Action}

abbrev pub Entropy : Type 0
Entropy = ℕ → ℕ

unfoldable pub advance : ℕ → Entropy → Entropy
advance n e i = e (n + i)

unfoldable pub draw_bytes : ℕ → Entropy → Bytes
unfolding advance
draw_bytes zero e = []
draw_bytes (suc n) e = e 0 % 256 ∷ draw_bytes n (advance 1 e)

-- `os.urandom(n)`
abbrev pub urandom : ℕ → Action Entropy Bytes
urandom n e = (ok (draw_bytes n e), advance n e)

pub length-draw_bytes : (n : ℕ) (e : Entropy) → length (draw_bytes n e) ≡ n
unfolding draw_bytes
length-draw_bytes zero e = refl
length-draw_bytes (suc n) e = ap suc (length-draw_bytes n (advance 1 e))

pub draw_bytes-IsBytes : (n : ℕ) (e : Entropy) → IsBytes (draw_bytes n e)
unfolding draw_bytes
draw_bytes-IsBytes zero e = tt
draw_bytes-IsBytes (suc n) e = (omega arith, draw_bytes-IsBytes n (advance 1 e))

-- `secrets.choice(xs)`, which is `xs[randbelow(len(xs))]`: an `IndexError` if there is none.
abbrev pub choice : List ℕ → Action Entropy ℕ
choice [] e = (err index_error, e)
choice (x ∷ xs) e = (ok (get_or (x ∷ xs) (e 0 % length (x ∷ xs)) 0), advance 1 e)

-- `random.shuffle`: `for i in reversed(range(1, len(x))): j = randbelow(i + 1)`, then the swap of
-- the places `i` and `j`.
unfoldable pub shuffle_from : ℕ → List ℕ → Action Entropy (List ℕ)
unfolding advance
shuffle_from zero xs e = (ok xs, e)
shuffle_from (suc i) xs e = shuffle_from i (swap (suc i) (e 0 % (suc i + 1)) xs) (advance 1 e)

abbrev pub shuffle : List ℕ → Action Entropy (List ℕ)
shuffle xs = shuffle_from (length xs - 1) xs
