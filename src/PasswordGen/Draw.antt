-- ===== src/PasswordGen/Draw.antt =====
-- passwordgen.py: `generate_password` of a policy; called with none it takes the default policy, a
-- length of 20 with every category and the ambiguous characters.
use secure_vault.Prelude.{ℕ, zero, suc, ◌-◌, List, [], ◌∷◌, ◌++◌, length, Text}
use secure_vault.Errors.Action.{Action, pure, lift, ◌>>=◌, ◌>>◌}
use secure_vault.Random.{Entropy, choice, shuffle}
use secure_vault.PasswordGen.{PasswordPolicy, pools, validate_policy}

-- `"".join(pools)`
abbrev pub join : List Text → Text
join [] = []
join (x ∷ xs) = x ++ join xs

-- `[secrets.choice(pool) for pool in pools]`
unfoldable pub choose_each : List Text → Action Entropy Text
choose_each [] = pure []
choose_each (pool ∷ rest) = do c ← choice pool; cs ← choose_each rest; pure (c ∷ cs)

-- `[secrets.choice(combined) for _ in range(n)]`
unfoldable pub choose_many : ℕ → Text → Action Entropy Text
choose_many zero combined = pure []
choose_many (suc n) combined = do c ← choice combined; cs ← choose_many n combined; pure (c ∷ cs)

-- One character of each pool, the others from all of them, and the shuffle.
unfoldable pub draw_password : List Text → ℕ → Action Entropy Text
draw_password found n = do
  chars ← choose_each found
  more ← choose_many (n - length chars) (join found)
  shuffle (chars ++ more)

unfoldable pub generate_password : PasswordPolicy → Action Entropy Text
generate_password p = do
  lift (validate_policy p)
  found ← lift (pools p)
  draw_password found p.length
