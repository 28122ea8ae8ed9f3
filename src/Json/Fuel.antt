-- ===== src/Json/Fuel.antt =====
-- The bound of `loads` is enough: the scanner of a text never runs out of it.
use secure_vault.Prelude.{
  ℕ, zero, suc, ◌+◌, ◌-◌, ◌*◌, ◌<◌, ◌≡◌, ◌≢◌, refl, arith, Option, none, some, [], ◌∷◌, Text,
  length,
}
use secure_vault.Json.{Value, Scan, stuck, bad, got}
use secure_vault.Json.Strings.{quote}
use secure_vault.Json.Units.{scan_string}
use secure_vault.Json.Lengths.{
  Within, Within-le, Within-bind, length-skip_space, scan_atom-Within, scan_string-Within,
  length-expect, NextBelow, next_of-NextBelow,
}
use secure_vault.Json.Parser.{
  scan_once, scan_array, scan_items, scan_object, scan_fields, skip_space, kind_of, literal_kind,
  array_kind, object_kind, atom_kind, Kind, loads, expect, Next, comma, other, next_of, at_end,
}

next-Within :
    {B : Type 0} (m n : ℕ) (x : Next) (closes more : Text → Scan B)
    → NextBelow m x
    → ((rest : Text) → length rest < m → Within n (closes rest))
    → ((rest : Text) → length rest < m → Within n (more rest))
    → Within n (elim x [ Next.close rest ↦ closes rest | comma rest ↦ more rest | other ↦ bad ])
next-Within m n (Next.close rest) closes more b c d = c rest b
next-Within m n (comma rest) closes more b c d = d rest b
next-Within m n other closes more b c d = tt

expect-Within :
    {B : Type 0} (n mark : ℕ) (s : Text) (missing : Scan B) (found : Text → Scan B)
    → Within n missing
    → ((rest : Text) → length rest < length s → Within n (found rest))
    → Within n (elim (expect mark s) [ none ↦ missing | some rest ↦ found rest ])
expect-Within n mark s missing found h k = expected (expect mark s) (length-expect mark s)
  where
    expected :
        (o : Option Text)
        → ((rest : Text) → o ≡ some rest → length rest < length s)
        → Within n (elim o [ none ↦ missing | some rest ↦ found rest ])
    expected none l = h
    expected (some rest) l = k rest (l rest refl)

kind-Within :
    (k : Kind) (n : ℕ) (a b c d : Scan Value)
    → Within n a
    → Within n b
    → Within n c
    → Within n d
    → Within n (elim k [ literal_kind ↦ a | array_kind ↦ b | object_kind ↦ c | atom_kind ↦ d ])
kind-Within literal_kind n a b c d ha hb hc hd = ha
kind-Within array_kind n a b c d ha hb hc hd = hb
kind-Within object_kind n a b c d ha hb hc hd = hc
kind-Within atom_kind n a b c d ha hb hc hd = hd

mutual
  unfolding scan_once

  scan_once-Within : (f : ℕ) (s : Text) → 3 * length s < f → Within (length s - 1) (scan_once f s)
  scan_once-Within zero s h = absurd (omega arith)
  scan_once-Within (suc n) [] h = tt
  scan_once-Within (suc n) (c ∷ cs) h =
      let l = length-skip_space cs in
      let all_but_one : suc (length cs) - 1 ≡ length cs = omega arith in
      rw all_but_one (
        kind-Within (kind_of c) (length cs) _ _ _ _
          (Within-bind (length cs) (length cs) (scan_string cs) _ (scan_string-Within cs)
            (λ text rest k. k))
          (Within-le (length (skip_space cs)) (length cs) _ l
            (scan_array-Within n (skip_space cs) (omega (arith, l))))
          (Within-le (length (skip_space cs)) (length cs) _ l
            (scan_object-Within n (skip_space cs) (omega (arith, l))))
          (scan_atom-Within c cs))

  scan_array-Within : (f : ℕ) (s : Text) → 3 * length s + 2 < f → Within (length s) (scan_array f s)
  scan_array-Within zero s h = absurd (omega arith)
  scan_array-Within (suc n) s h =
      expect-Within (length s) b']' s _ _
        (Within-bind (length s) (length s) (scan_items n s) _ (scan_items-Within n s (omega arith))
          (λ vs rest k. k))
        (λ rest k. omega (arith, k))

  scan_items-Within : (f : ℕ) (s : Text) → 3 * length s + 1 < f → Within (length s) (scan_items f s)
  scan_items-Within zero s h = absurd (omega arith)
  scan_items-Within (suc n) s h =
      Within-bind (length s - 1) (length s) (scan_once n s) _ (scan_once-Within n s (omega arith))
        (λ v rest k.
          let l = length-skip_space rest in
          next-Within (length (skip_space rest)) (length s) (next_of b']' (skip_space rest)) _ _
            (next_of-NextBelow b']' (skip_space rest)) (λ after b. omega (arith, k, l, b))
            (λ after b.
              let m = length-skip_space after in
              Within-bind (length (skip_space after)) (length s) (scan_items n (skip_space after)) _
                (scan_items-Within n (skip_space after) (omega (arith, k, l, b, m)))
                (λ vs last j. omega (arith, j, k, l, b, m))))

  scan_object-Within :
      (f : ℕ) (s : Text) → 3 * length s + 2 < f → Within (length s) (scan_object f s)
  scan_object-Within zero s h = absurd (omega arith)
  scan_object-Within (suc n) s h =
      expect-Within (length s) b'}' s _ _
        (Within-bind (length s) (length s) (scan_fields n s) _
          (scan_fields-Within n s (omega arith)) (λ fs rest k. k))
        (λ rest k. omega (arith, k))

  scan_fields-Within :
      (f : ℕ) (s : Text) → 3 * length s + 1 < f → Within (length s) (scan_fields f s)
  scan_fields-Within zero s h = absurd (omega arith)
  scan_fields-Within (suc n) s h = expect-Within (length s) quote s bad _ tt (λ inside i.
      Within-bind (length inside) (length s) (scan_string inside) _ (scan_string-Within inside)
        (λ key rest k.
          let l = length-skip_space rest in
          expect-Within (length s) b':' (skip_space rest) bad _ tt (λ at a.
            let m = length-skip_space at in
            Within-bind (length (skip_space at) - 1) (length s) (scan_once n (skip_space at)) _
              (scan_once-Within n (skip_space at) (omega (arith, i, k, l, a, m)))
              (λ v after o.
                let q = length-skip_space after in
                next-Within (length (skip_space after)) (length s) (next_of b'}' (skip_space after))
                  _ _ (next_of-NextBelow b'}' (skip_space after))
                  (λ left b. omega (arith, i, k, l, a, m, o, q, b))
                  (λ left b.
                    let w = length-skip_space left in
                    Within-bind (length (skip_space left)) (length s)
                      (scan_fields n (skip_space left)) _
                      (scan_fields-Within n (skip_space left)
                        (omega (arith, i, k, l, a, m, o, q, b, w)))
                      (λ fs last j. omega (arith, i, k, l, a, m, o, q, b, w, j)))))))

answers : {A : Type 0} (n : ℕ) (r : Scan A) → Within n r → r ≢ stuck
answers n stuck w e = w
answers n bad w e = cc
answers n (got a rest) w e = cc

-- `loads` of any text answers: a value or a JSONDecodeError, and never for want of a bound.
pub loads-answers : (s : Text) → loads s ≢ stuck
unfolding loads
loads-answers s =
    let l = length-skip_space s in
    let t = skip_space s in
    answers (length s) (loads s) (
      Within-bind (length t - 1) (length s) (scan_once (3 * length s + 1) t) _
        (Within-le (length t - 1) (length t - 1) _ (omega arith)
          (scan_once-Within (3 * length s + 1) t (omega (arith, l))))
        (λ v rest k. at_end-Within v (skip_space rest)))
  where
    at_end-Within : (v : Value) (r : Text) → Within (length s) (at_end v r)
    at_end-Within v [] = omega arith
    at_end-Within v (c ∷ cs) = tt
