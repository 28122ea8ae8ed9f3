-- ===== src/Repository/FirstMatch.antt =====
-- `get_entry`, `index` and `remove` at the first entry with an id.
use secure_vault.Prelude.{
  ◌≡◌, ◌⊎◌, inl, inr, Bool-cases, bytes_eq_iff, refl, ap, ◌∙◌, true, false, List, [], ◌∷◌, ◌++◌,
  Text, bytes_eq, bytes_eq_refl, arith,
}
use secure_vault.Errors.{entry_not_found}
use secure_vault.Errors.Result.{ok, err}
use secure_vault.Entries.{Entry}
use secure_vault.Repository.Changes.{entry_eq, find, replace_first, remove_first, has_id}

entry_eq_refl : (e : Entry) → entry_eq e e ≡ true
entry_eq_refl e = rw (
  bytes_eq_refl e.id,
  bytes_eq_refl e.service,
  bytes_eq_refl e.username,
  bytes_eq_refl e.password,
  bytes_eq_refl e.notes,
  bytes_eq_refl e.created_at,
  bytes_eq_refl e.updated_at,
)

-- Entries with different ids differ.
entry_eq_other : (a b : Entry) → bytes_eq a.id b.id ≡ false → entry_eq a b ≡ false
entry_eq_other a b h = rw h

-- The list of entries, cut at the first entry with the id.
pub record IsFirst (id : Text) (before : List Entry) (current : Entry) (after es : List Entry)
    : Type 0 where
  pub entries_eq : es ≡ before ++ (current ∷ after)
  pub id_eq : current.id ≡ id
  pub unseen : has_id id before ≡ false

has_id-false :
    (id : Text) (e : Entry) (es : List Entry)
    → has_id id (e ∷ es) ≡ false
    → (bytes_eq e.id id ≡ false) × (has_id id es ≡ false)
unfolding has_id
has_id-false id e es h = ground arith

module _ (id : Text) (current : Entry) (same : current.id ≡ id) where
  pub find_first :
      (before after : List Entry)
      → has_id id before ≡ false
      → find id (before ++ (current ∷ after)) ≡ ok current
  unfolding find has_id
  find_first [] after h = rw (same, bytes_eq_refl id)
  find_first (e ∷ es) after h =
      let (other, rest) = has_id-false id e es h in rw other (find_first es after rest)

  pub replace_first_lem :
      (updated : Entry) (before after : List Entry)
      → has_id id before ≡ false
      → replace_first current updated (before ++ (current ∷ after)) ≡ before ++ (updated ∷ after)
  unfolding replace_first has_id
  replace_first_lem updated [] after h = rw (entry_eq_refl current)
  replace_first_lem updated (e ∷ es) after h =
      let (other, rest) = has_id-false id e es h in
      rw (entry_eq_other e current (ap (bytes_eq e.id) same ∙ other))
        (ap (λ t. e ∷ t) (replace_first_lem updated es after rest))

  pub remove_first_lem :
      (before after : List Entry)
      → has_id id before ≡ false
      → remove_first current (before ++ (current ∷ after)) ≡ before ++ after
  unfolding remove_first has_id
  remove_first_lem [] after h = rw (entry_eq_refl current)
  remove_first_lem (e ∷ es) after h =
      let (other, rest) = has_id-false id e es h in
      rw (entry_eq_other e current (ap (bytes_eq e.id) same ∙ other))
        (ap (λ t. e ∷ t) (remove_first_lem es after rest))

pub find_missing :
    (id : Text) (es : List Entry) → has_id id es ≡ false → find id es ≡ err (entry_not_found id)
unfolding find has_id
find_missing id [] h = refl
find_missing id (e ∷ es) h =
    let (other, rest) = has_id-false id e es h in rw other (find_missing id es rest)

-- Either an entry has the id, and there is a first one, or none has it.
pub IsFirst-cases :
    (id : Text) (es : List Entry)
    → ((before : List Entry) × (e : Entry) × (after : List Entry) × IsFirst id before e after es)
      ⊎ (has_id id es ≡ false)
unfolding has_id
IsFirst-cases id [] = inr refl
IsFirst-cases id (x ∷ xs) = elim (Bool-cases (bytes_eq x.id id)) [
  | inl here ↦ inl (
    [],
    x,
    xs,
    record { entries_eq = refl; id_eq = (bytes_eq_iff x.id id).0 here; unseen = refl },
  )
  | inr other ↦ elim (IsFirst-cases id xs) [
    | inl (before, e, after, first) ↦ inl (
      x ∷ before,
      e,
      after,
      record {
        entries_eq = ap (λ es. x ∷ es) first.entries_eq;
        id_eq = first.id_eq;
        unseen = rw (other, first.unseen);
      },
    )
    | inr unseen ↦ inr (rw (other, unseen))
  ]
]
