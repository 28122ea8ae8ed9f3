-- ===== src/Cli/Listing.antt =====
-- What `list` shows.
use mathlib.Core.Bool.{not}
use mathlib.Core.List.{Perm}
use mathlib.Core.List.Perm
use secure_vault.Prelude.{
  ◌≡◌, ◌≢◌, ◌⊎◌, inl, inr, refl, sym, ap, ◌∙◌, Bool-cases, Bool, true, false, List, [], ◌∷◌, ◌++◌,
  map, if◌then◌else◌, Text, All, All-map, append-nil, append_assoc,
}
use secure_vault.Errors.Result.{ok}
use secure_vault.PasswordGen.{is_empty}
use secure_vault.Entries.{Entry}
use secure_vault.Cli.{Shell, Line, entry_listed, no_entries}
use secure_vault.Cli.Commands.{key_lt, insert, sorted, list_lines, show_entries}
use secure_vault.Cli.Order.{same_key, same_key-eq, key_lt_irrefl, key_lt-asym, key_lt-split}

true≢false : ◌≢◌ {A = Bool} true false
true≢false h = cc

module _ (key : Entry → Text × Text) where
  -- No entry has a smaller key than one before it.
  abbrev pub IsAscending : List Entry → Type 0
  IsAscending [] = Unit
  IsAscending (x ∷ xs) = All (λ y. key_lt (key y) (key x) ≡ false) xs × IsAscending xs

  -- The entries with a key, in their order.
  abbrev pub only : Text × Text → List Entry → List Entry
  only k [] = []
  only k (x ∷ xs) = let rest = only k xs in if same_key (key x) k then x ∷ rest else rest

  insert-perm : (e : Entry) (xs : List Entry) → Perm (insert key e xs) (e ∷ xs)
  unfolding insert
  insert-perm e [] = Perm.rfl
  insert-perm e (x ∷ xs) = elim (Bool-cases (key_lt (key x) (key e))) [
    | inl below ↦ rw below (Perm.trans (Perm.cons x (insert-perm e xs)) (Perm.swap e x xs))
    | inr above ↦ rw above Perm.rfl
  ]

  insert-All :
      (P : Entry → Type 0) (e : Entry) (xs : List Entry) → P e → All P xs → All P (insert key e xs)
  unfolding insert
  insert-All P e [] h hs = (h, tt)
  insert-All P e (x ∷ xs) h hs = elim (Bool-cases (key_lt (key x) (key e))) [
    | inl below ↦ rw below (hs.0, insert-All P e xs h hs.1)
    | inr above ↦ rw above (h, hs)
  ]

  -- What is not below `x` is not below what `x` is not below.
  above_both :
      (e x y : Entry)
      → key_lt (key x) (key e) ≡ false
      → key_lt (key y) (key x) ≡ false
      → key_lt (key y) (key e) ≡ false
  above_both e x y h g = elim (Bool-cases (key_lt (key y) (key e))) [
    | inl below ↦ elim (key_lt-split (key y) (key x) (key e) below) [ inl a ↦ cc | inr b ↦ cc ]
    | inr above ↦ above
  ]

  insert-IsAscending :
      (e : Entry) (xs : List Entry) → IsAscending xs → IsAscending (insert key e xs)
  unfolding insert
  insert-IsAscending e [] h = (tt, tt)
  insert-IsAscending e (x ∷ xs) h = elim (Bool-cases (key_lt (key x) (key e))) [
    | inl below ↦ rw below (
      insert-All (λ y. key_lt (key y) (key x) ≡ false) e xs (key_lt-asym (key x) (key e) below) h.0,
      insert-IsAscending e xs h.1,
    )
    | inr above ↦ rw above ((above, All-map (λ y g. above_both e x y above g) xs h.0), h)
  ]

  insert-only :
      (e : Entry) (k : Text × Text) (xs : List Entry) → only k (insert key e xs) ≡ only k (e ∷ xs)
  unfolding insert
  insert-only e k [] = refl
  insert-only e k (x ∷ xs) = elim (Bool-cases (key_lt (key x) (key e))) [
    | inl below ↦ elim (Bool-cases (same_key (key x) k)) [
      | inl here ↦ elim (Bool-cases (same_key (key e) k)) [
        | inl there ↦
            let one = same_key-eq (key x) k here ∙ sym (same_key-eq (key e) k there) in
            absurd (true≢false (sym below ∙ ap (λ l. key_lt l (key e)) one ∙ key_lt_irrefl (key e)))
        | inr other ↦ rw (below, here, insert-only e k xs, other)
      ]
      | inr other ↦ rw (below, other, insert-only e k xs)
    ]
    | inr above ↦ rw above
  ]

  sorted-perm : (es : List Entry) → Perm (sorted key es) es
  unfolding sorted
  sorted-perm [] = Perm.rfl
  sorted-perm (e ∷ es) = Perm.trans (insert-perm e (sorted key es)) (Perm.cons e (sorted-perm es))

  sorted-IsAscending : (es : List Entry) → IsAscending (sorted key es)
  unfolding sorted
  sorted-IsAscending [] = tt
  sorted-IsAscending (e ∷ es) = insert-IsAscending e (sorted key es) (sorted-IsAscending es)

  sorted-only : (k : Text × Text) (es : List Entry) → only k (sorted key es) ≡ only k es
  unfolding sorted
  sorted-only k [] = refl
  sorted-only k (e ∷ es) =
      insert-only e k (sorted key es)
      ∙ ap (λ rest. if same_key (key e) k then e ∷ rest else rest) (sorted-only k es)

-- The line of an entry: never its password.
abbrev pub line_of : Entry → Line
line_of e = entry_listed e.id e.service e.username (not (is_empty e.notes))

-- The shell with these lines printed.
abbrev pub printed : List Line → Shell → Shell
printed lines s = record s {
  terminal = record s.terminal { out_lines = s.terminal.out_lines ++ lines };
}

list_lines_lem :
    (es : List Entry) (s : Shell) → list_lines es s ≡ (ok tt, printed (map line_of es) s)
unfolding list_lines
list_lines_lem [] s =
    ap (λ lines. (ok tt, record s { terminal = record s.terminal { out_lines = lines } }))
      (sym (append-nil s.terminal.out_lines))
list_lines_lem (e ∷ es) s =
    list_lines_lem es (printed (line_of e ∷ []) s)
    ∙ ap (λ lines. (ok tt, record s { terminal = record s.terminal { out_lines = lines } }))
        (append_assoc s.terminal.out_lines (line_of e ∷ []) (map line_of es))

-- The keys by which `list` sorts.
abbrev pub list_key : (Text → Text) → Entry → Text × Text
list_key lower_case e = (lower_case e.service, lower_case e.username)

-- What is shown of the entries: that there are none, or one line for each, which has its id, its
-- service, its username and whether it has notes. No lower-case service and username is smaller than
-- one before it, and entries with the same are in the order of the vault.
abbrev pub Shown : (Text → Text) → List Entry → List Line → Type 0
Shown lower_case es lines =
    let key = list_key lower_case in
    ((es ≡ []) × (lines ≡ no_entries ∷ []))
    ⊎ ((shown : List Entry) × Perm shown es
        × IsAscending key shown
        × ((k : Text × Text) → only key k shown ≡ only key k es)
        × (lines ≡ map line_of shown))

pub show_entries_lem :
    (lower_case : Text → Text) (es : List Entry) (s : Shell)
    → (lines : List Line) × Shown lower_case es lines
      × (show_entries lower_case es s ≡ (ok tt, printed lines s))
show_entries_lem lower_case [] s = (no_entries ∷ [], inl (refl, refl), refl)
show_entries_lem lower_case (e ∷ es) s =
    let key = list_key lower_case in
    let shown = sorted key (e ∷ es) in
    (
      map line_of shown,
      inr (
        shown,
        sorted-perm key (e ∷ es),
        sorted-IsAscending key (e ∷ es),
        (λ k. sorted-only key k (e ∷ es)),
        refl,
      ),
      list_lines_lem shown s,
    )
