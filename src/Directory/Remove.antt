-- ===== src/Directory/Remove.antt =====
-- Removing a name from the directory.
use nachos_system_calls.Prelude.{
  ℕ, zero, suc, ◌≡◌, refl, Bool, true, false, ◌&&◌, Option, none, some, List, [], ◌∷◌, ◌>>=◌,
  if◌then◌else◌, arith, Bool-cases, inl, inr, ◌∙◌, sym,
}
use nachos_system_calls.CString.{strncmp_eq, strncmp_eq_left, strncmp_eq_sym}
use nachos_system_calls.Directory.{
  file_name_max_len, DirectoryEntry, find_index, drop_entry, remove_from, remove_file,
}
use nachos_system_calls.Directory.Map.{lookup, Unique, lookup_same, absent-lookup, found-lookup}

-- What Remove yields.
pub data Removes (es : List DirectoryEntry) (name : List ℕ)
    : Bool × List DirectoryEntry → Type 0 where
  absent : lookup es name ≡ none → Removes es name (false, es)
  removed :
      (x : ℕ)
      → lookup es name ≡ some x
      → (es' : List DirectoryEntry)
      → ((m : List ℕ)
          → lookup es' m ≡ (if strncmp_eq file_name_max_len name m then none else lookup es m))
      → Unique es'
      → Removes es name (true, es')

drop_head :
    (e : DirectoryEntry) (es : List DirectoryEntry) (name m : List ℕ)
    → e.in_use && strncmp_eq file_name_max_len e.name name ≡ true
    → Unique (e ∷ es)
    → lookup es m ≡ (if strncmp_eq file_name_max_len name m then none else lookup (e ∷ es) m)
drop_head e es name m t (w, u) =
    let a : strncmp_eq file_name_max_len e.name name ≡ true = ground arith in
    let b : e.in_use ≡ true = ground arith in
    let c : strncmp_eq file_name_max_len e.name m ≡ strncmp_eq file_name_max_len name m =
      strncmp_eq_left file_name_max_len e.name name m a in
    elim (Bool-cases (strncmp_eq file_name_max_len name m)) [
      | inl s ↦ rw s (sym (lookup_same es e.name m (c ∙ s)) ∙ w b)
      | inr s ↦ rw (s, c, s, b) refl
    ]

drop_later :
    (e : DirectoryEntry) (es es' : List DirectoryEntry) (name m : List ℕ)
    → e.in_use && strncmp_eq file_name_max_len e.name name ≡ false
    → lookup es' m ≡ (if strncmp_eq file_name_max_len name m then none else lookup es m)
    → lookup (e ∷ es') m ≡ (if strncmp_eq file_name_max_len name m then none else lookup (e ∷ es) m)
drop_later e es es' name m t h =
    elim (Bool-cases (e.in_use && strncmp_eq file_name_max_len e.name m)) [
      | inl s ↦
          let a : strncmp_eq file_name_max_len e.name m ≡ true = ground arith in
          let n : strncmp_eq file_name_max_len e.name name ≡ false = ground arith in
          let d : strncmp_eq file_name_max_len name m ≡ false =
            sym (
              strncmp_eq_left file_name_max_len e.name m name a
              ∙ strncmp_eq_sym file_name_max_len m name)
            ∙ n in
          rw (s, d) refl
      | inr s ↦ rw (s, h) refl
    ]

abbrev Dropped : List DirectoryEntry → List ℕ → List DirectoryEntry → Type 0
Dropped es name es' =
    ((m : List ℕ)
      → lookup es' m ≡ (if strncmp_eq file_name_max_len name m then none else lookup es m))
    × Unique es'

drop_entry_lem :
    (es : List DirectoryEntry) (name : List ℕ) (i : ℕ)
    → Unique es
    → find_index es name ≡ some i
    → Dropped es name (drop_entry es i)
unfolding find_index drop_entry
drop_entry_lem [] name i u h = absurd (ground arith)
drop_entry_lem (e ∷ es) name i (w, u) h =
    elim (Bool-cases (e.in_use && strncmp_eq file_name_max_len e.name name)) [
      | inl t ↦ first i t (rw t at h)
      | inr t ↦
          later (λ j q. drop_entry_lem es name j u q) i t (find_index es name) refl (rw t at h)
    ]
  where
    first :
        (i : ℕ)
        → e.in_use && strncmp_eq file_name_max_len e.name name ≡ true
        → some 0 ≡ some i
        → Dropped (e ∷ es) name (drop_entry (e ∷ es) i)
    first zero t k = ((λ m. drop_head e es name m t (w, u)), ((λ q. absurd (ground arith)), u))
    first (suc i) t k = absurd (ground arith)

    later :
        ((j : ℕ) → find_index es name ≡ some j → Dropped es name (drop_entry es j))
        → (i : ℕ) → e.in_use && strncmp_eq file_name_max_len e.name name ≡ false
        → (o : Option ℕ) → find_index es name ≡ o
        → (o >>= λ j. some (suc j)) ≡ some i
        → Dropped (e ∷ es) name (drop_entry (e ∷ es) i)
    later ih i t none q k = absurd (ground arith)
    later ih zero t (some j) q k = absurd (ground arith)
    later ih (suc i) t (some j) q k =
        let (f, v) = ih i (ground arith) in
        (
          (λ m. drop_later e es (drop_entry es i) name m t (f m)),
          ((λ p. f e.name ∙ only_none (strncmp_eq file_name_max_len name e.name) (w p)), v),
        )
      where
        only_none : (b : Bool) {o : Option ℕ} → o ≡ none → (if b then none else o) ≡ none
        only_none true h = refl
        only_none false h = h

-- On a directory without two entries of one name, Remove returns FALSE only if the name is not
-- there, and changes nothing; it returns TRUE only if the name is there, and then Find fails for
-- that name and for no other from then on, and the names stay distinct.
pub remove_file-Removes :
    (es : List DirectoryEntry) (name : List ℕ) → Unique es → Removes es name (remove_file es name)
unfolding remove_file remove_from
remove_file-Removes es name u = go (find_index es name) refl
  where
    go : (o : Option ℕ) → find_index es name ≡ o → Removes es name (remove_from es o)
    go none q = absent (absent-lookup es name q)
    go (some i) q =
        let (f, v) = drop_entry_lem es name i u q in
        let (x, l) = found-lookup es name i q in removed x l (drop_entry es i) f v
