-- ===== src/Directory/Map.antt =====
-- The directory seen as a map from file names to sectors.
use nachos_system_calls.Prelude.{
  ℕ, suc, ◌≡◌, refl, Bool, true, false, ◌&&◌, Option, none, some, List, [], ◌∷◌, ◌++◌, length,
  get_elem?, drop, ◌>>=◌, if◌then◌else◌, arith, Bool-cases, inl, inr, ◌∙◌, sym, ap,
}
use nachos_system_calls.CString.{
  strncmp_eq, strncpy, strncmp_eq_left, strncmp_eq_refl, strncmp_eq_right, strncmp_eq_sym,
  strncmp_eq-strncpy_append,
}
use nachos_system_calls.Directory.{
  file_name_max_len, DirectoryEntry, find_index, find_file, take_free, add_from, add_file,
}

-- The sector of a name.
abbrev pub lookup : List DirectoryEntry → List ℕ → Option ℕ
lookup [] m = none
lookup (e ∷ es) m =
    let rest = lookup es m in
    if e.in_use && strncmp_eq file_name_max_len e.name m then some e.sector else rest

-- No two entries in use have the same name.
abbrev pub Unique : List DirectoryEntry → Type 0
Unique [] = Unit
Unique (e ∷ es) = (e.in_use ≡ true → lookup es e.name ≡ none) × Unique es

-- Find returns the sector of the first entry in use that has the name, and fails if there is none.
pub find_file-lookup : (es : List DirectoryEntry) (m : List ℕ) → find_file es m ≡ lookup es m
unfolding find_file find_index
find_file-lookup [] m = refl
find_file-lookup (e ∷ es) m =
    elim (Bool-cases (e.in_use && strncmp_eq file_name_max_len e.name m)) [
      | inl t ↦ rw t refl
      | inr t ↦ rw t (skip (find_index es m) ∙ find_file-lookup es m)
    ]
  where
    skip :
        (o : Option ℕ)
        → ((o >>= λ i. some (suc i)) >>= λ i. get_elem? (e ∷ es) i >>= λ x. some x.sector)
          ≡ (o >>= λ i. get_elem? es i >>= λ x. some x.sector)
    skip none = refl
    skip (some i) = refl

pub lookup_same :
    (es : List DirectoryEntry) (a b : List ℕ)
    → strncmp_eq file_name_max_len a b ≡ true
    → lookup es a ≡ lookup es b
lookup_same [] a b h = refl
lookup_same (e ∷ es) a b h =
    rw (strncmp_eq_right file_name_max_len a b e.name h, lookup_same es a b h) refl

abbrev pub Full : List DirectoryEntry → Type 0
Full [] = Unit
Full (e ∷ es) = (e.in_use ≡ true) × Full es

-- What the loop of Add yields for a name that is not there.
pub data Adds (es : List DirectoryEntry) (name : List ℕ) (sector : ℕ)
    : Bool × List DirectoryEntry → Type 0 where
  added :
      (es' : List DirectoryEntry)
      → ((m : List ℕ)
          → lookup es' m
            ≡ (if strncmp_eq file_name_max_len name m then some sector else lookup es m))
      → Unique es'
      → length es' ≡ length es
      → Adds es name sector (true, es')
  present : (x : ℕ) → lookup es name ≡ some x → Adds es name sector (false, es)
  no_room : lookup es name ≡ none → Full es → Adds es name sector (false, es)

-- An entry in use with another name stays in front.
keep_entry :
    (e : DirectoryEntry) (es es' : List DirectoryEntry) (name : List ℕ) (sector : ℕ)
    → e.in_use ≡ true
    → strncmp_eq file_name_max_len e.name name ≡ false
    → ((m : List ℕ)
        → lookup es' m ≡ (if strncmp_eq file_name_max_len name m then some sector else lookup es m))
    → (m : List ℕ)
    → lookup (e ∷ es') m
      ≡ (if strncmp_eq file_name_max_len name m then some sector else lookup (e ∷ es) m)
keep_entry e es es' name sector t n h m =
    elim (Bool-cases (strncmp_eq file_name_max_len e.name m)) [
      | inl s ↦
          let d : strncmp_eq file_name_max_len name m ≡ false =
            sym (
              strncmp_eq_left file_name_max_len e.name m name s
              ∙ strncmp_eq_sym file_name_max_len m name)
            ∙ n in
          rw (s, d, t) refl
      | inr s ↦ rw (s, h m, t) refl
    ]

other_name :
    (e : DirectoryEntry) (es : List DirectoryEntry) (name : List ℕ)
    → e.in_use ≡ true
    → lookup (e ∷ es) name ≡ none
    → strncmp_eq file_name_max_len e.name name ≡ false
other_name e es name t h = elim (Bool-cases (strncmp_eq file_name_max_len e.name name)) [
  | inl s ↦ absurd (ground arith)
  | inr s ↦ s
]

rest_none :
    (e : DirectoryEntry) (es : List DirectoryEntry) (name : List ℕ)
    → lookup (e ∷ es) name ≡ none
    → lookup es name ≡ none
rest_none e es name h = ground arith

-- The entry that is written stands for the name.
new_entry :
    (e : DirectoryEntry) (es : List DirectoryEntry) (name tail m : List ℕ) (sector : ℕ)
    → e.in_use ≡ false
    → lookup
        (record { in_use = true; sector = sector; name = strncpy file_name_max_len name ++ tail }
          ∷ es)
        m
      ≡ (if strncmp_eq file_name_max_len name m then some sector else lookup (e ∷ es) m)
new_entry e es name tail m sector t =
    rw (strncmp_eq-strncpy_append file_name_max_len name tail m, t) refl

take_free-Adds :
    (es : List DirectoryEntry) (name : List ℕ) (sector : ℕ)
    → Unique es
    → lookup es name ≡ none
    → Adds es name sector (take_free es name sector)
unfolding take_free
take_free-Adds [] name sector u h = no_room refl tt
take_free-Adds (e ∷ es) name sector (w, u) h = elim (Bool-cases e.in_use) [
  | inl t ↦
      simp t (
        keep t (take_free es name sector) (take_free-Adds es name sector u (rest_none e es name h)))
  | inr t ↦ simp t (
      added
        (record {
          in_use = true;
          sector = sector;
          name = strncpy file_name_max_len name ++ drop file_name_max_len e.name;
        }
          ∷ es)
        (λ m. new_entry e es name (drop file_name_max_len e.name) m sector t)
        (
          λ q.
              lookup_same es (strncpy file_name_max_len name ++ drop file_name_max_len e.name) name
                (strncmp_eq-strncpy_append file_name_max_len name (drop file_name_max_len e.name)
                    name
                  ∙ strncmp_eq_refl file_name_max_len name)
              ∙ rest_none e es name h,
          u,
        )
        refl)
]
  where
    keep :
        (t : e.in_use ≡ true) (r : Bool × List DirectoryEntry)
        → Adds es name sector r
        → Adds (e ∷ es) name sector (r.0, e ∷ r.1)
    keep t r (no_room g f) = no_room h (t, f)
    keep t r (present x g) = absurd (ground (arith, rest_none e es name h))
    keep t r (added es' m u' l) =
        let n = other_name e es name t h in
        added (e ∷ es') (keep_entry e es es' name sector t n m)
          ((λ q. m e.name ∙ rw (strncmp_eq_sym file_name_max_len name e.name, n) (w t)), u')
          (ap (λ k. suc k) l)

pub found-lookup :
    (es : List DirectoryEntry) (m : List ℕ) (i : ℕ)
    → find_index es m ≡ some i
    → (x : ℕ) × (lookup es m ≡ some x)
unfolding find_index
found-lookup [] m i h = absurd (ground arith)
found-lookup (e ∷ es) m i h =
    elim (Bool-cases (e.in_use && strncmp_eq file_name_max_len e.name m)) [
      | inl t ↦ (e.sector, rw t refl)
      | inr t ↦ rw t (go (λ j q. found-lookup es m j q) (find_index es m) refl (rw t at h))
    ]
  where
    go :
        ((j : ℕ) → find_index es m ≡ some j → (x : ℕ) × (lookup es m ≡ some x))
        → (o : Option ℕ) → find_index es m ≡ o
        → (o >>= λ j. some (suc j)) ≡ some i
        → (x : ℕ) × (lookup es m ≡ some x)
    go ih none q k = absurd (ground arith)
    go ih (some j) q k = ih j q

pub absent-lookup :
    (es : List DirectoryEntry) (m : List ℕ) → find_index es m ≡ none → lookup es m ≡ none
unfolding find_file
absent-lookup es m h = sym (find_file-lookup es m) ∙ rw h refl

-- On a directory without two entries of one name, Add returns FALSE and changes nothing if the name
-- is there or if every entry is in use; otherwise it returns TRUE, Find of that name and of no other
-- gives the new sector from then on, and the names stay distinct.
pub add_file-Adds :
    (es : List DirectoryEntry) (name : List ℕ) (sector : ℕ)
    → Unique es
    → Adds es name sector (add_file es name sector)
unfolding add_file add_from
add_file-Adds es name sector u = go (find_index es name) refl
  where
    go : (o : Option ℕ) → find_index es name ≡ o → Adds es name sector (add_from es name sector o)
    go none q = take_free-Adds es name sector u (absent-lookup es name q)
    go (some i) q = let (x, g) = found-lookup es name i q in present x g
