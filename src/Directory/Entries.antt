-- ===== src/Directory/Entries.antt =====
-- What the entries of a directory hold: the sectors that are there, and names of the size of their
-- arrays.
use nachos_system_calls.Prelude.{
  ℕ, zero, suc, ◌^◌, ◌<◌, ◌≡◌, refl, ap, Bool, true, false, ◌&&◌, Option, some, none, List, [], ◌∷◌,
  ◌++◌, length, length-append, length-drop, drop, All, if◌then◌else◌, ◌==◌, arith,
}
use nachos_system_calls.CString.{strncmp_eq, strncpy}
use nachos_system_calls.Directory.{
  file_name_max_len, DirectoryEntry, new_directory, find_index, take_free, add_from, add_file,
  drop_entry, remove_from, remove_file,
}
use nachos_system_calls.Directory.Map.{lookup, Unique}

-- What an entry of the table can hold: a sector is a word, and a name has 51 bytes.
pub record IsEntry (e : DirectoryEntry) : Type 0 where
  pub word : e.sector < 2 ^ 32
  pub full : length e.name ≡ 51
  pub there : e.in_use ≡ true → e.sector < 1024

pub lookup-IsEntry :
    (es : List DirectoryEntry) (m : List ℕ) (x : ℕ)
    → All IsEntry es
    → lookup es m ≡ some x
    → x < 1024
lookup-IsEntry [] m x a h = absurd (ground (arith, h))
lookup-IsEntry (e ∷ es) m x (v, a) h =
    split e.in_use (strncmp_eq file_name_max_len e.name m) e.sector v.there
      (λ k. lookup-IsEntry es m x a k) h
  where
    split :
        (u c : Bool) (s : ℕ)
        → (u ≡ true → s < 1024)
        → (lookup es m ≡ some x → x < 1024)
        → (if u && c then some s else lookup es m) ≡ some x
        → x < 1024
    split true true s t r k = ground (arith, t refl, k)
    split true false s t r k = r k
    split false c s t r k = r k

length-strncpy : (n : ℕ) (s : List ℕ) → length (strncpy n s) ≡ n
unfolding strncpy
length-strncpy zero s = refl
length-strncpy (suc n) [] = ap suc (length-strncpy n [])
length-strncpy (suc n) (x ∷ s) = ap suc (length-strncpy n (if x == 0 then [] else s))

-- The name that Add writes fills the array as the old one did.
written_name :
    (n old : List ℕ)
    → length old ≡ 51
    → length (strncpy file_name_max_len n ++ drop file_name_max_len old) ≡ 51
written_name n old h = omega (
  arith,
  length-append (strncpy file_name_max_len n) (drop file_name_max_len old),
  length-strncpy file_name_max_len n,
  length-drop file_name_max_len old,
  h,
)

either :
    (u : Bool) (x y : Bool × List DirectoryEntry)
    → All IsEntry x.1
    → All IsEntry y.1
    → All IsEntry (if◌then◌else◌ {A = Bool × List DirectoryEntry} u x y).1
either true x y p q = p
either false x y p q = q

pub add_file-IsEntry :
    (es : List DirectoryEntry) (name : List ℕ) (sector : ℕ)
    → sector < 1024
    → All IsEntry es
    → All IsEntry (add_file es name sector).1
unfolding add_file add_from take_free
add_file-IsEntry es name sector l a = go (find_index es name)
  where
    free : (es : List DirectoryEntry) → All IsEntry es → All IsEntry (take_free es name sector).1
    free [] a = tt
    free (e ∷ es) (v, a) =
        either e.in_use ((take_free es name sector).0, e ∷ (take_free es name sector).1)
          (
            true,
            record {
              in_use = true;
              sector = sector;
              name = strncpy file_name_max_len name ++ drop file_name_max_len e.name;
            }
                ∷ es,
          )
          (v, free es a)
          (
            record {
              word = omega (arith, l);
              full = written_name name e.name v.full;
              there = λ h. l;
            },
            a,
          )

    go : (o : Option ℕ) → All IsEntry (add_from es name sector o).1
    go none = free es a
    go (some i) = a

pub remove_file-IsEntry :
    (es : List DirectoryEntry) (name : List ℕ)
    → All IsEntry es
    → All IsEntry (remove_file es name).1 × (length (remove_file es name).1 ≡ length es)
unfolding remove_file remove_from drop_entry
remove_file-IsEntry es name a = go (find_index es name)
  where
    dropped :
        (es : List DirectoryEntry) (i : ℕ)
        → All IsEntry es
        → All IsEntry (drop_entry es i) × (length (drop_entry es i) ≡ length es)
    dropped [] i a = (tt, refl)
    dropped (e ∷ es) zero (v, a) = (
      (record { word = v.word; full = v.full; there = λ h. absurd (ground (arith, h)) }, a),
      refl,
    )
    dropped (e ∷ es) (suc i) (v, a) = let (b, l) = dropped es i a in ((v, b), ap suc l)

    go :
        (o : Option ℕ)
        → All IsEntry (remove_from es o).1 × (length (remove_from es o).1 ≡ length es)
    go none = (a, refl)
    go (some i) = dropped es i a

-- A new directory: no name is there.
pub length-new_directory : (es : List DirectoryEntry) → length (new_directory es) ≡ length es
unfolding new_directory
length-new_directory [] = refl
length-new_directory (e ∷ es) = ap suc (length-new_directory es)

pub lookup-new_directory :
    (es : List DirectoryEntry) (m : List ℕ) → lookup (new_directory es) m ≡ none
unfolding new_directory
lookup-new_directory [] m = refl
lookup-new_directory (e ∷ es) m = lookup-new_directory es m

pub new_directory-Unique : (es : List DirectoryEntry) → Unique (new_directory es)
unfolding new_directory
new_directory-Unique [] = tt
new_directory-Unique (e ∷ es) = ((λ h. absurd (ground (arith, h))), new_directory-Unique es)

-- An entry of new memory, before the constructor.
pub record IsRaw (e : DirectoryEntry) : Type 0 where
  pub word : e.sector < 2 ^ 32
  pub full : length e.name ≡ 51

pub new_directory-IsEntry :
    (es : List DirectoryEntry) → All IsRaw es → All IsEntry (new_directory es)
unfolding new_directory
new_directory-IsEntry [] a = tt
new_directory-IsEntry (e ∷ es) (v, a) = (
  record { word = v.word; full = v.full; there = λ h. absurd (ground (arith, h)) },
  new_directory-IsEntry es a,
)
