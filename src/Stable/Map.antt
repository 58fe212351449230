-- ===== src/Stable/Map.antt =====
-- The table seen as a map from names to semaphores.
use nachos_system_calls.Prelude.{
  ℕ, zero, suc, ◌≡◌, refl, true, false, Option, none, some, List, [], ◌∷◌, get_elem?, set, arith,
  if◌then◌else◌, Bool-cases, inl, inr,
}
use nachos_system_calls.CString.{strncmp_eq, strncmp_eq_left, strncmp_eq_refl}
use nachos_system_calls.Semaphore.{Semaphore}
use nachos_system_calls.Stable.{Sem, find_name}

-- The semaphore that a name stands for.
pub lookup : List (Option Sem) → List ℕ → Option Semaphore
lookup [] m = none
lookup (none ∷ xs) m = lookup xs m
lookup (some s ∷ xs) m = if strncmp_eq 49 s.sem_name m then some s.sem else lookup xs m

pub lookup_of_find_none :
    (xs : List (Option Sem)) (m : List ℕ) → find_name xs m ≡ none → lookup xs m ≡ none
unfolding lookup find_name
lookup_of_find_none [] m h = refl
lookup_of_find_none (none ∷ xs) m h = ground (arith, lookup_of_find_none xs m)
lookup_of_find_none (some s ∷ xs) m h = ground (arith, lookup_of_find_none xs m)

-- The slot that the search returns holds the semaphore of that name.
pub find_name-some :
    (xs : List (Option Sem)) (m : List ℕ) (i : ℕ)
    → find_name xs m ≡ some i
    → (s : Sem) × (get_elem? xs i ≡ some (some s))
      × (strncmp_eq 49 s.sem_name m ≡ true)
      × (lookup xs m ≡ some s.sem)
unfolding lookup find_name
find_name-some [] m i h = cc
find_name-some (none ∷ xs) m zero h = ground arith
find_name-some (none ∷ xs) m (suc i) h = find_name-some xs m i (ground arith)
find_name-some (some s ∷ xs) m zero h = elim (Bool-cases (strncmp_eq 49 s.sem_name m)) [
  | inl e ↦ (s, refl, e, rw e)
  | inr e ↦ absurd (ground arith)
]
find_name-some (some s ∷ xs) m (suc i) h = elim (Bool-cases (strncmp_eq 49 s.sem_name m)) [
  | inl e ↦ absurd (ground arith)
  | inr e ↦ rw e (find_name-some xs m i (ground arith))
]

differs :
    (a b c : List ℕ)
    → strncmp_eq 49 a b ≡ false
    → strncmp_eq 49 b c ≡ true
    → strncmp_eq 49 a c ≡ false
differs a b c h k =
    ground (arith, strncmp_eq_left 49 a c b, strncmp_eq_left 49 b c b, strncmp_eq_refl 49 b)

-- A new semaphore in the slot of `name` changes the map at that name alone.
pub lookup-set_found :
    (xs : List (Option Sem)) (name m : List ℕ) (i : ℕ) (s : Sem)
    → find_name xs name ≡ some i
    → strncmp_eq 49 s.sem_name name ≡ true
    → lookup (set xs i (some s)) m ≡ (if strncmp_eq 49 name m then some s.sem else lookup xs m)
unfolding lookup find_name
lookup-set_found [] name m i s h k = cc
lookup-set_found (none ∷ xs) name m zero s h k = ground arith
lookup-set_found (none ∷ xs) name m (suc i) s h k = lookup-set_found xs name m i s (ground arith) k
lookup-set_found (some x ∷ xs) name m zero s h k =
    ground (arith, strncmp_eq_left 49 s.sem_name name m, strncmp_eq_left 49 x.sem_name name m)
lookup-set_found (some x ∷ xs) name m (suc i) s h k =
    ground (arith, lookup-set_found xs name m i s, differs x.sem_name name m)

-- So does one in an empty slot, where the name is new.
pub lookup-set_free :
    (xs : List (Option Sem)) (name m : List ℕ) (i : ℕ) (s : Sem)
    → find_name xs name ≡ none
    → get_elem? xs i ≡ some none
    → strncmp_eq 49 s.sem_name name ≡ true
    → lookup (set xs i (some s)) m ≡ (if strncmp_eq 49 name m then some s.sem else lookup xs m)
unfolding lookup find_name
lookup-set_free [] name m i s h g k = cc
lookup-set_free (none ∷ xs) name m zero s h g k =
    ground (arith, strncmp_eq_left 49 s.sem_name name m)
lookup-set_free (none ∷ xs) name m (suc i) s h g k =
    lookup-set_free xs name m i s (ground arith) g k
lookup-set_free (some x ∷ xs) name m zero s h g k = cc
lookup-set_free (some x ∷ xs) name m (suc i) s h g k =
    ground (arith, lookup-set_free xs name m i s, differs x.sem_name name m)
