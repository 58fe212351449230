-- ===== src/AddrSpace/Frames.antt =====
-- The frames that a new address space takes.

use nachos_system_calls.Prelude.{
  ℕ, zero, suc, ◌+◌, ◌≤◌, ◌≡◌, refl, Bool, true, false, some, List, [], ◌∷◌, set, length, get_elem?,
  get_elem?-set_self, pos, arith, ap, sym, subst, All,
}
use nachos_system_calls.Bitmap.{BitMap}
use nachos_system_calls.Bitmap.View.{IsValid, bits}
use nachos_system_calls.Bitmap.Search.{first_clear, num_false, find_free}
use nachos_system_calls.Bitmap.Clear.{
  first_clear_total, num_false-set, first_clear-get_elem?, in_range, get_elem?-take, was_clear,
}
use nachos_system_calls.Machine.{TranslationEntry}
use nachos_system_calls.AddrSpace.{Pages, new_entry, zero_frame, alloc_pages}

-- The pages are in the frames that are clear, the lowest first, each marked when it is taken.
pub data Allocates : List Bool → ℕ → List TranslationEntry → List Bool → Type 0 where
  no_page : (bs : List Bool) (i : ℕ) → Allocates bs i [] bs
  page :
      (bs : List Bool) (i f : ℕ) (es : List TranslationEntry) (bs' : List Bool)
      → first_clear bs ≡ some f
      → Allocates (set bs f true) (i + 1) es bs'
      → Allocates bs i (new_entry i f ∷ es) bs'

alloc_pages-Allocates :
    (k i : ℕ) (b : BitMap) (mem : ℕ → ℕ)
    → IsValid b
    → k ≤ num_false (bits b)
    → (r : Pages) × (alloc_pages k i b mem ≡ some r)
      × IsValid r.frames
      × (length r.table ≡ k)
      × Allocates (bits b) i r.table (bits r.frames)
unfolding alloc_pages
alloc_pages-Allocates zero i b mem v h =
    (record { table = []; frames = b; memory = mem }, refl, v, refl, no_page (bits b) i)
alloc_pages-Allocates (suc k) i b mem v h =
    let (f, e) = first_clear_total (bits b) (omega arith) in
    let (b', t, v', n, s) = find_free f v e in
    let enough : k ≤ num_false (bits b') =
      subst (λ x. k ≤ num_false x) (sym s) (omega (arith, num_false-set (bits b) f e)) in
    let (r, q, w, l, a) = alloc_pages-Allocates k (i + 1) b' (zero_frame mem f) v' enough in
    (
      record r { table = new_entry i f ∷ r.table },
      rw (t, q) refl,
      w,
      ap (λ j. suc j) l,
      page (bits b) i f r.table (bits r.frames) e
          (subst (λ x. Allocates x (i + 1) r.table (bits r.frames)) s a),
    )

-- A frame that is in use stays in use.
Allocates-used :
    {bs bs' : List Bool} {i : ℕ} {es : List TranslationEntry} (f : ℕ)
    → Allocates bs i es bs'
    → get_elem? bs f ≡ some true
    → get_elem? bs' f ≡ some true
Allocates-used f (no_page _ _) h = h
Allocates-used f (page bs i g es bs' c a) h = Allocates-used f a (get_elem?-take bs g f h)

-- A page in a frame that was clear, so that no other process has it, and is in use afterwards.
abbrev pub Fresh : List Bool → List Bool → TranslationEntry → Type 0
Fresh bs bs' e =
    (f : ℕ) × (e.physical_page ≡ pos f)
    × (get_elem? bs f ≡ some false)
    × (get_elem? bs' f ≡ some true)

Fresh-weaken :
    (bs bs' : List Bool) (g : ℕ) (es : List TranslationEntry)
    → All (Fresh (set bs g true) bs') es
    → All (Fresh bs bs') es
Fresh-weaken bs bs' g [] a = tt
Fresh-weaken bs bs' g (e ∷ es) ((f, p, q, r), a) =
    ((f, p, was_clear bs g f q, r), Fresh-weaken bs bs' g es a)

Allocates-Fresh :
    {bs bs' : List Bool} {i : ℕ} {es : List TranslationEntry}
    → Allocates bs i es bs'
    → All (Fresh bs bs') es
unfolding new_entry
Allocates-Fresh (no_page _ _) = tt
Allocates-Fresh (page bs i f es bs' c a) =
    let clear = first_clear-get_elem? bs f c in
    let taken = Allocates-used f a (get_elem?-set_self bs f true (in_range bs f clear)) in
    ((f, refl, clear, taken), Fresh-weaken bs bs' f es (Allocates-Fresh a))

-- With a clear frame for each page, the loop of the constructor over the pages succeeds and keeps
-- the map of the frames valid. The pages are in the frames that are clear, the lowest first; each
-- was clear before the loop and is marked after it.
pub alloc_pages-Fresh :
    (k i : ℕ) (b : BitMap) (mem : ℕ → ℕ)
    → IsValid b
    → k ≤ num_false (bits b)
    → (r : Pages) × (alloc_pages k i b mem ≡ some r)
      × IsValid r.frames
      × (length r.table ≡ k)
      × Allocates (bits b) i r.table (bits r.frames)
      × All (Fresh (bits b) (bits r.frames)) r.table
alloc_pages-Fresh k i b mem v h =
    let (r, e, w, l, a) = alloc_pages-Allocates k i b mem v h in (r, e, w, l, a, Allocates-Fresh a)
