-- ===== src/FileHeader/Allocate.antt =====
-- Allocate of code/filesys/filehdr.cc, and Deallocate after it.
use nachos_system_calls.Prelude.{
  ℕ, zero, suc, ◌+◌, ◌<◌, ◌≤◌, ◌≡◌, refl, Bool, true, false, some, List, [], ◌∷◌, set, length,
  length-set, length-tabulate, get_elem?, get_elem?_total, get_elem?-set_self, get_elem?-set_ne, ℤ,
  pos, arith, ap, ◌∙◌, sym, subst, ltb, Bool-cases, inl, inr,
}
use nachos_system_calls.Bitmap.{BitMap, div_round_up}
use nachos_system_calls.Bitmap.View.{IsValid, bits, is_set}
use nachos_system_calls.Bitmap.Update.{test_lem, clear_lem}
use nachos_system_calls.Bitmap.Search.{num_false, find_free, num_clear_lem}
use nachos_system_calls.Bitmap.Clear.{
  first_clear_total, num_false-set, first_clear-get_elem?, in_range,
}
use nachos_system_calls.FileHeader.{
  num_direct, FileHeader, allocate_loop, allocate, deallocate_loop, deallocate,
}
use nachos_system_calls.FileHeader.Marks.{Marks, Marks-used, Marks-clear}

-- The elements of the array from `i` on are these sectors.
abbrev pub Holds : List ℤ → ℕ → List ℕ → Type 0
Holds ds i [] = Unit {0}
Holds ds i (f ∷ fs) = (get_elem? ds i ≡ some (pos f)) × Holds ds (i + 1) fs

-- What the loop of Allocate leaves.
record Loop (i : ℕ) (k : ℕ) (ds : List ℤ) (b : BitMap) (ds' : List ℤ) (b' : BitMap) : Type 0 where
  valid : IsValid b'
  sectors : List ℕ
  number : length sectors ≡ k
  marks : Marks (bits b) sectors (bits b')
  holds : Holds ds' i sectors
  below : (j : ℕ) → j < i → get_elem? ds' j ≡ get_elem? ds j

allocate_loop_lem :
    (k i : ℕ) (ds : List ℤ) (b : BitMap)
    → IsValid b
    → k ≤ num_false (bits b)
    → i + k ≤ length ds
    → (ds' : List ℤ) × (b' : BitMap) × (allocate_loop k i ds b ≡ some (ds', b'))
      × Loop i k ds b ds' b'
unfolding allocate_loop
allocate_loop_lem zero i ds b v h l = (
  ds,
  b,
  refl,
  record { valid = v; sectors = []; number = refl; marks = refl; holds = tt; below = λ j q. refl },
)
allocate_loop_lem (suc k) i ds b v h l =
    let (f, e) = first_clear_total (bits b) (omega arith) in
    let (b₁, t, v₁, n, s) = find_free f v e in
    let enough : k ≤ num_false (bits b₁) =
      subst (λ x. k ≤ num_false x) (sym s) (omega (arith, num_false-set (bits b) f e)) in
    let (old, o) = get_elem?_total ds i (omega arith) in
    let (ds', b', q, r) =
      allocate_loop_lem k (i + 1) (set ds i (pos f)) b₁ v₁ enough
        (omega (arith, length-set ds i (pos f))) in
    (
      ds',
      b',
      rw (t, o) q,
      record {
        valid = r.valid;
        sectors = f ∷ r.sectors;
        number = ap suc r.number;
        marks = (
          first_clear-get_elem? (bits b) f e,
          subst (λ x. Marks x r.sectors (bits b')) s r.marks,
        );
        holds = (r.below i (omega arith) ∙ get_elem?-set_self ds i (pos f) (omega arith), r.holds);
        below = λ j p.
            r.below j (omega arith) ∙ get_elem?-set_ne ds (pos f) (λ w. absurd (omega (arith, w)));
      },
    )

-- Deallocate of sectors that were marked in turn: it finds them all marked, and gives them back.
pub deallocate_loop_lem :
    (fs : List ℕ) (i : ℕ) (ds : List ℤ) (b : BitMap) (bs : List Bool)
    → IsValid b
    → Marks bs fs (bits b)
    → Holds ds i fs
    → (b' : BitMap) × (deallocate_loop (length fs) i ds b ≡ some b') × IsValid b' × (bits b' ≡ bs)
unfolding deallocate_loop
deallocate_loop_lem [] i ds b bs v m h = (b, refl, v, sym m)
deallocate_loop_lem (f ∷ fs) i ds b bs v (c, m) (e, h) =
    let used =
      Marks-used (set bs f true) (bits b) fs f m (get_elem?-set_self bs f true (in_range bs f c)) in
    let small : f < b.num_bits =
      omega (arith, in_range (bits b) f used, length-tabulate b.num_bits 0 (is_set b)) in
    let t = test_lem f v small ∙ used in
    let (b₁, q, v₁, n, s) = clear_lem f v small in
    let rest = subst (Marks bs fs) (sym s) (Marks-clear bs (bits b) fs f c m) in
    let (b', r, w, z) = deallocate_loop_lem fs (i + 1) ds b₁ bs v₁ rest h in
    (b', rw (e, t, q) r, w, z)

-- What Allocate does for `n` sectors.
pub data Allocates (b : BitMap) (size n : ℕ) (h : FileHeader) : Type 0 where
  too_few :
      num_false (bits b) < n
      → allocate b size h ≡ some (false, record h { num_bytes = size; num_sectors = n }, b)
      → Allocates b size n h
  taken :
      n ≤ num_false (bits b)
      → (h' : FileHeader) (b' b'' : BitMap) (sectors : List ℕ)
      → allocate b size h ≡ some (true, h', b')
      → h'.num_bytes ≡ size
      → h'.num_sectors ≡ n
      → length sectors ≡ n
      → Holds h'.data_sectors 0 sectors
      → IsValid b'
      → Marks (bits b) sectors (bits b')
      → deallocate h' b' ≡ some b''
      → IsValid b''
      → bits b'' ≡ bits b
      → Allocates b size n h

-- Allocate for a file of at most thirty sectors, on a valid map of the free sectors: with too few
-- clear bits it returns FALSE and leaves the map. Otherwise it returns TRUE; the header lists as
-- many sectors as the file needs, each of which was clear when it was marked, the map is valid, and
-- Deallocate of the header then succeeds and gives the map of before.
pub allocate-Allocates :
    (b : BitMap) (size : ℕ) (h : FileHeader)
    → IsValid b
    → length h.data_sectors ≡ num_direct
    → div_round_up size 128 ≤ num_direct
    → Allocates b size (div_round_up size 128) h
unfolding allocate deallocate
allocate-Allocates b size h v l s =
    elim (Bool-cases (ltb (num_false (bits b)) (div_round_up size 128))) [
      | inl t ↦ too_few (ground (arith, t)) (rw (num_clear_lem v, t) refl)
      | inr t ↦
          let (ds, b', q, r) =
            allocate_loop_lem (div_round_up size 128) 0 h.data_sectors b v (ground (arith, t))
              (omega (arith, l, s)) in
          let (b'', d, w, z) =
            deallocate_loop_lem r.sectors 0 ds b' (bits b) r.valid r.marks r.holds in
          taken (ground (arith, t))
            (record h { num_bytes = size; num_sectors = div_round_up size 128; data_sectors = ds })
            b' b'' r.sectors (rw (num_clear_lem v, t, q) refl) refl refl r.number r.holds r.valid
            r.marks (ap (λ n. deallocate_loop n 0 ds b') (sym r.number) ∙ d) w z
    ]
