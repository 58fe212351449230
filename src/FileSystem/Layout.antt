-- ===== src/FileSystem/Layout.antt =====
-- What Allocate gives the constructor of code/filesys/filesys.cc, and the files that it opens.
use nachos_system_calls.Prelude.{
  ℕ, zero, suc, ◌+◌, ◌*◌, ◌/◌, ◌<◌, ◌≤◌, ◌≡◌, refl, sym, ap, ◌∙◌, Bool, true, false, some, List, [],
  ◌∷◌, length, get_elem?, get_or, set, replicate, ℤ, pos, arith,
}
use nachos_system_calls.Bitmap.{BitMap, div_round_up}
use nachos_system_calls.Bitmap.View.{IsValid, bits}
use nachos_system_calls.Bitmap.Search.{num_false}
use nachos_system_calls.Bitmap.Clear.{in_range}
use nachos_system_calls.FileHeader.{FileHeader, allocate, byte_to_sector}
use nachos_system_calls.FileHeader.Allocate.{Holds, Allocates, too_few, taken, allocate-Allocates}
use nachos_system_calls.FileHeader.Marks.{Marks, Marks-was_clear, Marks-distinct}
use nachos_system_calls.OpenFile.{Buffer, OpenFile, new_open_file}
use nachos_system_calls.OpenFile.ReadAt.{HasSectors}
use nachos_system_calls.Storage.Header.{Stored}
use nachos_system_calls.Storage.Contents.{sectors_for, FileAt}

pub Holds-get :
    (arr : List ℤ) (i j : ℕ) (fs : List ℕ)
    → Holds arr i fs
    → j < length fs
    → get_elem? arr (i + j) ≡ some (pos (get_or fs j 0))
Holds-get arr i j [] h l = absurd (omega (arith, l))
Holds-get arr i zero (f ∷ fs) h l = ap (get_elem? arr) (omega arith) ∙ h.0
Holds-get arr i (suc j) (f ∷ fs) h l =
    ap (get_elem? arr) (omega arith) ∙ Holds-get arr (i + 1) j fs h.1 (omega (arith, l))

-- What Allocate leaves where there is room.
pub record Allocated (b : BitMap) (size : ℕ) (h : FileHeader) (b' : BitMap) (sectors : List ℕ)
    : Type 0 where
  pub num_bytes : h.num_bytes ≡ size
  pub num_sectors : h.num_sectors ≡ length sectors
  pub number : length sectors ≡ div_round_up size 128
  pub holds : Holds h.data_sectors 0 sectors
  pub valid : IsValid b'
  pub marks : Marks (bits b) sectors (bits b')

pub allocated :
    (b : BitMap) (size : ℕ) (fresh : FileHeader)
    → IsValid b
    → length fresh.data_sectors ≡ 30
    → div_round_up size 128 ≤ 30
    → div_round_up size 128 ≤ num_false (bits b)
    → (h : FileHeader) × (b' : BitMap) × (sectors : List ℕ) × (allocate b size fresh
        ≡ some (true, h, b'))
      × Allocated b size h b' sectors
allocated b size fresh v l s room = go (allocate-Allocates b size fresh v l s)
  where
    go :
        Allocates b size (div_round_up size 128) fresh
        → (h : FileHeader) × (b' : BitMap) × (sectors : List ℕ) × (allocate b size fresh
            ≡ some (true, h, b'))
          × Allocated b size h b' sectors
    go (too_few q e) = absurd (omega (arith, q, room))
    go (taken q h b' b'' sectors e n k number holds v' m d v'' z) = (
      h,
      b',
      sectors,
      e,
      record {
        num_bytes = n;
        num_sectors = k ∙ sym number;
        number = number;
        holds = holds;
        valid = v';
        marks = m;
      },
    )

-- The file of a header that lists these sectors.
pub file_at :
    (disk : Buffer) (s size type : ℕ) (sectors : List ℕ) (h : FileHeader) (bs bs' : List Bool)
    → Stored disk s size sectors h
    → Marks bs sectors bs'
    → length bs ≡ 1024
    → sectors_for size ≡ length sectors
    → FileAt (new_open_file h type) (λ i. get_or sectors i 0) size
unfolding HasSectors byte_to_sector
file_at disk s size type sectors h bs bs' stored m l n = record {
  size_is = stored.num_bytes;
  has = λ i q. (
    ap (get_elem? h.data_sectors) (index i)
        ∙ Holds-get h.data_sectors 0 i sectors stored.holds (omega (arith, n, q)),
    omega (
      arith,
      l,
      in_range bs (get_or sectors i 0) (Marks-was_clear bs bs' sectors i m (omega (arith, n, q))),
    ),
  );
  distinct = λ i j p q e.
      Marks-distinct bs bs' sectors i j m (omega (arith, n, p)) (omega (arith, n, q)) e;
}
  where
    index : (i : ℕ) → i * 128 / 128 ≡ 0 + i
    index i = omega arith

pub one_sector :
    (f : OpenFile) (sec : ℕ → ℕ) (size : ℕ)
    → sectors_for size ≡ 1
    → FileAt f sec size
    → FileAt f (λ i. sec 0) size
unfolding HasSectors
one_sector f sec size n file = record {
  size_is = file.size_is;
  has = λ i q.
      let z : i ≡ 0 = omega (arith, q, n) in
      ((file.has i q).0 ∙ ap (λ j. some (pos (sec j))) z, (file.has 0 (omega (arith, n))).1);
  distinct = λ i j p q e. omega (arith, p, q, n);
}

num_false-replicate : (k : ℕ) → num_false (replicate k false) ≡ k
num_false-replicate zero = refl
num_false-replicate (suc k) = omega (arith, num_false-replicate k)

pub two_marked :
    (k : ℕ) (bs : List Bool)
    → bs ≡ set (set (replicate (suc (suc k)) false) 0 true) 1 true
    → (num_false bs ≡ k) × (get_elem? bs 0 ≡ some true) × (get_elem? bs 1 ≡ some true)
two_marked k bs e = (
  ap num_false e ∙ omega (arith, num_false-replicate k),
  ap (λ x. get_elem? x 0) e,
  ap (λ x. get_elem? x 1) e,
)
