-- ===== src/Storage/Header.antt =====
-- A header written to its sector, and fetched from there.
use nachos_system_calls.Prelude.{
  ℕ, zero, suc, ◌+◌, ◌*◌, ◌%◌, ◌^◌, ◌<◌, ◌≤◌, ◌≡◌, refl, ap, ◌∙◌, some, List, [], ◌∷◌, length, map,
  get_or, get_elem?, get_elem?-tabulate_zero, pos, ltb, lt→ltb, All, assert_that, ◌>>◌,
  tabulate_congr, arith,
}
use nachos_system_calls.Machine.{signed, to_unsigned}
use nachos_system_calls.Disk.{sector_start}
use nachos_system_calls.FileHeader.{FileHeader}
use nachos_system_calls.FileHeader.Allocate.{Holds}
use nachos_system_calls.OpenFile.{Buffer}
use nachos_system_calls.Storage.{
  header_from, word_at, words_buffer, read_words, header_words, fetch_header,
}
use nachos_system_calls.Storage.Words.{word_at-words_buffer, word_at-eq}

pub get_elem?-map {ℓ κ} :
    {A : Type ℓ} {B : Type κ} (f : A → B) (xs : List A) (i : ℕ) {a : A}
    → get_elem? xs i ≡ some a
    → get_elem? (map f xs) i ≡ some (f a)
get_elem?-map f [] i h = cc
get_elem?-map f (x ∷ xs) zero h = cc
get_elem?-map f (x ∷ xs) (suc i) h = get_elem?-map f xs i h

get_or-get_elem? : (xs : List ℕ) (i : ℕ) {a : ℕ} → get_elem? xs i ≡ some a → get_or xs i 0 ≡ a
get_or-get_elem? [] i h = cc
get_or-get_elem? (x ∷ xs) zero h = ground (arith, h)
get_or-get_elem? (x ∷ xs) (suc i) h = get_or-get_elem? xs i h

signed-to_unsigned : (n : ℕ) → n < 2 ^ 31 → signed (to_unsigned (pos n)) ≡ pos n
signed-to_unsigned n h = ground (arith, h)

-- The words of the header in the sector.
module _ (h : FileHeader) (m : Buffer)
    (bytes : (j : ℕ) → j < 128 → m j ≡ words_buffer (header_words h) j) where
  header_word :
      (i : ℕ)
      → i < 32
      → get_or (header_words h) i 0 < 2 ^ 32
      → word_at m (4 * i) ≡ get_or (header_words h) i 0
  header_word i q l =
      word_at-words_buffer (header_words h) m (4 * i) i l
        (λ o p. bytes (4 * i + o) (omega (arith, p, q)))

  data_sector :
      (i f : ℕ)
      → i < 30
      → f < 2 ^ 31
      → get_elem? h.data_sectors i ≡ some (pos f)
      → get_elem? (map signed (read_words 30 8 m)) i ≡ some (pos f)
  unfolding read_words
  data_sector i f q l e =
      let w : get_or (header_words h) (suc (suc i)) 0 ≡ f % 2 ^ 32 =
        get_or-get_elem? (map to_unsigned h.data_sectors) i
          (get_elem?-map to_unsigned h.data_sectors i e) in
      let v : word_at m (8 + 4 * i) ≡ f =
        ap (word_at m) (omega arith)
        ∙ header_word (suc (suc i)) (omega (arith, q)) (omega (arith, l, w))
        ∙ omega (arith, w, l) in
      get_elem?-map signed (read_words 30 8 m) i
        (get_elem?-tabulate_zero 30 i (λ i. word_at m (8 + 4 * i)) q)
      ∙ ap (λ n. some (signed n)) v
      ∙ ap some (small f l)
    where
      small : (n : ℕ) → n < 2 ^ 31 → signed n ≡ pos n
      small n h = ground (arith, h)

  data_sectors-Holds :
      (i : ℕ) (fs : List ℕ)
      → i + length fs ≤ 30
      → All (λ f. f < 2 ^ 31) fs
      → Holds h.data_sectors i fs
      → Holds (map signed (read_words 30 8 m)) i fs
  data_sectors-Holds i [] q l e = tt
  data_sectors-Holds i (f ∷ fs) q l e = (
    data_sector i f (omega (arith, q)) l.0 e.0,
    data_sectors-Holds (i + 1) fs (omega (arith, q)) l.1 e.1,
  )

-- What a header is on the disk: its size, and the sectors that it lists.
pub record Stored (disk : Buffer) (sector size : ℕ) (fs : List ℕ) (h : FileHeader) : Type 0 where
  pub fetched : fetch_header disk sector ≡ some h
  pub num_bytes : h.num_bytes ≡ size
  pub num_sectors : h.num_sectors ≡ length fs
  pub holds : Holds h.data_sectors 0 fs

-- A sector with the bytes of a header, fetched.
pub fetch_header-Stored :
    (disk : Buffer) (sector : ℕ) (h : FileHeader) (fs : List ℕ)
    → sector < 1024
    → h.num_bytes < 2 ^ 31
    → h.num_sectors ≡ length fs
    → length fs ≤ 30
    → All (λ f. f < 2 ^ 31) fs
    → Holds h.data_sectors 0 fs
    → ((j : ℕ) → j < 128 → disk (sector_start sector + j) ≡ words_buffer (header_words h) j)
    → (h' : FileHeader) × Stored disk sector h.num_bytes fs h'
unfolding fetch_header
fetch_header-Stored disk sector h fs q n k l a e b =
    let m : Buffer = λ j. disk (sector_start sector + j) in
    let x : word_at m 0 ≡ h.num_bytes =
      header_word h m b 0 (omega arith) (omega (arith, n)) ∙ omega (arith, n) in
    let y : word_at m 4 ≡ h.num_sectors =
      header_word h m b 1 (omega arith) (omega (arith, k, l)) ∙ omega (arith, k, l) in
    let h' : FileHeader = record {
      num_bytes = word_at m 0;
      num_sectors = word_at m 4;
      data_sectors = map signed (read_words 30 8 m);
    } in
    (
      h',
      record {
        fetched =
            rw
              (
                lt→ltb sector 1024 q,
                lt→ltb (word_at m 0) (2 ^ 31) (omega (arith, x, n)),
                lt→ltb (word_at m 4) (2 ^ 31) (omega (arith, y, k, l)),
              )
              refl;
        num_bytes = x;
        num_sectors = y ∙ k;
        holds = data_sectors-Holds h m b 0 fs (omega (arith, l)) a e;
      },
    )

-- A header depends on the bytes of its sector only.
pub fetch_header_congr :
    (disk disk' : Buffer) (sector : ℕ)
    → ((j : ℕ) → j < 128 → disk' (sector_start sector + j) ≡ disk (sector_start sector + j))
    → fetch_header disk' sector ≡ fetch_header disk sector
unfolding fetch_header read_words
fetch_header_congr disk disk' sector h =
    let m : Buffer = λ j. disk (sector_start sector + j) in
    let m' : Buffer = λ j. disk' (sector_start sector + j) in
    let word : (p : ℕ) → p + 4 ≤ 128 → word_at m' p ≡ word_at m p =
      λ p l. word_at-eq m' m p (λ o q. h (p + o) (omega (arith, l, q))) in
    same (word 0 (omega arith)) (word 4 (omega arith)) (
      tabulate_congr 30 0 (λ i. word_at m' (8 + 4 * i)) (λ i. word_at m (8 + 4 * i))
        (λ i p q. word (8 + 4 * i) (omega (arith, q))))
  where
    same :
        {a b a' b' : ℕ} {ws ws' : List ℕ}
        → a' ≡ a
        → b' ≡ b
        → ws' ≡ ws
        → (assert_that (ltb sector 1024) >> header_from a' b' ws')
          ≡ (assert_that (ltb sector 1024) >> header_from a b ws)
    same p q r = rw (p, q, r) refl
