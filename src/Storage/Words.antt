-- ===== src/Storage/Words.antt =====
-- The layout of words and of directory entries in bytes, and back.
use nachos_system_calls.Prelude.{
  tabulate-get_or, ℕ, ◌+◌, ◌-◌, ◌*◌, ◌/◌, ◌%◌, ◌^◌, ◌<◌, ◌≤◌, ◌≡◌, refl, sym, ap, ap₂, ◌∙◌, Bool,
  true, false, not, List, length, tabulate, tabulate_congr, get_or, get_elem?, some,
  get_elem?-eq-get_or, replicate, All, All-get_or, ◌==◌, ltb, if◌then◌else◌, arith,
}
use nachos_system_calls.Bitmap.View.{IsWord}
use nachos_system_calls.Directory.{DirectoryEntry}
use nachos_system_calls.Directory.Entries.{IsEntry}
use nachos_system_calls.OpenFile.{Buffer}
use nachos_system_calls.Storage.{
  word_byte, word_at, words_buffer, read_words, entry_byte, table_buffer, read_entry, read_table,
}

-- A word from its four bytes.
pub word_at-word_byte :
    (m : Buffer) (p w : ℕ)
    → w < 2 ^ 32
    → ((o : ℕ) → o < 4 → m (p + o) ≡ word_byte w o)
    → word_at m p ≡ w
word_at-word_byte m p w l h =
    let a : m p ≡ w % 256 = ap m (zero_add p) ∙ h 0 (omega arith) in
    let b : m (p + 1) ≡ w / 256 % 256 = h 1 (omega arith) in
    let c : m (p + 2) ≡ w / 65536 % 256 = h 2 (omega arith) in
    let d : m (p + 3) ≡ w / 16777216 % 256 = h 3 (omega arith) in omega (arith, a, b, c, d, l)
  where
    zero_add : (p : ℕ) → p ≡ p + 0
    zero_add p = omega arith

-- Words that begin at a multiple of four among the bytes of others.
pub word_at-words_buffer :
    (ws : List ℕ) (m : Buffer) (p i : ℕ)
    → get_or ws i 0 < 2 ^ 32
    → ((o : ℕ) → o < 4 → m (p + o) ≡ words_buffer ws (4 * i + o))
    → word_at m p ≡ get_or ws i 0
unfolding words_buffer
word_at-words_buffer ws m p i l h =
    word_at-word_byte m p (get_or ws i 0) l
      (λ o q. h o q ∙ ap₂ (λ a b. word_byte (get_or ws a 0) b) (quotient o i q) (rest o i q))
  where
    quotient : (o i : ℕ) → o < 4 → (4 * i + o) / 4 ≡ i
    quotient o i q = omega (arith, q)

    rest : (o i : ℕ) → o < 4 → (4 * i + o) % 4 ≡ o
    rest o i q = omega (arith, q)

pub word_at-eq :
    (m m' : Buffer) (p : ℕ)
    → ((o : ℕ) → o < 4 → m (p + o) ≡ m' (p + o))
    → word_at m p ≡ word_at m' p
word_at-eq m m' p h =
    let z : p ≡ p + 0 = omega arith in
    let a : m p ≡ m' p = ap m z ∙ h 0 (omega arith) ∙ ap m' (sym z) in
    let b : m (p + 1) ≡ m' (p + 1) = h 1 (omega arith) in
    let c : m (p + 2) ≡ m' (p + 2) = h 2 (omega arith) in
    let d : m (p + 3) ≡ m' (p + 3) = h 3 (omega arith) in omega (arith, a, b, c, d)

pub read_words_congr :
    (k : ℕ) (m m' : Buffer)
    → ((j : ℕ) → j < 4 * k → m j ≡ m' j)
    → read_words k 0 m ≡ read_words k 0 m'
unfolding read_words
read_words_congr k m m' h = tabulate_congr k 0 _ _ (λ i p q.
    let a = h (0 + 4 * i) (omega (arith, q)) in
    let b = h (0 + 4 * i + 1) (omega (arith, q)) in
    let c = h (0 + 4 * i + 2) (omega (arith, q)) in
    let d = h (0 + 4 * i + 3) (omega (arith, q)) in omega (arith, a, b, c, d))

-- An array of words comes back from its bytes.
pub read_words-words_buffer :
    (ws : List ℕ) (m : Buffer)
    → All IsWord ws
    → ((j : ℕ) → j < 4 * length ws → m j ≡ words_buffer ws j)
    → read_words (length ws) 0 m ≡ ws
unfolding read_words
read_words-words_buffer ws m a h =
    tabulate_congr (length ws) 0 _ (λ i. get_or ws (i - 0) 0)
      (λ i p q.
        word_at-words_buffer ws m (0 + 4 * i) i (All-get_or IsWord ws i 0 a (omega arith)) (λ o l.
          h (0 + 4 * i + o) (omega (arith, q, l)) ∙ ap (λ j. words_buffer ws j) (omega arith))
        ∙ ap (λ j. get_or ws j 0) (omega arith))
    ∙ tabulate-get_or 0 ws 0

abbrev make_entry : Bool → ℕ → List ℕ → DirectoryEntry
make_entry u s n = record { in_use = u; sector = s; name = n }

same_entry :
    (e : DirectoryEntry) (u : Bool) (s : ℕ) (n : List ℕ)
    → u ≡ e.in_use
    → s ≡ e.sector
    → n ≡ e.name
    → make_entry u s n ≡ e
same_entry e u s n a b c = ap₂ (λ u s. make_entry u s n) a b ∙ ap (make_entry e.in_use e.sector) c

pub read_entry_lem :
    (e : DirectoryEntry) (m pad : Buffer) (p : ℕ)
    → IsEntry e
    → ((o : ℕ) → o < 60 → m (p + o) ≡ entry_byte e (pad o) o)
    → read_entry m p ≡ e
read_entry_lem e m pad p v h =
    same_entry e _ _ _ (used e.in_use (m p) (ap m (omega arith) ∙ h 0 (omega arith)))
      (word_at-word_byte m (p + 4) e.sector v.word (λ o q.
        ap m (omega arith)
        ∙ h (4 + o) (omega (arith, q))
        ∙ field (if e.in_use then 1 else 0) (pad (4 + o)) (word_byte e.sector (4 + o - 4)) _ _ o q
        ∙ ap (word_byte e.sector) (back o)))
      (tabulate_congr 51 (p + 8) m (λ j. get_or e.name (j - (p + 8)) 0)
          (λ j a b.
            ap m (omega (arith, a))
            ∙ h (j - p) (omega (arith, a, b))
            ∙ letter (if e.in_use then 1 else 0) (pad (j - p)) (word_byte e.sector (j - p - 4))
                (get_or e.name (j - p - 8) 0) j a b
            ∙ ap (λ i. get_or e.name i 0) (omega arith))
        ∙ ap (λ n. tabulate n (p + 8) (λ j. get_or e.name (j - (p + 8)) 0)) (sym v.full)
        ∙ tabulate-get_or (p + 8) e.name 0)
  where
    used : (u : Bool) (b : ℕ) → b ≡ (if u then 1 else 0) → not (b == 0) ≡ u
    used true b h = ground (arith, h)
    used false b h = ground (arith, h)

    field :
        (x y z w v o : ℕ)
        → o < 4
        → (if 4 + o == 0
            then x
            else if ltb (4 + o) 4
            then y
            else if ltb (4 + o) 8
            then z
            else if ltb (4 + o) 59
            then w
            else v)
          ≡ z
    field x y z w v o q = ground (arith, q)

    back : (o : ℕ) → 4 + o - 4 ≡ o
    back o = omega arith

    letter :
        (x y z w j : ℕ)
        → p + 8 ≤ j
        → j < p + 8 + 51
        → (if j - p == 0
            then x
            else if ltb (j - p) 4
            then y
            else if ltb (j - p) 8
            then z
            else if ltb (j - p) 59
            then w
            else y)
          ≡ w
    letter x y z w j a b = ground (arith, a, b)

table_buffer_lem :
    (es : List DirectoryEntry) (pad : Buffer) (e : DirectoryEntry) (i o : ℕ)
    → o < 60
    → get_elem? es i ≡ some e
    → table_buffer pad es (60 * i + o) ≡ entry_byte e (pad (60 * i + o)) o
unfolding table_buffer
table_buffer_lem es pad e i o l g =
    let q : (60 * i + o) / 60 ≡ i = omega (arith, l) in
    let r : (60 * i + o) % 60 ≡ o = omega (arith, l) in rw (q, r, g) refl

-- The table comes back from its bytes.
pub read_table-table_buffer :
    (es : List DirectoryEntry) (m pad : Buffer)
    → All IsEntry es
    → ((j : ℕ) → j < 60 * length es → m j ≡ table_buffer pad es j)
    → read_table (length es) m ≡ es
unfolding read_table table_buffer
read_table-table_buffer es m pad a h =
    tabulate_congr (length es) 0 _ (λ i. get_or es (i - 0) blank)
      (λ i p q.
        read_entry_lem (get_or es i blank) m (λ o. pad (60 * i + o)) (60 * i)
          (All-get_or IsEntry es i blank a blank-IsEntry)
          (λ o l.
            h (60 * i + o) (omega (arith, q, l))
            ∙ table_buffer_lem es pad (get_or es i blank) i o l
                (get_elem?-eq-get_or es i blank (omega (arith, q))))
        ∙ ap (λ j. get_or es j blank) (omega arith))
    ∙ tabulate-get_or 0 es blank
  where
    blank : DirectoryEntry
    blank = record { in_use = false; sector = 0; name = replicate 51 0 }

    blank-IsEntry : IsEntry blank
    blank-IsEntry = record {
      word = ground arith;
      full = refl;
      there = λ h. absurd (ground (arith, h));
    }

pub read_table_congr :
    (k : ℕ) (m m' : Buffer) → ((j : ℕ) → j < 60 * k → m j ≡ m' j) → read_table k m ≡ read_table k m'
unfolding read_table
read_table_congr k m m' h = tabulate_congr k 0 _ _ (λ i p q.
    let at : (o : ℕ) → o < 60 → m (60 * i + o) ≡ m' (60 * i + o) =
      λ o l. h (60 * i + o) (omega (arith, q, l)) in
    let z : 60 * i ≡ 60 * i + 0 = omega arith in
    same_entry (read_entry m' (60 * i)) _ _ _
      (ap (λ b. not (b == 0)) (ap m z ∙ at 0 (omega arith) ∙ ap m' (sym z)))
      (word_at-eq m m' (60 * i + 4)
        (λ o l. ap m (omega arith) ∙ at (4 + o) (omega (arith, l)) ∙ ap m' (omega arith)))
      (tabulate_congr 51 (60 * i + 8) m m' (λ j a b.
        ap m (omega (arith, a))
        ∙ at (j - 60 * i) (omega (arith, a, b))
        ∙ ap m' (omega (arith, a)))))
