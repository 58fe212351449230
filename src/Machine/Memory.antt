-- ===== src/Machine/Memory.antt =====
-- ReadMem and WriteMem: what a write changes, and what a read finds after it.
use mathlib.Core.Option.{some-injective}
use nachos_system_calls.Prelude.{
  ℕ, ◌+◌, ◌*◌, ◌/◌, ◌%◌, ◌≤◌, ◌<◌, ◌≡◌, ◌≢◌, Bool, true, false, refl, none, some, List, get_elem?,
  length, arith, inl, inr, ◌⊎◌, ap, ◌∙◌, sym, subst, >>=-eq-some,
}
use nachos_system_calls.Machine.{
  page_size, TranslationEntry, to_unsigned, Machine, Place, miss, hit, lookup_page_table,
  lookup_entry, Translated, raised, address, store, Access, finish_write, write_mem, read_mem,
  finish_read, load, translate, trap, value, sign_extend,
}
use nachos_system_calls.Machine.Translate.{
  IsSize, is_aligned, HasTable, paged, Translates, translate-Translates, translate-HasTable,
}

aligned_in_page :
    (addr size : ℕ)
    → IsSize size
    → is_aligned addr size ≡ true
    → addr % page_size + size ≤ page_size
aligned_in_page addr size s a = ground arith

store_elsewhere :
    (mem mem' : ℕ → ℕ) (a size v b : ℕ)
    → store mem a size v ≡ some mem'
    → IsSize size
    → (b < a) ⊎ (a + size ≤ b)
    → mem' b ≡ mem b
unfolding store
store_elsewhere mem mem' a size v b e (inl s) h =
    let e' : store mem a 1 v ≡ some mem' = subst (λ n. store mem a n v ≡ some mem') s e in
    let e'' = ap (λ (f : ℕ → ℕ). f b) (some-injective _ _ e') in sym e'' ∙ ground arith
store_elsewhere mem mem' a size v b e (inr (inl s)) h =
    let e' : store mem a 2 v ≡ some mem' = subst (λ n. store mem a n v ≡ some mem') s e in
    let e'' = ap (λ (f : ℕ → ℕ). f b) (some-injective _ _ e') in sym e'' ∙ ground arith
store_elsewhere mem mem' a size v b e (inr (inr s)) h =
    let e' : store mem a 4 v ≡ some mem' = subst (λ n. store mem a n v ≡ some mem') s e in
    let e'' = ap (λ (f : ℕ → ℕ). f b) (some-injective _ _ e') in sym e'' ∙ ground arith

page_table_hit :
    (es : List TranslationEntry) (size vpn : ℕ) (place : Place) (xs : List TranslationEntry) (i : ℕ)
    (e : TranslationEntry)
    → lookup_entry none (some es) size vpn ≡ some (hit place xs i e)
    → get_elem? es vpn ≡ some e
unfolding lookup_entry lookup_page_table
page_table_hit es size vpn place xs i e h = ground arith

away_from :
    (k a b frame addr size : ℕ)
    → addr % page_size + size ≤ page_size
    → a ≡ k * page_size + addr % page_size
    → b / page_size ≡ frame
    → k ≢ frame
    → (b < a) ⊎ (a + size ≤ b)
away_from k a b frame addr size h e q ne = omega arith

-- An address that a page table yields lies in the frame of one of its entries.
page_table_address :
    (m m' : Machine) (es : List TranslationEntry) (addr size a : ℕ) (writing : Bool)
    → m.tlb ≡ none
    → m.page_table ≡ some es
    → Translates m addr size writing m' (address a)
    → (i : ℕ) × (e : TranslationEntry) × (get_elem? es i ≡ some e)
      × (a ≡ to_unsigned e.physical_page * page_size + addr % page_size)
      × (is_aligned addr size ≡ true)
page_table_address m m' es addr size a writing n p t = elim t.result [
  | inl (_, bad) ↦ absurd (ground arith)
  | inr (good, (miss x, f, looks, r)) ↦ absurd (ground arith)
  | inr (good, (hit place xs i e, f, looks, r)) ↦
      let f' =
        page_table_hit es m.page_table_size (addr / page_size) place xs i e (rw (n, p) at f) in
      (addr / page_size, e, f', ground arith, good)
]

-- A write of 1, 2 or 4 bytes through a page table of the size that the machine was told, if it
-- returns, changes no byte of a frame that the table does not name.
pub write_mem-confined :
    (m m' : Machine) (es : List TranslationEntry) (addr size v frame : ℕ) (x : Access)
    → m.tlb ≡ none
    → m.page_table ≡ some es
    → length es ≡ m.page_table_size
    → IsSize size
    → ((i : ℕ) (e : TranslationEntry)
        → get_elem? es i ≡ some e
        → to_unsigned e.physical_page ≢ frame)
    → write_mem m addr size v ≡ some (m', x)
    → (b : ℕ) → b / page_size ≡ frame
    → m'.main_memory b ≡ m.main_memory b
unfolding write_mem finish_write
write_mem-confined m m' es addr size v frame x n p l s others w b q =
    let (m₁, r, t, tr) = translate-Translates m addr size true (paged es n p l) s in
    after r m₁ tr (rw t at w)
  where
    after :
        (r : Translated) (m₁ : Machine)
        → Translates m addr size true m₁ r
        → finish_write size v (m₁, r) ≡ some (m', x)
        → m'.main_memory b ≡ m.main_memory b
    after (raised e) m₁ tr h =
        ap (λ (o : Machine × Access). o.0.main_memory b) (sym (some-injective _ _ h))
        ∙ ap (λ (f : ℕ → ℕ). f b) tr.memory
    after (address a) m₁ tr h =
        let (mem, e₁, e₂) = >>=-eq-some (store m₁.main_memory a size v) _ h in
        let (i, e, g, place, good) = page_table_address m m₁ es addr size a true n p tr in
        let away : (b < a) ⊎ (a + size ≤ b) =
          outside (to_unsigned e.physical_page) a good place (others i e g) in
        ap (λ (o : Machine × Access). o.0.main_memory b) (sym (some-injective _ _ e₂))
        ∙ store_elsewhere m₁.main_memory mem a size v b e₁ s away
        ∙ ap (λ (f : ℕ → ℕ). f b) tr.memory
      where
        outside :
            (k a : ℕ)
            → is_aligned addr size ≡ true
            → a ≡ k * page_size + addr % page_size
            → k ≢ frame
            → (b < a) ⊎ (a + size ≤ b)
        outside k a good place ne =
            away_from k a b frame addr size (aligned_in_page addr size s good) place q ne

-- Reading a byte under a table always returns, and leaves the table, the memory and the registers.
pub read_mem_byte :
    (m : Machine) (addr : ℕ)
    → HasTable m
    → (m' : Machine) × (x : Access) × (read_mem m addr 1 ≡ some (m', x))
      × HasTable m'
      × (m'.main_memory ≡ m.main_memory)
      × (m'.registers ≡ m.registers)
unfolding read_mem finish_read load
read_mem_byte m addr t =
    let (m', r, e, tr) = translate-Translates m addr 1 false t (inl refl) in
    finish m' r e (translate-HasTable m m' addr 1 false r t e) tr.memory tr.registers
  where
    finish :
        (m' : Machine) (r : Translated)
        → translate m addr 1 false ≡ some (m', r)
        → HasTable m'
        → m'.main_memory ≡ m.main_memory
        → m'.registers ≡ m.registers
        → (m' : Machine) × (x : Access) × (read_mem m addr 1 ≡ some (m', x))
          × HasTable m'
          × (m'.main_memory ≡ m.main_memory)
          × (m'.registers ≡ m.registers)
    finish m' (raised ex) e t' p q = (m', trap ex, rw e refl, t', p, q)
    finish m' (address a) e t' p q =
        (m', value (sign_extend (m'.main_memory a)), rw e refl, t', p, q)
