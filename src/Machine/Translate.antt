-- ===== src/Machine/Translate.antt =====
-- Translate under a page table and under a TLB.
use mathlib.Core.Option.{some-injective}
use nachos_system_calls.Prelude.{
  ℕ, ◌+◌, ◌*◌, ◌/◌, ◌%◌, ◌≤◌, ◌<◌, ◌≡◌, refl, Bool, true, false, not, ◌&&◌, ◌||◌, Option, none,
  some, List, length, length-set, set, get_elem?_total, ◌==◌, leb, if◌then◌else◌, arith, Bool-cases,
  inl, inr, ◌⊎◌, ◌∙◌, subst, ap, >>=-eq-some, assert_that, ◌>>◌,
}
use nachos_system_calls.Machine.{
  page_size, num_phys_pages, memory_size, page_fault_exception, read_only_exception,
  bus_error_exception, address_error_exception, TranslationEntry, to_unsigned, Machine, Place,
  in_tlb, in_page_table, Lookup, miss, hit, find_tlb, lookup_tlb, lookup_page_table, lookup_entry,
  touch, store_entry, Translated, raised, address, use_entry, translate,
}
use nachos_system_calls.Machine.Pages.{Looks, beyond, invalid, mapped, lookup_tlb-Looks}

-- The accesses that the machine makes: of 1, 2 or 4 bytes.
abbrev pub IsSize : ℕ → Type 0
IsSize n = (n ≡ 1) ⊎ (n ≡ 2) ⊎ (n ≡ 4)

abbrev pub is_aligned : ℕ → ℕ → Bool
is_aligned addr size =
    not (((size == 4) && not (addr % 4 == 0)) || ((size == 2) && not (addr % 2 == 0)))

-- Exactly one table is there, and the page table has the size that the machine was told.
pub data HasTable (m : Machine) : Type 0 where
  paged :
      (es : List TranslationEntry)
      → m.tlb ≡ none
      → m.page_table ≡ some es
      → length es ≡ m.page_table_size
      → HasTable m
  cached : (es : List TranslationEntry) → m.tlb ≡ some es → m.page_table ≡ none → HasTable m

-- What a found entry yields, as the manual of the translation has it.
abbrev pub outcome : ℕ → Bool → Lookup → Translated
outcome offset writing (miss e) = raised e
outcome offset writing (hit place es i e) =
    if e.read_only && writing
    then raised read_only_exception
    else (if leb num_phys_pages (to_unsigned e.physical_page)
        then raised bus_error_exception
        else address (to_unsigned e.physical_page * page_size + offset))

pub lookup_entry_total :
    (m : Machine) (vpn : ℕ)
    → HasTable m
    → (r : Lookup) × (lookup_entry m.tlb m.page_table m.page_table_size vpn ≡ some r)
      × Looks m vpn r
unfolding lookup_entry lookup_page_table
lookup_entry_total m vpn (cached es e f) =
    (lookup_tlb es vpn, rw (e, f) refl, lookup_tlb-Looks m vpn es e)
lookup_entry_total m vpn (paged es e f l) = elim (Bool-cases (leb m.page_table_size vpn)) [
  | inl b ↦
      (miss address_error_exception, rw (e, f, lookup_entry, b) refl, beyond es f (ground arith))
  | inr b ↦
      let (x, g) = get_elem?_total es vpn (ground arith) in
      elim (Bool-cases x.valid) [
        | inl v ↦ (
          hit in_page_table es vpn x,
          rw (e, f, lookup_entry, b, g, v) refl,
          mapped es x f (ground arith) g v,
        )
        | inr v ↦ (
          miss page_fault_exception,
          rw (e, f, lookup_entry, b, g, v) refl,
          invalid es x f (ground arith) g v,
        )
      ]
]

pub aligned_fits :
    (frame addr size : ℕ)
    → IsSize size
    → is_aligned addr size ≡ true
    → frame < num_phys_pages
    → frame * page_size + addr % page_size + size ≤ memory_size
aligned_fits frame addr size s a h = ground arith

not-false : (b : Bool) → not b ≡ false → b ≡ true
not-false b h = ground arith

not-true : (b : Bool) → not b ≡ true → b ≡ false
not-true b h = ground arith

le→leb : (a b : ℕ) → a ≤ b → leb a b ≡ true
le→leb a b h = ground arith

-- What Translate does with an access.
pub record Translates (m : Machine) (addr size : ℕ) (writing : Bool) (m' : Machine) (r : Translated)
    : Type 0 where
  pub registers : m'.registers ≡ m.registers
  pub memory : m'.main_memory ≡ m.main_memory
  pub result :
      ((is_aligned addr size ≡ false) × (r ≡ raised address_error_exception))
      ⊎ ((is_aligned addr size ≡ true)
          × ((l : Lookup) × (lookup_entry m.tlb m.page_table m.page_table_size (addr / page_size)
                ≡ some l)
              × Looks m (addr / page_size) l
              × (r ≡ outcome (addr % page_size) writing l)))
  pub bounded : (a : ℕ) → r ≡ address a → a + size ≤ memory_size

store_entry-main_memory :
    (m : Machine) (place : Place) (es : List TranslationEntry) (i : ℕ) (e : TranslationEntry)
    → ((store_entry m place es i e).main_memory ≡ m.main_memory)
      × ((store_entry m place es i e).registers ≡ m.registers)
unfolding store_entry
store_entry-main_memory m in_tlb es i e = (refl, refl)
store_entry-main_memory m in_page_table es i e = (refl, refl)

use_entry-outcome :
    (m : Machine) (addr size : ℕ) (writing : Bool) (l : Lookup)
    → IsSize size
    → is_aligned addr size ≡ true
    → (m' : Machine) × (use_entry m (addr % page_size) size writing l
        ≡ some (m', outcome (addr % page_size) writing l))
      × (m'.main_memory ≡ m.main_memory)
      × (m'.registers ≡ m.registers)
      × ((a : ℕ) → outcome (addr % page_size) writing l ≡ address a → a + size ≤ memory_size)
unfolding use_entry
use_entry-outcome m addr size writing (miss e) s h = (m, refl, refl, refl, λ a p. cc)
use_entry-outcome m addr size writing (hit place es i e) s h =
    elim (Bool-cases (e.read_only && writing)) [
      | inl ro ↦ (m, rw ro, refl, refl, λ a p. absurd (ground arith))
      | inr rw_ok ↦ elim (Bool-cases (leb num_phys_pages (to_unsigned e.physical_page))) [
        | inl big ↦ (m, rw (rw_ok, big), refl, refl, λ a p. absurd (ground arith))
        | inr small ↦
            let fits = aligned_fits (to_unsigned e.physical_page) addr size s h (ground arith) in
            let (mem, regs) = store_entry-main_memory m place es i (touch writing e) in
            (
              store_entry m place es i (touch writing e),
              rw (rw_ok, small, le→leb _ _ fits),
              mem,
              regs,
              λ a p. ground arith,
            )
      ]
    ]

-- Translate, with either table: its assertions hold, it raises exactly the exceptions of a
-- misaligned address, a page beyond the page table, a page that the page table has as invalid or
-- that no entry of the TLB translates, a write to a read-only page and a frame that does not exist,
-- in that order; otherwise it uses the entry of the page table at the page, or the first of the TLB
-- that translates it, and any address that it returns lies in memory with the whole access.
pub translate-Translates :
    (m : Machine) (addr size : ℕ) (writing : Bool)
    → HasTable m
    → IsSize size
    → (m' : Machine) × (r : Translated) × (translate m addr size writing ≡ some (m', r))
      × Translates m addr size writing m' r
unfolding translate
translate-Translates m addr size writing t s = elim (Bool-cases (is_aligned addr size)) [
  | inr bad ↦
      let e : (((size == 4) && not (addr % 4 == 0)) || ((size == 2) && not (addr % 2 == 0)))
          ≡ true =
        not-false _ bad in
      (
        m,
        raised address_error_exception,
        rw e,
        record { registers = refl; memory = refl; result = inl (bad, refl); bounded = λ a p. cc },
      )
  | inl good ↦
      let e : (((size == 4) && not (addr % 4 == 0)) || ((size == 2) && not (addr % 2 == 0)))
          ≡ false =
        not-true _ good in
      let (l, f, looks) = lookup_entry_total m (addr / page_size) t in
      let (m', u, mem, regs, b) = use_entry-outcome m addr size writing l s good in
      (
        m',
        outcome (addr % page_size) writing l,
        rw (e, f, u),
        record {
          registers = regs;
          memory = mem;
          result = inr (good, (l, f, looks, refl));
          bounded = b;
        },
      )
]

hit_pages :
    (es : List TranslationEntry) (size vpn : ℕ) (place : Place) (xs : List TranslationEntry) (i : ℕ)
    (e : TranslationEntry)
    → lookup_entry none (some es) size vpn ≡ some (hit place xs i e)
    → (place ≡ in_page_table) × (xs ≡ es)
unfolding lookup_entry lookup_page_table
hit_pages es size vpn place xs i e h = (ground arith, ground arith)

hit_tlb :
    (es : List TranslationEntry) (size vpn : ℕ) (place : Place) (xs : List TranslationEntry) (i : ℕ)
    (e : TranslationEntry)
    → lookup_entry (some es) none size vpn ≡ some (hit place xs i e)
    → place ≡ in_tlb
unfolding lookup_entry lookup_tlb
hit_tlb es size vpn place xs i e h = go (find_tlb es vpn) refl
  where
    go : (o : Option (ℕ × TranslationEntry)) → find_tlb es vpn ≡ o → place ≡ in_tlb
    go none q = absurd (ground arith)
    go (some (j, g)) q = ground arith

-- The table is there after its entry has been marked.
store_entry-HasTable :
    (m : Machine) (vpn : ℕ) (place : Place) (xs : List TranslationEntry) (i : ℕ)
    (e f : TranslationEntry)
    → HasTable m
    → lookup_entry m.tlb m.page_table m.page_table_size vpn ≡ some (hit place xs i e)
    → HasTable (store_entry m place xs i f)
unfolding store_entry
store_entry-HasTable m vpn place xs i e f (paged ys a b l) h =
    let (p, q) = hit_pages ys m.page_table_size vpn place xs i e (rw (a, b) at h) in
    rw p (paged (set xs i f) a refl (length-set xs i f ∙ ap length q ∙ l))
store_entry-HasTable m vpn place xs i e f (cached ys a b) h =
    let p = hit_tlb ys m.page_table_size vpn place xs i e (rw (a, b) at h) in
    rw p (cached (set xs i f) refl b)

after_assert : (b : Bool) {x y : Machine × Translated} → (assert_that b >> some x) ≡ some y → x ≡ y
after_assert true h = some-injective _ _ h
after_assert false h = absurd (ground arith)

-- A property of the machine that the marking of an entry keeps.
module _ (P : Machine → Type 0) (m m' : Machine) (start : P m) where
  use_entry-keeps :
      (offset size : ℕ) (writing : Bool) (l : Lookup) (r : Translated)
      → ((place : Place) (xs : List TranslationEntry) (i : ℕ) (e f : TranslationEntry)
          → l ≡ hit place xs i e
          → P (store_entry m place xs i f))
      → use_entry m offset size writing l ≡ some (m', r)
      → P m'
  unfolding use_entry
  use_entry-keeps offset size writing (miss e) r marked u =
      subst P (ap (λ x. x.0) (some-injective _ _ u)) start
  use_entry-keeps offset size writing (hit place xs i e) r marked u =
      elim (Bool-cases (e.read_only && writing)) [
        | inl p ↦ subst P (ap (λ x. x.0) (some-injective _ _ (rw p at u))) start
        | inr p ↦ elim (Bool-cases (leb num_phys_pages (to_unsigned e.physical_page))) [
          | inl q ↦ subst P (ap (λ x. x.0) (some-injective _ _ (rw (p, q) at u))) start
          | inr q ↦
              subst P (ap (λ y. y.0) (after_assert _ (rw (p, q) at u)))
                (marked place xs i e (touch writing e) refl)
        ]
      ]

  translate-keeps :
      (addr size : ℕ) (writing : Bool) (r : Translated)
      → ((place : Place) (xs : List TranslationEntry) (i : ℕ) (e f : TranslationEntry)
          → lookup_entry m.tlb m.page_table m.page_table_size (addr / page_size)
            ≡ some (hit place xs i e)
          → P (store_entry m place xs i f))
      → translate m addr size writing ≡ some (m', r)
      → P m'
  unfolding translate
  translate-keeps addr size writing r marked h =
      elim (Bool-cases
        (((size == 4) && not (addr % 4 == 0)) || ((size == 2) && not (addr % 2 == 0)))) [
          | inl bad ↦ subst P (ap (λ x. x.0) (some-injective _ _ (rw bad at h))) start
          | inr good ↦
              let (l, f, u) = >>=-eq-some _ _ (rw good at h) in
              use_entry-keeps (addr % page_size) size writing l r
                (λ place xs i e g q. marked place xs i e g (f ∙ ap (λ x. some x) q)) u
        ]

-- A translation leaves the table in place, and the registers as they are.
pub translate-HasTable :
    (m m' : Machine) (addr size : ℕ) (writing : Bool) (r : Translated)
    → HasTable m
    → translate m addr size writing ≡ some (m', r)
    → HasTable m'
translate-HasTable m m' addr size writing r t h =
    translate-keeps HasTable m m' t addr size writing r
      (λ place xs i e f q. store_entry-HasTable m (addr / page_size) place xs i e f t q) h

pub translate-registers :
    (m m' : Machine) (addr size : ℕ) (writing : Bool) (r : Translated)
    → translate m addr size writing ≡ some (m', r)
    → m'.registers ≡ m.registers
translate-registers m m' addr size writing r h =
    translate-keeps (λ x. x.registers ≡ m.registers) m m' refl addr size writing r
      (λ place xs i e f q. (store_entry-main_memory m place xs i f).1) h
