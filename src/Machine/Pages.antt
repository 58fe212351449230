-- ===== src/Machine/Pages.antt =====
-- What the lookup of a virtual page finds in the page table or in the TLB.
use nachos_system_calls.Prelude.{
  ℕ, zero, suc, ◌≤◌, ◌<◌, ◌≡◌, refl, true, false, ◌&&◌, Option, none, some, List, [], ◌∷◌,
  get_elem?, ◌==◌, arith, Bool-cases, inl, inr, ◌>>=◌,
}
use nachos_system_calls.Machine.{
  page_fault_exception, address_error_exception, TranslationEntry, to_unsigned, Machine, in_tlb,
  in_page_table, Lookup, miss, hit, find_tlb, lookup_tlb,
}

-- An entry that translates the page.
abbrev pub Maps : ℕ → TranslationEntry → Type 0
Maps vpn e = (e.valid ≡ true) × (to_unsigned e.virtual_page ≡ vpn)

pub data Looks (m : Machine) (vpn : ℕ) : Lookup → Type 0 where
  -- the page table has no such page
  beyond :
      (es : List TranslationEntry)
      → m.page_table ≡ some es
      → m.page_table_size ≤ vpn
      → Looks m vpn (miss address_error_exception)
  -- it has, but the page is not in memory
  invalid :
      (es : List TranslationEntry) (e : TranslationEntry)
      → m.page_table ≡ some es
      → vpn < m.page_table_size
      → get_elem? es vpn ≡ some e
      → e.valid ≡ false
      → Looks m vpn (miss page_fault_exception)
  mapped :
      (es : List TranslationEntry) (e : TranslationEntry)
      → m.page_table ≡ some es
      → vpn < m.page_table_size
      → get_elem? es vpn ≡ some e
      → e.valid ≡ true
      → Looks m vpn (hit in_page_table es vpn e)
  -- no entry of the TLB translates the page
  absent :
      (es : List TranslationEntry)
      → m.tlb ≡ some es
      → ((j : ℕ) (f : TranslationEntry) → get_elem? es j ≡ some f → ¬ Maps vpn f)
      → Looks m vpn (miss page_fault_exception)
  -- the entry `i` is the first that does
  loaded :
      (es : List TranslationEntry) (i : ℕ) (e : TranslationEntry)
      → m.tlb ≡ some es
      → get_elem? es i ≡ some e
      → Maps vpn e
      → ((j : ℕ) (f : TranslationEntry) → j < i → get_elem? es j ≡ some f → ¬ Maps vpn f)
      → Looks m vpn (hit in_tlb es i e)

-- What the loop over the TLB finds.
abbrev Finds : List TranslationEntry → ℕ → Option (ℕ × TranslationEntry) → Type 0
Finds es vpn none = (j : ℕ) (f : TranslationEntry) → get_elem? es j ≡ some f → ¬ Maps vpn f
Finds es vpn (some (i, e)) =
    (get_elem? es i ≡ some e)
    × Maps vpn e
    × ((j : ℕ) (f : TranslationEntry) → j < i → get_elem? es j ≡ some f → ¬ Maps vpn f)

not-Maps :
    (vpn : ℕ) (e f : TranslationEntry)
    → e.valid && (to_unsigned e.virtual_page == vpn) ≡ false
    → some e ≡ some f
    → ¬ Maps vpn f
not-Maps vpn e f h p (v, q) = ground (arith, h, p, v, q)

find_tlb-Finds : (es : List TranslationEntry) (vpn : ℕ) → Finds es vpn (find_tlb es vpn)
unfolding find_tlb
find_tlb-Finds [] vpn = λ j f p. absurd (ground (arith, p))
find_tlb-Finds (e ∷ es) vpn = elim (Bool-cases (e.valid && (to_unsigned e.virtual_page == vpn))) [
  | inl t ↦ rw t (refl, (ground arith, ground arith), λ j f l. absurd (omega (arith, l)))
  | inr t ↦ rw t (later t (find_tlb es vpn) (find_tlb-Finds es vpn))
]
  where
    later :
        e.valid && (to_unsigned e.virtual_page == vpn) ≡ false
        → (o : Option (ℕ × TranslationEntry)) → Finds es vpn o
        → Finds (e ∷ es) vpn (o >>= λ (i, f). some (suc i, f))
    later t none h = none_here
      where
        none_here : (j : ℕ) (f : TranslationEntry) → get_elem? (e ∷ es) j ≡ some f → ¬ Maps vpn f
        none_here zero f p = not-Maps vpn e f t p
        none_here (suc j) f p = h j f p
    later t (some (i, g)) (p, q, h) = (p, q, before)
      where
        before :
            (j : ℕ) (f : TranslationEntry)
            → j < suc i
            → get_elem? (e ∷ es) j ≡ some f
            → ¬ Maps vpn f
        before zero f l p = not-Maps vpn e f t p
        before (suc j) f l p = h j f (omega (arith, l)) p

-- The TLB alone.
pub lookup_tlb-Looks :
    (m : Machine) (vpn : ℕ) (es : List TranslationEntry)
    → m.tlb ≡ some es
    → Looks m vpn (lookup_tlb es vpn)
unfolding lookup_tlb
lookup_tlb-Looks m vpn es e = go (find_tlb es vpn) (find_tlb-Finds es vpn)
  where
    go :
        (o : Option (ℕ × TranslationEntry))
        → Finds es vpn o
        → Looks m vpn
            (elim o [ none ↦ miss page_fault_exception | some (i, f) ↦ hit in_tlb es i f ])
    go none h = absent es e h
    go (some (i, f)) (p, q, h) = loaded es i f e p q h
