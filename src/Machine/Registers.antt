-- ===== src/Machine/Registers.antt =====
-- ReadMem and WriteMem leave the registers.
use mathlib.Core.Option.{some-injective}
use nachos_system_calls.Prelude.{ℕ, ◌≡◌, true, false, some, ap, sym, ◌∙◌, >>=-eq-some}
use nachos_system_calls.Machine.{
  Machine, Translated, raised, address, translate, Access, load, store, read_mem, write_mem,
  finish_read, finish_write,
}
use nachos_system_calls.Machine.Translate.{translate-registers}

pub read_mem-registers :
    (m m' : Machine) (addr size : ℕ) (x : Access)
    → read_mem m addr size ≡ some (m', x)
    → m'.registers ≡ m.registers
unfolding read_mem finish_read
read_mem-registers m m' addr size x h =
    let ((m₁, r), e, f) = >>=-eq-some (translate m addr size false) _ h in
    go r m₁ f ∙ translate-registers m m₁ addr size false r e
  where
    go :
        (r : Translated) (m₁ : Machine)
        → finish_read size (m₁, r) ≡ some (m', x)
        → m'.registers ≡ m₁.registers
    go (raised ex) m₁ f = ap (λ (o : Machine × Access). o.0.registers) (sym (some-injective _ _ f))
    go (address a) m₁ f =
        let (v, e, g) = >>=-eq-some (load m₁.main_memory a size) _ f in
        ap (λ (o : Machine × Access). o.0.registers) (sym (some-injective _ _ g))

pub write_mem-registers :
    (m m' : Machine) (addr size v : ℕ) (x : Access)
    → write_mem m addr size v ≡ some (m', x)
    → m'.registers ≡ m.registers
unfolding write_mem finish_write
write_mem-registers m m' addr size v x h =
    let ((m₁, r), e, f) = >>=-eq-some (translate m addr size true) _ h in
    go r m₁ f ∙ translate-registers m m₁ addr size true r e
  where
    go :
        (r : Translated) (m₁ : Machine)
        → finish_write size v (m₁, r) ≡ some (m', x)
        → m'.registers ≡ m₁.registers
    go (raised ex) m₁ f = ap (λ (o : Machine × Access). o.0.registers) (sym (some-injective _ _ f))
    go (address a) m₁ f =
        let (v, e, g) = >>=-eq-some (store m₁.main_memory a size v) _ f in
        ap (λ (o : Machine × Access). o.0.registers) (sym (some-injective _ _ g))
