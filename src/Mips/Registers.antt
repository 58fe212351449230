-- ===== src/Mips/Registers.antt =====
-- The registers across one case of the switch of code/machine/mipssim.cc.
pub mod Switch
pub mod Delayed
pub mod Step
use Prim.Native.Nat.{bit_and}
use mathlib.Core.Option.{some-injective}
use nachos_system_calls.Prelude.{
  ℕ, zero, suc, ◌+◌, ◌/◌, ◌%◌, ◌^◌, ◌<◌, ◌≤◌, ◌≡◌, ◌≢◌, refl, sym, ap, ◌∙◌, Bool, true, false, ◌&&◌,
  ◌*◌, Option, none, some, get_or, length, length-set, ◌>>=◌, ◌>>◌, assert_that, ◌==◌, ltb,
  if◌then◌else◌, arith, get_or-set_ne,
}
use nachos_system_calls.Machine.{
  ExceptionType, overflow_exception, address_error_exception, Machine, Access, trap, value,
  read_mem, write_mem,
}
use nachos_system_calls.Machine.Registers.{read_mem-registers, write_mem-registers}
use nachos_system_calls.Bitmap.Words.{last_and}
use nachos_system_calls.Mips.{Instruction, decode}
use nachos_system_calls.Mips.Words.Signs.{bit_and-zero}
use nachos_system_calls.Mips.Words.{quotient, remainder}
use nachos_system_calls.Mips.Cases.{
  reg, put, Switched, falls, raises, ends, branch, checked, set_if, loaded, load_from, load_aligned,
  stored, store_to, store_merged, store_word, put_double, divide, divide_unsigned,
}

-- `m'` has as many registers as `m`, and the same values in those above HI and LO.
pub Keeps : Machine → Machine → Type 0
Keeps m m' = (length m'.registers ≡ length m.registers) × ((i : ℕ) → 34 ≤ i → reg m' i ≡ reg m i)

-- What a case leaves: the machine that it kept, and a general register for the delayed load.
pub KeptBy : Machine → Switched → Type 0
unfolding Keeps
KeptBy m (raises e a m') = Keeps m m'
KeptBy m (falls m' r v pc) = Keeps m m' × (r < 32)

pub Kept : Machine → Option Switched → Type 0
unfolding KeptBy
Kept m none = Unit {0}
Kept m (some s) = KeptBy m s

-- The indices of an instruction are general registers.
pub Fits : Instruction → Type 0
Fits i = (i.rs < 32) × (i.rt < 32) × (i.rd < 32)

pub Keeps-refl : (m : Machine) → Keeps m m
unfolding Keeps
Keeps-refl m = (refl, λ i h. refl)

pub Keeps-trans : (m m' m'' : Machine) → Keeps m m' → Keeps m' m'' → Keeps m m''
unfolding Keeps
Keeps-trans m m' m'' (p, f) (q, g) = (q ∙ p, λ i h. g i h ∙ f i h)

pub Keeps-registers : (m m' : Machine) → m'.registers ≡ m.registers → Keeps m m'
unfolding Keeps
Keeps-registers m m' h = (ap length h, λ i q. ap (λ r. get_or r i 0) h)

-- A write below the special registers.
pub put-Keeps : (m m' : Machine) (i v : ℕ) → i < 34 → Keeps m m' → Keeps m (put m' i v)
unfolding Keeps
put-Keeps m m' i v h (p, f) = (
  length-set m'.registers i v ∙ p,
  λ j q. get_or-set_ne m'.registers i j v 0 (λ e. absurd (omega (arith, e))) ∙ f j q,
)

pub none-Kept : (m : Machine) → Kept m none
unfolding Kept
none-Kept m = tt

pub >>=-Kept :
    {A : Type 0} (m : Machine) (o : Option A) (f : A → Option Switched)
    → ((a : A) → o ≡ some a → Kept m (f a))
    → Kept m (o >>= f)
unfolding Kept
>>=-Kept m none f h = tt
>>=-Kept m (some a) f h = h a refl

-- Both branches of a test.
if-holds : {A : Type 0} (P : A → Type 0) (b : Bool) (x y : A) → P x → P y → P (if b then x else y)
if-holds P true x y h k = h
if-holds P false x y h k = k

module _ (m : Machine) where
  pub ends-Kept : (m' : Machine) (pc : ℕ) → Keeps m m' → Kept m (ends m' pc)
  unfolding Kept KeptBy ends
  ends-Kept m' pc h = (h, ground arith)

  pub raises-Kept : (e : ExceptionType) (a : ℕ) → Kept m (some (raises e a m))
  unfolding Kept KeptBy
  raises-Kept e a = Keeps-refl m

  pub put-Kept : (i v pc : ℕ) → i < 32 → Kept m (ends (put m i v) pc)
  put-Kept i v pc h = ends-Kept (put m i v) pc (put-Keeps m m i v (omega arith) (Keeps-refl m))

  pub checked-Kept : (b : Bool) (i v pc : ℕ) → i < 32 → Kept m (checked b m i v pc)
  unfolding checked
  checked-Kept b i v pc h =
      if-holds (Kept m) b _ _ (raises-Kept overflow_exception 0) (put-Kept i v pc h)

  pub loaded-Kept :
      (i : Instruction) (keep : ℕ → ℕ) (pc addr size : ℕ)
      → i.rt < 32
      → Kept m (load_from m i addr size keep pc)
  unfolding Kept KeptBy load_from loaded
  loaded-Kept i keep pc addr size h = >>=-Kept m (read_mem m addr size) _ go
    where
      go :
          (r : Machine × Access)
          → read_mem m addr size ≡ some r
          → KeptBy m (loaded i keep pc addr r)
      go (m', trap e) q = Keeps-registers m m' (read_mem-registers m m' addr size (trap e) q)
      go (m', value v) q = (Keeps-registers m m' (read_mem-registers m m' addr size (value v) q), h)

  pub load_aligned-Kept :
      (i : Instruction) (keep : ℕ → ℕ) (pc addr size : ℕ)
      → i.rt < 32
      → Kept m (load_aligned m i addr size keep pc)
  unfolding load_aligned
  load_aligned-Kept i keep pc addr size h =
      if-holds (Kept m) (addr % size == 0) _ _ (loaded-Kept i keep pc addr size h)
        (raises-Kept address_error_exception addr)

  -- A store, after a read that left `m'`.
  pub store_to-Kept :
      (m' : Machine) (addr size v pc : ℕ) → Keeps m m' → Kept m (store_to m' addr size v pc)
  unfolding Kept KeptBy store_to stored
  store_to-Kept m' addr size v pc k = >>=-Kept m (write_mem m' addr size v) _ go
    where
      kept : (m'' : Machine) (x : Access) → write_mem m' addr size v ≡ some (m'', x) → Keeps m m''
      kept m'' x q =
          Keeps-trans m m' m'' k
            (Keeps-registers m' m'' (write_mem-registers m' m'' addr size v x q))

      go :
          (r : Machine × Access)
          → write_mem m' addr size v ≡ some r
          → Kept m (some (stored pc addr r))
      go (m'', trap e) q = kept m'' (trap e) q
      go (m'', value w) q = (kept m'' (value w) q, ground arith)

  pub store_word-Kept : (addr : ℕ) (merge : ℕ → ℕ) (pc : ℕ) → Kept m (store_word m addr merge pc)
  unfolding Kept KeptBy store_word store_merged
  store_word-Kept addr merge pc = >>=-Kept m (read_mem m (addr / 4 * 4) 4) _ go
    where
      go :
          (r : Machine × Access)
          → read_mem m (addr / 4 * 4) 4 ≡ some r
          → Kept m (store_merged pc (addr / 4 * 4) merge r)
      go (m', trap e) q = Keeps-registers m m' (read_mem-registers m m' (addr / 4 * 4) 4 (trap e) q)
      go (m', value v) q =
          store_to-Kept m' (addr / 4 * 4) 4 (merge v) pc
            (Keeps-registers m m' (read_mem-registers m m' (addr / 4 * 4) 4 (value v) q))

  -- Writes of HI and LO.
  pub put₂-Keeps : (i j v w : ℕ) → i < 34 → j < 34 → Keeps m (put (put m i v) j w)
  put₂-Keeps i j v w h k = put-Keeps m (put m i v) j w k (put-Keeps m m i v h (Keeps-refl m))

  pub put_double-Keeps : (p : ℕ × ℕ) → Keeps m (put_double m p)
  unfolding put_double
  put_double-Keeps (hi, lo) = put₂-Keeps 32 33 hi lo (ground arith) (ground arith)

  pub divide_unsigned-Keeps : (a b : ℕ) → Keeps m (divide_unsigned m a b)
  unfolding divide_unsigned
  divide_unsigned-Keeps a b =
      if-holds (Keeps m) (b == 0) _ _ (put₂-Keeps 33 32 0 0 (ground arith) (ground arith))
        (put₂-Keeps 33 32 (a / b) (a % b) (ground arith) (ground arith))

  pub divide-Kept : (a b pc : ℕ) → Kept m (divide m a b pc)
  unfolding divide Kept
  divide-Kept a b pc =
      if-holds (Kept m) (b == 0) _ _
        (ends-Kept (put (put m 33 0) 32 0) pc (put₂-Keeps 33 32 0 0 (ground arith) (ground arith)))
        (if-holds (Kept m) ((a == 0x80000000) && (b == 0xffffffff)) none
          (ends (put (put m 33 (quotient a b)) 32 (remainder a b)) pc) tt
          (ends-Kept (put (put m 33 (quotient a b)) 32 (remainder a b)) pc
            (put₂-Keeps 33 32 (quotient a b) (remainder a b) (ground arith) (ground arith))))

bit_and-le_right : (n a b : ℕ) → b ≤ n → bit_and a b ≤ b
bit_and-le_right n a zero h = omega (arith, bit_and-zero a a (omega arith))
bit_and-le_right zero a (suc b) h = absurd (omega arith)
bit_and-le_right (suc n) a (suc b) h =
    omega (arith, last_and a (suc b), bit_and-le_right n (a / 2) (suc b / 2) (omega arith))

-- A field of five bits.
field_lt : (x : ℕ) → bit_and x 0x1f < 32
field_lt x = omega (arith, bit_and-le_right 31 x 31 (omega arith))

pub decode-Fits : (raw : ℕ) → Fits (decode raw)
unfolding Fits decode
decode-Fits raw = (field_lt (raw / 2 ^ 21), field_lt (raw / 2 ^ 16), field_lt (raw / 2 ^ 11))
