-- ===== src/Syscall/PrintString.antt =====
-- The whole of SC_PrintString.
use nachos_system_calls.Prelude.{
  ◌≡◌, ◌<◌, ◌⊎◌, inl, inr, refl, ℕ, suc, some, List, [], ◌∷◌, ◌++◌, length, replicate, ◌>>=◌, ◌∙◌,
  ap, arith,
}
use nachos_system_calls.CString.{key}
use nachos_system_calls.Machine.{Machine, ExceptionType, read_register, read_mem, trap, value}
use nachos_system_calls.Machine.Translate.{HasTable}
use nachos_system_calls.Syscall.{
  limit_length, Kernel, Effect, halted, done, Copied, fault, copied, user_to_system, print_copied,
  sys_print_string,
}
use nachos_system_calls.Syscall.Copy.{
  IsTerminated, IsString, Keeps, print_loop_lem, user_to_system_total,
}
use nachos_system_calls.Syscall.Fetch.{
  Reads, Fetches, traps, ends, fills, user_to_system-Fetches, key-terminated,
}

-- The system call reads the bytes from `addr` on one by one: it ends at one that is not translated,
-- or writes those in front of a zero, at most 255.
pub data Prints {Host : Type 0} (k : Kernel Host) (addr : ℕ) : Effect Host → Type 0 where
  faulted :
      (m₁ m' : Machine) (a : ℕ) (bs : List ℕ) (e : ExceptionType)
      → Reads k.machine addr bs m₁ a
      → length bs < 255
      → read_mem m₁ a 1 ≡ some (m', trap e)
      → Prints k addr halted
  printed :
      (m₁ m' : Machine) (a : ℕ) (bs : List ℕ)
      → Reads k.machine addr bs m₁ a
      → ((length bs < 255) × (read_mem m₁ a 1 ≡ some (m', value 0)))
        ⊎ ((length bs ≡ 255) × (m' ≡ m₁))
      → m'.main_memory ≡ k.machine.main_memory
      → m'.registers ≡ k.machine.registers
      → Prints k addr (
          done (record k {
            machine = m';
            console = record k.console { output = k.console.output ++ key (length bs) bs };
          }))

-- With exactly one table in place SC_PrintString always ends: it halts the machine only if the read
-- of a byte fails before a zero and before the 255th byte; otherwise it writes the bytes in front of
-- the first zero, at most 255, to the console, and of the rest of the kernel only the use bits that
-- the reads set change.
pub sys_print_string-Prints :
    {Host : Type 0} (k : Kernel Host) (addr : ℕ)
    → HasTable k.machine
    → read_register k.machine 4 ≡ some addr
    → (e : Effect Host) × (sys_print_string k ≡ some e) × Prints k addr e
unfolding sys_print_string print_copied
sys_print_string-Prints {Host = Host} k addr t h =
    let (r, e, s, q) = user_to_system_total limit_length k.machine addr t in
    after r (user_to_system-Fetches limit_length k.machine addr r e) e s q
  where
    ended : Machine → List ℕ → Effect Host
    ended m' bytes = done (record k {
      machine = m';
      console = record k.console { output = k.console.output ++ bytes };
    })

    ran :
        (r : Copied)
        → user_to_system k.machine addr limit_length ≡ some r
        → sys_print_string k ≡ print_copied k r
    ran r e =
        ap (λ o. o >>= λ a. user_to_system k.machine a limit_length >>= print_copied k) h
        ∙ ap (λ o. o >>= print_copied k) e

    written :
        (m' : Machine) (bs tail : List ℕ)
        → IsTerminated (bs ++ 0 ∷ tail)
        → print_copied k (copied m' (bs ++ 0 ∷ tail)) ≡ some (ended m' (key (length bs) bs))
    written m' bs tail z =
        ap (λ o. o >>= λ c. some (done (record k { machine = m'; console = c })))
          (print_loop_lem k.console (bs ++ 0 ∷ tail) z)
        ∙ ap (λ bytes. some (ended m' bytes)) (key-terminated bs tail)

    after :
        (r : Copied)
        → Fetches limit_length k.machine addr r
        → user_to_system k.machine addr limit_length ≡ some r
        → IsString limit_length r
        → Keeps k.machine r
        → (e : Effect Host) × (sys_print_string k ≡ some e) × Prints k addr e
    after _ (traps {m₁ = m₁} {m' = m'} {a = a} {bs = bs} {e = x} r l t) e s q =
        (halted, ran fault e, faulted m₁ m' a bs x r l t)
    after _ (ends {m₁ = m₁} {m' = m'} {a = a} bs z r l t) e (_, s) (p, q) = (
      ended m' (key (length bs) bs),
      ran (copied m' (bs ++ replicate (suc (suc z)) 0)) e ∙ written m' bs (replicate (suc z) 0) s,
      printed m₁ m' a bs r (inl (omega (arith, l), t)) p q,
    )
    after _ (fills {m' = m'} {a = a} bs r l) e (_, s) (p, q) = (
      ended m' (key (length bs) bs),
      ran (copied m' (bs ++ 0 ∷ [])) e ∙ written m' bs [] s,
      printed m' m' a bs r (inr (l, refl)) p q,
    )
