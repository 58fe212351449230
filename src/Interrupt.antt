-- ===== src/Interrupt.antt =====
-- code/machine/interrupt.cc: the simulated clock and the queue of the pending interrupts.
pub mod Queue
pub mod Loop
pub mod Tick
mod Tests
use nachos_system_calls.Prelude.{
  ℕ, zero, suc, ◌+◌, ◌-◌, Bool, true, false, not, ◌&&◌, ◌||◌, Option, none, some, List, [], ◌∷◌, ℤ,
  pos, ◌>>=◌, ◌>>◌, assert_that, ltb, leb, if◌then◌else◌, map,
}
use nachos_system_calls.LinkedList.Sorted.{insert}
use nachos_system_calls.Machine.{Machine}
use nachos_system_calls.Mips.Cases.{delayed_load}

pub data IntStatus : Type 0 where
  int_off int_on : IntStatus

pub data MachineStatus : Type 0 where
  idle_mode system_mode user_mode : MachineStatus

pub data IntType : Type 0 where
  timer_int disk_int console_write_int console_read_int network_send_int network_recv_int : IntType

-- `handler` stands for the address of a function.
pub record PendingInterrupt : Type 0 where
  pub handler : ℕ
  pub arg : ℕ
  pub when : ℕ
  pub type : IntType

-- class Interrupt, with the ticks of class Statistics and with what its calls reach: the machine,
-- which is there in the builds that run user programs, and the rest of the kernel. `pending` is the
-- sorted list of LinkedList.Refine.
pub record Interrupt (S : Type 0) : Type 0 where
  pub level : IntStatus
  pub pending : List PendingInterrupt
  pub in_handler : Bool
  pub yield_on_return : Bool
  pub status : MachineStatus
  pub total_ticks : ℕ
  pub idle_ticks : ℕ
  pub system_ticks : ℕ
  pub user_ticks : ℕ
  pub machine : Option Machine
  pub rest : S

-- The functions that are called through pointers, and Thread::Yield. None is a failed assertion.
pub record Calls (S : Type 0) : Type 0 where
  pub handle : ℕ → ℕ → Interrupt S → Option (Interrupt S)
  pub yield : Interrupt S → Option (Interrupt S)

abbrev pub user_tick : ℕ
user_tick = 1

abbrev pub system_tick : ℕ
system_tick = 10

abbrev pub is_on : IntStatus → Bool
is_on int_on = true
is_on int_off = false

abbrev pub is_idle : MachineStatus → Bool
is_idle idle_mode = true
is_idle system_mode = false
is_idle user_mode = false

abbrev pub is_system : MachineStatus → Bool
is_system system_mode = true
is_system status = false

abbrev pub is_timer : IntType → Bool
is_timer timer_int = true
is_timer t = false

abbrev pub no_interrupts : List PendingInterrupt → Bool
no_interrupts [] = true
no_interrupts (p ∷ ps) = false

-- `if (machine != NULL) machine->DelayedLoad(0, 0);`
abbrev pub finish_load : Option Machine → Option Machine
finish_load none = none
finish_load (some m) = some (delayed_load m 0 0)

-- SortedInsert of an interrupt at its time.
abbrev pub insert_pending : PendingInterrupt → List PendingInterrupt → List PendingInterrupt
insert_pending = insert (λ (p : PendingInterrupt). pos p.when)

module _ {S : Type 0} where
  -- Interrupt::Interrupt.
  abbrev pub new_interrupt : ℕ → Option Machine → S → Interrupt S
  new_interrupt now machine rest = record {
    level = int_off;
    pending = [];
    in_handler = false;
    yield_on_return = false;
    status = system_mode;
    total_ticks = now;
    idle_ticks = 0;
    system_ticks = 0;
    user_ticks = 0;
    machine = machine;
    rest = rest;
  }

  -- The ticks of the time, and those of the status.
  abbrev pub advance_time : Interrupt S → Interrupt S
  advance_time w =
      if is_system w.status
      then record w {
        total_ticks = w.total_ticks + system_tick;
        system_ticks = w.system_ticks + system_tick;
      }
      else record w {
        total_ticks = w.total_ticks + user_tick;
        user_ticks = w.user_ticks + user_tick;
      }

  unfoldable pub schedule : ℕ → ℕ → ℕ → IntType → Interrupt S → Option (Interrupt S)
  schedule handler arg from_now type w =
      let when = w.total_ticks + from_now in
      let to_occur : PendingInterrupt = record {
        handler = handler;
        arg = arg;
        when = when;
        type = type;
      } in
      assert_that (ltb 0 from_now)
      >> some (record w { pending = insert_pending to_occur w.pending })

  unfoldable pub request_yield : Interrupt S → Option (Interrupt S)
  request_yield w = assert_that w.in_handler >> some (record w { yield_on_return = true })

  module _ (calls : Calls S) where
    -- The call of the handler, once the interrupt is off the list.
    pub fire : PendingInterrupt → Interrupt S → Option (Interrupt S)
    fire p w =
        calls.handle p.handler p.arg
          (record w { machine = finish_load w.machine; in_handler = true; status = system_mode })
        >>= λ w'. some (record w' { status = w.status; in_handler = false })

    -- What CheckIfDue does with the interrupt that it took off the list, its time being there.
    pub fire_unless_idle : PendingInterrupt → Interrupt S → Option (Interrupt S × Bool)
    unfolding fire
    fire_unless_idle p w =
        if is_idle w.status && is_timer p.type && no_interrupts w.pending
        then some (record w { pending = insert_pending p w.pending }, false)
        else (fire p w >>= λ w'. some (w', true))

    pub check_taken : Bool → PendingInterrupt → Interrupt S → Option (Interrupt S × Bool)
    unfolding fire_unless_idle
    check_taken advance_clock p w =
        if advance_clock && ltb w.total_ticks p.when
        then fire_unless_idle p (record w {
          idle_ticks = w.idle_ticks + (p.when - w.total_ticks);
          total_ticks = p.when;
        })
        else (if ltb w.total_ticks p.when
            then some (record w { pending = insert_pending p w.pending }, false)
            else fire_unless_idle p w)

    pub check_pending : Bool → Interrupt S → List PendingInterrupt → Option (Interrupt S × Bool)
    unfolding check_taken
    check_pending advance_clock w [] = some (w, false)
    check_pending advance_clock w (p ∷ ps) = check_taken advance_clock p (record w { pending = ps })

    -- CheckIfDue.
    unfoldable pub check_if_due : Bool → Interrupt S → Option (Interrupt S × Bool)
    unfolding check_pending
    check_if_due advance_clock w =
        assert_that (not (is_on w.level)) >> check_pending advance_clock w w.pending

    -- `while (CheckIfDue(FALSE));`. The fuel bounds the rounds: none is also a loop that would take
    -- more.
    unfoldable pub due_loop : ℕ → Interrupt S → Option (Interrupt S)
    unfolding check_if_due
    due_loop zero w = none
    due_loop (suc fuel) w = check_if_due false w >>= λ (w', fired).
        let rest = due_loop fuel w' in if fired then rest else some w'

    -- OneTick up to the test of yieldOnReturn.
    unfoldable pub tick : ℕ → Interrupt S → Option (Interrupt S)
    unfolding due_loop
    tick fuel w = due_loop fuel (record (advance_time w) { level = int_off }) >>= λ w'.
        some (record w' { level = int_on })

    unfoldable pub one_tick : ℕ → Interrupt S → Option (Interrupt S)
    unfolding tick
    one_tick fuel w = tick fuel w >>= λ w₁.
        if w₁.yield_on_return
        then (calls.yield (record w₁ { yield_on_return = false; status = system_mode }) >>= λ w₂.
            some (record w₂ { status = w.status }))
        else some w₁

    unfoldable pub set_level : ℕ → IntStatus → Interrupt S → Option (Interrupt S × IntStatus)
    unfolding one_tick
    set_level fuel now w =
        let w₁ = record w { level = now } in
        assert_that (not (is_on now) || not w.in_handler)
        >> (if is_on now && not (is_on w.level)
            then (one_tick fuel w₁ >>= λ w₂. some (w₂, w.level))
            else some (w₁, w.level))

    unfoldable pub enable : ℕ → Interrupt S → Option (Interrupt S)
    unfolding set_level
    enable fuel w = set_level fuel int_on w >>= λ (w', old). some w'

    -- Idle; none in the result is the call of Halt.
    unfoldable pub idle : ℕ → Interrupt S → Option (Option (Interrupt S))
    unfolding check_if_due due_loop
    idle fuel w = check_if_due true (record w { status = idle_mode }) >>= λ (w₁, fired).
        let rest = due_loop fuel w₁ in
        if fired
        then (rest >>= λ w₂.
            some (some (record w₂ { yield_on_return = false; status = system_mode })))
        else some none
