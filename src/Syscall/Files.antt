-- ===== src/Syscall/Files.antt =====
-- code/userprog/exception.cc: the system calls on files, with class OpenFile of
-- code/filesys/openfile.h, class FileSystem of code/filesys/filesys.h (both as FILESYS_STUB has
-- them) and what they use of code/machine/sysdep.cc. A failed assertion of sysdep.cc is `none`.
use nachos_system_calls.Prelude.{
  ℕ, zero, suc, ◌+◌, ◌-◌, ◌||◌, Option, none, some, List, [], ◌∷◌, ◌++◌, get_elem?, set, length,
  drop, ◌%◌, ◌^◌, take, ℤ, pos, negsuc, ◌>>=◌, assert_that, ◌>>◌, ◌==◌, ltb, leb, if◌then◌else◌,
}
use nachos_system_calls.CString.{strncmp_eq}
use nachos_system_calls.Machine.{signed, to_unsigned, read_register, write_register}
use nachos_system_calls.Console.{read}
use nachos_system_calls.Pcb.{decr}
use nachos_system_calls.Syscall.{
  limit_length, max_file_length, Unix, OpenFile, Kernel, Effect, halted, done, Copied, fault,
  copied, user_to_system, Stored, store_fault, stored, system_to_user, set_result, print_loop,
}

-- findFreeSlot, from slot 2 on.
free_from : List (Option OpenFile) → ℕ → ℕ
free_from [] i = i
free_from (none ∷ xs) i = i
free_from (some f ∷ xs) i = free_from xs (i + 1)

pub find_free_file : List (Option OpenFile) → ℕ
unfolding free_from
find_free_file [] = 2
find_free_file (a ∷ []) = 2
find_free_file (a ∷ b ∷ xs) = free_from xs 2

-- A number of characters before the terminator.
string_length : List ℕ → ℕ
string_length [] = 0
string_length (c ∷ cs) = let rest = string_length cs in if c == 0 then 0 else rest + 1

abbrev stdin_name : List ℕ
stdin_name = 115 ∷ 116 ∷ 100 ∷ 105 ∷ 110 ∷ []

abbrev stdout_name : List ℕ
stdout_name = 115 ∷ 116 ∷ 100 ∷ 111 ∷ 117 ∷ 116 ∷ []

-- The slot of an index that is checked against the table, as three calls do: a NULL slot and an
-- index outside are both `none`, for both lead to -1.
pub file_at : List (Option OpenFile) → ℤ → Option (ℕ × OpenFile)
file_at openf (negsuc n) = none
file_at openf (pos n) =
    if ltb n 10 then (get_elem? openf n >>= λ slot. slot >>= λ f. some (n, f)) else none

-- `currentOffset += n`.
advance : ℤ → ℕ → ℤ
advance (pos a) n = pos (a + n)
advance (negsuc a) zero = negsuc a
advance (negsuc zero) (suc n) = pos n
advance (negsuc (suc a)) (suc n) = advance (negsuc a) n

module _ {Host : Type 0} (unix : Unix Host) where
  -- Lseek, which asserts that the host agrees, and Tell.
  seek_to : Host → ℕ → ℤ → ℕ → Option (Host × ℕ)
  seek_to h fd offset whence = let r = unix.lseek h fd offset whence in r.1 >>= λ at. some (r.0, at)

  tell : Host → ℕ → Option (Host × ℕ)
  unfolding seek_to
  tell h fd = seek_to h fd (pos 0) 1

  -- OpenFile::Length.
  file_length : Host → OpenFile → Option (Host × ℕ)
  unfolding seek_to tell
  file_length h f = do
    a ← seek_to h f.file (pos 0) 2
    b ← tell a.0 f.file
    c ← seek_to b.0 f.file f.current_offset 0
    some (c.0, b.1)

  -- GetCurrentPos and Seek, which also set `currentOffset`.
  get_current_pos : Host → OpenFile → Option (Host × OpenFile)
  unfolding tell
  get_current_pos h f =
      tell h f.file >>= λ (h', at). some (h', record f { current_offset = pos at })

  file_seek : Host → OpenFile → ℕ → Option (Host × OpenFile)
  unfolding seek_to get_current_pos
  file_seek h f offset = seek_to h f.file (pos offset) 0 >>= λ (h', at). get_current_pos h' f

  -- OpenFile::Read: `none` inside is a failed read, -1, which is added to the offset.
  read_bytes : Host → OpenFile → ℕ → Option (Host × OpenFile × Option (List ℕ))
  unfolding seek_to advance
  read_bytes h f n = seek_to h f.file f.current_offset 0 >>= λ (h', at).
      let r = unix.read h' f.file n in
      elim r.1 [
        | some bytes ↦
            some (
              r.0,
              record f { current_offset = advance f.current_offset (length bytes) },
              some bytes,
            )
        | none ↦ some (r.0, record f { current_offset = decr f.current_offset }, none)
      ]

  -- OpenFile::Write, with the assertion of WriteFile.
  write_bytes : Host → OpenFile → List ℕ → Option (Host × OpenFile)
  unfolding seek_to advance
  write_bytes h f bytes = do
    a ← seek_to h f.file f.current_offset 0
    let r = unix.write a.0 f.file bytes
    n ← r.1
    assert_that (n == length bytes)
    some (r.0, record f { current_offset = advance f.current_offset (length bytes) })

  abbrev failed : Kernel Host → Option (Effect Host)
  failed k = set_result k (to_unsigned (negsuc 0))

  put_file : Kernel Host → ℕ → Host → OpenFile → Kernel Host
  put_file k i h f = record k { host = h; openf = set k.openf i (some f) }

  -- FileSystem::Create: OpenForWrite asserts that it succeeds, and so does Close.
  create_file : Host → List ℕ → Option Host
  create_file h name = do
    let r = unix.create h name
    fd ← r.1
    let c = unix.close r.0 fd
    assert_that c.1
    some c.0

  create_named : Kernel Host → Copied → Option (Effect Host)
  unfolding create_file
  create_named k fault = some halted
  create_named k (copied m name) = create_file k.host (take (string_length name) name) >>= λ h.
      set_result (record k { machine = m; host = h }) 0

  -- SC_Create copies 33 bytes of the name, SC_CreateFile 255. The branches for a failed Create are
  -- never taken, since OpenForWrite asserts.
  pub sys_create : Kernel Host → Option (Effect Host)
  unfolding create_named
  sys_create k = do
    addr ← read_register k.machine 4
    r ← user_to_system k.machine addr (max_file_length + 1)
    create_named k r

  pub sys_create_file : Kernel Host → Option (Effect Host)
  unfolding create_named
  sys_create_file k = do
    addr ← read_register k.machine 4
    r ← user_to_system k.machine addr limit_length
    create_named k r

  open_result : Kernel Host → ℕ → ℕ → Host × Option ℕ → Option (Effect Host)
  open_result k slot type (h, none) = failed (record k { host = h; openf = set k.openf slot none })
  open_result k slot type (h, some fd) =
      set_result (put_file k slot h (record { file = fd; current_offset = pos 0; type = type }))
        slot

  open_named : Kernel Host → ℕ → ℕ → Copied → Option (Effect Host)
  unfolding open_result string_length
  open_named k slot type fault = some halted
  open_named k slot type (copied m name) =
      let k' : Kernel Host = record k { machine = m } in
      if strncmp_eq 256 name stdin_name
      then set_result k' 0
      else (if strncmp_eq 256 name stdout_name
          then set_result k' 1
          else open_result k' slot type (unix.open_file k.host (take (string_length name) name)))

  -- A full table is -1, before the name is read.
  open_at : Kernel Host → ℕ → ℕ → ℕ → Option (Effect Host)
  unfolding open_named
  open_at k addr type slot =
      if leb 10 slot
      then failed k
      else (user_to_system k.machine addr limit_length >>= open_named k slot type)

  pub sys_open : Kernel Host → Option (Effect Host)
  unfolding open_at find_free_file
  sys_open k = do
    addr ← read_register k.machine 4
    type ← read_register k.machine 5
    open_at k addr type (find_free_file k.openf)

  -- To the end for -1, and -1 for any place outside the file.
  seek_from : Kernel Host → ℕ → OpenFile → ℤ → Host × ℕ → Option (Effect Host)
  unfolding file_seek put_file
  seek_from k i f (negsuc zero) (h, len) =
      file_seek h f len >>= λ (h', f'). set_result (put_file k i h' f') len
  seek_from k i f (negsuc (suc n)) (h, len) = failed (record k { host = h })
  seek_from k i f (pos n) (h, len) =
      if ltb len n
      then failed (record k { host = h })
      else (file_seek h f n >>= λ (h', f'). set_result (put_file k i h' f') n)

  seek_found : Kernel Host → ℤ → Option (ℕ × OpenFile) → Option (Effect Host)
  unfolding seek_from file_length
  seek_found k offset none = failed k
  seek_found k offset (some (i, f)) = file_length k.host f >>= seek_from k i f offset

  pub sys_seek : Kernel Host → Option (Effect Host)
  unfolding seek_found file_at
  sys_seek k = do
    offset ← read_register k.machine 4
    index ← read_register k.machine 5
    seek_found k (signed offset) (file_at k.openf (signed index))

  after_copy : Kernel Host → ℤ → Stored → Option (Effect Host)
  after_copy k r store_fault = some halted
  after_copy k r (stored m n) = set_result (record k { machine = m }) (to_unsigned r)

  -- Read on standard input (type 2).
  read_console : ℕ → Kernel Host → ℕ → ℕ → Option (Effect Host)
  unfolding after_copy
  read_console garbage k addr n = do
    r ← read garbage k.console n
    s ← system_to_user k.machine addr r.2 (r.0 ++ (0 ∷ []))
    after_copy (record k { console = r.1 }) r.2 s

  -- After a read of at least a byte: `NewPos - OldPos + 1` bytes of the buffer are copied, which
  -- ends with the bytes that were there.
  read_copy :
      Kernel Host → ℕ → ℕ → ℕ → List ℕ → Host × OpenFile × Option (List ℕ) → Option (Effect Host)
  unfolding get_current_pos put_file after_copy
  read_copy k i addr old buf (h, f, none) = failed (put_file k i h f)
  read_copy k i addr old buf (h, f, some []) = failed (put_file k i h f)
  read_copy k i addr old buf (h, f, some (c ∷ cs)) = do
    r ← tell h f.file
    let n = r.1 + 1 - old
    let k' = put_file k i r.0 (record f { current_offset = pos r.1 })
    s ← system_to_user k.machine addr (pos n) ((c ∷ cs) ++ drop (length (c ∷ cs)) buf)
    after_copy k' (pos n) s

  read_copied : ℕ → Kernel Host → ℕ → ℕ → ℕ → Host × ℕ → OpenFile → Copied → Option (Effect Host)
  unfolding read_console read_copy read_bytes put_file
  read_copied garbage k i addr n (h, old) f fault = some halted
  read_copied garbage k i addr n (h, old) f (copied m buf) =
      let f' : OpenFile = record f { current_offset = pos old } in
      let k' : Kernel Host = put_file (record k { machine = m }) i h f' in
      if f.type == 2
      then read_console garbage k' addr n
      else (read_bytes h f' n >>= read_copy k' i addr old buf)

  -- A negative NumBuf asks for more memory than there is.
  read_found : ℕ → Kernel Host → ℕ → ℤ → Option (ℕ × OpenFile) → Option (Effect Host)
  unfolding read_copied tell
  read_found garbage k addr (negsuc n) found = none
  read_found garbage k addr (pos n) none = failed k
  read_found garbage k addr (pos n) (some (i, f)) = do
    r ← tell k.host f.file
    b ← user_to_system k.machine addr n
    read_copied garbage k i addr n r f b

  pub sys_read_file : ℕ → Kernel Host → Option (Effect Host)
  unfolding read_found file_at
  sys_read_file garbage k = do
    addr ← read_register k.machine 4
    n ← read_register k.machine 5
    index ← read_register k.machine 6
    read_found garbage k addr (signed n) (file_at k.openf (signed index))

  -- The second part of SC_WriteFile: standard output (type 3) also goes to the console.
  echo : Kernel Host → OpenFile → List ℕ → Option (Effect Host)
  unfolding string_length
  echo k f buf =
      if f.type == 3
      then (print_loop k.console buf >>= λ c.
          set_result (record k { console = c }) (to_unsigned (decr (pos (string_length buf)))))
      else some (done k)

  -- After a write of `n` bytes.
  write_done : Kernel Host → ℕ → ℕ → ℕ → List ℕ → Host × OpenFile → Option (Effect Host)
  unfolding put_file echo tell
  write_done k i old zero buf (h, f) = echo (put_file k i h f) f buf
  write_done k i old (suc n) buf (h, f) = do
    r ← tell h f.file
    let f' = record f { current_offset = pos r.1 }
    m ← write_register k.machine 2 ((r.1 + 1 - old) % 2 ^ 32)
    echo (put_file (record k { machine = m }) i r.0 f') f' buf

  write_copied : Kernel Host → ℕ → ℕ → Host × ℕ → OpenFile → Copied → Option (Effect Host)
  unfolding write_bytes write_done echo put_file
  write_copied k i n (h, old) f fault = some halted
  write_copied k i n (h, old) f (copied m buf) =
      let f' : OpenFile = record f { current_offset = pos old } in
      let k' : Kernel Host = put_file (record k { machine = m }) i h f' in
      if (f.type == 0) || (f.type == 3)
      then (write_bytes h f' (take n buf) >>= write_done k' i old n buf)
      else echo k' f' buf

  write_found : Kernel Host → ℕ → ℤ → Option (ℕ × OpenFile) → Option (Effect Host)
  unfolding write_copied tell
  write_found k addr (negsuc n) found = none
  write_found k addr (pos n) none = failed k
  write_found k addr (pos n) (some (i, f)) = do
    r ← tell k.host f.file
    b ← user_to_system k.machine addr n
    write_copied k i n r f b

  pub sys_write_file : Kernel Host → Option (Effect Host)
  unfolding write_found file_at
  sys_write_file k = do
    addr ← read_register k.machine 4
    n ← read_register k.machine 5
    index ← read_register k.machine 6
    write_found k addr (signed n) (file_at k.openf (signed index))

  -- `m_index` is not checked against the table: outside it this is `none`.
  close_at : Kernel Host → ℤ → Option (Effect Host)
  close_at k (negsuc n) = none
  close_at k (pos i) = get_elem? k.openf i >>= λ slot. elim slot [
    | none ↦ some (done k)
    | some f ↦
        let c = unix.close k.host f.file in
        assert_that c.1 >> some (done (record k { host = c.0; openf = set k.openf i none }))
  ]

  pub sys_close : Kernel Host → Option (Effect Host)
  unfolding close_at
  sys_close k = read_register k.machine 4 >>= λ index. close_at k (signed index)
