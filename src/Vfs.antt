-- ===== src/Vfs.antt =====
-- Nodes and file descriptors: `getnode`, `open`, `close`, `read`, `write`, `seek`, `stat` and
-- `ioctl` of src/fs/vfs.c. The file descriptors are those of the current process.
pub mod Fds
pub mod Devices
pub mod DeviceFds
pub mod Rounds
pub mod Truncate
mod Tests
use ras_pi_k.Base.{
  ℕ, zero, suc, ◌+◌, ◌-◌, ◌^◌, not, ◌&&◌, Option, none, some, List, [], ℤ, pos, negsuc, failed,
  is_neg, ◌==◌, ltb, if◌then◌else◌, set,
}
use ras_pi_k.Strings.{CString, strcmp}
use ras_pi_k.Store.{Ptr, null, Device, Driver, M, ok, fault, load_vfile, store_vfile, load_device}
use ras_pi_k.Vffs.{
  eof, perm_write, has_flag, u32, krealloc, create_vfile, get_node_vffs, read_vfile, write_vfile,
}
use ras_pi_k.Devfs.{get_node_devfs}
use ras_pi_k.Kernel.{
  FsType, devices, vfiles, fat32, unknown, Fd, K, Fat32, return, ◌>>=◌, ◌>>◌, trap, lift,
  get_kernel, set_fd,
}
use ras_pi_k.Paths.{parse_path}

abbrev pub nbmax_fd : ℕ
nbmax_fd = 4096

abbrev pub o_creat : ℕ
o_creat = 0x000f

abbrev pub o_append : ℕ
o_append = 0x00f0

abbrev pub o_rdwr : ℕ
o_rdwr = 0x0f00

abbrev pub o_rdonly : ℕ
o_rdonly = 0xf000

-- what `getnode` returns and writes to `type` and `offset`, when it returns no `NULL`
pub record Node : Type 0 where
  pub node : Ptr
  pub type : FsType
  pub offset : ℕ

-- the index of a file descriptor inside the table
abbrev pub fd_index : ℤ → Option ℕ
fd_index (pos n) = if ltb n nbmax_fd then some n else none
fd_index (negsuc n) = none

-- the first index of a free file descriptor from index `i` on, with `n` left
unfoldable pub free_fd : ℕ → ℕ → (ℕ → Fd) → Option ℕ
free_fd zero i table = none
free_fd (suc n) i table =
    let rest = free_fd n (i + 1) table in if (table i).addr == null then some i else rest

-- the offset after `seek`, in 32 bits; `SEEK_SET` is 0, `SEEK_CUR` 1 and `SEEK_END` 2
unfoldable pub seek_offset : ℕ → ℕ → ℕ → ℕ → Option ℕ
seek_offset current len offset zero = some offset
seek_offset current len offset (suc zero) = some (u32 (current + offset))
seek_offset current len offset (suc (suc zero)) = some (u32 (len + (2 ^ 32 - 1) + offset))
seek_offset current len offset (suc (suc (suc whence))) = none

-- a `uint32_t` as an `int`
abbrev pub int_of : ℕ → ℤ
int_of n = if ltb n (2 ^ 31) then pos n else negsuc (2 ^ 32 - 1 - n)

-- the call of a driver's function, which may change the state of the hardware
pub call_driver : {Hw A : Type 0} → Ptr → (Device → Driver Hw → Hw → A × Hw) → M Hw A
call_driver p use_it s = elim (s.device p) [
  | none ↦ fault
  | some d ↦ elim (s.driver d.driver) [
    | none ↦ fault
    | some v ↦ let (a, hw) = use_it d v s.hw in ok a (record s { hw = hw })
  ]
]

abbrev pub driver_read : {Hw : Type 0} → ℕ → ℕ → Device → Driver Hw → Hw → (ℤ × ℕ × List ℕ) × Hw
driver_read offset len d v hw =
    let (ret, to, buf, after) = v.read d offset len hw in ((ret, to, buf), after)

abbrev driver_write : {Hw : Type 0} → ℕ → List ℕ → Device → Driver Hw → Hw → (ℤ × ℕ) × Hw
driver_write offset buf d v hw =
    let (ret, to, after) = v.write d offset buf hw in ((ret, to), after)

-- the file descriptor of an opened node
abbrev pub fd_of : Node → ℕ → Fd
fd_of n mode = record { type = n.type; mode = mode; addr = n.node; offset = n.offset }

module _ {Hw Fat : Type 0} where
  -- the entry of a file descriptor into the table, at its first free index
  abbrev pub install : Option ℕ → Node → ℕ → K Hw Fat ℤ
  install none n mode = return failed
  install (some i) n mode = do set_fd i (fd_of n mode); return (pos i)

  -- The `s_vfile` of a path, opened: `file->data[0] = EOF` where nothing is to be appended.
  pub open_vfile : Ptr → ℕ → K Hw Fat (Option Node)
  open_vfile p mode = do
    file ← lift (load_vfile p)
    if has_flag mode o_rdwr && not (has_flag file.perm perm_write)
        then return none
        else if has_flag mode o_append
        then return (some (record { node = p; type = vfiles; offset = file.size }))
        else do
          moved ← lift (krealloc file.content 1)
          elim moved [
            | none ↦ trap
            | some block ↦ do
              lift (store_vfile p (record file { content = some (set block 0 eof); size = 0 }))
              return (some (record { node = p; type = vfiles; offset = 0 }))
          ]

  pub getnode_vffs : Ptr → CString → ℕ → K Hw Fat (Option Node)
  unfolding open_vfile
  getnode_vffs fs file mode = do
    p ← lift (get_node_vffs fs file)
    if not (p == null)
        then open_vfile p mode
        else if not (has_flag mode o_creat)
        then return none
        else do
          ret ← lift (create_vfile fs file)
          if is_neg ret then return none else do
            q ← lift (get_node_vffs fs file)
            if q == null then return none else open_vfile q mode

  pub getnode_devfs : Ptr → CString → ℕ → K Hw Fat (Option Node)
  getnode_devfs fs file mode = do
    p ← lift (get_node_devfs fs file)
    if p == null then return none else do
      d ← lift (load_device p)
      if has_flag mode o_rdwr && not (has_flag d.perm perm_write)
          then return none
          else return (some (record { node = p; type = devices; offset = 0 }))

  -- the file descriptor of a number, where it is open
  pub lookup_fd : ℤ → K Hw Fat (Option (ℕ × Fd))
  lookup_fd fd = do
    k ← get_kernel
    return (elim (fd_index fd) [
      | none ↦ none
      | some i ↦ if (k.fd_table i).addr == null then none else some (i, k.fd_table i)
    ])

  pub close : ℤ → K Hw Fat ℤ
  unfolding lookup_fd
  close fd = do
    o ← lookup_fd fd
    elim o [
      | none ↦ return failed
      | some (i, d) ↦ do set_fd i (record d { addr = null }); return fd
    ]

  pub write : ℤ → List ℕ → K Hw Fat ℤ
  unfolding lookup_fd call_driver
  write fd buf = do
    o ← lookup_fd fd
    elim o [
      | none ↦ return failed
      | some (i, d) ↦ if has_flag d.mode o_rdonly then return failed else elim d.type [
        | vfiles ↦ do
          r ← lift (write_vfile d.addr d.offset buf)
          set_fd i (record d { offset = r.1 })
          return r.0
        | devices ↦ do
          r ← lift (call_driver d.addr (driver_write d.offset buf))
          set_fd i (record d { offset = r.1 })
          return r.0
        | fat32 ↦ return failed
        | unknown t ↦ return failed
      ]
    ]

  pub ioctl : ℤ → ℤ → ℤ → K Hw Fat ℤ
  unfolding lookup_fd call_driver
  ioctl fd cmd args = do
    o ← lookup_fd fd
    elim o [
      | none ↦ return failed
      | some (i, d) ↦ elim d.type [
        | vfiles ↦ return failed
        | devices ↦ lift (call_driver d.addr (λ dev v. v.ioctl dev cmd args))
        | fat32 ↦ return failed
        | unknown t ↦ return failed
      ]
    ]

module _ {Hw Fat : Type 0} (f : Fat32 Hw Fat) where
  pub getnode_fat32 : Ptr → CString → ℕ → K Hw Fat (Option Node)
  getnode_fat32 fs file mode = do
    p ← f.get_node_fat32 fs file
    if p == null
        then return none
        else if has_flag mode o_rdwr
        then return none
        else if not (has_flag mode o_append)
        then return (some (record { node = p; type = fat32; offset = 0 }))
        else do
          size ← f.file_size p
          return (some (record { node = p; type = fat32; offset = size }))

  -- the loop over the mount points, from index `i` on with `n` left
  pub getnode_from : ℕ → ℕ → CString → CString → ℕ → K Hw Fat (Option Node)
  unfolding getnode_vffs getnode_fat32 getnode_devfs
  getnode_from zero i dir file mode = return none
  getnode_from (suc n) i dir file mode = do
    k ← get_kernel
    if not (strcmp dir (k.list i).name == 0)
        then getnode_from n (i + 1) dir file mode
        else elim (k.list i).type [
          | vfiles ↦ getnode_vffs (k.list i).fs file mode
          | fat32 ↦ getnode_fat32 (k.list i).fs file mode
          | devices ↦ getnode_devfs (k.list i).fs file mode
          | unknown t ↦ getnode_from n (i + 1) dir file mode
        ]

  pub getnode : CString → ℕ → K Hw Fat (Option Node)
  unfolding getnode_from
  getnode path mode = do
    parsed ← lift (parse_path path)
    elim parsed [
      | none ↦ return none
      | some (dir, file) ↦ do k ← get_kernel; getnode_from k.nbmountpoints 0 dir file mode
    ]

  -- `open`
  pub open_file : CString → ℕ → K Hw Fat ℤ
  unfolding getnode
  open_file path mode = do
    found ← getnode path mode
    elim found [
      | none ↦ return failed
      | some n ↦ do k ← get_kernel; install (free_fd nbmax_fd 0 k.fd_table) n mode
    ]

  -- the result and the bytes that the buffer is left with
  pub read : ℤ → ℕ → K Hw Fat (ℤ × List ℕ)
  unfolding lookup_fd call_driver
  read fd len = do
    o ← lookup_fd fd
    elim o [
      | none ↦ return (failed, [])
      | some (i, d) ↦ elim d.type [
        | vfiles ↦ do
          r ← lift (read_vfile d.addr d.offset len)
          set_fd i (record d { offset = r.1 })
          return (r.0, r.2)
        | devices ↦ do
          r ← lift (call_driver d.addr (driver_read d.offset len))
          set_fd i (record d { offset = r.1 })
          return (r.0, r.2)
        | fat32 ↦ do
          r ← f.read_fat32file d.addr d.offset len
          set_fd i (record d { offset = r.1 })
          return (r.0, r.2)
        | unknown t ↦ return (failed, [])
      ]
    ]

  -- the size of the file at a file descriptor; a device counts as 0 for `seek`
  pub fd_size : Fd → K Hw Fat (Option ℕ)
  fd_size d = elim d.type [
    | vfiles ↦ do file ← lift (load_vfile d.addr); return (some file.size)
    | devices ↦ return (some 0)
    | fat32 ↦ do size ← f.file_size d.addr; return (some size)
    | unknown t ↦ return none
  ]

  pub seek : ℤ → ℕ → ℕ → K Hw Fat ℤ
  unfolding lookup_fd fd_size seek_offset
  seek fd offset whence = do
    o ← lookup_fd fd
    elim o [
      | none ↦ return failed
      | some (i, d) ↦ do
        size ← fd_size d
        elim size [
          | none ↦ return failed
          | some len ↦ elim (seek_offset d.offset len offset whence) [
            | none ↦ return failed
            | some to ↦ do set_fd i (record d { offset = to }); return (int_of to)
          ]
        ]
    ]

  -- the result and what is written to `sb->st_size`
  pub stat : ℤ → Ptr → K Hw Fat (ℤ × Option ℕ)
  unfolding lookup_fd
  stat fd sb = if sb == null then return (failed, none) else do
    o ← lookup_fd fd
    elim o [
      | none ↦ return (failed, none)
      | some (i, d) ↦ elim d.type [
        | vfiles ↦ do file ← lift (load_vfile d.addr); return (pos 0, some file.size)
        | devices ↦ return (failed, none)
        | fat32 ↦ do size ← f.file_size d.addr; return (pos 0, some size)
        | unknown t ↦ return (failed, none)
      ]
    ]
