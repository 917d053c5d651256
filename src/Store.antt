-- ===== src/Store.antt =====
-- The objects that the file systems allocate (include/fs/vffs.h, include/fs/devfs.h), each kind by
-- its address, and the monad of the code that works on them.
--
-- What `kmalloc` returns is an input of a run: `pool` lists the answers of the calls to come, an
-- address (`null` where memory is out) and the bytes that lie there. A `kfree` of an object that is
-- not there, and a read or write through `NULL`, a dangling pointer or past the end of a block, is
-- a `fault`. Buffers for paths and directory lists are values of the model.
pub mod Blocks
use ras_pi_k.Base.{ℕ, ◌+◌, Option, none, some, List, ℤ, ◌==◌, if◌then◌else◌}
use ras_pi_k.Strings.{CString}

abbrev pub Ptr : Type 0
Ptr = ℕ

abbrev pub null : Ptr
null = 0

-- `s_vfile`. The list is the whole block at `data`, which `kmalloc` rounds up to a multiple of 8
-- bytes; `none` is `NULL`.
pub record VFile : Type 0 where
  pub name : CString
  pub size : ℕ
  pub content : Option (List ℕ)
  pub perm : ℕ
  pub lock : ℕ

-- `s_vffs`
pub record Vffs : Type 0 where
  pub list : ℕ → Ptr
  pub nbfiles : ℕ

-- `s_device`; `driver` is the address of its `s_driver`.
pub record Device : Type 0 where
  pub name : CString
  pub addr : ℕ
  pub driver : Ptr
  pub perm : ℕ
  pub lock : ℕ

-- `s_devfs`
pub record Devfs : Type 0 where
  pub list : ℕ → Ptr
  pub nbdevices : ℕ

-- `s_driver`, over the state `Hw` of the hardware. A read returns its result, the new offset and
-- the bytes that it leaves in the buffer; a write returns its result and the new offset.
pub record Driver (Hw : Type 0) : Type 0 where
  pub init : Device → Hw → ℤ × Hw
  pub read : Device → ℕ → ℕ → Hw → ℤ × ℕ × List ℕ × Hw
  pub write : Device → ℕ → List ℕ → Hw → ℤ × ℕ × Hw
  pub ioctl : Device → ℤ → ℤ → Hw → ℤ × Hw

-- the answer of one call of `kmalloc`
pub record Answer : Type 0 where
  pub address : Ptr
  pub junk : ℕ → ℕ

pub record Store (Hw : Type 0) : Type 0 where
  pub hw : Hw
  pub pool : ℕ → Answer
  pub vfile : Ptr → Option VFile
  pub vffs : Ptr → Option Vffs
  pub device : Ptr → Option Device
  pub devfs : Ptr → Option Devfs
  pub driver : Ptr → Option (Driver Hw)

pub data Run (Hw : Type 0) (A : Type 0) : Type 0 where
  ok : A → Store Hw → Run Hw A
  fault : Run Hw A

abbrev pub M : Type 0 → Type 0 → Type 0
M Hw A = Store Hw → Run Hw A

-- the map `f` with `v` at `p`: also an assignment to an element of an array
abbrev pub update {ℓ} : {A : Type ℓ} → (ℕ → A) → ℕ → A → ℕ → A
update f p v q = if q == p then v else f q

module _ {Hw : Type 0} where
  abbrev pub pure : {A : Type 0} → A → M Hw A
  pure a s = ok a s

  abbrev pub and_then : {A B : Type 0} → Run Hw A → (A → M Hw B) → Run Hw B
  and_then (ok a s) k = k a s
  and_then fault k = fault

  infixl 5 ◌>>=◌ ◌>>◌
  abbrev pub ◌>>=◌ : {A B : Type 0} → M Hw A → (A → M Hw B) → M Hw B
  ◌>>=◌ m k s = and_then (m s) k

  abbrev pub ◌>>◌ : {B : Type 0} → M Hw (Unit {0}) → M Hw B → M Hw B
  m >> k = m >>= λ _. k

  abbrev pub crash : {A : Type 0} → M Hw A
  crash s = fault

  -- a value that is there, or a fault
  abbrev pub demand : {A : Type 0} → Option A → M Hw A
  demand none = crash
  demand (some a) = pure a

  -- the next answer of `kmalloc`
  abbrev pub kmalloc : M Hw Answer
  kmalloc s = ok (s.pool 0) (record s { pool = λ i. s.pool (i + 1) })

  abbrev pub load_vfile : Ptr → M Hw VFile
  load_vfile p s = demand (s.vfile p) s

  abbrev pub store_vfile : Ptr → VFile → M Hw (Unit {0})
  store_vfile p f s = ok tt (record s { vfile = update s.vfile p (some f) })

  abbrev pub load_vffs : Ptr → M Hw Vffs
  load_vffs p s = demand (s.vffs p) s

  abbrev pub store_vffs : Ptr → Vffs → M Hw (Unit {0})
  store_vffs p f s = ok tt (record s { vffs = update s.vffs p (some f) })

  abbrev pub load_device : Ptr → M Hw Device
  load_device p s = demand (s.device p) s

  abbrev pub store_device : Ptr → Device → M Hw (Unit {0})
  store_device p d s = ok tt (record s { device = update s.device p (some d) })

  abbrev pub load_devfs : Ptr → M Hw Devfs
  load_devfs p s = demand (s.devfs p) s

  abbrev pub store_devfs : Ptr → Devfs → M Hw (Unit {0})
  store_devfs p d s = ok tt (record s { devfs = update s.devfs p (some d) })

  abbrev pub load_driver : Ptr → M Hw (Driver Hw)
  load_driver p s = demand (s.driver p) s

  abbrev pub store_driver : Ptr → Driver Hw → M Hw (Unit {0})
  store_driver p d s = ok tt (record s { driver = update s.driver p (some d) })

  -- `kfree` of an object: it has to be there
  abbrev pub free_vfile : Ptr → M Hw (Unit {0})
  free_vfile p = do _ ← load_vfile p; λ s. ok tt (record s { vfile = update s.vfile p none })

  abbrev pub free_vffs : Ptr → M Hw (Unit {0})
  free_vffs p = do _ ← load_vffs p; λ s. ok tt (record s { vffs = update s.vffs p none })

  abbrev pub free_device : Ptr → M Hw (Unit {0})
  free_device p = do _ ← load_device p; λ s. ok tt (record s { device = update s.device p none })

  abbrev pub free_devfs : Ptr → M Hw (Unit {0})
  free_devfs p = do _ ← load_devfs p; λ s. ok tt (record s { devfs = update s.devfs p none })

  abbrev pub free_driver : Ptr → M Hw (Unit {0})
  free_driver p = do _ ← load_driver p; λ s. ok tt (record s { driver = update s.driver p none })
