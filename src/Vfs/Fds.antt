-- ===== src/Vfs/Fds.antt =====
-- `open` and `close` of src/fs/vfs.c on the table of file descriptors.
use ras_pi_k.Base.{
  ℕ, zero, suc, ◌+◌, ◌<◌, ◌≤◌, ◌≡◌, ◌≢◌, refl, ap, none, some, true, false, arith, ◌==◌, ltb, ℤ,
  pos, failed, Option-cases, inl, inr,
}
use native.Mathlib.Decide.{ℕ_discrete}
use ras_pi_k.Strings.{CString}
use ras_pi_k.Store.{null, update}
use ras_pi_k.Kernel.{Fd, Kernel, Fat32, finished}
use ras_pi_k.Vfs.{
  Node, nbmax_fd, free_fd, fd_index, getnode, open_file, close, lookup_fd, install, fd_of,
}

-- `i` is the lowest free file descriptor.
pub record IsLowest (table : ℕ → Fd) (i : ℕ) : Type 0 where
  pub inside : i < nbmax_fd
  pub free : (table i).addr ≡ null
  pub below : (j : ℕ) → j < i → (table j).addr ≢ null

free_fd-from :
    (n i k : ℕ) (table : ℕ → Fd)
    → i ≤ k
    → k < i + n
    → (table k).addr ≡ null
    → ((j : ℕ) → i ≤ j → j < k → (table j).addr ≢ null)
    → free_fd n i table ≡ some k
unfolding free_fd
free_fd-from zero i k table lo hi free below = absurd (omega arith)
free_fd-from (suc n) i k table lo hi free below = elim (ℕ_discrete i k) [
  | yes e ↦ let here : ((table i).addr == null) ≡ true = rw (e, free) refl in rw (here, e) refl
  | no ne ↦
      let used : (table i).addr ≢ null = below i (omega arith) (omega arith) in
      let here : ((table i).addr == null) ≡ false = ground arith in
      rw here (
        free_fd-from n (i + 1) k table (omega arith) (omega arith) free
          (λ j a b. below j (omega arith) b))
]

pub free_fd-lowest : (table : ℕ → Fd) (i : ℕ) → IsLowest table i → free_fd nbmax_fd 0 table ≡ some i
free_fd-lowest table i l =
    let lt = l.inside in
    free_fd-from nbmax_fd 0 i table (omega arith) (omega arith) l.free (λ j a b. l.below j b)

free_fd-full :
    (n i : ℕ) (table : ℕ → Fd)
    → ((j : ℕ) → i ≤ j → j < i + n → (table j).addr ≢ null)
    → free_fd n i table ≡ none
unfolding free_fd
free_fd-full zero i table used = refl
free_fd-full (suc n) i table used =
    let taken : (table i).addr ≢ null = used i (omega arith) (omega arith) in
    let here : ((table i).addr == null) ≡ false = ground arith in
    rw here (free_fd-full n (i + 1) table (λ j a b. used j (omega arith) (omega arith)))

module _ {Hw Fat : Type 0} (f : Fat32 Hw Fat) (k : Kernel Hw Fat) {k' : Kernel Hw Fat}
    (path : CString) (mode : ℕ) {n : Node}
    (found : getnode f path mode k ≡ finished (some n) k') where
  -- `open` of a path with a node returns the lowest free file descriptor, which then has the node
  -- and the mode, and changes nothing else that `getnode` left.
  pub open_file-lowest :
      (i : ℕ)
      → IsLowest k'.fd_table i
      → open_file f path mode k
        ≡ finished (pos i) (record k' { fd_table = update k'.fd_table i (fd_of n mode) })
  unfolding open_file
  open_file-lowest i l = rw found (ap (λ o. install o n mode k') (free_fd-lowest k'.fd_table i l))

  -- With no free file descriptor it fails.
  pub open_file_full :
      ((j : ℕ) → j < nbmax_fd → (k'.fd_table j).addr ≢ null)
      → open_file f path mode k ≡ finished failed k'
  unfolding open_file
  open_file_full used =
      let full = free_fd-full nbmax_fd 0 k'.fd_table (λ j a b. used j (omega (arith, b))) in
      rw found (ap (λ o. install o n mode k') full)

module _ {Hw Fat : Type 0} where
  -- `close` of an open file descriptor returns it and makes it free: it is the lowest free one if
  -- all below it are open. All other file descriptors stay as they are.
  pub close-IsLowest :
      (k : Kernel Hw Fat) (i : ℕ)
      → i < nbmax_fd
      → ((j : ℕ) → j ≤ i → (k.fd_table j).addr ≢ null)
      → (k' : Kernel Hw Fat) × (close (pos i) k ≡ finished (pos i) k')
        × IsLowest k'.fd_table i
        × ((j : ℕ) → j ≢ i → k'.fd_table j ≡ k.fd_table j)
        × (k'.store ≡ k.store)
  unfolding close lookup_fd
  close-IsLowest k i lt used =
      let inside : ltb i nbmax_fd ≡ true = ground arith in
      let taken = used i (omega arith) in
      let here : ((k.fd_table i).addr == null) ≡ false = ground arith in
      (
        record k { fd_table = update k.fd_table i (record (k.fd_table i) { addr = null }) },
        rw (inside, here) refl,
        record {
          inside = lt;
          free = ground arith;
          below = λ j h. let taken = used j (omega arith) in ground arith;
        },
        ground arith,
        refl,
      )

  -- `close` of a number that is no open file descriptor fails without effect.
  pub close_closed :
      (k : Kernel Hw Fat) (fd : ℤ)
      → ((i : ℕ) → fd_index fd ≡ some i → (k.fd_table i).addr ≡ null)
      → close fd k ≡ finished failed k
  unfolding close lookup_fd
  close_closed k fd free = elim (Option-cases (fd_index fd)) [
    | inl outside ↦ rw outside refl
    | inr (i, e) ↦
        let here : ((k.fd_table i).addr == null) ≡ true = rw (free i e) refl in rw (e, here) refl
  ]
