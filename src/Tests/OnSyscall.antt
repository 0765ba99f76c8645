-- ===== src/Tests/OnSyscall.antt =====
-- Runs of the walk in src/fs.c and of the system calls of src/syscall.c.
use eedox.Fs.Disk.{Sector}
use eedox.Fs.Directory.{first_bytes, buffer_of}
use eedox.Descriptor.{Fd, stdout}
use eedox.Syscall.Through.{pipe-carries}
use eedox.Base.{◌+◌, ℕ, ◌≡◌, refl, true, false, List, [], ◌∷◌, arith}
use eedox.Pathbuf.{Pathbuf, pathbuf_root, pathbuf_cmp, pathbuf_len, same_fields}
use eedox.Fs.Open.{fs_node_open}
use eedox.Fs.Child.{Returns, LocksFree}
use eedox.Fs.Walk.{Leads, open-Returns}
use eedox.Syscall.{System, ret, sleeping, syscall_exit}
use eedox.Syscall.Waiting.{IsTold, exit-IsTold}
use eedox.Syscall.Io.{syscall_pipe, syscall_read, syscall_write}
use eedox.Tests.State.{zeros, files, start, system}

abbrev kmalloc : List ℕ → ℕ
kmalloc l = 60

-- `/a/b`
abbrev path : Pathbuf
path = record {
  fields = (97 ∷ []) ∷ (98 ∷ []) ∷ [];
  is_absolute = true;
  is_expldir = false;
  back = 0;
}

open-Returns_example :
    Returns
      (fs_node_open zeros zeros kmalloc [] 30 files path)
      (λ w s'. LocksFree s' × Leads path w s')
unfolding pathbuf_cmp pathbuf_len pathbuf_root same_fields
open-Returns_example =
    open-Returns zeros zeros kmalloc [] 30 files path 50 [] (λ n. refl) refl refl (omega arith) refl
      refl (λ l. omega arith)

abbrev no_word : ℕ → ℕ
no_word p = 0

exit-IsTold_example :
    (s' : System) × (syscall_exit system start 7 ≡ sleeping s')
    × IsTold no_word s' (10 ∷ []) 20 30 2 7
exit-IsTold_example =
    exit-IsTold no_word system start 7 30 (10 ∷ []) refl (omega arith) (omega arith) refl

abbrev unset : Fd
unset = record { kind = stdout; place = 0; isopen = false; access = 0; ptr = 0 }

-- The text of five bytes goes through the pipe at 70.
abbrev text : Sector
text i = 65 + i

pipe-carries_example :
    (rd : ℕ) × (wr : ℕ) × (s1 : System) × (s2 : System) × (s3 : System) × (syscall_pipe unset system
        70
      ≡ ret (rd, wr) s1)
    × (syscall_write zeros zeros kmalloc [] true s1 wr text 5 ≡ ret 5 s2)
    × (syscall_read zeros zeros kmalloc [] true s2 start rd zeros 9
        ≡ ret (5, buffer_of zeros (first_bytes text 5)) s3)
pipe-carries_example =
    pipe-carries zeros zeros kmalloc [] true unset system start 70 text zeros 5 9
      (λ i l. omega arith) (omega arith) (omega arith) (omega arith)
