-- ===== src/Core/SyscallNumbers.antt =====
-- The table of `syscall_number` of xprobe/core/src/validate.rs.
use xprobe.Prelude.{ℕ, if◌then◌else◌, Option, none, some, List, [], ◌∷◌}
use xprobe.Rust.Str.{Text, text, text_eq}

unfoldable pub syscall_numbers : List (Text × ℕ)
syscall_numbers =
    (text "read", 0)
    ∷ (text "write", 1)
    ∷ (text "close", 3)
    ∷ (text "fstat", 5)
    ∷ (text "poll", 7)
    ∷ (text "lseek", 8)
    ∷ (text "mmap", 9)
    ∷ (text "mprotect", 10)
    ∷ (text "munmap", 11)
    ∷ (text "brk", 12)
    ∷ (text "ioctl", 16)
    ∷ (text "pread64", 17)
    ∷ (text "pwrite64", 18)
    ∷ (text "readv", 19)
    ∷ (text "writev", 20)
    ∷ (text "sched_yield", 24)
    ∷ (text "mremap", 25)
    ∷ (text "msync", 26)
    ∷ (text "mincore", 27)
    ∷ (text "madvise", 28)
    ∷ (text "nanosleep", 35)
    ∷ (text "getpid", 39)
    ∷ (text "socket", 41)
    ∷ (text "connect", 42)
    ∷ (text "accept", 43)
    ∷ (text "sendto", 44)
    ∷ (text "recvfrom", 45)
    ∷ (text "sendmsg", 46)
    ∷ (text "recvmsg", 47)
    ∷ (text "clone", 56)
    ∷ (text "fork", 57)
    ∷ (text "vfork", 58)
    ∷ (text "execve", 59)
    ∷ (text "exit", 60)
    ∷ (text "wait4", 61)
    ∷ (text "fcntl", 72)
    ∷ (text "flock", 73)
    ∷ (text "fsync", 74)
    ∷ (text "fdatasync", 75)
    ∷ (text "getdents", 78)
    ∷ (text "futex", 202)
    ∷ (text "sched_setaffinity", 203)
    ∷ (text "sched_getaffinity", 204)
    ∷ (text "gettid", 186)
    ∷ (text "epoll_wait", 232)
    ∷ (text "epoll_ctl", 233)
    ∷ (text "tgkill", 234)
    ∷ (text "openat", 257)
    ∷ (text "newfstatat", 262)
    ∷ (text "pselect6", 270)
    ∷ (text "ppoll", 271)
    ∷ (text "unshare", 272)
    ∷ (text "splice", 275)
    ∷ (text "epoll_pwait", 281)
    ∷ (text "accept4", 288)
    ∷ (text "eventfd2", 290)
    ∷ (text "epoll_create1", 291)
    ∷ (text "dup3", 292)
    ∷ (text "pipe2", 293)
    ∷ (text "preadv", 295)
    ∷ (text "pwritev", 296)
    ∷ (text "perf_event_open", 298)
    ∷ (text "recvmmsg", 299)
    ∷ (text "prlimit64", 302)
    ∷ (text "sendmmsg", 307)
    ∷ (text "getcpu", 309)
    ∷ (text "process_vm_readv", 310)
    ∷ (text "process_vm_writev", 311)
    ∷ (text "sched_setattr", 314)
    ∷ (text "sched_getattr", 315)
    ∷ (text "seccomp", 317)
    ∷ (text "getrandom", 318)
    ∷ (text "memfd_create", 319)
    ∷ (text "bpf", 321)
    ∷ (text "execveat", 322)
    ∷ (text "userfaultfd", 323)
    ∷ (text "membarrier", 324)
    ∷ (text "mlock2", 325)
    ∷ (text "copy_file_range", 326)
    ∷ (text "preadv2", 327)
    ∷ (text "pwritev2", 328)
    ∷ (text "statx", 332)
    ∷ (text "rseq", 334)
    ∷ (text "pidfd_send_signal", 424)
    ∷ (text "io_uring_setup", 425)
    ∷ (text "io_uring_enter", 426)
    ∷ (text "io_uring_register", 427)
    ∷ (text "pidfd_open", 434)
    ∷ (text "clone3", 435)
    ∷ (text "close_range", 436)
    ∷ (text "openat2", 437)
    ∷ (text "pidfd_getfd", 438)
    ∷ (text "faccessat2", 439)
    ∷ (text "process_madvise", 440)
    ∷ (text "epoll_pwait2", 441)
    ∷ (text "futex_waitv", 449)
    ∷ []

-- The first arm that matches.
unfoldable pub number_in : (name : Text) → List (Text × ℕ) → Option ℕ
unfolding text_eq
number_in name [] = none
number_in name ((key, number) ∷ rest) =
    if text_eq name key then some number else number_in name rest

unfoldable pub syscall_number : (name : Text) → Option ℕ
unfolding syscall_numbers number_in
syscall_number name = number_in name syscall_numbers
