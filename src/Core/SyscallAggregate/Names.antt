-- ===== src/Core/SyscallAggregate/Names.antt =====
-- The table of `syscall_name` of xprobe/core/src/syscall_aggregate.rs.
use xprobe.Prelude.{ℕ, ◌==◌, if◌then◌else◌, Option, none, some, List, [], ◌∷◌}
use xprobe.Rust.Str.{Text, text}

unfoldable pub syscall_names : List (ℕ × Text)
syscall_names =
    (0, text "read")
    ∷ (1, text "write")
    ∷ (3, text "close")
    ∷ (5, text "fstat")
    ∷ (7, text "poll")
    ∷ (8, text "lseek")
    ∷ (9, text "mmap")
    ∷ (10, text "mprotect")
    ∷ (11, text "munmap")
    ∷ (12, text "brk")
    ∷ (16, text "ioctl")
    ∷ (17, text "pread64")
    ∷ (18, text "pwrite64")
    ∷ (19, text "readv")
    ∷ (20, text "writev")
    ∷ (24, text "sched_yield")
    ∷ (25, text "mremap")
    ∷ (26, text "msync")
    ∷ (27, text "mincore")
    ∷ (28, text "madvise")
    ∷ (35, text "nanosleep")
    ∷ (39, text "getpid")
    ∷ (41, text "socket")
    ∷ (42, text "connect")
    ∷ (43, text "accept")
    ∷ (44, text "sendto")
    ∷ (45, text "recvfrom")
    ∷ (46, text "sendmsg")
    ∷ (47, text "recvmsg")
    ∷ (56, text "clone")
    ∷ (57, text "fork")
    ∷ (58, text "vfork")
    ∷ (59, text "execve")
    ∷ (60, text "exit")
    ∷ (61, text "wait4")
    ∷ (72, text "fcntl")
    ∷ (73, text "flock")
    ∷ (74, text "fsync")
    ∷ (75, text "fdatasync")
    ∷ (78, text "getdents")
    ∷ (186, text "gettid")
    ∷ (202, text "futex")
    ∷ (203, text "sched_setaffinity")
    ∷ (204, text "sched_getaffinity")
    ∷ (232, text "epoll_wait")
    ∷ (233, text "epoll_ctl")
    ∷ (234, text "tgkill")
    ∷ (257, text "openat")
    ∷ (262, text "newfstatat")
    ∷ (270, text "pselect6")
    ∷ (271, text "ppoll")
    ∷ (272, text "unshare")
    ∷ (275, text "splice")
    ∷ (281, text "epoll_pwait")
    ∷ (288, text "accept4")
    ∷ (290, text "eventfd2")
    ∷ (291, text "epoll_create1")
    ∷ (292, text "dup3")
    ∷ (293, text "pipe2")
    ∷ (295, text "preadv")
    ∷ (296, text "pwritev")
    ∷ (298, text "perf_event_open")
    ∷ (299, text "recvmmsg")
    ∷ (302, text "prlimit64")
    ∷ (307, text "sendmmsg")
    ∷ (309, text "getcpu")
    ∷ (310, text "process_vm_readv")
    ∷ (311, text "process_vm_writev")
    ∷ (314, text "sched_setattr")
    ∷ (315, text "sched_getattr")
    ∷ (317, text "seccomp")
    ∷ (318, text "getrandom")
    ∷ (319, text "memfd_create")
    ∷ (321, text "bpf")
    ∷ (322, text "execveat")
    ∷ (323, text "userfaultfd")
    ∷ (324, text "membarrier")
    ∷ (325, text "mlock2")
    ∷ (326, text "copy_file_range")
    ∷ (327, text "preadv2")
    ∷ (328, text "pwritev2")
    ∷ (332, text "statx")
    ∷ (334, text "rseq")
    ∷ (424, text "pidfd_send_signal")
    ∷ (425, text "io_uring_setup")
    ∷ (426, text "io_uring_enter")
    ∷ (427, text "io_uring_register")
    ∷ (434, text "pidfd_open")
    ∷ (435, text "clone3")
    ∷ (436, text "close_range")
    ∷ (437, text "openat2")
    ∷ (438, text "pidfd_getfd")
    ∷ (439, text "faccessat2")
    ∷ (440, text "process_madvise")
    ∷ (441, text "epoll_pwait2")
    ∷ (449, text "futex_waitv")
    ∷ []

-- The first arm that matches.
unfoldable pub lookup : (number : ℕ) → List (ℕ × Text) → Option Text
lookup number [] = none
lookup number ((key, name) ∷ rest) = if number == key then some name else lookup number rest

unfoldable pub syscall_name : (number : ℕ) → Option Text
unfolding syscall_names lookup
syscall_name number = lookup number syscall_names
