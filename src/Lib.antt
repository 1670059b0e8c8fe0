-- ===== src/Lib.antt =====
-- The kernel of this repository, an xv6 with user-level threads, verified part by part.
--
-- The parts and their files, with the source files from the repository's root:
--   Prelude    shared names, Boolean tests, lists over native numbers, integers, and the results of
--              C code: a value, a kernel panic, or an undefined memory access.
--   Pipe       pipe.c. Ring: the bytes held and the counters' invariant. Turns: one run of the
--              writer and of the reader. Stream: any interleaving of such runs.
--   Log        log.c. Redo: what a disk with a log stands for. Install, Recover, Commit, Write: the
--              operations. Transaction: a whole transaction and a power failure at any point.
--   Proc       proc.c. Effects: the loops over the table. Invariant: a sound table. Steps, Slots, Exit:
--              each critical section. Lifecycle: all sequences of them.
--   Uthread    uthread.c, the threads of one user process. Count, Next: the table's count and the
--              search round it. Invariant, Create, Switch, Exit: a well-formed table and each
--              operation. Turns: a thread between its yield and its next turn. Fair: whose turn
--              comes when.
--   Memory     string.c: the routines on byte ranges (Ranges) and C strings (Strings).
--   Grep       the matcher of grep.c. Relation: what an expression matches. Decides: the matcher
--              answers for it.
--   Cache      bio.c. Sectors: what `bget` promises.
--   File       the table of open files in file.c. Counts: the reference counts.
--   Blocks     fs.c, the bitmap of free blocks. Bits: setting and clearing a bit. Search: the loops of
--              `balloc`. Alloc: the set of blocks in use.
--   Bmap       fs.c, the blocks of a file. Words: the words of a block. Addresses, Adding: the direct
--              and the indirect blocks. Files: a file as an array of bytes. Maps: `bmap`.
--   Inode      fs.c, the cache of in-memory inodes. Scan: the loop of `iget`. Counts: reference counts.
--   Directory  fs.c, directories over the bytes of a file. Scan, Entries: the loops and the bytes of an
--              entry. Link: an entry added. Adding: `dirlink`. Holders: the inode that a lookup holds.
--   Path       fs.c, path names. Elements: `skipelem`. Holders: the walk of `namex`.
--   Read       fs.c, reading a file. Bytes: lists of bytes. Files: the bytes of a file.
--   Transact   log.c under fs.c: the sectors a transaction has logged, in `balloc` and `bmap`. Budget,
--              Runs: how much of the log a function takes. Mapping: `bmap`.
--   Write      fs.c, writing a file. Blocks, Rounds: the loop. Files: the bytes. Logged: its place in
--              the log. Updates: `writei`. ReadBack: `readi` after it.
--   Filewrite  file.c, `filewrite` for files on the disk. Parts: two writes as one. Transactions: the
--              loop.
--   Dinode     fs.c, the inodes on the disk. Bytes: the bytes of one. Alloc: the search for a free one.
--   Console    console.c, the line being edited and the reader. Window: the buffer as two lists. Keys,
--              Appending, Editing: the keys. Reads: the reader. RoundTrip: a line typed and read.
--   Syscall    syscall.c, the arguments of system calls. Bounds: which are accepted.
--   Descriptors sysfile.c and `pipealloc` of pipe.c, the file descriptors. Uses, Files: the reference
--              counts. Dup, Close, Open, Pipes: each call. Calls: all sequences of them.
--   Kalloc     kalloc.c, the free pages. Words, Chain: the list in memory. Runs: all sequences of
--              calls. Range: `freerange`.
--   Print      printf.c, `cprintf` of console.c and `atoi` of ulib.c. Digits, Numbers: numbers.
--              Formats: formats built from items.
--   Shell      the parser of sh.c. Lengths, Total: its fuel. Printer: texts for commands. Words, Args,
--              Places, Blocks, RoundTrip: parsing them.
--   Spinlock   spinlock.c. Exclusion: an invariant and each step. Runs: all interleavings.
--
-- Conventions. A C struct is a record and a function that changes one returns the new value. A
-- critical section under a lock is one function; where code sleeps, the run ends with the state that
-- it leaves, and a later run starts at the loop test that follows the wakeup. `uint` values wrap at
-- 2 ^ 32 where the source lets them. Scans of fixed tables recur on the rounds left, so none needs
-- fuel but where it says so, with a theorem that the fuel given is enough: 128 rounds kill a line of
-- at most 128 characters, 2 ^ 20 pages are a whole address space, and a number of 32 bits has at most
-- 32 digits. The parts meet in their types: a file's index is what a descriptor holds, `writei` and
-- `readi` run over the blocks of Bmap, which come from the bitmap of Blocks, and `filewrite` is a
-- sequence of `writei`s, each in a transaction of its own.
--
-- The log appears twice: Log has its blocks and the power failures, and Transact what decides whether
-- `log_write` panics, the sectors logged so far, as `writei` carries it along. The functions
-- of Blocks and Dinode stand without their calls of `log_write`.
--
-- Not modelled: device drivers, boot and trap entry, page tables, program loading, truncating
-- files, the dispatch of system calls, the user heap, and the other user programs. Outside of
-- Spinlock, which is about one lock, a critical section is taken as one step. The heap's `malloc`
-- is an argument of what calls it, and so is the disk driver's `iderw`.
pub mod Prelude
pub mod Path
pub mod Pipe
pub mod Log
pub mod Proc
pub mod Spinlock
pub mod Uthread
pub mod Transact
pub mod Write
pub mod Filewrite
pub mod Memory
pub mod Grep
pub mod Blocks
pub mod Bmap
pub mod Cache
pub mod Console
pub mod Syscall
pub mod Descriptors
pub mod Kalloc
pub mod Print
pub mod Dinode
pub mod Directory
pub mod File
pub mod Read
pub mod Shell
pub mod Inode
