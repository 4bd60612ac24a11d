-- ===== src/Lib.antt =====
-- Verification of SharedHashFile (src/shf.c and its headers), a hash table in shared memory.
--
-- A hash leads to one of 256 windows, in it through a tab2 to one of up to 2048 tabs, in that to a
-- row of 16 refs, each of which points at a record, a key with a value, in the tab's file. A put
-- appends a record and fills an unused ref; when a row is full, shf_tab_part() moves every second
-- tab2 of the tab to a new tab; deleting frees the ref and leaves garbage that shf_tab_shrink()
-- clears by copying. A UID is the window, the tab2, the row and the ref, packed into 32 bits.
--
-- Layout.antt: constants, hash parts, UIDs, SHF_MOD_PAGE (src/shf.private.h, src/shf.h,
--   src/shf.defines.h); Layout/Laws.antt: packing, rounding, ranges.
-- Mem.antt: the byte access macros of src/shf.defines.h; Mem/Frame.antt: what a write leaves alone;
--   Mem/Long.antt: the number that a value starts with.
-- Tab.antt: a tab, SHF_TAB_APPEND (append), SHF_TAB_REF_MARK_AS_DELETED (mark_as_deleted),
--   SHF_TAB_REF_COPY (ref_copy) and the loop of shf_tab_shrink() (tab_shrink). Its children: Slot and
--   Record on records in memory, Valid on well-formed tabs and what a ref stands for, Append, Store,
--   Delete, Copy, Loop and Shrink on the operations, Write on writing over a value in place.
-- Win.antt: a window, shf_tab_shrink() (shrink) and shf_tab_part() (part). Win/Valid.antt says what a
--   UID stands for (at_uid) and when a window is well formed; Tab2s, Refs and Part follow the loops.
-- Put.antt: shf_put_key_val() (put_key_val). Put/Store.antt is one round, Put/Total.antt the whole,
--   Put/Only.antt the key afterwards.
-- Find.antt: shf_find_key_internal() (find_key_internal). Find/Scan.antt is the loop over a row,
--   Find/Cases.antt the two outcomes.
-- Api.antt: the functions that call these: shf_get_*, shf_add_*, shf_del_*, shf_upd_*. Api/Get.antt,
--   Api/Del.antt and Api/Delete.antt are on getting and deleting, Api/InPlace.antt on what writes to a value,
--   Api/Add.antt and Api/AddKey.antt on shf_add_key_val(), Api/Update.antt on shf_upd_key_val(),
--   Api/PutGet.antt on getting and deleting after a put.
-- Queue.antt: shf_q_flush() (flush), shf_q_push_head() (push_head), shf_q_pull_tail() (pull_tail) and
--   shf_q_push_head_pull_tail(), as one process runs them under the lock of the queues. Queue/Seg.antt
--   has the linked lists, Queue/Push.antt and Queue/Pull.antt the steps that move items;
--   Queue/Fifo.antt says that the queues are sequences (Fifo), Flush, Fill, Taken, Added and Ends that each
--   operation acts on these; Queue/New.antt is shf_q_new() (new) and shf_q_get() (get), Queue/Loops.antt
--   and Queue/First.antt the queues that shf_q_new() sets up, Queue/Create.antt the whole with its keys.
-- Lock.antt: the ticket lock for readers and writers of src/shf.lock.h, each access to its word as a
--   step (Move) of one of `n` threads (Step). Lock/Word.antt has the bytes of the word, Lock/Inv.antt the
--   invariant, Lock/Moves.antt that each step keeps it, Lock/Safety.antt what follows. Lock/Spin.antt is
--   the spin lock (lock, lock_try, unlock), and each access to it and to /proc as a step of threads of
--   several processes (Turn); Lock/Holder.antt who holds it.
-- Log.antt: the log in shared memory: shf_log_append() (try_append), SHF_LOG_THREAD_WRITE (write_loop),
--   shf_log_thread() (thread_pass, shut_down) and the numbers of threads (map_tid). Log/Steps.antt has
--   these as steps of threads in any order, Log/Parts.antt and Log/Order.antt the order of the bytes,
--   Log/Loop.antt that the loops end, Log/Tids.antt and Log/Waits.antt the rest. Log/Format.antt is
--   shf_log_safe_append(), shf_log() (log_line) and shf_log_vfprintf(), Log/Fit.antt and Log/Line.antt what fits the buffer;
--   Log/Sink.antt is where the lines of a process go, Log/Emits.antt that they get there.
-- Shf.antt: shf_tab_copy_iterate(), shf_debug_get_garbage() and the settings; Shf/Visits.antt: iterating;
--   Shf/Garbage.antt: the sum of the garbage, over the mappings of the process.
-- Process.antt: the files of a tab and how processes map them: SHF_GET_TAB_MMAP (get_tab_mmap),
--   growing (grow_file) and replacing (shrink_file) a file, as steps of processes. Process/Fresh.antt
--   says what is to hold, Process/Access.antt and Process/Resize.antt have each on its own,
--   Process/Current.antt every state. Process/Life.antt is shf_attach_existing(), shf_detach() (detach),
--   shf_q_del() (q_del) and what shf_q_new() allocates; Process/Counts.antt, Process/Unmap.antt and
--   Process/Detach.antt are on the counts. Process/Backticks.antt is shf_backticks(),
--   Process/Race.antt shf_race_init() and shf_race_start().
-- Prelude.antt: tests, lists, runs that may abort, sums, updates. Tests.antt: concrete inputs.
--
-- The state is explicit: a function takes the window and the thread's variables and returns them. A
-- failed assertion is `abort`: the process logs and exits. The abstract view of a window is the map
-- from UIDs to entries, at_uid.
--
-- Fuel: put_key_val takes a number of rounds, as each round that finds the row full parts a tab and
-- starts again; 2048 rounds are enough, since each uses one more of the 2048 tabs. The loop
-- around write() takes one call more than there are bytes, and so does that around fread(). A call of
-- shf_log() takes fuel for one call within the call, which the failsafe stops. The spin lock takes a number of rounds,
-- one for each time that it forces the lock, and no bound is claimed. All other loops are bounded
-- by the arrays that they run over.
--
-- Interfaces: write() returns anything, but takes at most the bytes it is given (Bounded); fread() reads
-- what is left, at least a byte if it can (Reads); the locks
-- that the functions take are not part of their models: what a function does under a lock is one step.
--
-- Not modelled: the hash function MurmurHash3 (a hash is any number); the counters tabs_mmaps and
-- tabs_mremaps; in the model of a tab's contents, its file (the free space that the file system
-- reports is a parameter, Vfs); other processes in a window or in the queues (each function runs alone
-- there, under its lock); where the values of the queues' keys lie, the key of the log, and the names of
-- queues; shf_attach() and shf_del(), which make and delete folders, shf_init() and fork(); the log in
-- shf_detach(); the type byte's bit `extended`, which the source leaves unset and is 0 here; debug output
-- and warnings. The user's update callback is a parameter (Callback).
pub mod Prelude
pub mod Process
pub mod Mem
pub mod Layout
pub mod Tab
pub mod Win
pub mod Put
pub mod Find
pub mod Api
pub mod Tests
pub mod Queue
pub mod Lock
pub mod Log
pub mod Shf
