-- ===== src/Lib.antt =====
-- A minimal x86-64 hypervisor over Linux KVM, in C and C++ (host/), with a freestanding guest
-- (guest/) and the protocols between them (common/).
--
-- The program. `main` (host/src/main.cpp) parses the command line (host/src/cli.cpp) and starts one
-- thread for each guest image. A thread (host/src/vm_runner.cpp) makes a virtual machine, sets up
-- its page tables and registers (host/src/vm.c), loads the image and runs it; each I/O exit goes to
-- the handler of its port: files (host/src/file_io.cpp), the shared buffer
-- (host/src/shared_buffer.cpp) or the serial console. The first guest writes to the shared buffer,
-- all others read from it.
--
-- What models what.
--   Base           helpers: Boolean tests, lists and bits over the native numbers, byte memories
--                  with little-endian words, families of values indexed by VM, bags of numbers.
--   Protocol       common/*.h: the constants of the protocols.
--   Exit           the fields of KVM's `struct kvm_run` that the handlers read.
--   SharedBuffer   host/src/shared_buffer.cpp, one function for each of its functions, under the
--                  source's names in this spelling (`beginWriterRound` is `begin_writer_round`).
--                  State has the two records of host/inc/shared_buffer.hpp; Cases and Moves say how
--                  a call can end; System is the step relation of the writer and its readers;
--                  Transfer and Reception are the exits of the loops of guest/src/interrupts.c;
--                  Agreement and Progress are about all the VMs together; Tests also runs what
--                  a guest can do out of order.
--   LongMode       host/src/vm.c, `setup_long_mode`, `setup_page_tables_4k`, `setup_page_tables_2m`
--                  and `setup_segments_64`; Walk is the processor's four-level translation, and
--                  Kept is about the tables in a memory that has changed above them.
--   Cli            host/src/cli.cpp, `parseArguments` and the parsers of its values; Messages has
--                  the texts that the code prints.
--   Startup        `load_guest_image` of host/src/vm.c; Loaded is about the memory that it leaves.
--   FileIo         host/src/file_io.cpp, one function for each of its functions, over a record of
--                  the host's calls (Host): Names and Flags check what a guest sends, State is the
--                  descriptor table with the request of common/file_protocol.h, Private is
--                  `resolveFile` to `prepareFileForWrite`, Requests is `openFile` to
--                  `processFileRequest`, and Port is `handleFileIo` with `closeGuestFiles`. Table,
--                  Reopened and Taken have the lemmas on the table and on the two loops of
--                  `reopenSharedFiles`; Confined, CopyOnWrite, Valid, Preserved and Answers are
--                  named for what they are about; Ledger is about the host descriptors that the
--                  process holds.
--   Machine        host/src/vm.c, `vm_init`, `vm_destroy` and `inject_irq`, over a record of the
--                  kernel's calls (Kernel); Ledger is about what the process holds.
--   Runner         host/src/vm_runner.cpp: State has the thread, its events and how far it is,
--                  Serial is `flushSerialOutput` and `handleSerialIo`, and Runner itself
--                  `runVirtualMachine` from its first call to its last and `runGuest`. Handles,
--                  Booted and Ended are about the handles, Ready about the guest's start, Completed
--                  about success, Worlds and Files about the guest's files, Text and Printed about
--                  the serial console, Reports and Reported about the messages.
--   Program        host/src/main.cpp: `configureSharedFiles` and `main`; SharedFiles and Shareable
--                  are about the first, Threads, Status and Crew about the second.
--   Guest          guest/src: Ports is guest/inc/io.h as a parameter, File is file.c (its `open` is
--                  `open_path`), Interrupts is interrupts.c and Start is main.c, with the
--                  descriptor tables of both in Tables. Dispatch is how the processor delivers an
--                  interrupt, and Gates is about the tables. OnHost, Upload and Download put the
--                  guest's file calls, its writer's loop and its reader's loop on the host's
--                  handlers; Irqs and Ends are about the handler of the interrupt and the end of
--                  the guest's run.
--
-- The host of FileIo is a parameter: a record of the POSIX and `std::filesystem` calls over a state
-- of the host that the program cannot see. Each call may fail at any time. `IsPosix` states that
-- `read` and `write` transfer no more than they were asked to. `IsHost` states which call opens and
-- which closes a descriptor of the process: `close` gives its descriptor back on Linux even where
-- it reports an error. The kernel of Machine is a parameter as well; what the theorems rely on is
-- the record `IsKernel`: which calls acquire which handle, that `close` and `munmap` give one back,
-- and which call delivers an interrupt. The queries of `std::filesystem` that `main` makes are a
-- record of functions (`Paths`), and what `pthread_create` and `pthread_join` return is a function
-- of the thread's number.
--
-- The guest's port accesses are a parameter too, a record over a state with the guest's memory, in
-- which every access returns; one that waits for ever or ends the machine gives no further step. The
-- records `IsServed`, `IsShared` and `IsRead` say that such an access is an exit which the host's
-- handler serves, with its datum in the mapping of `kvm_run`: that is how KVM passes on IN and OUT.
--
-- A run of a machine is a list of events. An event is what one KVM_RUN ends with (an error, or an
-- exit with its I/O description, the data of the mapping and the guest's memory), or one more look
-- at the predicate of a wait, with the shared buffer as the other threads have left it by then and
-- what stands on the standard input. A theorem for all lists of events is one for every guest and
-- every interleaving.
--
-- Conventions. Numbers are natural numbers with the wrap-around of `++` on 64-bit words written
-- out. A mutex makes each operation of the shared buffer one step; a wait on the condition variable
-- is the outcome `blocked`, and the call is made again in a later state. `notify_all` and spurious
-- wake-ups change no state. A thread's private state is the member of a family with its VM's
-- number. `int32_t` values of file requests are bit patterns below 2^32, -1 being 2^32 - 1; the
-- result of a system call is a failure or a value, for the source's tests against 0.
--
-- Fuel. `Cli.parse_loop` runs on the number of arguments, and each round uses at least one. The
-- loops of the page tables run on their number of rounds. `Guest.Start.serial_write_at` runs on the
-- size of the guest's buffer, whose last byte is 0.
--
-- Not modelled: what a host does on a file call and what KVM does with a guest, the messages of
-- host/src/main.cpp and host/src/vm.c, the number and text of an error in those of
-- host/src/vm_runner.cpp, whose order against the serial output is not kept either, and the guest's
-- inline assembly.
pub mod Base
pub mod Protocol
pub mod Exit
pub mod LongMode
pub mod Startup
pub mod Machine
pub mod Cli
pub mod FileIo
pub mod Runner
pub mod Program
pub mod Guest
pub mod SharedBuffer
