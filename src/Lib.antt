-- ===== src/Lib.antt =====
-- A verification library for the programs of this repository: student programs on Unix system calls,
-- each with the processes that talk to each other over sockets, message queues, pipes or shared
-- memory. Bytes are numbers, a text is a list of them, `codes` turns a string into its bytes. What
-- the operating system answers is an argument; what a program does outside is a list of effects.
--
-- Prelude: numbers, Booleans and options; Prelude/Lists: lists over the native numbers;
--   Prelude/Bytes: decimal text as printf writes and scanf reads it (Decimal), fixed buffers with
--   their C strings (Buffer), numbers inside a text (Fields), what a read leaves (Stream);
--   Prelude/Input: reads of standard input as iostream makes them, with their flags; Prelude/Typed:
--   texts that they read back; Prelude/Setup: a small monad for the start of a program, whose
--   calls may fail and end it.
-- Logger: Assignment3/client/Logger.cpp, the logging client. `initialize_log`, `set_log_level`, `log`,
--   `rx_round` (a round of rx_thread_func) and `exit_log` act on a record of the file's variables.
-- LogServer: Assignment3/server/LogServer.cpp, which collects the Logger's datagrams (Lines) and sends the
--   text that the Logger's `scan_command` reads. The menu reads standard input on fuel: one more than
--   its characters is enough. LogServer/Startup has main from its first line to its last and the
--   display of the log file, LogServer/Serving and LogServer/Shutdown what they come to,
--   LogServer/Ports both programs' ports, LogServer/Receiver the receiver thread as a whole.
-- Travel: Assignment3/client/Automobile.cpp and TravelSimulator.cpp, the Logger's caller. The doubles
--   are exact decimals; the track loop runs for a given number of laps. Travel/Program is the
--   simulator's main over the Logger, Travel/Messages measures its messages against their buffer.
-- HardwareDevice: Lab5/kernel/hardwareDevice.c, whose thread is a machine of small steps between
--   which read, ioctl and unload may run; Program has Lab5/userapp/userHardware.cpp.
-- MessageServer: Lab8, three clients and the server on one message queue, as rounds of their threads
--   in any order; Startup and Removal have the life of the queue. MessageServer/Queue says what
--   msgsnd and msgrcv promise, as a record with a list as an instance; System puts the four programs
--   together over any such queue, up to the first ctrl-C; in its folder Flows and Ways follow the
--   messages, Typing and Typed their kinds, Keeping and Rounds the steps; Ordered and Draining are
--   about whole runs.
-- MemoryRelay: Lab10, three clients on one shared segment; each access to the segment is one step, and
--   schedules are arbitrary. MemoryRelay/Segment has the whole life of a client, from shmget
--   to shmctl, with what the kernel keeps; Identifiers and Sharing say who shares a segment,
--   Seen and Refinement what a segment's clients have to do with the three on one.
-- NetworkMonitor, InterfaceMonitor: assignment2/src, the two ends of one protocol, which
--   InterfaceMonitor/Protocol puts together. Their Startup modules have the whole mains: the prompts
--   (NetworkMonitor/Serving), and the attempts to connect on fuel, one more than the attempts that
--   fail (InterfaceMonitor/Connecting).
-- Chat: Lab9, a server with up to three clients (Chat/Printing, Chat/Connections) and the client with its
--   two threads (Chat/Start); the programs' starts are Chat/Startup and Chat/Beginning. Chat/Stream says
--   what the sockets promise, Chat/System puts server and clients together over them, and
--   Chat/System/Bytes follows the bytes.
-- MemMonitor: Lab1/MemMonitor.cpp, what is read of a status file (Status, Names) and the sorted list
--   (Report), which the order of the directory does not change (Order), and the table of it (Table).
--   sort is an insertion sort with the program's comparison.
-- ParallelFile: assignment1/parallel_file, what a worker keeps and signals (Worker), and how long the
--   parent waits (Waiting), with its three workers (Together); Events has the prompts, the handler and
--   the log, which Logged is about.
-- Session: Lab6, a dialogue of two programs over a stream socket, and the protocol that it follows
--   (Session/Dialogue); Startup and Descriptors are what stands around it.
-- Pipeline: Lab7/Lab7.cpp, the words of two commands and the descriptors of three processes; Program is
--   main as a whole.
-- EtherCtrl: Lab3/etherCtrl.cpp, the menu over an interface's addresses (Menu, Rounds, Texts) and the name
--   that is read first (Name). Framebuffer: Lab4/Lab4.cpp, a menu over two reports. Both read standard
--   input on fuel; one more than the rounds or the bytes is enough where the program ends.
-- PidUtil: Lab2, a program over a library that is a parameter.
-- SystemMonitor: Lab5b, two monitors and the parent that signals and waits for them, in any order of
--   steps (Processes), and what a monitor reads and would write (Files).
--
-- In each component the parent module has the definitions of its core, a child Startup, Program,
-- Events or Segment those of what stands around it, the other children the proofs, and Examples
-- runs and instances. Not modelled: what prompts say, the precision of doubles, open and malloc
-- that fail in assignment1's workers, and the kernel's own code, whose answers are arguments. Nor is:
-- in Lab8's four programs put together, what follows the first ctrl-C, when calls of msgrcv fail and
-- the programs remove the queue one after the other (each program alone has its ctrl-C); in
-- LogServer's main, ctrl-C; in the network monitor's shutdown, the SIGPIPE of a write to a client that
-- has gone; what a program does after it has written past an array.
pub mod Prelude
pub mod Logger
pub mod LogServer
pub mod EtherCtrl
pub mod SystemMonitor
pub mod Travel
pub mod Framebuffer
pub mod HardwareDevice
pub mod MessageServer
pub mod MemoryRelay
pub mod NetworkMonitor
pub mod InterfaceMonitor
pub mod PidUtil
pub mod Pipeline
pub mod Chat
pub mod MemMonitor
pub mod ParallelFile
pub mod Session
