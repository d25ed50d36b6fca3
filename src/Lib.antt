-- ===== src/Lib.antt =====
-- CIIC 4050: the C programs of the course Operating Systems, each a program or a few programs of
-- its own, which meet in shared memory, message queues, signals and files.
--
-- Programs and files
-- - Common (Tests, Lists, Files, Int, Threads, Text, Hex, Decimal, Lines): Boolean tests, lists, a disk of named
--   files, the integers, families of threads, and fgets, sscanf, printf and strcmp on bytes.
--   `Common.Files.Disk` stands for the file system: the bytes of each file, and whether it can be
--   opened for reading or writing.
-- - Rle: Section5/H1/src/main.c. `generate_test_file`, `compress_rle` and `decompress_rle` are
--   GenerateTestFile, CompressRLE and DecompressRLE on a disk, `main` is main, and `exit_code` what
--   it returns. Rle/Pairs and Rle/Encode say what a list of (counter, byte) pairs means, Decode,
--   Canonical, Optimal and Program are about the round trip, the choice of pairs and main.
-- - Cipher: the two writers below Bono/ that share an object in memory. `encrypt_main` and
--   `decrypt_main` are the main functions of encrypt_writer.c and decrypt_writer.c; which system
--   calls succeed is a parameter (`Os`).
-- - AirControl: P1/PP1/air_control_c. A controller is a place in TakeOffsFunction (`Pc`) and moves
--   by `Move`, one shared access at a time; `Step` interleaves the controllers with SigHandler2. A
--   mutex is the index of its owner.
-- - Airport: P1/PP1/ground_control/src/main.c and P1/PP1/radio/src/main.c. A function per signal
--   handler; `Step` delivers the pending signals, each of which is pending once at most, and lets
--   air control send its own after every fifth takeoff. Airport/Startup is the start of the three
--   processes: MemoryCreate and main of P1/PP1/air_control_c, main of the radio, MemoryOpen and main
--   of ground control, one call at a time, on the object that holds their process ids.
-- - TicketOffice: Section3/H1. `Turn` is BuyerThread of buyer/src/functions.c and `Watch` the loop
--   of ticket_office/src/main.c with PrintTicketReport, on one `Memory` (struct memory) under one
--   mutex; `Step` interleaves any number of buyers with the office.
-- - TicketCounter: Section2/homeworks/H2. `buy_tickets` is BuyTickets of buyer/src/functions.c, and
--   `buyer_main` the loop of buyer/src/main.c on a list of the numbers that it reads.
-- - HorseRace: Section3/L1/src/main.c. `Turn` is horse_run, one access to the shared finish_order and
--   finish_count at a time; `Step` interleaves five horses. `final_results` of HorseRace/Results is what
--   main prints at the end.
-- - MergeSort: Practice/L1. `merge`, `merge_sort` and `sort_array` are Merge, MergeSort and SortArray
--   of src/functions.c on an array as a list. `Segments` follows the three loops of Merge in the
--   middle of an array, `Sorting` the recursion. MergeSort/Statistics holds CalculateMedian,
--   CalculateMean and main of src/main.c on the bytes of its input; `Doubles` stands for double, and
--   `AsInt` for what scanf stores of a number, which the library leaves open where no int holds it.
-- - PrimeQueue: Section2/L3. `is_prime` is that of worker/src/main.c, and `Step` interleaves the
--   two workers with the sends of main_program/src/main.c on a queue of five messages.
--   PrimeQueue/Text turns the bytes of the file into these messages and the messages into numbers.
-- - Ball: main.c of the second directory below Bono/. `clamp_ball`, `random_move` and `press` are
--   clamp_ball, the additions of random_step and the switch of keyboard_thread; `KeyTurn`, `MoveTurn`
--   and `HitTurn` are keyboard_thread, x_mover_thread and collision_thread, and `Step` interleaves them
--   with main.
-- - DataProcessor: `main` is main of exam1_structurefixed/data_processor/src/main.c, `First.main` that
--   of exam1_structure. `Os` says which calls succeed, `Kernel` what is open, and a `Wake` is a
--   return of pause. `Doubles` stands for double, with the operations that are used.
-- - Manager: Section2/homeworks/H1. `main` is main of manager/src/main.c on the bytes of commands.txt,
--   and gives its calls of kill; Manager/Worker holds the handlers and the loop of
--   worker/src/main.c, on signals that come in pause or before it. `atoi` is a parameter.
-- - Jokes, SumArray, Hurricane: Section1/HM1, Section1/HM2 and Section1/HM3, each with its `main`.
--   `Jokes.main` reads the bytes of the input with the `scanf` of Common/Text; what `rand` and
--   `malloc` return are arguments.
-- - MemoryBlocks: Section4/L2/src/main.c. `get_os_map_range`, `create_memory_blocks` and
--   `print_result_log` are the functions of these names, on a `Memory`; `Os` is what `mmap` returns and
--   what /proc/self/maps holds. Common/Hex prints and reads numbers as "%lx" does.
-- - Decoder: PP2/decode_c/src/main.c. `Turn` is Decode, `open_files` and `decode_pixel` its parts
--   before the mutex, and `Step` interleaves four threads with TryTest. Decoder/Refine holds the
--   abstract workers (`Decodes`), which take the pixels of a picture one after the other.
-- - Vruntime: examfinal/exam3/src/main.c, and in Vruntime/Monitor main.c of the third directory below
--   Bono/. Both read the fourth line of /proc/<pid>/sched; the files, the keys, `atoi`, `strtol` and
--   "%lf" are parameters.
-- - Play: Section2/L2. `Step` interleaves the director and the actor of src/main.c with the signals
--   between them; `on_usr1` and `on_usr2` are the handlers of src/functions.c. Rehearsal is the same play
--   without flags, Section2/class_examples/Lab2-L2-solution.
-- - Uptime: Section5/L1/src/main.c. `convert_time`, `parent_of_cwd` and `main` are the functions of these
--   names; `Os` is what the system calls give, and `Doubles` stands for double.
-- - Matrix: Section4/L1. `heavy_cpu_task` is HeavyCpuTask of src/functions.c, with a function for each
--   of its loops, for any size of the matrices; `Doubles` stands for double, and `Machine` is what
--   malloc, the clock and sched_getcpu give. Matrix/Launch holds SetNiceValue, SetCpuAffinity and main
--   of src/main.c, at 500 rows.
-- - Alarm: the directory of Bono/ that has driver.c. `alarm_handler` is that of main.c, `Driver.main`
--   main of driver.c on what fork, execlp and kill return, and `Step` of Alarm/Schedule interleaves the
--   two processes through the one SIGALRM that can be pending.
-- - SharedFloats: Section2/class_examples/shm_example_semaphores. `Step` interleaves main of the reader
--   with main of the writer, one call or one element at a time; `Made` tells the object and the semaphore
--   of this run from those that an earlier run has left.
-- - MessageQueue: Section2/class_examples/message_queue. `Step` is a round of the sender's loop, or the
--   mq_receive or the printf of a receiver, on a queue that may hold messages of an earlier run.
-- - Circle: Section1/L2. `main` is main of src/main.c, with the three functions of src/functions.c, on
--   what strtod gives; `Doubles` stands for double.
-- - Capitals: Section1/class_examples/array_exercise, whose `main` is on the bytes of the input, and
--   ModifyArray of Section2/class_examples/Lab2-L2-solution (`modify_every_second`).
--
-- Numbers and fuel
-- - A byte is a number with its arithmetic modulo 256 written out; a signed char, int or `long long`
--   that can be negative is an integer. `prime_loop` has a result of its own for an overflow of
--   `i * i`. The counters of AirControl and Airport are numbers or integers without a bound, since
--   they stay far from 2^31.
-- - `merge_sort` has the size of the array plus one as its fuel, and `prime_loop` the number that it
--   tests: both are enough for every input, and running out is a result of its own, which no theorem
--   takes for a result of the program. `Jokes.ask` and `send_numbers` have the length
--   of the input plus one, which is enough, and so have the loops of Capitals that of the array. A
--   hexadecimal number has the sixteen digits of 64 bits, a decimal one nineteen.
-- - The places of a thread are fine enough to separate every two accesses to shared memory between
--   which another thread can run: a counter that the program reads and writes outside a mutex is
--   read and written in two steps.
--
-- Not modelled
-- - Creating, attaching and removing the shared memory of TicketOffice and TicketCounter, the forks of
--   DataProcessor, Play and Rehearsal and what the children do there, the screen of Ball and of the
--   monitor, printing that only informs, sleeping, and the arithmetic on values of type double.
-- - main of the main program of PrimeQueue before it opens its file and behind its last send: opening
--   the queue, the forks, and the wait for the workers, which may be for ever.
-- - Buyers of TicketCounter that run at once, on counters without a lock.
-- - The examples of one system call each (shm_example, fork_intro, signals and the like), the copies of
--   merge sort in Section1, the draft mainold.c, the Python programs, and the files that a build
--   generates.
pub mod AirControl
pub mod Airport
pub mod Alarm
pub mod Ball
pub mod Capitals
pub mod Cipher
pub mod Circle
pub mod Common
pub mod DataProcessor
pub mod Decoder
pub mod HorseRace
pub mod Hurricane
pub mod Jokes
pub mod Manager
pub mod Matrix
pub mod MemoryBlocks
pub mod MergeSort
pub mod MessageQueue
pub mod Play
pub mod PrimeQueue
pub mod Rehearsal
pub mod Rle
pub mod SharedFloats
pub mod SumArray
pub mod TicketCounter
pub mod TicketOffice
pub mod Uptime
pub mod Vruntime
