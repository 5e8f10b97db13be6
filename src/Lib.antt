-- ===== src/Lib.antt =====
-- A verification library of the operating-system simulator in this repository, written in C: five
-- kinds of process that talk over sockets. The Kernel Scheduler (kernel_scheduler/) keeps the process
-- control blocks in queues and gives CPUs (cpu/) processes to run. Kernel Memory (kernel_memory/) keeps
-- a global address space, made of the bytes of the connected Memory Sticks (memory_stick/), with its
-- free holes, the segment tables of the processes and their contexts; it moves suspended processes to
-- Swap (swap/). I/O interfaces (io/) serve the blocking system calls.
--
-- Base: names passed on from the libraries, Boolean tests, lists over the native numbers, 32-bit words.
--
-- Memory models Kernel Memory. Memory/Types has the structures of
-- kernel_memory/include/estructuras.h; Memory/Holes the list of free holes of
-- kernel_memory/src/huecos.c, with Holes/Fit for the searches and Holes/Cover for the addresses that
-- holes cover; Memory/State the globals and the accounting of the address space; Memory/Processes
-- procesos.c and contextos.c; Memory/Segments segmentos.c; Memory/Sticks memory_stick.c, with the
-- handshake of a Memory Stick in conexiones.c; Memory/Transfer the reads and writes of the scheduler
-- over them; Memory/Compaction compactacion.c; Memory/Swap the bitmap of Swap's blocks and
-- Memory/Suspension the suspension of processes and their return, in conexiones.c. `mutex_huecos` is a
-- field that says whether the running thread holds that lock: an operation that takes it again has no
-- result. `list_sort` of the commons library is an argument of the compaction, with what it promises.
--
-- Fragments models the loop, written twice in the source, that cuts an access at the borders of the
-- Memory Sticks: `calcular_dir_local_ms` and `fragmentar_acceso_memoria`. It runs on fuel, one unit
-- for each round; a round copies at least one byte, so the number of bytes of the access is
-- enough. (A stick whose entry is the whole 32-bit address space has no room by the source's arithmetic.)
--
-- Scheduler models kernel_scheduler/src. Scheduler/Types has the structures of kernel_scheduler.h and
-- the globals of planificador.c; Scheduler/Queues the loops over a queue, as they empty it or turn it
-- round; Scheduler/Ready the algorithms (FIFO, RR, CMN), the ready queues and the CPUs, as
-- kernel_scheduler.c connects them and atencion_CPU.c removes them;
-- Scheduler/Transitions one function for each `pasarProceso...`, `reencolarAlInicio`, `crearProceso`;
-- Scheduler/Finish `finalizarProceso` and `eliminarProceso`; Scheduler/Priority the order by priority;
-- Scheduler/Mutexes the mutexes with inheritance of priorities; Scheduler/Reach the start and the
-- relation of steps between states. A PCB pointer is its pid, the heap of
-- PCBs a function of it. The transitions are sequential: each lock of a queue is held for a whole
-- turn of the loop that it protects.
--
-- Messages models utils/src/paquete.c: packets as the bytes that a socket carries. The results of
-- `send` are arguments, so that a packet may leave in any pieces. The number of bytes to send is an
-- `int`: from 2^31 on nothing is sent. The loop that cuts a received buffer
-- runs on fuel, the number of its bytes; a round takes four at least.
--
-- Cpu models cpu/src/instrucciones.c and the core of cpu/src/cpu.c: Cpu/Registers the registers by name
-- with SET, SUM, SUB and JNZ; Cpu/Mmu `mmu_traducir_direccion` and `fragmentar_acceso_memoria`;
-- Cpu/Memory MOV_IN, MOV_OUT and COPY_MEM, on the Memory Sticks of Stick, which Fragments/Store joins
-- to one address space; Cpu/Contexts the context in the packets from and to Kernel Memory, whose side
-- of them is Memory/Contexts; Cpu/Decode `decodificar_instruccion`; Cpu/Cycle the system calls,
-- `execute` and `ciclo_de_instruccion`. What comes from outside in a turn of the cycle is an argument:
-- the line that Kernel Memory answers with, and the interrupt that is waiting. `atoi`, `string_split`
-- and the bytes of a text are arguments too.
--
-- Swap models the blocks of the swap file of swap/src/swap.c.
--
-- Stick models `procesar_lectura` and `procesar_escritura` of memory_stick/src/memory_stick.c, with
-- the bytes of the stick as a function of their address.
--
-- Conventions. Integers of the source that are never negative are natural numbers, `uint32_t`
-- arithmetic is written out modulo 2^32, and -1 for "none" is `none`. `malloc` is taken to succeed,
-- sending to succeed, and logging is left out. The lists, queues, dictionaries and bit arrays of the
-- commons library are lists, a queue with its head first out.
--
-- Not modelled: sockets, configuration, logging and the thread loops that serve connections; the
-- module io; the list of connected sticks that the CPU keeps.
pub mod Base
pub mod Messages
pub mod Memory
pub mod Fragments
pub mod Scheduler
pub mod Cpu
pub mod Stick
pub mod Swap
