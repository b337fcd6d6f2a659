-- ===== src/Lib.antt =====
-- Async++ is a C++ library for tasks: a user spawns a function, gets a task for its result, and
-- chains further functions to it. A scheduler takes a handle of each task that may run, and keeps
-- it in queues until one of its threads runs it. This library models its parts, component by
-- component, with the properties listed at the end.
--
-- Ring: the arrays of both queues, whose sizes are powers of two, so that `index & (size - 1)` is
-- the index modulo the size. Both resizes are one loop, `copy`.
--
-- Fifo: src/fifo_queue.h. `FifoQueue` has the fields of the class; `push`, `pop`, `destroy` and
-- `new` are its operations, of which `is_full`, `grow` and `put` are parts of `push`. Fifo/Rep says
-- when a queue holds a list, Fifo/Spec is the list that a client sees, Fifo/Refine has the
-- operations and Fifo/Run the sequences of calls. The class is used under a lock.
--
-- FifoScheduler: the `fifo_scheduler` of src/scheduler.cpp over that queue; a task that is run may
-- schedule more, which a function says. FifoScheduler/RunAll has its loop.
--
-- Deque: src/work_steal_queue.h in the calls of one thread at a time: `push`, `pop`, `steal`,
-- `destroy`, `new`. The indices wrap at `2 ^ 64`, and `to_signed` of their difference is compared in
-- the integers. Nobody else moves `top`, so the compare-exchange of `steal` succeeds.
--
-- WorkSteal: the same class while its owner pushes and pops and any number of thieves steal. A step
-- is one access to `top`, `bottom`, `array` or a cell; what only the owner writes, it loads with
-- the step that uses it. The arrays, the tests and `grow` are those of Deque. WorkSteal/Linear is
-- the deque that the threads see, WorkSteal/Inv what holds between the steps, Array, Thieves, Pushes
-- and Pops the steps that keep it, and Once what the threads rely on.
--
-- Task: include/async++/task_base.h, with `spawn` and `then_internal` of include/async++/task.h and
-- the handles of include/async++/scheduler.h. Task/Types has the data: a heap of task objects, and
-- the handles that schedulers hold. Task/Heap has the operations of `task_base`, `task_result` and
-- `task_func`, Task/Exec the execution functions and what runs them, Task/Event the event tasks.
-- Undefined behaviour is `none`: a function object destroyed twice, a result or an exception read
-- before it is set. The reader of the result of a `task` may move it out, which leaves it moved from;
-- that of a `shared_task` does not. Whether a user's function or an `unwrapped_func` does is a flag of
-- its function object, and the exceptions that `then` or the copy of a result throw are parameters.
-- Task/Steps has the operations on a task that has just been stored. Task/Inv is the discipline of
-- the tasks, kept by giving up a handle (Inv/Drop), by finishing (Inv/Finish) and by a new task
-- (Inv/Alloc); Inv/Same is what it does not look at. Task/Safety derives the operations from these:
-- Safety/Run those that unwrap, Safety/Read those that read a result, Safety/Forward the
-- `unwrapped_func`, Safety/Got the `get` of a user. Task/System has the heaps that a program can
-- reach. Each operation is one step; a scheduler runs or destroys the handles that it holds in any
-- order. The user's functions are parameters, already applied to what they capture: they return,
-- throw, or return a task, and do not call the library. Task/User has what a user does with a task:
-- the calls that wait, in User/Answers, the tasks that are made with a result in User/Made, and in
-- User/Local the references of a `local_task`, also while it is unwrapped, and its destructor.
--
-- Parallel: include/async++/partitioner.h, parallel_for.h, parallel_reduce.h, parallel_invoke.h.
-- Parallel.antt has both partitioners, over positions of a sequence. Parallel/Split is the interface
-- that the algorithms use and what they need of it; Parallel/Forks has the algorithms, as the tree
-- of the tasks that they fork, and the orders in which the calls of the user's function may happen;
-- Parallel/Calls and Parallel/Reduce have the proofs, and Parallel/Ranges the partitioners that are
-- made for ranges. The thread of every task, and the number of threads, are parameters. The user's
-- functions do not throw.
--
-- RefCount: include/async++/ref_count.h, the counts and the operations of `ref_count_ptr`, over all
-- pointers that there are. RefCount/Keeps has what the assignments keep, RefCount/Uses what any
-- sequence of operations keeps.
--
-- ContinuationVector: include/async++/continuation_vector.h, the continuations of a task under
-- threads that add them while the task finishes. A step is one access to the shared pointer or one
-- section under the mutex of a vector, and a thread keeps what it has read in its `Pc`.
-- ContinuationVector/Inv has what holds between the steps, Adder, Write and Flusher the steps that
-- keep it, Once what the two callers rely on, and Destroyed what the destructor finds. The task model
-- has the vector in two operations that nothing interrupts.
--
-- CompressedPtr: the two forms of `compressed_ptr` in that file. CompressedPtr/Packed compares them.
--
-- AlignedArray: include/async++/aligned_alloc.h, what the constructor and the destructor of
-- `aligned_array` do to its elements.
--
-- WaitEvent: src/task_wait_event.h, the event that a thread sleeps on, with two bits and a flag.
--
-- ThreadPool: src/threadpool_scheduler.cpp, the threads of a pool with their queues, the list of
-- the sleeping ones, and the calls of `thread_task_loop`, which are nested where a task waits for
-- another one. ThreadPool/State has the data and the operations, and ThreadPool/Steps the steps of
-- each function: a section under the pool's lock is one step, and an operation of a thread's queue
-- is one step on a list, as Deque shows of a call that nothing interrupts. A task that runs may
-- schedule handles, wait, or return, in any order; tasks finish at any time. ThreadPool/Inv has
-- what holds between the steps, ThreadPool/Kept that all steps keep it, ThreadPool/Safe and
-- ThreadPool/Bound what the threads and users rely on, and ThreadPool/Spawn the start of the threads.
--
-- WhenAll, WhenAny: include/async++/when_all_any.h for ranges, the states that the continuations of
-- the given tasks share, while the loop adds more of them. WhenAny/Variadic has the `when_any` of
-- separate arguments, which keeps its tasks in a tuple.
--
-- IntRange: include/async++/range.h, the ranges of integers and their iterators, over unsigned
-- integers of `w` bits. IntRange/Visit has the loop over a range, IntRange/Access the iterators' arithmetic.
--
-- Singleton: src/singleton.h where the compiler has no thread-safe statics, `get_instance` on any
-- number of threads in steps of one access. Singleton/Once has that the object is built once.
--
-- Waiting: the rest of src/scheduler.cpp, with the wait handlers of include/async++/scheduler.h: the
-- handler of each thread (Waiting/Handlers), the wait of a thread outside any pool in steps of one
-- access to its event (Waiting/Generic), and the number of threads of the default pool. What
-- `getenv`, `strtoul` and the standard library's `hardware_concurrency` give are parameters.
--
-- Bounds and fuel: an allocator is a parameter, a test of the size that can be had, with room for
-- at most `2 ^ 60` pointers, since an array takes eight bytes a cell of 64-bit addresses. The loop
-- of a destructor runs for the size of the array, and a queue holds no more handles than that; the
-- loops of a resize run as often as the indices that they count through. A parallel algorithm has
-- rounds for its nested calls; more rounds than the range is long are enough. The recursion that
-- starts the threads has rounds too, of which it needs as many as there are threads, and so has the
-- loop of the fifo_scheduler, with a weight for each task that bounds what it schedules.
-- An index of the deque under threads would come round after `2 ^ 64` pushes, and a thief that sleeps
-- as long could take a handle twice: its theorems are about fewer than `2 ^ 62` pushes.
--
-- Not modelled: the memory orders (every step sees what the steps before it wrote), the thread-local
-- data of a pool and the hooks of its threads, the thread scheduler, the counts of the task objects
-- (one stays in the heap of the model), the variadic form of when_all, cancellation tokens, and
-- compile-time traits.
pub mod Base
pub mod Ring
pub mod Fifo
pub mod Deque
pub mod Task
pub mod Parallel
pub mod RefCount
pub mod ContinuationVector
pub mod WaitEvent
pub mod ThreadPool
pub mod WhenAll
pub mod WhenAny
pub mod CompressedPtr
pub mod AlignedArray
pub mod FifoScheduler
pub mod WorkSteal
pub mod IntRange
pub mod Singleton
pub mod Waiting
