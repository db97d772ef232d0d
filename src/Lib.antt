-- ===== src/Lib.antt =====
-- Twine: worker pools of realtime threads, and condition variables from realtime to other threads.
--
-- A client creates a pool, adds workers, and in each audio period wakes them and waits until they
-- are idle again. The pool (class WorkerPoolImpl) keeps the workers and the usage of the cores; a
-- worker (class WorkerThread) loops: it waits at the barrier, reads two stop flags, runs its
-- callback. The barrier (class BarrierWithTrigger) holds the workers on one of two semaphores, which
-- every release exchanges, and counts them under a mutex, with a condition variable for the thread
-- that waits for them.
--
-- Which file models which part (paths from the repository's root):
--
--   Prelude.antt        what the modules share: tests on numbers, lists, integers, names of the library
--   Barrier.antt        src/worker_pool_implementation.h, BarrierWithTrigger: the fields, and the parts of
--                       its methods between two points where another thread can act
--   Semaphores.antt     src/thread_helpers_posix.cpp: the named semaphores, and their creation by the
--                       constructor of the barrier
--   Helpers.antt        src/thread_helpers.h, the interface BaseThreadHelper as a record of operations, and its
--                       implementations in src/thread_helpers_posix.cpp, src/thread_helpers_cobalt.cpp and
--                       src/thread_helpers_evl.cpp
--     Helpers/Barriers, Throws      the constructor and the destructor of BarrierWithTrigger, for any helper
--                       with laws, and what a constructor that throws leaves
--     Helpers/Cobalt, Evl, Posix    the laws of the cobalt helper, the file descriptors of the EVL helper,
--                       and a barrier with the named semaphores of the POSIX helper
--     Helpers/Classes   which classes the constructors of barriers and workers make, and what the helpers
--                       cast them to
--   Worker.antt         src/worker_pool_implementation.h, WorkerThread: the loop of `_internal_worker_function`
--     Worker/Function   all of that function, as the sequence of what the thread does
--   Calls.antt          the same file, WorkerPoolImpl: each method as the calls it makes of the barrier and
--                       of its threads
--   Threads.antt        the workers and the thread that calls the pool, interleaved. `step` says what one
--                       of them does next, `Step` and `Reach` are the relations
--     Threads/Invariant the invariant: semaphores, counter, callbacks, stop flags
--     Threads/Orderly   what the calls that are left say of the workers
--     Threads/Safety    what a client can rely on
--     Threads/Progress, Termination, Returns    no deadlock, and every method returns
--     Threads/Contract  the abstract specification of the pool: tasks that are idle, due, busy or gone;
--                       Threads/Contract/Refinement relates the threads to it
--     Threads/Fate, Effects     what each method makes of the workers and the releases
--     Threads/Settling, Waiting, Success, Rounds    how the methods return, and calls of
--                       `wakeup_and_wait` one after the other
--     Threads/Completion, Protocol      whether every schedule of a method ends in its return, for a client
--                       that wakes the workers only when they are idle
--     Threads/Parity, Settled, Determined       the state of a pool whose workers are idle, and what the
--                       schedule has to do with it
--     Threads/Together  callbacks at the same time
--     Threads/Destructor, Bounds    the callbacks while the destructor runs, the size of the counters
--     Threads/Unchecked a release in a build without assertions
--     Threads/Failure   what a failed initialisation does to the other workers
--     Threads/Session   the pool of Pool.antt and these threads together, in the hands of a client
--     Threads/Examples  schedules of two workers (the other modules have Examples of their own)
--   Pool.antt           the same file: the constructor, `add_worker` and `run`, with the choice of a core
--                       and the replies
--     Pool/NewPool      the cores of a new pool
--     Pool/Outcomes     the replies of `add_worker` by what the platform answers
--     Pool/Growth       the pools that calls of `add_worker` make
--     Pool/Isolated     the pools of an EVL build and the isolated cpus
--     Pool/Turns        the order in which the workers get the cores, with Cores/Turns
--   Cores.antt          the same file: the list of cores and their usage
--   IsolatedCpus.antt   the same file: `read_isolated_cores`, `get_isolated_cpus`
--   CondVar.antt        src/condition_variable_implementation.h: the registry of ids, with
--                       `create_rt_condition_variable` of src/twine.cpp and the destructors
--     CondVar/Ids, Owners, Destroyed, Reachable, Release   the registry in every state of a program
--     CondVar/Race      two threads that ask for an id at the same time
--     CondVar/Std, Semaphore, Xenomai, Evl      the four implementations
--     CondVar/Channels  the interface of the sockets, files and buffers between realtime and other threads;
--                       CondVar/Xenomai/Notify and CondVar/Evl/Notify are notify and wait over it
--     CondVar/Contract  the interface RtConditionVariable (include/twine/twine.h) and its promise;
--                       CondVar/Contract/Implementations asks which implementations keep it
--   Realtime.antt       src/twine.cpp, src/twine_internal.h: what is realtime, which implementations are
--                       chosen, the clock
--     Realtime/Denormals        the flags of the processor for denormals
--   Apple.antt          src/apple_threading.cpp: the search for an audio workgroup and joining it, with
--                       the status of a worker
--     Apple/Workers     `add_worker` on such a build
--     Apple/Period, Double      the realtime policy of a thread, over the floating point operations it needs
--   Status.antt         the statuses (include/twine/twine.h), `errno_to_worker_status`, the texts for them
--                       (src/twine.cpp, src/apple_threading.cpp)
--
-- How threads are modelled. The state of the system is a record: the barrier, the flag `_running`,
-- the workers, and where the controller, the thread that calls the pool, stands. A section under the
-- mutex is one step. Only a release holds the mutex over several steps, since each of its semaphore
-- signals is seen at once: the field `locked` says so, and every other section waits for it. A
-- worker may be woken between any two of these signals. A semaphore is a number, a wait for it takes
-- one, and which of the blocked workers gets a signal is open. A wait for the condition variable
-- ends by a signal or for no cause at all. One thread at a time uses the pool; that is an assumption,
-- the documentation does not speak of it. There is no bound on the number of workers, steps or calls.
--
-- How the pool is modelled. What the operating system answers to `add_worker` is a parameter, the
-- record Platform; the error numbers are a parameter with the condition IsErrno that they are
-- positive and distinct. The destructor of a worker whose thread was not created is in the reply as
-- the flag `stray_join`: what the failed pthread_create leaves in the handle is a parameter. Numbers
-- that the code keeps in an `int` are integers without bound: they count threads and cores. Where
-- the code has undefined behaviour, the dereferenced end of an empty list, the result is `none`.
--
-- How condition variables are modelled. The registry is a list of flags, with the condition
-- variables that exist and the number of ids that are lost; `Reach` is the relation of all programs
-- of one build that create and destroy them one at a time, with `init_xenomai` at any point between.
-- What poll, read, sem_open and the calls of a constructor answer are parameters; the channels of
-- the Xenomai and the EVL variable are parameters with the laws of the record IsChannel, and a
-- counter is an instance. The loop of the EVL wait runs on fuel, of which one round is enough: the
-- loop leaves in its first. Creation and destruction are steps of one thread, but for CondVar/Race,
-- where each test and each write of a flag is a step.
--
-- How the thread helpers are modelled. The libraries are parameters: records of their calls over
-- whatever they keep. What a barrier needs of a helper is the record IsExact; IsManaged is what the
-- manual of the cobalt library says of its calls, IsPosix what that of POSIX says, and IsCounting
-- what that of EVL says of its file descriptors. Objects are named by their addresses.
--
-- How the Apple part is modelled. CoreAudio, CoreFoundation and the kernel are parameters, records
-- of what each call answers; a workgroup is named by the index of its device. A `double` is any type
-- with the operations of the record Double and the laws of IsDouble, which hold of IEEE 754 with its
-- NaN and infinities; whole numbers with a NaN are an instance. Whether the kernel made a thread
-- realtime is a parameter of the worker's status. The assertions of `_init_apple_thread` and of
-- `join_workgroup` are modelled for a build that has them and for one that has not.
--
-- Not modelled: what pthread, cobalt, libevl and CoreAudio do behind their calls; the allocation of
-- the objects of a barrier; printing, version and build texts; the empty types of the Windows build;
-- the tests and their mockups.
pub mod Prelude
pub mod Barrier
pub mod Semaphores
pub mod Worker
pub mod Calls
pub mod Threads
pub mod Status
pub mod Helpers
pub mod CondVar
pub mod Realtime
pub mod Apple
pub mod Cores
pub mod Pool
pub mod IsolatedCpus
