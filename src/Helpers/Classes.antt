-- ===== src/Helpers/Classes.antt =====
-- The classes behind the pointers of a pool: which helper and which objects BarrierWithTrigger and
-- WorkerThread make (src/worker_pool_implementation.h), and what the helpers cast them to
-- (src/thread_helpers.h, src/thread_helpers_evl.cpp).
use twine.Prelude.{◌≡◌, refl, subst, Bool, true, false, Option, none, some, arith, of_some}
use twine.CondVar.{Build, with_xenomai, with_evl, on_windows, plain}
use twine.Realtime.{ThreadType, pthread, cobalt, evl_thread, create_worker_pool}

-- The classes under BaseThreadHelper, BaseMutex, BaseCondVar and BaseSemaphore.
pub data HelperClass : Type 0 where
  posix_thread_helper cobalt_thread_helper evl_thread_helper : HelperClass

pub data MutexClass : Type 0 where
  posix_mutex evl_mutex : MutexClass

pub data CondVarClass : Type 0 where
  posix_cond_var evl_cond_var : CondVarClass

pub data SemaphoreClass : Type 0 where
  posix_semaphore cobalt_semaphore evl_semaphore : SemaphoreClass

-- What the constructor of a barrier makes with `new`.
pub record Classes : Type 0 where
  pub thread_helper : HelperClass
  pub sem_0 : SemaphoreClass
  pub sem_1 : SemaphoreClass
  pub calling_mutex : MutexClass
  pub calling_cond : CondVarClass

-- The constructor of BarrierWithTrigger<type>: `none` is its failed assertion.
unfoldable pub barrier_classes : Build → ThreadType → Option Classes
barrier_classes build pthread = some (record {
  thread_helper = posix_thread_helper;
  sem_0 = posix_semaphore;
  sem_1 = posix_semaphore;
  calling_mutex = posix_mutex;
  calling_cond = posix_cond_var;
})
barrier_classes with_xenomai cobalt = some (record {
  thread_helper = cobalt_thread_helper;
  sem_0 = cobalt_semaphore;
  sem_1 = cobalt_semaphore;
  calling_mutex = posix_mutex;
  calling_cond = posix_cond_var;
})
barrier_classes with_evl evl_thread = some (record {
  thread_helper = evl_thread_helper;
  sem_0 = evl_semaphore;
  sem_1 = evl_semaphore;
  calling_mutex = evl_mutex;
  calling_cond = evl_cond_var;
})
barrier_classes _ _ = none

-- The constructor of WorkerThread<type>, likewise.
unfoldable pub worker_helper : Build → ThreadType → Option HelperClass
worker_helper build pthread = some posix_thread_helper
worker_helper with_xenomai cobalt = some cobalt_thread_helper
worker_helper with_evl evl_thread = some evl_thread_helper
worker_helper _ _ = none

-- What each helper casts a pointer to, with no test: to_posix_mutex and the like.
unfoldable pub mutex_cast : HelperClass → MutexClass
mutex_cast evl_thread_helper = evl_mutex
mutex_cast _ = posix_mutex

unfoldable pub cond_var_cast : HelperClass → CondVarClass
cond_var_cast evl_thread_helper = evl_cond_var
cond_var_cast _ = posix_cond_var

unfoldable pub semaphore_cast : HelperClass → SemaphoreClass
semaphore_cast posix_thread_helper = posix_semaphore
semaphore_cast cobalt_thread_helper = cobalt_semaphore
semaphore_cast evl_thread_helper = evl_semaphore

-- The helper of the barrier casts each object of the barrier to the class that it is of.
pub record IsWellTyped (k : Classes) : Type 0 where
  pub sem_0 : k.sem_0 ≡ semaphore_cast k.thread_helper
  pub sem_1 : k.sem_1 ≡ semaphore_cast k.thread_helper
  pub calling_mutex : k.calling_mutex ≡ mutex_cast k.thread_helper
  pub calling_cond : k.calling_cond ≡ cond_var_cast k.thread_helper

abbrev Typed : Build → ThreadType → Type 0
Typed build type =
    (k : Classes) × (barrier_classes build type ≡ some k)
    × (worker_helper build type ≡ some k.thread_helper)
    × IsWellTyped k

pthread-Typed : (build : Build) → Typed build pthread
unfolding barrier_classes worker_helper mutex_cast cond_var_cast semaphore_cast
pthread-Typed build = (
  _,
  refl,
  refl,
  record { sem_0 = refl; sem_1 = refl; calling_mutex = refl; calling_cond = refl },
)

cobalt-Typed : Typed with_xenomai cobalt
unfolding barrier_classes worker_helper mutex_cast cond_var_cast semaphore_cast
cobalt-Typed = (
  _,
  refl,
  refl,
  record { sem_0 = refl; sem_1 = refl; calling_mutex = refl; calling_cond = refl },
)

evl_thread-Typed : Typed with_evl evl_thread
unfolding barrier_classes worker_helper mutex_cast cond_var_cast semaphore_cast
evl_thread-Typed = (
  _,
  refl,
  refl,
  record { sem_0 = refl; sem_1 = refl; calling_mutex = refl; calling_cond = refl },
)

-- In every build, for each pool that `create_worker_pool` makes, before `init_xenomai` or after it, the
-- barrier and the workers are constructed with no failed assertion, with a helper of the same class; and the
-- casts of that helper are of the objects of the barrier to the classes that they are of.
pub create_worker_pool-IsWellTyped :
    (build : Build) (realtime : Bool) {type : ThreadType}
    → create_worker_pool build realtime ≡ some type
    → (k : Classes) × (barrier_classes build type ≡ some k)
      × (worker_helper build type ≡ some k.thread_helper)
      × IsWellTyped k
unfolding create_worker_pool
create_worker_pool-IsWellTyped with_xenomai true e =
    subst (Typed with_xenomai) (of_some e) cobalt-Typed
create_worker_pool-IsWellTyped with_xenomai false e =
    subst (Typed with_xenomai) (of_some e) (pthread-Typed with_xenomai)
create_worker_pool-IsWellTyped with_evl true e = subst (Typed with_evl) (of_some e) evl_thread-Typed
create_worker_pool-IsWellTyped with_evl false e =
    subst (Typed with_evl) (of_some e) (pthread-Typed with_evl)
create_worker_pool-IsWellTyped on_windows realtime e = absurd (ground (arith, e))
create_worker_pool-IsWellTyped plain realtime e =
    subst (Typed plain) (of_some e) (pthread-Typed plain)
