-- ===== src/Helpers.antt =====
-- src/thread_helpers.h, the interface BaseThreadHelper, and its three implementations: for POSIX
-- (src/thread_helpers_posix.cpp), cobalt (src/thread_helpers_cobalt.cpp) and EVL
-- (src/thread_helpers_evl.cpp). The libraries are parameters; `S` is all that they keep. An object is
-- named by its address, and so is a text by the address of its first character.
pub mod Barriers
pub mod Throws
pub mod Evl
pub mod Cobalt
pub mod Posix
pub mod Classes
mod Examples
use twine.Prelude.{ℕ, ℤ, pos, neg_part, ltb, ◌==◌, if◌then◌else◌}

-- What a call leaves behind, and its result.
pub record Answer (S : Type 0) : Type 0 where
  pub state : S
  pub code : ℤ

-- BaseThreadHelper. A thread is created for the worker at an address.
pub record ThreadHelper (S : Type 0) : Type 0 where
  pub mutex_create : S → (mutex name : ℕ) → Answer S
  pub mutex_destroy : S → (mutex : ℕ) → Answer S
  pub mutex_lock : S → (mutex : ℕ) → Answer S
  pub mutex_unlock : S → (mutex : ℕ) → Answer S
  pub condition_var_create : S → (condition_var name : ℕ) → Answer S
  pub condition_var_destroy : S → (condition_var : ℕ) → Answer S
  pub condition_wait : S → (condition_var mutex : ℕ) → Answer S
  pub condition_signal : S → (condition_var : ℕ) → Answer S
  pub thread_create : S → (thread worker : ℕ) → Answer S
  pub thread_join : S → (thread : ℕ) → Answer S
  pub semaphore_create : S → (semaphore name : ℕ) → Answer S
  pub semaphore_destroy : S → (semaphore name : ℕ) → Answer S
  pub semaphore_wait : S → (semaphore : ℕ) → Answer S
  pub semaphore_signal : S → (semaphore : ℕ) → Answer S

-- The calls of pthread, or those of the same names with the prefix __cobalt.
pub record Pthread (S : Type 0) : Type 0 where
  pub mutex_init : S → (mutex : ℕ) → Answer S
  pub mutex_destroy : S → (mutex : ℕ) → Answer S
  pub mutex_lock : S → (mutex : ℕ) → Answer S
  pub mutex_unlock : S → (mutex : ℕ) → Answer S
  pub cond_init : S → (cond : ℕ) → Answer S
  pub cond_destroy : S → (cond : ℕ) → Answer S
  pub cond_wait : S → (cond mutex : ℕ) → Answer S
  pub cond_signal : S → (cond : ℕ) → Answer S
  pub create : S → (thread worker : ℕ) → Answer S
  pub join : S → (thread : ℕ) → Answer S

-- What sem_open gives: a semaphore, or SEM_FAILED with `errno`.
pub record Opened (S : Type 0) : Type 0 where
  pub state : S
  pub semaphore : ℕ
  pub errno : ℕ

abbrev pub sem_failed : ℕ
sem_failed = 0

pub record NamedSemaphores (S : Type 0) : Type 0 where
  pub sem_unlink : S → (name : ℕ) → S
  pub sem_open : S → (name : ℕ) → Opened S
  pub sem_close : S → (semaphore : ℕ) → S
  pub sem_wait : S → (semaphore : ℕ) → Answer S
  pub sem_post : S → (semaphore : ℕ) → Answer S

-- What the system keeps, and the field `semaphore` of each PosixSemaphore.
pub record PosixState (S : Type 0) : Type 0 where
  pub system : S
  pub semaphore_of : ℕ → ℕ

module _ {S : Type 0} where
  -- A call that does not touch a PosixSemaphore.
  abbrev pub inside : PosixState S → Answer S → Answer (PosixState S)
  inside s a = record { state = record s { system = a.state }; code = a.code }

  abbrev posix_create :
      NamedSemaphores S → PosixState S → (semaphore name : ℕ) → Answer (PosixState S)
  posix_create sems s semaphore name =
      let opened = sems.sem_open (sems.sem_unlink s.system name) name in
      record {
        state = record {
          system = opened.state;
          semaphore_of =
              λ other. if other == semaphore then opened.semaphore else s.semaphore_of other;
        };
        code = pos (if opened.semaphore == sem_failed then opened.errno else 0);
      }

  unfoldable pub posix_helper : Pthread S → NamedSemaphores S → ThreadHelper (PosixState S)
  posix_helper lib sems = record {
    mutex_create = λ s mutex name. inside s (lib.mutex_init s.system mutex);
    mutex_destroy = λ s mutex. inside s (lib.mutex_destroy s.system mutex);
    mutex_lock = λ s mutex. inside s (lib.mutex_lock s.system mutex);
    mutex_unlock = λ s mutex. inside s (lib.mutex_unlock s.system mutex);
    condition_var_create = λ s cond name. inside s (lib.cond_init s.system cond);
    condition_var_destroy = λ s cond. inside s (lib.cond_destroy s.system cond);
    condition_wait = λ s cond mutex. inside s (lib.cond_wait s.system cond mutex);
    condition_signal = λ s cond. inside s (lib.cond_signal s.system cond);
    thread_create = λ s thread worker. inside s (lib.create s.system thread worker);
    thread_join = λ s thread. inside s (lib.join s.system thread);
    semaphore_create = posix_create sems;
    semaphore_destroy = λ s semaphore name. inside s (record {
      state = sems.sem_close (sems.sem_unlink s.system name) (s.semaphore_of semaphore);
      code = pos 0;
    });
    semaphore_wait = λ s semaphore. inside s (sems.sem_wait s.system (s.semaphore_of semaphore));
    semaphore_signal = λ s semaphore. inside s (sems.sem_post s.system (s.semaphore_of semaphore));
  }

-- The semaphores of cobalt have no name: they are where their address says.
pub record CobaltSemaphores (S : Type 0) : Type 0 where
  pub sem_init : S → (semaphore : ℕ) → Answer S
  pub sem_destroy : S → (semaphore : ℕ) → Answer S
  pub sem_wait : S → (semaphore : ℕ) → Answer S
  pub sem_post : S → (semaphore : ℕ) → Answer S

unfoldable pub cobalt_helper : {S : Type 0} → Pthread S → CobaltSemaphores S → ThreadHelper S
cobalt_helper lib sems = record {
  mutex_create = λ s mutex name. lib.mutex_init s mutex;
  mutex_destroy = lib.mutex_destroy;
  mutex_lock = lib.mutex_lock;
  mutex_unlock = lib.mutex_unlock;
  condition_var_create = λ s cond name. lib.cond_init s cond;
  condition_var_destroy = lib.cond_destroy;
  condition_wait = lib.cond_wait;
  condition_signal = lib.cond_signal;
  thread_create = lib.create;
  thread_join = lib.join;
  semaphore_create = λ s semaphore name. sems.sem_init s semaphore;
  semaphore_destroy = λ s semaphore name. sems.sem_destroy s semaphore;
  semaphore_wait = sems.sem_wait;
  semaphore_signal = sems.sem_post;
}

-- The calls of libevl. Those that make or open an object give a file descriptor, or a negative number.
pub record EvlLibrary (S : Type 0) : Type 0 where
  pub new_mutex : S → (mutex name : ℕ) → Answer S
  pub open_mutex : S → (mutex name : ℕ) → Answer S
  pub close_mutex : S → (mutex : ℕ) → Answer S
  pub lock_mutex : S → (mutex : ℕ) → Answer S
  pub unlock_mutex : S → (mutex : ℕ) → Answer S
  pub new_event : S → (event name : ℕ) → Answer S
  pub open_event : S → (event name : ℕ) → Answer S
  pub close_event : S → (event : ℕ) → Answer S
  pub wait_event : S → (event mutex : ℕ) → Answer S
  pub signal_event : S → (event : ℕ) → Answer S
  pub new_sem : S → (sem name : ℕ) → Answer S
  pub open_sem : S → (sem name : ℕ) → Answer S
  pub close_sem : S → (sem : ℕ) → Answer S
  pub get_sem : S → (sem : ℕ) → Answer S
  pub put_sem : S → (sem : ℕ) → Answer S

module _ {S : Type 0} where
  -- The result of opening an object that has been made.
  abbrev opened_code : Answer S → Answer S
  opened_code a = if ltb 0 (neg_part a.code) then a else record a { code = pos 0 }

  -- The body that mutex_create, condition_var_create and semaphore_create of EvlThreadHelper share:
  -- a call that makes the object, and one that opens it.
  unfoldable pub make_and_open :
      (make open_made : S → (object name : ℕ) → Answer S) → S → (object name : ℕ) → Answer S
  make_and_open make open_made s object name =
      let made = make s object name in
      if ltb 0 (neg_part made.code) then made else opened_code (open_made made.state object name)

  unfoldable pub evl_helper : EvlLibrary S → Pthread S → ThreadHelper S
  evl_helper evl lib = record {
    mutex_create = make_and_open evl.new_mutex evl.open_mutex;
    mutex_destroy = evl.close_mutex;
    mutex_lock = evl.lock_mutex;
    mutex_unlock = evl.unlock_mutex;
    condition_var_create = make_and_open evl.new_event evl.open_event;
    condition_var_destroy = evl.close_event;
    condition_wait = evl.wait_event;
    condition_signal = evl.signal_event;
    thread_create = lib.create;
    thread_join = lib.join;
    semaphore_create = make_and_open evl.new_sem evl.open_sem;
    semaphore_destroy = λ s sem name. evl.close_sem s sem;
    semaphore_wait = evl.get_sem;
    semaphore_signal = evl.put_sem;
  }
