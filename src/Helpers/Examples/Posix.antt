-- ===== src/Helpers/Examples/Posix.antt =====
-- Tests of PosixThreadHelper (src/thread_helpers_posix.cpp) on a small system, and of the classes of a pool.
use twine.Prelude.{
  ℕ, ◌+◌, ◌≡◌, refl, Bool, true, false, arith, ◌==◌, ◌||◌, leb, pos, if◌then◌else◌, some,
}
use twine.CondVar.{with_evl}
use twine.Realtime.{evl_thread, create_worker_pool}
use twine.Helpers.{Answer, Pthread, NamedSemaphores, PosixState, posix_helper}
use twine.Helpers.Barriers.{Parts, Built, built, thrown, make_barrier, destroy_barrier}
use twine.Helpers.Posix.Apart.{AreApart, destroy_barrier-others}
use twine.Helpers.Posix.{View, put, IsInit, IsDestroy, IsNamed, IsPosix}
use twine.Helpers.Posix.Destroying.{destroy_barrier-make_barrier_posix}
use twine.Helpers.Classes.{
  Classes, IsWellTyped, barrier_classes, worker_helper, create_worker_pool-IsWellTyped,
}
use twine.Helpers.Examples.{parts, parts-IsApart}

-- The mutexes and condition variables, how many semaphores have been made, which of them are not closed,
-- and which names are linked.
record System : Type 0 where
  objects : ℕ → Bool
  made : ℕ
  kept : ℕ → Bool
  names : ℕ → Bool

abbrev view : View System
view = record {
  present = λ s x. s.objects x;
  is_open = λ s x. if leb x s.made then s.kept x else false;
  linked = λ s x. s.names x;
}

abbrev init : System → ℕ → Answer System
init s o = record { state = record s { objects = put s.objects o true }; code = pos 0 }

abbrev fini : System → ℕ → Answer System
fini s o = record { state = record s { objects = put s.objects o false }; code = pos 0 }

abbrev idle : System → ℕ → Answer System
idle s o = record { state = s; code = pos 0 }

abbrev lib : Pthread System
lib = record {
  mutex_init = init;
  mutex_destroy = fini;
  mutex_lock = idle;
  mutex_unlock = idle;
  cond_init = init;
  cond_destroy = fini;
  cond_wait = λ s cond mutex. idle s cond;
  cond_signal = idle;
  create = λ s thread worker. idle s thread;
  join = idle;
}

abbrev sems : NamedSemaphores System
sems = record {
  sem_unlink = λ s n. record s { names = put s.names n false };
  sem_open = λ s n. record {
    state = record s {
      made = s.made + 1;
      kept = put s.kept (s.made + 1) true;
      names = put s.names n true;
    };
    semaphore = s.made + 1;
    errno = 12;
  };
  sem_close = λ s h. record s { kept = put s.kept h false };
  sem_wait = idle;
  sem_post = idle;
}

init-IsInit : IsInit view init
init-IsInit = record {
  frame = record { is_open = λ s o x. refl; linked = λ s o x. refl };
  made = λ s o x. refl;
}

fini-IsDestroy : IsDestroy view fini
fini-IsDestroy = record {
  frame = record { is_open = λ s o x. refl; linked = λ s o x. refl };
  ended = λ s o x h. refl;
}

sems-IsNamed : IsNamed view sems
sems-IsNamed = record {
  unlink_present = λ s n x. refl;
  unlink_open = λ s n x. refl;
  unlink_linked = λ s n x. refl;
  open_present = λ s n x. refl;
  open_errno = λ s n e. absurd (omega (arith, e));
  opened = λ s n h e. ground arith;
  open_open = λ s n x h. ground arith;
  open_linked = λ s n x h. refl;
  close_present = λ s h x. refl;
  close_open = λ s h x e. ground arith;
  close_linked = λ s h x. refl;
}

lib-IsPosix : IsPosix view lib sems
lib-IsPosix = record {
  named = sems-IsNamed;
  mutex_init = init-IsInit;
  mutex_destroy = fini-IsDestroy;
  cond_init = init-IsInit;
  cond_destroy = fini-IsDestroy;
}

abbrev fresh : PosixState System
fresh = record {
  system = record { objects = λ x. false; made = 0; kept = λ x. false; names = λ x. false };
  semaphore_of = λ x. 0;
}

-- After the constructor.
abbrev standing : PosixState System
standing = record {
  system = record {
    objects = put (put (λ x. false) 3 true) 4 true;
    made = 2;
    kept = put (put (λ x. false) 1 true) 2 true;
    names = put (put (put (put (λ x. false) 11 false) 11 true) 12 false) 12 true;
  };
  semaphore_of = λ x. if x == 2 then 2 else if x == 1 then 1 else 0;
}

destroy_barrier-make_barrier_posix_example :
    (view.present (destroy_barrier (posix_helper lib sems) parts standing).system 3
      ≡ view.present fresh.system 3)
    × (view.is_open (destroy_barrier (posix_helper lib sems) parts standing).system 3
        ≡ view.is_open fresh.system 3)
    × (view.linked (destroy_barrier (posix_helper lib sems) parts standing).system 3
        ≡ (if (3 == 11) || (3 == 12) then false else view.linked fresh.system 3))
unfolding make_barrier posix_helper
destroy_barrier-make_barrier_posix_example =
    destroy_barrier-make_barrier_posix lib-IsPosix parts fresh 3 parts-IsApart refl refl refl refl
      refl

create_worker_pool-IsWellTyped_example :
    (k : Classes) × (barrier_classes with_evl evl_thread ≡ some k)
    × (worker_helper with_evl evl_thread ≡ some k.thread_helper)
    × IsWellTyped k
unfolding create_worker_pool
create_worker_pool-IsWellTyped_example = create_worker_pool-IsWellTyped with_evl true refl

-- A second barrier: its objects are elsewhere, its names are the same.
abbrev second : Parts
second = record {
  sem_0 = 5;
  sem_1 = 6;
  calling_mutex = 7;
  calling_cond = 8;
  sem_0_name = 11;
  sem_1_name = 12;
  mutex_name = 13;
  cond_name = 14;
}

AreApart-parts : AreApart parts second
AreApart-parts = record {
  own = λ e. ground (arith, e);
  others = λ e. ground (arith, e);
  sem_00 = λ e. ground (arith, e);
  sem_01 = λ e. ground (arith, e);
  sem_10 = λ e. ground (arith, e);
  sem_11 = λ e. ground (arith, e);
}

abbrev state_of : {S : Type 0} → Built S → S
state_of (built s) = s
state_of (thrown s res) = s

abbrev both : PosixState System
unfolding make_barrier posix_helper
both = state_of (make_barrier (posix_helper lib sems) second standing)

destroy_barrier-others_example :
    (view.is_open (destroy_barrier (posix_helper lib sems) parts both).system 1 ≡ false)
    × (view.is_open (destroy_barrier (posix_helper lib sems) parts both).system 2 ≡ false)
    × (view.is_open (destroy_barrier (posix_helper lib sems) parts both).system 3 ≡ true)
    × (view.is_open (destroy_barrier (posix_helper lib sems) parts both).system 4 ≡ true)
unfolding make_barrier posix_helper
destroy_barrier-others_example =
    destroy_barrier-others lib-IsPosix parts second fresh AreApart-parts refl refl
