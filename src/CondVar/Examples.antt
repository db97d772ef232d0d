-- ===== src/CondVar/Examples.antt =====
-- Tests of the condition variables: a program with two ids, and waits of each kind.
mod Channels
mod Contract
use twine.Prelude.{
  ℕ, zero, suc, ◌+◌, ◌*◌, ◌≤◌, ◌<◌, ◌≡◌, ◌≢◌, ◌↔◌, ◌⊎◌, inl, refl, Bool, true, false, none, some,
  List, [], ◌∷◌, total, All, arith, pos, negsuc,
}
use twine.CondVar.{
  Taken, get_next_id, with_xenomai, xenomai, evl, Registry, construct, create_rt_condition_variable,
  destroy_at, created, empty_registry, Reach, begun, later,
}
use twine.CondVar.Ids.{IsNext, get_next_id-IsNext}
use twine.CondVar.Owners.{bit, has_id, IsSound}
use twine.CondVar.Reachable.{Reach-IsSound, destroy_at-some, create-none_iff}
use twine.CondVar.Release.{destroy_at-create_xenomai, destroy_at-create_evl}
use twine.CondVar.Std
use twine.CondVar.Std.{
  StdConditionVariable, new_std, away, asleep, woken, enter_wait, leave_wait, Returned,
  leave_wait-notified_iff, enter_wait-asleep,
}
use twine.CondVar.Race.{looking, holding, scan_alone, in_turn, BothHold, in_turn-BothHold}
use twine.CondVar.Semaphore
use twine.CondVar.Semaphore.{
  destroy_posix, Opened, opened, exists, failed, Made, made, error, no_more_retries, retry,
  make_posix, answers, Ends, make_posix_cases, Event, notified, waited, after_events,
  after_events-count,
}
use twine.CondVar.Xenomai
use twine.CondVar.Xenomai.{
  Kernel, make_xenomai, Target, wait-notified_iff, make_xenomai-succeeded_iff,
}
use twine.CondVar.Evl.{
  Flags, Polled, wait_inband, wait_inband-once, destructor_ms, destructor_sleeps, sleeps_from,
  wait_timeout_ms, destructor_bound, make_evl,
}

abbrev one_active : List Bool
one_active = true ∷ false ∷ []

abbrev next : Taken
next = record { id = 1; active_ids = true ∷ true ∷ [] }

test_get_next_id-IsNext : IsNext one_active next
unfolding get_next_id
test_get_next_id-IsNext = get_next_id-IsNext one_active refl

-- A program with one condition variable, whose id is 0.
abbrev one_live : Registry
one_live = record { active_ids = one_active; live = xenomai 0 ∷ []; lost = 0 }

one_live-Reach : Reach with_xenomai 2 one_live
unfolding create_rt_condition_variable construct get_next_id
one_live-Reach = later begun (created true (λ id. true) refl)

Reach-IsSound_example : IsSound 2 one_live
Reach-IsSound_example = Reach-IsSound one_live-Reach

test_destroy_at-some : (q : Registry) × (destroy_at 0 one_live ≡ some q) × (q.live ≡ [])
test_destroy_at-some = destroy_at-some 0 (xenomai 0) one_live-Reach refl

create-none_iff_example :
    (create_rt_condition_variable with_xenomai true (λ id. true) one_live ≡ none)
    ↔ (total has_id one_live.live + one_live.lost ≡ 2)
create-none_iff_example = create-none_iff (λ id. true) (inl refl) one_live-Reach

destroy_at-create_xenomai_example :
    destroy_at 0
      (record { active_ids = true ∷ true ∷ []; live = xenomai 1 ∷ xenomai 0 ∷ []; lost = 0 })
    ≡ some one_live
unfolding create_rt_condition_variable construct get_next_id
destroy_at-create_xenomai_example = destroy_at-create_xenomai one_live refl

abbrev one_evl : Registry
one_evl = record { active_ids = one_active; live = evl 0 ∷ []; lost = 0 }

test_destroy_at-create_evl :
    (p : Registry) × (destroy_at 0 one_evl ≡ some p)
    × (p.live ≡ [])
    × (p.lost ≡ 0 + 1)
    × (total bit p.active_ids ≡ 0 + 0 + 0 + 1)
unfolding create_rt_condition_variable construct get_next_id
test_destroy_at-create_evl = destroy_at-create_evl (empty_registry 2) refl

-- The one thread sleeps when it is notified.
abbrev notified_std : StdConditionVariable
notified_std = record { flag = true; sleeper = woken; pending = 1 }

notified_std-Reach : Std.Reach notified_std
unfolding enter_wait Std.notify
notified_std-Reach = Std.notified (Std.entered {c = new_std} Std.begun refl)

leave_wait-notified_iff_example :
    ((true ≡ true) ↔ (0 < notified_std.pending)) × (new_std.pending ≡ 0)
unfolding leave_wait
leave_wait-notified_iff_example =
    leave_wait-notified_iff {r = record { notified = true; after = new_std }} notified_std-Reach
      refl

-- It is notified before it sleeps.
test_enter_wait-asleep :
    (leave_wait (record { flag = true; sleeper = asleep; pending = 1 }) ≡ none)
    × (true ≡ true)
    × (notified_std.pending ≡ 1)
unfolding enter_wait
test_enter_wait-asleep =
    enter_wait-asleep (record { flag = true; sleeper = away; pending = 1 }) refl

-- The first name exists.
abbrev sem_open : ℕ → Opened
sem_open zero = exists
sem_open (suc k) = opened

test_make_posix : make_posix sem_open ≡ made 1
unfolding make_posix retry
test_make_posix = refl

test_make_posix_cases :
    (All (λ o. o ≡ exists) (answers sem_open 0 99) × (make_posix sem_open ≡ no_more_retries))
    ⊎ ((k : ℕ) × (k < 99)
        × All (λ o. o ≡ exists) (answers sem_open 0 k)
        × Ends sem_open (make_posix sem_open) k)
test_make_posix_cases = make_posix_cases sem_open

test_after_events-count : new_std.pending + 1 ≡ 0 + 1
unfolding after_events Semaphore.notify Semaphore.wait
test_after_events-count = after_events-count (notified ∷ waited ∷ []) 0 {v = 0} refl

abbrev one_message : Target
one_message = record { revents = 1; bytes = pos 1 }

abbrev no_message : Target
no_message = record { revents = 0; bytes = pos 8 }

test_wait-notified_iff :
    (Xenomai.wait one_message no_message ≡ true)
    ↔ ((no_message.revents ≢ 0) ⊎ ((one_message.revents ≢ 0) × (2 ≤ 1)))
test_wait-notified_iff = wait-notified_iff one_message no_message 1 refl refl

abbrev kernel : Kernel
kernel = record { socket = pos 3; bind = pos 0; eventfd = pos 4; open_file = pos 5 }

test_make_xenomai-succeeded_iff :
    (((make_xenomai kernel).succeeded ≡ true)
      ↔ ((false ≡ false) × (false ≡ false) × (false ≡ false) × (false ≡ false)))
    × (((make_xenomai kernel).open_files ≡ []) ↔ (false ≡ true))
test_make_xenomai-succeeded_iff = make_xenomai-succeeded_iff kernel

abbrev flags : Flags
flags = record { pollin = 1; pollerr = 8; pollhup = 16; pollnval = 32 }

-- The time is out at the first poll; at the second there are data.
abbrev late : ℕ → Polled
late zero = record { res = pos 0; revents = 0 }
late (suc i) = record { res = pos 1; revents = 1 }

test_wait_inband-once :
    wait_inband flags late (λ i. pos 1) 9 ≡ some (record { len = pos 0; polls = 1 })
test_wait_inband-once = wait_inband-once flags late (λ i. pos 1) 8 (omega arith) (omega arith)

-- The thread that waits is gone at the third look.
abbrev waiting : ℕ → Bool
waiting zero = true
waiting (suc zero) = true
waiting (suc (suc i)) = false

test_destructor : destructor_ms waiting ≡ 400
unfolding destructor_ms destructor_sleeps sleeps_from
test_destructor = refl

test_destructor_bound :
    ((destructor_ms waiting ≡ 2 * wait_timeout_ms) ⊎ (waiting (destructor_sleeps waiting) ≡ false))
    × (destructor_ms waiting ≤ 2 * wait_timeout_ms)
test_destructor_bound = destructor_bound waiting

-- The second buffer could not be created.
test_make_evl : make_evl (pos 3) (negsuc 0) ≡ true
unfolding make_evl
test_make_evl = refl

test_destroy_posix :
    destroy_posix (record { semaphore = some 0; linked = true })
    ≡ record { semaphore = some 1; linked = false }
unfolding destroy_posix Semaphore.notify
test_destroy_posix = refl

-- The first id is in use, and two threads ask for one at the same time.
in_turn-BothHold_example :
    BothHold 1 (
      in_turn
        (1 + 2)
        (record { active_ids = true ∷ false ∷ false ∷ []; first = looking 0; second = looking 0 }))
    × (scan_alone (1 + 2) (record { active_ids = true ∷ false ∷ false ∷ []; scan = looking 0 })
        ≡ record { active_ids = true ∷ true ∷ false ∷ []; scan = holding 1 })
unfolding get_next_id
in_turn-BothHold_example = in_turn-BothHold (true ∷ false ∷ false ∷ []) refl
