-- ===== src/Lock/Examples.antt =====
-- The theorems about the lease on a table with deadlines.
use fastapi_alertengine.Prelude.{
  ℕ, ◌≡◌, refl, true, false, none, some, List, [], ◌∷◌, arith, eq_iff,
}
use fastapi_alertengine.Redis.{text, plain}
use fastapi_alertengine.Redis.Client.{got, World, send, catch}
use fastapi_alertengine.Redis.Table.{Table, table, peek}
use fastapi_alertengine.Lock.{
  Lease, lock_key, acquire_lock, release_lock, renew_lock, auto_renew_loop, try_acquire, after_set,
  set_command, release_script, renew_script, owns, wrong_type, invalidate,
}
use fastapi_alertengine.Lock.Foreign.{LockCall, acquires, releases, Holds, perform_all}
use fastapi_alertengine.Lock.Exclusion.{lease_exclusive}
use fastapi_alertengine.Lock.Renewal.{auto_renew_valid}

abbrev empty : World Table
empty = record { server = λ k. none; faults = [] }

abbrev mine : Lease
mine = record { incident_id = "inc-1"; token = "a"; valid = true }

abbrev theirs : Lease
theirs = record { incident_id = "inc-1"; token = "b"; valid = true }

abbrev granted : World Table
granted = (acquire_lock table "inc-1" "a" 30 100 empty).1

granted_lease : (acquire_lock table "inc-1" "a" 30 100 empty).0 ≡ got (some mine)
unfolding acquire_lock try_acquire set_command after_set send catch
granted_lease = refl

abbrev intruders : List (LockCall × ℕ)
intruders = (acquires "inc-1" "b" 30, 105) ∷ (releases theirs, 110) ∷ []

lease_exclusive_example :
    ((acquire_lock table "inc-1" "c" 30 120 (perform_all table intruders granted)).0 ≡ got none)
    × (peek (perform_all table intruders granted).server 120 (lock_key "inc-1")
        ≡ some (plain (text "a")))
lease_exclusive_example =
    lease_exclusive table "inc-1" "a" 30 100 empty mine granted_lease intruders
      (
        (tt, omega arith, omega arith),
        ((λ _ e. cc ((eq_iff "b" "a").1 e), omega arith, omega arith), tt),
      )
      "c" 30 120 (omega arith) (omega arith)

owned_release : (release_lock table mine 120 granted).0 ≡ got true
unfolding acquire_lock try_acquire set_command after_set release_lock release_script owns wrong_type
    send catch
owned_release = refl

refused_renewal : (renew_lock table theirs 30 120 granted).0 ≡ got (invalidate theirs, false)
unfolding acquire_lock try_acquire set_command after_set renew_lock renew_script owns wrong_type
    send catch
refused_renewal = refl

kept_alive : (auto_renew_loop table mine 30 (110 ∷ 135 ∷ []) granted).0 ≡ got mine
unfolding acquire_lock try_acquire set_command after_set auto_renew_loop renew_lock renew_script
    owns wrong_type send catch
kept_alive = refl

auto_renew_valid_example :
    Holds table
      (lock_key "inc-1")
      "a"
      135
      165
      (auto_renew_loop table mine 30 (110 ∷ 135 ∷ []) granted).1.server
auto_renew_valid_example =
    auto_renew_valid table mine mine 30 110 (135 ∷ []) granted kept_alive refl
