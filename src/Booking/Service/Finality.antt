-- ===== src/Booking/Service/Finality.antt =====
-- Closed bookings, and versions, over histories.
use event_ticketing_soa.Common.{ℕ, ◌+◌, ◌≤◌, ◌≡◌, true, List, [], ◌∷◌, arith, length, refl, ap, ◌∙◌}
use event_ticketing_soa.Booking.Enums.{BookingStatus}
use event_ticketing_soa.Booking.Entity.{Booking}
use event_ticketing_soa.Booking.Moves.{follows, follows_refl}
use event_ticketing_soa.Booking.Invariant.{is_closing}
use event_ticketing_soa.Booking.Transition.{Transition, execute, run}
use event_ticketing_soa.Booking.Service.Commands.{apply-Moves}

-- A stored booking moves along the table, and its version by one at most.
execute-Moves :
    (t : Transition) (now : ℕ) (b : Booking)
    → let b' = (execute t now b).1 in
      (follows b.status b'.status ≡ true)
      × (b.resource_version ≤ b'.resource_version)
      × (b'.resource_version ≤ b.resource_version + 1)
unfolding execute
execute-Moves t now b = ground (arith, apply-Moves t now b, follows_refl b.status)

follows_closed : (s t : BookingStatus) → is_closing s ≡ true → follows s t ≡ true → t ≡ s
unfolding follows
follows_closed s t h k = ground arith

-- A booking that is FAILED or CANCELLED keeps that status whatever commands follow.
pub run-closed :
    (ts : List (Transition × ℕ)) (b : Booking)
    → is_closing b.status ≡ true
    → (run ts b).status ≡ b.status
unfolding run
run-closed [] b h = refl
run-closed ((t, now) ∷ ts) b h =
    let b' = (execute t now b).1 in
    let same = follows_closed b.status b'.status h (execute-Moves t now b).0 in
    run-closed ts b' (ap is_closing same ∙ h) ∙ same

length_step : {A : Type 0} (x : A) (xs : List A) → length (x ∷ xs) ≡ length xs + 1
length_step x xs = ground arith

bounds :
    {v v' w k : ℕ} (n : ℕ)
    → v ≤ v'
    → v' ≤ v + 1
    → v' ≤ w
    → w ≤ v' + n
    → k ≡ n + 1
    → (v ≤ w) × (w ≤ v + k)
bounds n a b c d e = ground arith

-- The version never goes back, and a history moves it by at most its number of commands.
pub run-resource_version :
    (ts : List (Transition × ℕ)) (b : Booking)
    → (b.resource_version ≤ (run ts b).resource_version)
      × ((run ts b).resource_version ≤ b.resource_version + length ts)
unfolding run
run-resource_version [] b = ground arith
run-resource_version ((t, now) ∷ ts) b =
    let b' = (execute t now b).1 in
    let (_, low, high) = execute-Moves t now b in
    let (low', high') = run-resource_version ts b' in
    bounds (length ts) low high low' high' (length_step (t, now) ts)
