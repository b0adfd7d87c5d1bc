-- ===== src/Inventory/History/Spec.antt =====
-- What the service promises of one seat: an abstract seat, and the moves it may make.
use event_ticketing_soa.Common.{
  Bool, true, false, ◌≡◌, refl, Option, some, inl, inr, Bool-cases, ◌∙◌, List, [], ◌∷◌,
}
use event_ticketing_soa.Common.Rows.{In, update}
use event_ticketing_soa.Common.Text.{Text}
use event_ticketing_soa.Inventory.Types.{Seat, SeatStatus}

-- A seat, as a customer sees it. `held` says in whose name.
pub data Ownership : Type 0 where
  free : Ownership
  held : Option Text → Ownership
  sold : Ownership
  blocked : Ownership

abbrev pub ownership : SeatStatus → Option Text → Ownership
ownership SeatStatus.available owner = Ownership.free
ownership SeatStatus.held owner = Ownership.held owner
ownership SeatStatus.sold owner = Ownership.sold
ownership SeatStatus.blocked owner = Ownership.blocked

-- A free seat is held for a reservation; that hold ends in a sale, or frees the seat.
pub data Move : Ownership → Ownership → Type 0 where
  allocate : (id : Text) → Move Ownership.free (Ownership.held (some id))
  sell : (id : Text) → Move (Ownership.held (some id)) Ownership.sold
  give_back : (id : Text) → Move (Ownership.held (some id)) Ownership.free

pub data Moves : Ownership → Ownership → Type 0 where
  stay : {a : Ownership} → Moves a a
  after : {a b c : Ownership} → Move a b → Moves b c → Moves a c

pub Moves-trans : {a b c : Ownership} → Moves a b → Moves b c → Moves a c
Moves-trans Moves.stay n = n
Moves-trans (Moves.after m ms) n = Moves.after m (Moves-trans ms n)

-- The same seat, some moves later.
pub record Follows (s s' : Seat) : Type 0 where
  pub same_event : s'.event_id ≡ s.event_id
  pub same_seat : s'.seat_id ≡ s.seat_id
  pub moves :
      Moves
        (ownership s.status s.current_reservation_id)
        (ownership s'.status s'.current_reservation_id)

-- Row by row.
abbrev pub AllFollow : List Seat → List Seat → Type 0
AllFollow [] [] = Unit
AllFollow (s ∷ ss) (t ∷ ts) = Follows s t × AllFollow ss ts
AllFollow _ _ = false ≡ true

pub AllFollow-refl : (ss : List Seat) → AllFollow ss ss
AllFollow-refl [] = tt
AllFollow-refl (s ∷ ss) =
    (record { same_event = refl; same_seat = refl; moves = Moves.stay }, AllFollow-refl ss)

pub AllFollow-trans : (ss ts us : List Seat) → AllFollow ss ts → AllFollow ts us → AllFollow ss us
AllFollow-trans [] [] us f g = g
AllFollow-trans [] (t ∷ ts) us f g = absurd (cc)
AllFollow-trans (s ∷ ss) [] us f g = absurd (cc)
AllFollow-trans (s ∷ ss) (t ∷ ts) [] f g = absurd (cc)
AllFollow-trans (s ∷ ss) (t ∷ ts) (u ∷ us) (f, fs) (g, gs) = (
  record {
    same_event = g.same_event ∙ f.same_event;
    same_seat = g.same_seat ∙ f.same_seat;
    moves = Moves-trans f.moves g.moves;
  },
  AllFollow-trans ss ts us fs gs,
)

-- An update whose rows make one move each.
pub AllFollow-update :
    (p : Seat → Bool) (f : Seat → Seat) (ss : List Seat)
    → ((s : Seat) → In s ss → p s ≡ true → Follows s (f s))
    → AllFollow ss (update p f ss)
unfolding update
AllFollow-update p f [] h = tt
AllFollow-update p f (s ∷ ss) h = (
  elim (Bool-cases (p s)) [
    | inl k ↦ rw k (h s (inl refl) k)
    | inr k ↦ rw k (record { same_event = refl; same_seat = refl; moves = Moves.stay })
  ],
  AllFollow-update p f ss (λ t it. h t (inr it)),
)

-- Nothing moves a sold seat, nor a blocked one.
pub sold-stays : {b : Ownership} → Moves Ownership.sold b → b ≡ Ownership.sold
sold-stays Moves.stay = refl
sold-stays (Moves.after m _) = elim m [ ]

pub blocked-stays : {b : Ownership} → Moves Ownership.blocked b → b ≡ Ownership.blocked
blocked-stays Moves.stay = refl
blocked-stays (Moves.after m _) = elim m [ ]
