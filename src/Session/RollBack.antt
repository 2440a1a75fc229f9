-- ===== src/Session/RollBack.antt =====
-- What the roll-back of `CMatchSession::ChangeStatus` leaves at each address.
use cpp_matchmaking_mvp.Common.{
  ℕ, ◌≡◌, refl, ap, ◌∙◌, true, false, Option, none, some, List, [], ◌∷◌, ◌++◌, ◌==◌, if◌then◌else◌,
  contains, arith, Bool-cases, inl, inr,
}
use cpp_matchmaking_mvp.Types.{MatchTicketStatus}
use cpp_matchmaking_mvp.Ticket.{Ticket, Tickets, with_status, force_set_status}
use cpp_matchmaking_mvp.Session.{roll_back}

abbrev pub Statuses : Type 0
Statuses = List (ℕ × MatchTicketStatus)

abbrev pub addresses : Statuses → List ℕ
addresses [] = []
addresses ((a, s) ∷ l) = a ∷ addresses l

abbrev pub restatus : MatchTicketStatus → Option Ticket → Option Ticket
restatus q none = none
restatus q (some t) = some (with_status q t)

-- The status that a rollback leaves at one address.
abbrev pub reset : Statuses → ℕ → Option Ticket → Option Ticket
reset [] b o = o
reset ((a, q) ∷ l) b o = reset l b (if a == b then restatus q o else o)

pub roll_back-reset : (l : Statuses) (s : Tickets) (b : ℕ) → roll_back l s b ≡ reset l b (s b)
unfolding roll_back force_set_status
roll_back-reset [] s b = refl
roll_back-reset ((a, q) ∷ l) s b =
    roll_back-reset l (force_set_status a q s) b ∙ ap (reset l b) (at_b (s b))
  where
    at_b :
        (o : Option Ticket)
        → (if a == b then (elim o [ none ↦ none | some t ↦ some (with_status q t) ]) else o)
          ≡ (if a == b then restatus q o else o)
    at_b none = refl
    at_b (some t) = refl

pub reset-append :
    (l : Statuses) (a b : ℕ) (q : MatchTicketStatus) (o : Option Ticket)
    → reset (l ++ (a, q) ∷ []) b o ≡ (if a == b then restatus q (reset l b o) else reset l b o)
reset-append [] a b q o = refl
reset-append ((c, p) ∷ l) a b q o = reset-append l a b q _

pub reset_elsewhere :
    (l : Statuses) (b : ℕ) (o : Option Ticket) → contains b (addresses l) ≡ false → reset l b o ≡ o
reset_elsewhere [] b o h = refl
reset_elsewhere ((a, q) ∷ l) b o h = elim (Bool-cases (a == b)) [
  | inl e ↦ let e' : (b == a) ≡ true = ground arith in absurd (cc)
  | inr e ↦ rw e (reset_elsewhere l b o (ground arith))
]
