-- ===== src/Session/Commit.antt =====
-- `CMatchSession::ChangeStatus` moves all tickets of a session or none, also when other threads
-- have changed tickets between its two loops.
use cpp_matchmaking_mvp.Common.{
  ℕ, ◌≡◌, ◌⊎◌, refl, sym, ap, ◌∙◌, Bool, true, false, ◌||◌, Option, none, some, List, [], ◌∷◌, ◌++◌,
  ◌==◌, ==_iff, if◌then◌else◌, contains, Distinct, arith, Bool-cases, inl, inr,
}
use cpp_matchmaking_mvp.Types.{MatchTicketStatus, can_change_status, eqb_status}
use cpp_matchmaking_mvp.Ticket.{
  Ticket, Tickets, with_status, change_status_if_current, call_at, call_on,
}
use cpp_matchmaking_mvp.Session.{roll_back, commit}
use cpp_matchmaking_mvp.Session.RollBack.{
  Statuses, addresses, reset, reset-append, reset_elsewhere, restatus, roll_back-reset,
}

pub eqb_status-eq : (a b : MatchTicketStatus) → eqb_status a b ≡ true → a ≡ b
eqb_status-eq a b h = ground arith

-- A compare-and-set that succeeds has found the ticket in the expected status.
record Swapped (a : ℕ) (current next : MatchTicketStatus) (s s' : Tickets) : Type 0 where
  ticket : Ticket
  found : s a ≡ some ticket
  expected : ticket.status ≡ current
  after : (b : ℕ) → s' b ≡ (if a == b then some (with_status next ticket) else s b)

abbrev SwapOutcome : ℕ → (current next : MatchTicketStatus) → Tickets → Tickets × Bool → Type 0
SwapOutcome a current next s (s', true) = Swapped a current next s s'
SwapOutcome a current next s (s', false) = (b : ℕ) → s' b ≡ s b

change_if-cases :
    (current next : MatchTicketStatus) (t : Ticket)
    → ((change_status_if_current current next t ≡ (with_status next t, true))
        × (t.status ≡ current))
      ⊎ (change_status_if_current current next t ≡ (t, false))
unfolding change_status_if_current
change_if-cases current next t = elim (Bool-cases (eqb_status t.status current)) [
  | inr differs ↦ inr (rw differs)
  | inl equal ↦ elim (Bool-cases (can_change_status t.status next)) [
    | inr refused ↦ inr (rw (equal, refused))
    | inl allowed ↦ inl (rw (equal, allowed), eqb_status-eq t.status current equal)
  ]
]

call_at-SwapOutcome :
    (a : ℕ) (current next : MatchTicketStatus) (s : Tickets) (o : Option Ticket)
    → s a ≡ o
    → SwapOutcome a current next s (call_at a (change_status_if_current current next) s o)
call_at-SwapOutcome a current next s none e = λ b. refl
call_at-SwapOutcome a current next s (some t) e = elim (change_if-cases current next t) [
  | inl (moved, equal) ↦
      rw moved (record { ticket = t; found = e; expected = equal; after = λ b. refl })
  | inr refused ↦ rw refused (λ b. same b)
]
  where
    same : (b : ℕ) → (if a == b then some t else s b) ≡ s b
    same b = elim (Bool-cases (a == b)) [
      | inl hit ↦ rw hit (sym e ∙ ap s ((==_iff a b).0 hit))
      | inr miss ↦ rw miss
    ]

-- The addresses to come differ from those already changed.
abbrev Apart : Statuses → Statuses → Type 0
Apart changed pending =
    (b : ℕ) → contains b (addresses pending) ≡ true → contains b (addresses changed) ≡ false

addresses-append :
    (l : Statuses) (a : ℕ) (q : MatchTicketStatus) (b : ℕ)
    → contains b (addresses (l ++ (a, q) ∷ [])) ≡ (contains b (addresses l) || b == a)
addresses-append [] a q b = ground arith
addresses-append ((c, p) ∷ l) a q b = ground (arith, addresses-append l a q b)

module _ (next : MatchTicketStatus) (before : Tickets) where
  Undoes : Statuses → Tickets → Type 0
  Undoes changed s = (b : ℕ) → roll_back changed s b ≡ before b

  swap-Undoes :
      (changed : Statuses) (a : ℕ) (current : MatchTicketStatus) (s s' : Tickets)
      → contains a (addresses changed) ≡ false
      → Undoes changed s
      → Swapped a current next s s'
      → Undoes (changed ++ (a, current) ∷ []) s'
  unfolding Undoes
  swap-Undoes changed a current s s' fresh u w b =
      roll_back-reset (changed ++ (a, current) ∷ []) s' b
      ∙ reset-append changed a b current (s' b)
      ∙ elim (Bool-cases (a == b)) [
        | inr miss ↦ rw (w.after b, miss) (sym (roll_back-reset changed s b) ∙ u b)
        | inl hit ↦
            let same : a ≡ b = (==_iff a b).0 hit in
            let fresh' : contains b (addresses changed) ≡ false = rw same at fresh in
            let was : some w.ticket ≡ before b =
              sym w.found
              ∙ ap s same
              ∙ sym (reset_elsewhere changed b (s b) fresh')
              ∙ sym (roll_back-reset changed s b)
              ∙ u b in
            rw (w.after b, hit) (rw (reset_elsewhere changed b _ fresh') (rw (← w.expected) was))
      ]

  abbrev pub CommitOutcome : Statuses → Tickets → Tickets × Bool → Type 0
  CommitOutcome pending s (s', true) =
      (b : ℕ) → s' b ≡ (if contains b (addresses pending) then restatus next (s b) else s b)
  CommitOutcome pending s (s', false) = (b : ℕ) → s' b ≡ before b

  -- What is left to change after one ticket has changed.
  after_swap :
      (a : ℕ) (current : MatchTicketStatus) (rest : Statuses) (s s1 : Tickets) (o : Tickets × Bool)
      → contains a (addresses rest) ≡ false
      → Swapped a current next s s1
      → CommitOutcome rest s1 o
      → CommitOutcome ((a, current) ∷ rest) s o
  after_swap a current rest s s1 (s', false) fresh w h = h
  after_swap a current rest s s1 (s', true) fresh w h = λ b. elim (Bool-cases (a == b)) [
    | inl hit ↦
        let same : a ≡ b = (==_iff a b).0 hit in
        let e' : (b == a) ≡ true = ground arith in
        let fresh' : contains b (addresses rest) ≡ false = rw same at fresh in
        h b ∙ rw (fresh', e', w.after b, hit) (rw (← same, w.found))
    | inr miss ↦ let e' : (b == a) ≡ false = ground arith in h b ∙ rw (e', w.after b, miss)
  ]

  -- The round that follows a swap, by how the swap ended; `rec` is the rest of the loop.
  swap-CommitOutcome :
      (changed rest : Statuses) (a : ℕ) (current : MatchTicketStatus) (s : Tickets)
      (o : Tickets × Bool)
      → contains a (addresses rest) ≡ false
      → Undoes changed s
      → SwapOutcome a current next s o
      → ((s1 : Tickets)
          → Swapped a current next s s1
          → CommitOutcome rest s1 (commit next (changed ++ (a, current) ∷ []) rest s1))
      → CommitOutcome ((a, current) ∷ rest) s (
          if o.1
          then commit next (changed ++ (a, current) ∷ []) rest o.0
          else (roll_back changed o.0, false))
  unfolding Undoes
  swap-CommitOutcome changed rest a current s (s1, true) fresh u w rec =
      after_swap a current rest s s1 (commit next (changed ++ (a, current) ∷ []) rest s1) fresh w
        (rec s1 w)
  swap-CommitOutcome changed rest a current s (s1, false) fresh u w rec = λ b.
      roll_back-reset changed s1 b
      ∙ ap (reset changed b) (w b)
      ∙ sym (roll_back-reset changed s b)
      ∙ u b

  commit-CommitOutcome :
      (changed pending : Statuses) (s : Tickets)
      → Distinct (addresses pending)
      → Apart changed pending
      → Undoes changed s
      → CommitOutcome pending s (commit next changed pending s)
  unfolding commit
  commit-CommitOutcome changed [] s d p u = λ b. refl
  commit-CommitOutcome changed ((a, current) ∷ rest) s d p u =
      swap-CommitOutcome changed rest a current s
        (call_on a (change_status_if_current current next) s) d.0 u
        (call_at-SwapOutcome a current next s (s a) refl)
        λ s1 w.
          commit-CommitOutcome (changed ++ (a, current) ∷ []) rest s1 d.1
            (λ b c. apart_later b c (p b)) (swap-Undoes changed a current s s1 (p a (head a)) u w)
    where
      head : (x : ℕ) → (x == x || contains x (addresses rest)) ≡ true
      head x = ground arith

      apart_later :
          (b : ℕ)
          → contains b (addresses rest) ≡ true
          → (contains b (addresses ((a, current) ∷ rest)) ≡ true
              → contains b (addresses changed) ≡ false)
          → contains b (addresses (changed ++ (a, current) ∷ [])) ≡ false
      apart_later b c h = elim (Bool-cases (b == a)) [
        | inl hit ↦ let same : b ≡ a = (==_iff b a).0 hit in absurd (cc (d.0))
        | inr miss ↦ ground (arith, addresses-append changed a current b)
      ]

-- The second loop of `ChangeStatus`, at whatever store it meets, for
-- a list that names no ticket twice: it gives every ticket of the list
-- the new status and touches no other, or it fails and leaves every ticket as it met it.
pub commit_atomic :
    (next : MatchTicketStatus) (pending : List (ℕ × MatchTicketStatus)) (s : Tickets)
    → Distinct (addresses pending)
    → CommitOutcome next s pending s (commit next [] pending s)
unfolding roll_back Undoes
commit_atomic next pending s d =
    commit-CommitOutcome next s [] pending s d (λ b c. refl) (λ b. refl)
