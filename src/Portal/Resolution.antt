-- ===== src/Portal/Resolution.antt =====
-- What `ResolveLifecycle` of internal/domain/portal.go guarantees.
use omenpath_research_lab.Base.{
  ℕ, ◌≤◌, ◌<◌, ◌≡◌, refl, ◌⊎◌, inl, inr, Option, none, some, true, false, arith, Bool-cases, ltb,
}
use omenpath_research_lab.Float64.{Float64}
use omenpath_research_lab.Portal.{
  Portal, status_open, closed, collapsed, PortalStability, stable, unstable, TerminationReason,
  natural_close, energy_depleted, instability,
}
use omenpath_research_lab.Portal.Derived.{energy_depletion_at}
use omenpath_research_lab.Portal.Lifecycle.{
  Ending, earlier, hidden_moment, ending, resolve_lifecycle,
}

earlier_cases :
    (P : Ending → Type 0) (m : Option ℕ) (reason : TerminationReason) (e : Ending)
    → P e
    → ((at : ℕ) → m ≡ some at → P (record { deadline = at; reason = reason; status = collapsed }))
    → P (earlier m reason e)
unfolding earlier
earlier_cases P none reason e stay move = stay
earlier_cases P (some at) reason e stay move = elim (Bool-cases (ltb at e.deadline)) [
  | inl b ↦ rw (b, earlier) (move at refl)
  | inr b ↦ rw (b, earlier) stay
]

hidden_moment-some :
    (s : PortalStability) (m : Option ℕ) {at : ℕ}
    → hidden_moment s m ≡ some at
    → (s ≡ unstable) × (m ≡ some at)
hidden_moment-some stable m h = cc
hidden_moment-some unstable m h = (refl, h)

module _ {F : Type 0} (fl : Float64 F) where
  -- The moments at which an open portal can end, and what each leaves behind.
  pub data EndsBy (p : Portal F) : Ending → Type 0 where
    by_schedule :
        EndsBy p
          (record { deadline = p.scheduled_close_at; reason = natural_close; status = closed })
    by_depletion :
        (at : ℕ)
        → energy_depletion_at fl p ≡ some at
        → EndsBy p (record { deadline = at; reason = energy_depleted; status = collapsed })
    by_instability :
        (at : ℕ)
        → p.stability ≡ unstable
        → p.instability_collapse_at ≡ some at
        → EndsBy p (record { deadline = at; reason = instability; status = collapsed })

  -- Natural close wins a tie, then depletion.
  abbrev pub tie_rank : TerminationReason → ℕ
  tie_rank natural_close = 0
  tie_rank energy_depleted = 1
  tie_rank _ = 2

  -- `e` ends the portal before `d` does, or at once and by preference.
  abbrev pub First : Ending → Ending → Type 0
  First e d =
      (e.deadline < d.deadline)
      ⊎ ((e.deadline ≡ d.deadline) × (tie_rank e.reason ≤ tie_rank d.reason))

  pub ending-EndsBy : (p : Portal F) → EndsBy p (ending fl p)
  unfolding ending
  ending-EndsBy p =
      earlier_cases (EndsBy p) _ instability _
        (earlier_cases (EndsBy p) _ energy_depleted _ by_schedule by_depletion)
        λ at h.
          let (u, set) = hidden_moment-some p.stability p.instability_collapse_at h in
          by_instability at u set

  pub ending-First : (p : Portal F) {e : Ending} → EndsBy p e → First (ending fl p) e
  unfolding ending earlier
  ending-First p by_schedule = ground arith
  ending-First p (by_depletion at h) = ground arith
  ending-First p (by_instability at u h) = ground arith

  -- An open portal that resolves ends by one of its moments, which has passed and which no other
  -- moment precedes; a tie goes to the natural close, then to depletion. That moment, and not
  -- `now`, is the time of closing.
  pub resolve_lifecycle_ends :
      (p : Portal F) (now : ℕ)
      → (resolve_lifecycle fl p now).1 ≡ true
      → (p.status ≡ status_open)
        × ((e : Ending) × EndsBy p e
            × (e.deadline ≤ now)
            × ((d : Ending) → EndsBy p d → First e d)
            × ((resolve_lifecycle fl p now).0 ≡ record p {
              status = e.status;
              termination_reason = e.reason;
              closed_at = some e.deadline;
              updated_at = now;
            }))
  unfolding resolve_lifecycle
  resolve_lifecycle_ends p now h = (
    ground arith,
    (ending fl p, ending-EndsBy p, ground arith, (λ d by. ending-First p by), ground arith),
  )

  -- An open portal that does not resolve is left as it was, and each of its moments is still to come;
  -- a terminal one never resolves.
  pub resolve_lifecycle_waits :
      (p : Portal F) (now : ℕ)
      → (resolve_lifecycle fl p now).1 ≡ false
      → ((resolve_lifecycle fl p now).0 ≡ p)
        × ((p.status ≡ status_open) → (d : Ending) → EndsBy p d → now < d.deadline)
  unfolding resolve_lifecycle
  resolve_lifecycle_waits p now h = (ground arith, λ o d by. ground (arith, ending-First p by))

  -- Resolving late, or twice, ends the portal as resolving once in time does.
  pub resolve_lifecycle-late :
      (p : Portal F) (now later : ℕ)
      → now ≤ later
      → (record (resolve_lifecycle fl (resolve_lifecycle fl p now).0 later).0 {
        updated_at = later;
      })
        ≡ (record (resolve_lifecycle fl p later).0 { updated_at = later })
  unfolding resolve_lifecycle ending earlier
  resolve_lifecycle-late p now later h = ground arith
