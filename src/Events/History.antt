-- ===== src/Events/History.antt =====
-- `PortalHistory` of internal/domain/event.go.
use omenpath_research_lab.Base.{
  ℕ, ◌≡◌, ◌<◌, ◌≤◌, ◌⊎◌, refl, false, ◌∙◌, List, [], ◌∷◌, Bool, true, ◌==◌, ◌&&◌, holds, any, All,
  arith, inl, inr, Bool-cases,
}
use omenpath_research_lab.Sort.{sort_by-All, any-sort_by, IsSorted, sort_by-IsSorted}
use omenpath_research_lab.Events.{Event, history_less, of_portal, portal_history}
use omenpath_research_lab.Events.Order.{history_less-IsStrict}

abbrev about : ℕ → Event → Bool
about portal_id e = holds (λ id. id == portal_id) e.content.portal_id

of_portal-All :
    (portal_id : ℕ) (events : List Event)
    → All (λ e. about portal_id e ≡ true) (of_portal portal_id events)
unfolding of_portal
of_portal-All portal_id [] = tt
of_portal-All portal_id (e ∷ es) = elim (Bool-cases (about portal_id e)) [
  | inl named ↦ rw named (named, of_portal-All portal_id es)
  | inr other ↦ rw other (of_portal-All portal_id es)
]

any-of_portal :
    (portal_id : ℕ) (t : Event → Bool) (events : List Event)
    → any t (of_portal portal_id events) ≡ any (λ e. about portal_id e && t e) events
unfolding of_portal
any-of_portal portal_id t [] = refl
any-of_portal portal_id t (e ∷ es) = ground (arith, any-of_portal portal_id t es)

-- No event is later than one after it, and at one time none has a higher ID.
abbrev pub Chronological : List Event → Type 0
Chronological [] = Unit
Chronological (e ∷ es) =
    All
      (λ f.
        (e.content.created_at < f.content.created_at)
        ⊎ (e.content.created_at ≡ f.content.created_at) × (e.id ≤ f.id))
      es
    × Chronological es

in_order :
    (e f : Event)
    → history_less f e ≡ false
    → (e.content.created_at < f.content.created_at)
      ⊎ (e.content.created_at ≡ f.content.created_at) × (e.id ≤ f.id)
unfolding history_less
in_order e f h = elim (Bool-cases (f.content.created_at == e.content.created_at)) [
  | inl same ↦ inr (ground arith, ground arith)
  | inr other ↦ inl (ground arith)
]

All-in_order :
    (e : Event) (es : List Event)
    → All (λ f. history_less f e ≡ false) es
    → All
        (λ f.
          (e.content.created_at < f.content.created_at)
          ⊎ (e.content.created_at ≡ f.content.created_at) × (e.id ≤ f.id))
        es
All-in_order e [] h = tt
All-in_order e (f ∷ es) h = (in_order e f h.0, All-in_order e es h.1)

IsSorted-Chronological : (es : List Event) → IsSorted history_less es → Chronological es
IsSorted-Chronological [] h = tt
IsSorted-Chronological (e ∷ es) h = (All-in_order e es h.0, IsSorted-Chronological es h.1)

-- A portal's history is in order of time, at one time in order of the IDs; each of its events names
-- the portal; and a test finds an event in it exactly if it finds one that names the portal among all
-- the events.
pub portal_history-IsSorted :
    (events : List Event) (portal_id : ℕ)
    → Chronological (portal_history events portal_id)
      × All
          (λ e. holds (λ id. id == portal_id) e.content.portal_id ≡ true)
          (portal_history events portal_id)
      × ((t : Event → Bool)
          → any t (portal_history events portal_id)
            ≡ any (λ e. holds (λ id. id == portal_id) e.content.portal_id && t e) events)
unfolding portal_history
portal_history-IsSorted events portal_id = (
  IsSorted-Chronological _
      (sort_by-IsSorted history_less history_less-IsStrict (of_portal portal_id events)),
  sort_by-All history_less (λ e. about portal_id e ≡ true) (of_portal portal_id events)
      (of_portal-All portal_id events),
  λ t. any-sort_by history_less t (of_portal portal_id events) ∙ any-of_portal portal_id t events,
)
