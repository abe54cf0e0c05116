-- ===== src/Events/Order.antt =====
-- `eventDraftLess` of internal/domain/event_transition.go.
use omenpath_research_lab.Base.{
  ℕ, ◌≡◌, refl, sym, ◌∙◌, List, [], ◌∷◌, Option, none, some, Bool, true, false, not, ◌==◌, ltb,
  arith, if◌then◌else◌,
}
use omenpath_research_lab.Sort.{IsStrict}
use omenpath_research_lab.Events.{
  history_less, EventType, portal_opened, portal_stabilized, portal_closed, portal_collapsed,
  risk_level_changed, observer_dispatched, observer_arrived, research_started, research_completed,
  observer_return_started, observer_returned, observer_lost, plane_explored,
  extraction_portal_opened, extraction_synchronized, leyline_override_started,
  leyline_override_ended, action_rejected, EventDraft,
}

unfoldable pub event_tie_rank : EventType → ℕ
event_tie_rank portal_closed = 10
event_tie_rank portal_collapsed = 10
event_tie_rank leyline_override_ended = 20
event_tie_rank leyline_override_started = 21
event_tie_rank portal_stabilized = 30
event_tie_rank observer_dispatched = 30
event_tie_rank observer_arrived = 30
event_tie_rank research_started = 31
event_tie_rank research_completed = 40
event_tie_rank extraction_synchronized = 50
event_tie_rank observer_return_started = 51
event_tie_rank observer_returned = 60
event_tie_rank observer_lost = 60
event_tie_rank plane_explored = 61
event_tie_rank risk_level_changed = 70
event_tie_rank portal_opened = 80
event_tie_rank extraction_portal_opened = 80
event_tie_rank action_rejected = 90

-- The place of a type's text among the texts of the types, in the order of Go's strings.
unfoldable pub text_rank : EventType → ℕ
text_rank action_rejected = 0
text_rank extraction_portal_opened = 1
text_rank extraction_synchronized = 2
text_rank leyline_override_ended = 3
text_rank leyline_override_started = 4
text_rank observer_arrived = 5
text_rank observer_dispatched = 6
text_rank observer_lost = 7
text_rank observer_returned = 8
text_rank observer_return_started = 9
text_rank plane_explored = 10
text_rank portal_closed = 11
text_rank portal_collapsed = 12
text_rank portal_opened = 13
text_rank portal_stabilized = 14
text_rank research_completed = 15
text_rank research_started = 16
text_rank risk_level_changed = 17

-- `pointerValue`.
abbrev pub pointer_value : Option ℕ → ℕ
pointer_value none = 0
pointer_value (some n) = n

unfoldable pub event_draft_less : EventDraft → EventDraft → Bool
event_draft_less a b =
    if not (a.created_at == b.created_at)
    then ltb a.created_at b.created_at
    else if not (event_tie_rank a.event_type == event_tie_rank b.event_type)
    then ltb (event_tie_rank a.event_type) (event_tie_rank b.event_type)
    else if not (pointer_value a.portal_id == pointer_value b.portal_id)
    then ltb (pointer_value a.portal_id) (pointer_value b.portal_id)
    else if not (pointer_value a.observer_id == pointer_value b.observer_id)
    then ltb (pointer_value a.observer_id) (pointer_value b.observer_id)
    else if not (pointer_value a.plane_id == pointer_value b.plane_id)
    then ltb (pointer_value a.plane_id) (pointer_value b.plane_id)
    else ltb (text_rank a.event_type) (text_rank b.event_type)

-- Lexicographic order, independent of the source's ladder of tests.
unfoldable pub before : List ℕ → List ℕ → Bool
before [] [] = false
before [] (y ∷ ys) = true
before (x ∷ xs) [] = false
before (x ∷ xs) (y ∷ ys) = let rest = before xs ys in if x == y then rest else ltb x y

before_asym : (xs ys : List ℕ) → before xs ys ≡ true → before ys xs ≡ false
unfolding before
before_asym [] [] h = refl
before_asym [] (y ∷ ys) h = refl
before_asym (x ∷ xs) [] h = cc
before_asym (x ∷ xs) (y ∷ ys) h = ground (arith, before_asym xs ys)

before_trans :
    (xs ys zs : List ℕ) → before ys xs ≡ false → before zs ys ≡ false → before zs xs ≡ false
unfolding before
before_trans [] ys [] p q = refl
before_trans [] [] (z ∷ zs) p q = refl
before_trans [] (y ∷ ys) (z ∷ zs) p q = refl
before_trans (x ∷ xs) [] zs p q = cc
before_trans (x ∷ xs) (y ∷ ys) [] p q = cc
before_trans (x ∷ xs) (y ∷ ys) (z ∷ zs) p q = ground (arith, before_trans xs ys zs)

-- What an event is ordered by.
abbrev pub key : EventDraft → List ℕ
key d =
    d.created_at
    ∷ event_tie_rank d.event_type
    ∷ pointer_value d.portal_id
    ∷ pointer_value d.observer_id
    ∷ pointer_value d.plane_id
    ∷ text_rank d.event_type
    ∷ []

pub event_draft_less-before : (a b : EventDraft) → event_draft_less a b ≡ before (key a) (key b)
unfolding event_draft_less before
event_draft_less-before a b = ground arith

pub event_draft_less-IsStrict : IsStrict event_draft_less
event_draft_less-IsStrict = record {
  asym = λ a b h.
      event_draft_less-before b a
      ∙ before_asym (key a) (key b) (sym (event_draft_less-before a b) ∙ h);
  trans = λ a b c p q.
      event_draft_less-before c a
      ∙ before_trans (key a) (key b) (key c) (sym (event_draft_less-before b a) ∙ p)
          (sym (event_draft_less-before c b) ∙ q);
}

pub history_less-IsStrict : IsStrict history_less
unfolding history_less
history_less-IsStrict = record { asym = λ a b h. ground arith; trans = λ a b c p q. ground arith }
