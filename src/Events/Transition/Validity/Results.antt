-- ===== src/Events/Transition/Validity/Results.antt =====
-- Results whose events are valid, for internal/domain/event_transition.go.
use omenpath_research_lab.Base.{
  ℕ, ◌≡◌, List, [], ◌++◌, Option, none, some, Bool, true, false, All, inl, inr, if◌then◌else◌,
  All-append,
}
use omenpath_research_lab.Errors.{Error, Result, ok, err, required, ◌>>=◌, ◌>>◌, Result-cases}
use omenpath_research_lab.Events.{EventType, Payload, EventDraft, validate}
use omenpath_research_lab.Events.Transition.Portals.{emit}

abbrev pub IsValidDraft : EventDraft → Type 0
IsValidDraft d = validate d ≡ ok tt

abbrev pub AllValid : Result (List EventDraft) → Type 0
AllValid (err e) = Unit
AllValid (ok ds) = All IsValidDraft ds

-- The events of a result are valid.
pub record Emits (r : Result (List EventDraft)) : Type 0 where
  pub valid : AllValid r

abbrev pub emits_nothing : Emits (ok [])
emits_nothing = record { valid = tt }

pub Emits-bind :
    (r : Result (List EventDraft)) (next : List EventDraft → Result (List EventDraft))
    → Emits r
    → ((ds : List EventDraft) → All IsValidDraft ds → Emits (next ds))
    → Emits (r >>= next)
Emits-bind (err e) next h k = record { valid = tt }
Emits-bind (ok ds) next h k = k ds h.valid

pub Emits-required :
    (at : Option ℕ) (e : Error) (next : ℕ → Result (List EventDraft))
    → ((t : ℕ) → Emits (next t))
    → Emits (required at e >>= next)
Emits-required none e next k = record { valid = tt }
Emits-required (some t) e next k = k t

pub Emits-after : (r : Result (Unit {0})) (s : Result (List EventDraft)) → Emits s → Emits (r >> s)
Emits-after (err e) s h = record { valid = tt }
Emits-after (ok t) s h = h

pub Emits-if :
    (b : Bool) (x y : Result (List EventDraft)) → Emits x → Emits y → Emits (if b then x else y)
Emits-if true x y h k = h
Emits-if false x y h k = k

pub Emits-two :
    (r s : Result (List EventDraft))
    → Emits r
    → Emits s
    → Emits (r >>= λ a. (s >>= λ b. ok (a ++ b)))
Emits-two r s h k =
    Emits-bind r _ h
      (λ a va. Emits-bind s _ k (λ b vb. record { valid = All-append IsValidDraft a b va vb }))

pub Emits-four :
    (r s t u : Result (List EventDraft))
    → Emits r
    → Emits s
    → Emits t
    → Emits u
    → Emits (r >>= λ a. (s >>= λ b. (t >>= λ c. (u >>= λ d. ok (a ++ b ++ c ++ d)))))
Emits-four r s t u vr vs vt vu = Emits-bind r _ vr (λ a va. Emits-bind s _ vs (λ b vb.
    Emits-bind t _ vt (λ c vc. Emits-bind u _ vu (λ d vd. record {
      valid =
          All-append IsValidDraft _ d
            (All-append IsValidDraft _ c (All-append IsValidDraft a b va vb) vc) vd;
    }))))

pub Emits-emit :
    (event_type : EventType) (portal_id observer_id plane_id : Option ℕ) (message : List ℕ)
    (payload : Payload) (created_at : ℕ)
    → Emits (emit event_type portal_id observer_id plane_id message payload created_at)
unfolding emit
Emits-emit event_type portal_id observer_id plane_id message payload created_at =
    let draft : EventDraft = record {
      event_type = event_type;
      portal_id = portal_id;
      observer_id = observer_id;
      plane_id = plane_id;
      message = message;
      payload = payload;
      created_at = created_at;
      created_in_utc = true;
    } in
    elim (Result-cases (validate draft)) [
      | inl (t, valid) ↦ rw valid (record { valid = (valid, tt) })
      | inr (e, refused) ↦ rw refused (record { valid = tt })
    ]
