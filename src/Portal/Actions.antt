-- ===== src/Portal/Actions.antt =====
-- What `Stabilize` and `Close` of internal/domain/portal.go guarantee.
use omenpath_research_lab.Base.{ℕ, ◌<◌, ◌≡◌, ◌≢◌, ◌↔◌, some, Bool, true, false, arith}
use omenpath_research_lab.Errors.{Error, ok, err, portal_not_open}
use omenpath_research_lab.Float64.{Float64}
use omenpath_research_lab.Config.{Config}
use omenpath_research_lab.Portal.{Portal, status_open, closed, manual_close, unstable, instability}
use omenpath_research_lab.Portal.Derived.{current_energy, creatures_inside}
use omenpath_research_lab.Portal.Lifecycle.{stabilize, close, resolve_lifecycle, ending, earlier}

module _ {F : Type 0} (fl : Float64 F) (cfg : Config F) where
  -- Stabilizing succeeds exactly on an open unstable portal whose energy is not above the limit.
  pub stabilize-ok :
      (p : Portal F) (now : ℕ)
      → ((stabilize fl p now cfg).1 ≡ ok tt) ↔ (
          (p.status ≡ status_open)
          × (p.stability ≡ unstable)
          × (fl.lt cfg.stabilize_max_start_energy (current_energy fl p now) ≡ false))
  unfolding stabilize
  stabilize-ok p now = (ground arith, ground arith)

  pub stabilize_refused :
      (p : Portal F) (now : ℕ) (e : Error)
      → (stabilize fl p now cfg).1 ≡ err e
      → (stabilize fl p now cfg).0 ≡ p
  unfolding stabilize
  stabilize_refused p now e h = ground arith

  -- However late it is resolved, a stabilized portal does not end by instability.
  pub stabilize-resolve_lifecycle :
      (p : Portal F) (now later : ℕ)
      → (stabilize fl p now cfg).1 ≡ ok tt
      → p.termination_reason ≢ instability
      → (resolve_lifecycle fl (stabilize fl p now cfg).0 later).0.termination_reason ≢ instability
  unfolding stabilize resolve_lifecycle ending earlier
  stabilize-resolve_lifecycle p now later h t = ground arith

  pub close_refused :
      (p : Portal F) (now : ℕ) (confirm : Bool) (e : Error)
      → (close p now confirm cfg).1 ≡ err e
      → (close p now confirm cfg).0 ≡ p
  unfolding close
  close_refused p now confirm e h = ground arith

  pub close-ok :
      (p : Portal F) (now : ℕ) (confirm : Bool)
      → ((close p now confirm cfg).1 ≡ ok tt)
        ↔ ((p.status ≡ status_open) × (0 < creatures_inside p now cfg → confirm ≡ true))
  unfolding close
  close-ok p now confirm = (ground arith, ground arith)

  -- A manual close is final: no later resolution, close or stabilization changes the portal.
  pub close_final :
      (p : Portal F) (now later : ℕ) (confirm again : Bool)
      → (close p now confirm cfg).1 ≡ ok tt
      → let q = (close p now confirm cfg).0 in
        (q.status ≡ closed)
        × (q.termination_reason ≡ manual_close)
        × (q.closed_at ≡ some now)
        × (resolve_lifecycle fl q later ≡ (q, false))
        × (close q later again cfg ≡ (q, err portal_not_open))
        × (stabilize fl q later cfg ≡ (q, err portal_not_open))
  unfolding close stabilize resolve_lifecycle
  close_final p now later confirm again h =
      (ground arith, ground arith, ground arith, ground arith, ground arith, ground arith)
