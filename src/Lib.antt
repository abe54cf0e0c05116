-- ===== src/Lib.antt =====
-- Omenpath Research Lab: the domain core of the laboratory server, internal/domain.
--
-- A laboratory is an aggregate: its energy, a collection of portals to planes, the observers that
-- travel through them, and the schedule of the generator of natural portals. The domain is pure: a
-- command or a stage is a function of the aggregate, the time, the configuration and a source of
-- random values, and the server (internal/engine) commits its result. Values that change with time
-- are not stored: they are derived from baselines whenever they are asked for.
--
-- The files, and the part of the repository that each is about:
--   Config, Errors, Plane, Random   internal/config/config.go, internal/domain/errors.go, plane.go,
--                                   the interface of internal/random/random.go
--   Float64                         the float64 operations of the source, as a parameter
--   Portal and Portal/              internal/domain/portal.go, creatures.go, risk.go: Derived and
--                                   Risk compute, Lifecycle changes; Resolution and Actions prove
--   Lab and Lab/                    internal/domain/lab.go, lab_emergency.go: energy accounting, the
--                                   Leyline Override and the resolution that couples it to a portal
--   Observer and Observer/          internal/domain/observer.go, observer_lifecycle.go (Lifecycle),
--                                   and the choices and the roster check of observer_commands.go
--                                   (Selection, Roster); Relation is the relation of the phases;
--                                   Phases, Progress and Choice prove
--   Scan                            the loop that picks an element of a slice, with its rule
--   Commands and Commands/          internal/domain/observer_commands.go: SEND and RECALL; Closing
--                                   is portal_observer_close.go and lab_energy_commands.go;
--                                   Admission, Effects, Interruption and Charges prove
--   Slots, Factory                  internal/domain/slots.go, factory.go
--   Extraction and Extraction/      internal/domain/extraction.go
--   Simulation and Simulation/      internal/domain/simulation.go, simulation_spawn.go and
--                                   simulation_structure.go: the aggregate, the generator (Simulation,
--                                   Spawning) and the validation (Validation, Structure, Accepted);
--                                   Attention is simulation_attention.go; Stages and Tick are
--                                   `ResolveTick`, whose stages are resolved in their order on a
--                                   copy: Stages/Portals, Acceptance, Slots, Extractions and Planes
--                                   prove what a stage does, Tick/Commit what is committed,
--                                   Draws and Tick/Draws from which ranges is drawn
--   Sort                            sort.Slice and sort.SliceStable as insertion sort, with the laws
--                                   of the order
--   Events and Events/              internal/domain/event.go; Order and Transition are
--                                   event_transition.go, whose portals and observers have a file
--                                   each; History, Validity, Completeness and Quiet prove
--   Recommendation, Availability    internal/domain/recommendation.go, action_availability.go;
--                                   Following and Agreement prove
--   Engine and Engine/              internal/engine/manager_commands.go: what each command of the
--                                   manager does to the simulation; Slots proves
--   Tutorial and Tutorial/          internal/domain/tutorial.go; internal/engine/tutorial.go: the
--                                   signals and the portal of a step (Target), what a tick does to
--                                   the tutorial (Advance); Signals and Progress prove
--   Base, Samples                   shared helpers; concrete inputs, witnesses and runs
--
-- A definition has the source's name in snake case (`ResolveLifecycle` is `resolve_lifecycle`) and
-- its order of guards. A method that changes its receiver returns the receiver after the call, next
-- to what the source returns; a function that changes several arguments returns each of them, also
-- where it fails. An error is a value of `Result`. A pointer that may be nil for a reason of the
-- domain is an option; portals, planes and random sources that are nil only through a programming
-- error are not represented, nor are values of an enumeration outside its constants. An index out
-- of range, which panics, is `none` in the generator.
--
-- Times are natural numbers of nanoseconds since the zero time, and durations are natural numbers
-- of nanoseconds; negative durations, which a valid configuration excludes, are not represented. IDs,
-- slots and counts are natural numbers, the laboratory's energies and costs are signed integers, and
-- the width of a machine integer is not modelled. Texts are lists of code points. A float64 is a value
-- of an abstract type with the operations that the source uses; a theorem that needs their order
-- takes the laws of `IsOrdered`; the samples use numbers in thousandths. The random source is a state
-- that each draw advances; that draws lie in their range is the law `IsInclusive`. A draw from an
-- empty range, at which the source panics, advances the state like any other; that there is none is
-- stated with `Survives`. The panic of a division by zero, whose divisors a valid configuration keeps
-- from zero, is not represented.
--
-- Whether a time is in UTC is tested where the source tests it: of a draft's time, of the two times
-- of a transition and of a tutorial portal's time. A time that the aggregate stores counts as one in
-- UTC, as the persistence requires (internal/persistence/codec.go), and so does the time of a tick,
-- of a command or of a signal, which the manager converts.
--
-- The loop of `ResolveObserverLifecycle` runs on fuel 3: from any phase at most two others follow
-- before one stays, and the third round sees that it stays. The digits of a portal's number have fuel for
-- one digit more than the number. All other recursion is structural.
--
-- Not modelled: what a command does to the tutorial, its reset and the start of live mode, and the
-- transaction around a command of the manager, which ticks, commits and rolls back (all to follow);
-- the rest of the server around the domain, its sessions, its transport and its persistence, which
-- are concurrency, input and output around these functions.
mod Base
pub mod Float64
pub mod Random
pub mod Config
pub mod Errors
pub mod Scan
pub mod Portal
pub mod Plane
pub mod Observer
pub mod Commands
pub mod Slots
pub mod Sort
pub mod Events
pub mod Factory
pub mod Extraction
pub mod Simulation
pub mod Recommendation
pub mod Availability
pub mod Engine
pub mod Tutorial
mod Samples
pub mod Lab
