-- ===== src/Manager/Outcomes.antt =====
-- internal/imposter/manager.go: what the start of a server may come to.
use go_tartuffe.Prelude.{
  true, false, ◌&&◌, is_some, Option, none, some, ℤ, ◌≡◌, refl, arith, Option-cases, Bool-cases,
  inl, inr, ◌⊎◌, ap,
}
use go_tartuffe.Models.Imposter.{Imposter}
use go_tartuffe.Manager.{
  entered, ManagerError, not_created, not_listening, Server, Manager, Kind, Surroundings, listening,
  start_server, can_create, enter, launch,
}

pub start_server-outcome :
    (k : Kind) (out : Surroundings) (imp : Imposter)
    → ((e : ManagerError) × ((start_server k out imp).0 ≡ some e)
        × ((can_create k out && is_some out.listen) ≡ false))
      ⊎ ((port : ℤ) × (out.listen ≡ some port)
          × (start_server k out imp
              ≡ (none, record { imposter = listening k port imp; started = true }))
          × (can_create k out ≡ true))
unfolding start_server
start_server-outcome k out imp = elim (Bool-cases (can_create k out)) [
  | inr e ↦ inl (not_created, rw (start_server, e) refl, rw e refl)
  | inl e ↦ elim (Option-cases out.listen) [
    | inl l ↦ inl (not_listening, rw (start_server, e, l) refl, rw (e, l) refl)
    | inr (port, l) ↦ inr (port, l, rw (start_server, e, l) refl, e)
  ]
]

failed_entered :
    (k : Kind) (r : Option ManagerError × Server) (m : Manager) (e : ManagerError)
    → r.0 ≡ some e
    → entered k r m ≡ (some e, m)
failed_entered k (none, srv) m e q = absurd (ground arith)
failed_entered k (some e', srv) m e q = ap (λ x. (x, m)) q

-- A server starts and is entered, or the manager stays as it is.
pub launch-outcome :
    (k : Kind) (out : Surroundings) (imp : Imposter) (m : Manager)
    → ((e : ManagerError) × (launch k out imp m ≡ (some e, m))
        × ((can_create k out && is_some out.listen) ≡ false))
      ⊎ ((port : ℤ) × (out.listen ≡ some port)
          × (launch k out imp m
              ≡ (none, enter k (record { imposter = listening k port imp; started = true }) m))
          × (can_create k out ≡ true))
unfolding launch
launch-outcome k out imp m = elim (start_server-outcome k out imp) [
  | inl (e, q, h) ↦ inl (e, failed_entered k _ m e q, h)
  | inr (port, l, q, c) ↦ inr (port, l, ap (λ r. entered k r m) q, c)
]
