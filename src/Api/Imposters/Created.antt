-- ===== src/Api/Imposters/Created.antt =====
-- internal/api/handlers/imposters.go, internal/imposter/manager.go and internal/repository/memory.go:
-- CreateImposter.
use go_tartuffe.Prelude.{
  Bool, true, false, Option, none, some, leb, if◌then◌else◌, ℤ, int_eq, put, find, ◌≡◌, refl, arith,
  Option-cases, inl, inr, ◌⊎◌,
}
use go_tartuffe.Models.Imposter.{Imposter}
use go_tartuffe.Repository.{ok, err, conflict}
use go_tartuffe.Repository.Memory.{InMemory, add, get, exists}
use go_tartuffe.Repository.Memory.Laws.{get-put}
use go_tartuffe.Manager.{Manager, ManagerError, Surroundings, start}
use go_tartuffe.Api.{ApiRequest, one, Reply, World}
use go_tartuffe.Api.Options.{apply_options, no_options}
use go_tartuffe.Api.Imposters.{
  create_refusal, create_imposter, counted, with_default_mode, started_imposter, after_start,
  add_refusal,
}

abbrev pub is_error : Reply → Bool
is_error reply = leb 400 reply.status

-- The imposter that the server of a new imposter runs with.
unfoldable pub prepared : Surroundings → Imposter → Imposter
prepared out imp = started_imposter out (with_default_mode (counted imp))

-- The imposter on no port before, its server started, and it on its port of the repository.
abbrev pub Created : ApiRequest → Surroundings → ℤ → Imposter → World → Reply × World → Type 0
Created r out j imp w (reply, w') =
    (reply ≡ record { status = 201; body = one (apply_options r no_options (prepared out imp)) })
    × (start out (with_default_mode (counted imp)) w.manager ≡ (none, w'.manager))
    × (exists (prepared out imp).port w.repository ≡ false)
    × (get j w'.repository
        ≡ (if int_eq (prepared out imp).port j then ok (prepared out imp) else get j w.repository))

abbrev pub Refused : World → Reply × World → Type 0
Refused w (reply, w') = (is_error reply ≡ true) × (w'.repository ≡ w.repository)

create_refusal-is_error :
    (port : ℤ) (imp : Imposter) (reply : Reply)
    → create_refusal port imp ≡ some reply
    → is_error reply ≡ true
unfolding create_refusal
create_refusal-is_error port imp reply h = ground arith

add_taken :
    (imp : Imposter) (repo : InMemory) (old : Imposter)
    → find imp.port repo.imposters ≡ some old
    → add imp repo ≡ (err (conflict imp.port), repo)
unfolding add
add_taken imp repo old h = rw (add, h) refl

pub add_free :
    (imp : Imposter) (repo : InMemory)
    → find imp.port repo.imposters ≡ none
    → add imp repo ≡ (ok tt, record { imposters = put imp.port imp repo.imposters })
unfolding add
add_free imp repo h = rw (add, h) refl

module _ (r : ApiRequest) (out : Surroundings) (in_time : Bool) (j : ℤ) (imp : Imposter)
    (w : World) where
  after_start-outcome :
      (e : Option ManagerError) (m : Manager)
      → start out (with_default_mode (counted imp)) w.manager ≡ (e, m)
      → Created r out j imp w (after_start r in_time (prepared out imp) w (e, m))
        ⊎ Refused w (after_start r in_time (prepared out imp) w (e, m))
  after_start-outcome (some e) m h = inr (refl, refl)
  after_start-outcome none m h =
      let new = prepared out imp in
      elim (Option-cases (find new.port w.repository.imposters)) [
        | inl free ↦
            rw (add_free new w.repository free)
              (inl (refl, h, unfold exists in rw free refl, get-put new.port j new w.repository))
        | inr (old, taken) ↦
            rw (add_taken new w.repository old taken) (inr (unfold add_refusal in refl, refl))
      ]

-- CreateImposter replies with status 201, and then the imposter as its server started with it stands
-- on its port, where none stood, and the other ports are as before; or it replies with an error, and
-- the repository is as before.
pub create_imposter-outcome :
    (r : ApiRequest) (api_port : ℤ) (out : Surroundings) (in_time : Bool)
    (decoded : Option Imposter) (w : World) (j : ℤ)
    → ((imp : Imposter) × (decoded ≡ some imp)
        × (create_refusal api_port imp ≡ none)
        × Created r out j imp w (create_imposter r api_port out in_time decoded w))
      ⊎ Refused w (create_imposter r api_port out in_time decoded w)
unfolding create_imposter prepared
create_imposter-outcome r api_port out in_time none w j = inr (refl, refl)
create_imposter-outcome r api_port out in_time (some imp) w j =
    elim (Option-cases (create_refusal api_port imp)) [
      | inr (reply, refused) ↦
          rw (create_imposter, refused)
            (inr (create_refusal-is_error api_port imp reply refused, refl))
      | inl fine ↦
          elim (after_start-outcome r out in_time j imp w
            (start out (with_default_mode (counted imp)) w.manager).0
            (start out (with_default_mode (counted imp)) w.manager).1 refl) [
              | inl created ↦ inl (imp, refl, fine, rw (create_imposter, fine) created)
              | inr refused ↦ inr (rw (create_imposter, fine) refused)
            ]
    ]
