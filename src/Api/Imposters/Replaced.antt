-- ===== src/Api/Imposters/Replaced.antt =====
-- internal/api/handlers/imposters.go and internal/repository/memory.go: ReplaceImposters.
use go_tartuffe.Prelude.{
  false, Bool, any, none, some, List, [], ◌∷◌, ◌++◌, map, append_assoc, append-nil, if◌then◌else◌,
  ℤ, int_eq, int_eq_iff, put, find, find-put, ◌≡◌, refl, ap, ◌∙◌, arith, Bool-cases, inl, inr,
  subst,
}
use go_tartuffe.Models.Imposter.{Imposter}
use go_tartuffe.Repository.{Result, ok, err, not_found}
use go_tartuffe.Repository.Memory.{InMemory, Entries, add, get, delete_all}
use go_tartuffe.Repository.Memory.Laws.{get-put}
use go_tartuffe.Manager.{Server, Surroundings, stop_all}
use go_tartuffe.Api.{ApiRequest, several, Reply, World}
use go_tartuffe.Api.Options.{apply_options, no_options}
use go_tartuffe.Api.Imposters.{
  counted, create_each, replace_imposters, replace_refused, started_if, is_served,
}
use go_tartuffe.Api.Imposters.Created.{add_free}

-- An imposter of the list is on the port.
abbrev pub is_used : ℤ → List Imposter → Bool
is_used port imps = any (λ (imp : Imposter). int_eq imp.port port) imps

abbrev pub AreDistinct : List Imposter → Type 0
AreDistinct [] = Unit
AreDistinct (imp ∷ imps) = (is_used imp.port imps ≡ false) × AreDistinct imps

-- The imposter of the list on the port, with its count set, or else the given result.
abbrev pub on_port : ℤ → List Imposter → Result Imposter → Result Imposter
on_port j [] d = d
on_port j (imp ∷ imps) d = if int_eq imp.port j then ok (counted imp) else on_port j imps d

abbrev pub shown_all : ApiRequest → List Imposter → List Imposter
shown_all r imps = map (λ imp. apply_options r no_options (counted imp)) imps

abbrev AreFree : List Imposter → Entries → Type 0
AreFree [] m = Unit
AreFree (imp ∷ imps) m = (find imp.port m ≡ none) × AreFree imps m

counted-port : (imp : Imposter) → (counted imp).port ≡ imp.port
unfolding counted
counted-port imp = ground arith

AreFree-put :
    (port : ℤ) (new : Imposter) (imps : List Imposter) (m : Entries)
    → is_used port imps ≡ false
    → AreFree imps m
    → AreFree imps (put port new m)
AreFree-put port new [] m h f = tt
AreFree-put port new (imp ∷ imps) m h f =
    let here : int_eq port imp.port ≡ false =
      ground (arith, h, int_eq_iff port imp.port, int_eq_iff imp.port port) in
    let rest : is_used port imps ≡ false = ground (arith, h) in
    (rw (find-put port imp.port new m, here) f.0, AreFree-put port new imps m rest f.1)

AreFree-nil : (imps : List Imposter) → AreFree imps []
AreFree-nil [] = tt
AreFree-nil (imp ∷ imps) = (unfold find in refl, AreFree-nil imps)

on_port-unused :
    (j : ℤ) (imps : List Imposter) (d : Result Imposter)
    → is_used j imps ≡ false
    → on_port j imps d ≡ d
on_port-unused j [] d h = refl
on_port-unused j (imp ∷ imps) d h =
    let here : int_eq imp.port j ≡ false = ground (arith, h) in
    let rest : is_used j imps ≡ false = ground (arith, h) in rw here (on_port-unused j imps d rest)

on_port-if :
    (j : ℤ) (imp : Imposter) (imps : List Imposter) (d : Result Imposter)
    → is_used imp.port imps ≡ false
    → on_port j imps (if int_eq imp.port j then ok (counted imp) else d) ≡ on_port j (imp ∷ imps) d
on_port-if j imp imps d h = elim (Bool-cases (int_eq imp.port j)) [
  | inl e ↦
      let same : imp.port ≡ j = ground (arith, e, int_eq_iff imp.port j) in
      rw e (on_port-unused j imps (ok (counted imp)) (subst (λ p. is_used p imps ≡ false) same h))
  | inr e ↦ rw e refl
]

-- The imposter in the repository, its server started if its protocol is served.
abbrev created : (Imposter → Surroundings) → Imposter → World → World
created out imp w =
    let imp' = counted imp in
    record {
      repository = (add imp' w.repository).1;
      manager = started_if (is_served imp'.protocol) (out imp') imp' w.manager;
    }

create_each-cons :
    (r : ApiRequest) (out : Imposter → Surroundings) (imp : Imposter) (imps shown : List Imposter)
    (w : World)
    → find (counted imp).port w.repository.imposters ≡ none
    → create_each r out (imp ∷ imps) shown w
      ≡ create_each r out imps
          (shown ++ apply_options r no_options (counted imp) ∷ [])
          (created out imp w)
unfolding create_each
create_each-cons r out imp imps shown w free =
    let succeeds : (add (counted imp) w.repository).0 ≡ ok tt =
      ap (λ x. x.0) (add_free (counted imp) w.repository free) in
    rw (create_each, succeeds) refl

get-add :
    (imp : Imposter) (j : ℤ) (repo : InMemory)
    → find imp.port repo.imposters ≡ none
    → get j (add imp repo).1 ≡ (if int_eq imp.port j then ok imp else get j repo)
get-add imp j repo free = rw (add_free imp repo free) (get-put imp.port j imp repo)

abbrev Holds : ApiRequest → ℤ → List Imposter → Result Imposter → Reply × World → Type 0
Holds r j shown held (reply, w') =
    (reply ≡ record { status = 200; body = several shown }) × (get j w'.repository ≡ held)

create_each-free :
    (r : ApiRequest) (out : Imposter → Surroundings) (imps shown : List Imposter) (w : World)
    (j : ℤ)
    → AreDistinct imps
    → AreFree imps w.repository.imposters
    → Holds r j
        (shown ++ shown_all r imps)
        (on_port j imps (get j w.repository))
        (create_each r out imps shown w)
unfolding create_each
create_each-free r out [] shown w j v f = (rw (append-nil shown) refl, refl)
create_each-free r out (imp ∷ imps) shown w j v f =
    let imp' = counted imp in
    let w' = created out imp w in
    let free : find imp'.port w.repository.imposters ≡ none = rw (counted-port imp) f.0 in
    let unused : is_used imp'.port imps ≡ false = rw (counted-port imp) v.0 in
    let rest =
      create_each-free r out imps (shown ++ apply_options r no_options imp' ∷ []) w' j v.1 (
        rw (add_free imp' w.repository free)
          (AreFree-put imp'.port imp' imps w.repository.imposters unused f.1)) in
    let held =
      ap (on_port j imps) (
        get-add imp' j w.repository free
        ∙ ap (λ p. if int_eq p j then ok imp' else get j w.repository) (counted-port imp))
      ∙ on_port-if j imp imps (get j w.repository) v.0 in
    rw (create_each-cons r out imp imps shown w free) (
      rest.0
          ∙ ap (λ (l : List Imposter). record { status = 200; body = several l })
              (append_assoc shown (apply_options r no_options imp' ∷ []) (shown_all r imps)),
      rest.1 ∙ held,
    )

-- ReplaceImposters, given imposters that pass its checks and have different ports, replies with status
-- 200 and shows them in order, and the repository then has exactly these, each under its port with
-- its count set.
pub replace_imposters-held :
    (r : ApiRequest) (out : Imposter → Surroundings) (in_time : Server → Bool)
    (imps : List Imposter) (w : World) (j : ℤ)
    → replace_refused imps ≡ false
    → AreDistinct imps
    → (let (reply, w') = replace_imposters r out in_time (some (some imps)) w in
        (reply ≡ record { status = 200; body = several (shown_all r imps) })
        × (get j w'.repository ≡ on_port j imps (err (not_found j))))
unfolding replace_imposters delete_all get find
replace_imposters-held r out in_time imps w j fine v =
    rw (replace_imposters, fine)
      (create_each-free r out imps []
        (record {
          repository = (delete_all w.repository).1;
          manager = (stop_all in_time w.manager).1;
        })
        j v (AreFree-nil imps))
