-- ===== src/Behaviors/Execute/Refusal.antt =====
-- internal/imposter/behaviors.go: the behavior that is refused.
use go_tartuffe.Prelude.{
  Bool, true, false, not, ◌||◌, any, if◌then◌else◌, arith, List, [], ◌∷◌, ◌≡◌, refl, Bool-cases,
  inl, inr,
}
use go_tartuffe.Models.Request.{Request}
use go_tartuffe.Models.Stub.{IsResponse, Behavior}
use go_tartuffe.Behaviors.{Outcome, done, failed, panicked, and_then, Tools}
use go_tartuffe.Behaviors.Execute.{
  is_nil, execute_wait, execute_copies, execute_lookups, execute_decorates, execute_one, execute,
}

unfoldable pub is_done {ℓ} : {A : Type ℓ} → Outcome A → Bool
is_done (done a) = true
is_done (failed e) = false
is_done panicked = false

unfoldable pub asks_shell : Behavior → Bool
asks_shell b = not (is_nil b.shell_transform)

module _ {ℓ κ} {A : Type ℓ} {B : Type κ} where
  -- A sequence whose second part is never done is never done.
  and_then-undone :
      (o : Outcome A) (k : A → Outcome B)
      → ((a : A) → is_done (k a) ≡ false)
      → is_done (and_then o k) ≡ false
  unfolding is_done
  and_then-undone (done a) k h = h a
  and_then-undone (failed e) k h = refl
  and_then-undone panicked k h = refl

  and_then-stuck :
      (o : Outcome A) (k : A → Outcome B) → is_done o ≡ false → is_done (and_then o k) ≡ false
  unfolding is_done
  and_then-stuck (done a) k h = absurd (ground arith)
  and_then-stuck (failed e) k h = refl
  and_then-stuck panicked k h = refl

shell_set : (b : Behavior) → asks_shell b ≡ true → is_nil b.shell_transform ≡ false
unfolding asks_shell
shell_set b h = ground arith

rest_asks : (a b : Bool) → a ≡ false → (a || b) ≡ true → b ≡ true
rest_asks a b e h = ground arith

execute_one-undone :
    (tools : Tools) (req : Request) (b : Behavior) (resp : IsResponse)
    → asks_shell b ≡ true
    → is_done (execute_one tools req b resp) ≡ false
unfolding execute_one is_done
execute_one-undone tools req b resp h =
    and_then-undone (if is_nil b.wait then done 0 else execute_wait tools req b.wait) _ λ slept.
      and_then-undone (execute_copies tools req b.copy resp) _ λ copied.
        and_then-undone (execute_lookups tools req b.lookup copied) _ λ found.
          and_then-undone (execute_decorates tools req b.decorate found) _
            λ decorated. rw (shell_set b h) refl

-- A list of behaviors of which one has a `shellTransform`, wherever it stands in the list, has an
-- error or panics, and never gives a response.
pub execute-asks_shell :
    (tools : Tools) (req : Request) (bs : List Behavior) (resp : IsResponse)
    → any asks_shell bs ≡ true
    → is_done (execute tools req bs resp) ≡ false
unfolding execute is_done
execute-asks_shell tools req [] resp h = absurd (ground arith)
execute-asks_shell tools req (b ∷ bs) resp h = elim (Bool-cases (asks_shell b)) [
  | inl e ↦ and_then-stuck (execute_one tools req b resp) _ (execute_one-undone tools req b resp e)
  | inr e ↦ and_then-undone (execute_one tools req b resp) _ λ r.
      and_then-stuck (execute tools req bs r.1) _
        (execute-asks_shell tools req bs r.1 (rest_asks _ _ e h))
]
