-- ===== src/Models/Stub/Cycle.antt =====
-- internal/models/stub.go: the order in which `NextResponse` hands out a stub's responses.
use native.Mathlib.Numerals.{add-one}
use mathlib.Core.List.{cons-ne-nil}
use go_tartuffe.Prelude.{
  ℕ, zero, suc, ◌+◌, ◌%◌, ◌^◌, ◌<◌, false, some, List, [], ◌∷◌, map, length, get_elem?, ◌==◌, ltb,
  if◌then◌else◌, ℤ, ◌≡◌, refl, ap, sym, ◌∙◌, arith, ◌≢◌, ◌⊎◌, inl, inr, Bool-cases, ltb→lt, ltb→ge,
  get_elem?-lt,
}
use go_tartuffe.Models.Stub.{
  Response, Stub, response, next_response, advance, response_at, response_position, increment_64,
}
use go_tartuffe.Models.Stub.Schedule.{
  times, schedule, cycle, calls, HasSmallRepeats, times_pos, reached_lem, All_elem, drop-length,
  upcoming, upcoming_step, upcoming_last,
}

-- The counters of a stub that can be called `k` more times before the index passes 2^63.
record Ready (k : ℕ) (s : Stub) : Type 0 where
  index : s.response_index + k < 2 ^ 63
  nonempty : 0 < length s.responses
  repeats : HasSmallRepeats s.responses
  count :
      (r : Response)
      → get_elem? s.responses (s.response_index % length s.responses) ≡ some r
      → s.repeat_count < times r.repeat

abbrev position : Stub → ℕ
position s = s.response_index % length s.responses

abbrev remaining : Stub → List Response
remaining s = upcoming s.responses (position s) s.repeat_count

next_response_lem :
    (s : Stub) (r : Response)
    → s.responses ≢ []
    → s.response_index < 2 ^ 63
    → get_elem? s.responses (position s) ≡ some r
    → next_response s ≡ (response r, advance s r.repeat)
unfolding next_response response_at response_position
next_response_lem s r ne small here = ground arith

-- The stub after a call, when the response has been handed out as often as it asks, and before.
moved : Stub → Stub
moved s = record s { response_index = s.response_index + 1; repeat_count = 0 }

again : Stub → Stub
again s = record s { repeat_count = s.repeat_count + 1 }

advance_lem :
    (s : Stub) (r : ℤ)
    → s.response_index + 1 < 2 ^ 63
    → s.repeat_count < times r
    → times r < 2 ^ 63
    → advance s r ≡ (if s.repeat_count + 1 == times r then moved s else again s)
unfolding advance moved again increment_64
advance_lem s r small h b = rw (reached_lem s.repeat_count r h b) (ground arith)

schedule-nil : schedule [] ≡ []
unfolding schedule
schedule-nil = refl

position_lt : (i n : ℕ) → 0 < n → i % n < n
position_lt i n p = grind arith

-- The index after a full count: the next response, or the first one again.
position_wraps : (i n : ℕ) → 0 < n → (i % n + 1 < n) → (i + 1) % n ≡ i % n + 1
position_wraps i n p h = grind arith

position_restarts : (i n : ℕ) → 0 < n → i % n + 1 ≡ n → (i + 1) % n ≡ 0
position_restarts i n p h = grind arith

module _ (k : ℕ) (s : Stub) (v : Ready (suc k) s) (r : Response)
    (here : get_elem? s.responses (position s) ≡ some r) where
  Ready-moved : Ready k (moved s)
  unfolding moved
  Ready-moved = record {
    index = omega (arith, v.index);
    nonempty = v.nonempty;
    repeats = v.repeats;
    count = λ q e. times_pos q.repeat;
  }

  Ready-again : (s.repeat_count + 1 == times r.repeat) ≡ false → Ready k (again s)
  unfolding again
  Ready-again h = record {
    index = omega (arith, v.index);
    nonempty = v.nonempty;
    repeats = v.repeats;
    count = λ q e. ground (arith, v.count r here);
  }

  remaining-again : remaining (again s) ≡ upcoming s.responses (position s) (suc s.repeat_count)
  unfolding again
  remaining-again = rw add-one refl

  -- After a full count what remains is the rest of the round, or a whole round.
  remaining-moved :
      suc s.repeat_count ≡ times r.repeat
      → let rest = upcoming s.responses (position s) (suc s.repeat_count) in
        (rest ≡ remaining (moved s)) ⊎ ((rest ≡ []) × (remaining (moved s) ≡ schedule s.responses))
  unfolding moved
  remaining-moved e =
      let rs = s.responses in
      let n = length rs in
      let here_on = upcoming_last rs (position s) s.repeat_count r here e in
      elim (Bool-cases (ltb (position s + 1) n)) [
        | inl more ↦
            let next : suc (position s) ≡ (s.response_index + 1) % n = omega (
              arith,
              position_wraps s.response_index n v.nonempty (ltb→lt (position s + 1) n more),
            ) in
            inl (here_on ∙ ap (λ p. upcoming rs p 0) next)
        | inr last ↦
            let past = ltb→ge (position s + 1) n last in
            let at_end : position s + 1 ≡ n =
              omega (arith, past, position_lt s.response_index n v.nonempty) in
            inr (
              here_on
                  ∙ ap schedule (drop-length rs (suc (position s)) (omega arith))
                  ∙ schedule-nil,
              ap (λ p. upcoming rs p 0) (position_restarts s.response_index n v.nonempty at_end),
            )
      ]

nonempty : (rs : List Response) → 0 < length rs → rs ≢ []
nonempty [] h = elim h [ ]
nonempty (r ∷ rs) h = cons-ne-nil r rs

filled : (rs : List Response) → rs ≢ [] → 0 < length rs
filled [] h = absurd (h refl)
filled (r ∷ rs) h = omega arith

starts : (i n : ℕ) → i ≡ 0 → 0 < n → i % n ≡ 0
starts i n e h = grind arith

cycle_step {ℓ} :
    {A : Type ℓ} (k : ℕ) (full now : List A) (x : A) (xs : List A)
    → (now ≡ x ∷ xs) ⊎ ((now ≡ []) × (full ≡ x ∷ xs))
    → cycle (suc k) full now ≡ x ∷ cycle k full xs
unfolding cycle
cycle_step k full now x xs (inl e) = rw e refl
cycle_step k full now x xs (inr (e, f)) = rw (e, f) refl

cycle-nil {ℓ} : {A : Type ℓ} (full now : List A) → cycle 0 full now ≡ []
unfolding cycle
cycle-nil full now = refl

-- Where a round stands, against the list of what remains of it.
abbrev Stands : Stub → List Response → Type 0
Stands s now = (now ≡ remaining s) ⊎ ((now ≡ []) × (remaining s ≡ schedule s.responses))

abbrev Follows : ℕ → Stub → Type 0
Follows k s =
    (now : List Response)
    → Ready k s
    → Stands s now
    → calls k s ≡ map response (cycle k (schedule s.responses) now)

module _ (k : ℕ) (s : Stub) (v : Ready (suc k) s) (r : Response)
    (here : get_elem? s.responses (position s) ≡ some r) where
  abbrev left : List Response
  left = upcoming s.responses (position s) (suc s.repeat_count)

  calls-moved :
      suc s.repeat_count ≡ times r.repeat
      → Follows k (moved s)
      → calls k (moved s) ≡ map response (cycle k (schedule s.responses) left)
  unfolding moved
  calls-moved e ih = ih left (Ready-moved k s v r here) (remaining-moved k s v r here e)

  calls-again :
      (s.repeat_count + 1 == times r.repeat) ≡ false
      → Follows k (again s)
      → calls k (again s) ≡ map response (cycle k (schedule s.responses) left)
  unfolding again
  calls-again h ih = ih left (Ready-again k s v r here h) (inl (sym (remaining-again k s v r here)))

  calls-advance :
      ((t : Stub) → Follows k t)
      → calls k (advance s r.repeat) ≡ map response (cycle k (schedule s.responses) left)
  calls-advance ih =
      let few = v.count r here in
      let small = All_elem _ s.responses (position s) r v.repeats here in
      elim (Bool-cases (s.repeat_count + 1 == times r.repeat)) [
        | inl full ↦
            rw (advance_lem s r.repeat (omega (arith, v.index)) few small, full)
              (calls-moved (ground arith) (ih (moved s)))
        | inr h ↦
            rw (advance_lem s r.repeat (omega (arith, v.index)) few small, h)
              (calls-again h (ih (again s)))
      ]

-- The calls follow the cycle from what remains of the round, or from the end of a round.
calls_lem : (k : ℕ) (s : Stub) → Follows k s
unfolding calls
calls_lem zero s now v h = rw cycle-nil refl
calls_lem (suc k) s now v h =
    let (r, here) = get_elem?-lt s.responses (position s) (position_lt _ _ v.nonempty) in
    let step = upcoming_step s.responses (position s) s.repeat_count r here (v.count r here) in
    rw
      (
        next_response_lem s r (nonempty s.responses v.nonempty) (omega (arith, v.index)) here,
        cycle_step k (schedule s.responses) now r (left k s v r here)
            (elim h [ inl e ↦ inl (e ∙ step) | inr (e, f) ↦ inr (e, sym f ∙ step) ]),
      )
      (ap (◌∷◌ (response r)) (calls-advance k s v r here (calls_lem k)))

upcoming_start : (rs : List Response) (i c : ℕ) → i ≡ 0 → c ≡ 0 → upcoming rs i c ≡ schedule rs
upcoming_start rs i c p q = rw (p, q) refl

-- A stub that was not asked before hands its responses out in the order of its list, each as often
-- as its `repeat` says (once if that is not positive), and starts again from the first one after the
-- last. The number of calls is below 2^63 and so is each repeat; there is at least one response.
pub calls-cycle :
    (k : ℕ) (s : Stub)
    → s.response_index ≡ 0
    → s.repeat_count ≡ 0
    → s.responses ≢ []
    → HasSmallRepeats s.responses
    → k < 2 ^ 63
    → calls k s ≡ map response (cycle k (schedule s.responses) [])
calls-cycle k s i c ne small fits =
    let full = filled s.responses ne in
    calls_lem k s []
      (record {
        index = omega arith;
        nonempty = full;
        repeats = small;
        count = λ r e. omega (arith, times_pos r.repeat);
      })
      (inr (refl, upcoming_start s.responses (position s) s.repeat_count (starts _ _ i full) c))
