-- ===== src/Retry/Timeline/Ended.antt =====
-- retry/executor.go, `doValueWithTimeline`: how its loop ends, for the caller and the observer.
use mathlib.Core.List.{map-append}
use rego.Common.{
  ℕ, zero, suc, ◌+◌, ℤ, pos, negsuc, ltb_ℤ, ◌==◌, ◌≡◌, refl, sym, ap, ◌∙◌, subst, inl, inr, Bool,
  true, false, ◌&&◌, List, [], ◌∷◌, ◌++◌, map, Option, none, some, Bool-cases, Option-cases,
  FloatOps, arith,
}
use rego.Errors.{Error}
use rego.Policy.Key.{PolicyKey}
use rego.Policy.Schema.{EffectivePolicy}
use rego.Circuit.Breaker.{record_success}
use rego.Classify.{Outcome, Classifier, Exit, returned, panicked}
use rego.Observe.Types.{
  AttemptRecord, Timeline, Event, on_start, on_attempt, on_hedge_spawn, on_hedge_cancel,
  on_budget_decision, on_success, on_failure,
}
use rego.Retry.Backoff.{compute_sleep}
use rego.Retry.Outcomes.{ClassifierMeta}
use rego.Retry.Fast.{attempts_of}
use rego.Retry.Group.{is_terminal}
use rego.Retry.Timeline.{
  TimelineCall, Answer, Notice, recorded, spawned, decided, records_of, event_of, Log, Result,
  Rounds, fail, succeed, note, feed_all, report, pause_group, conclude_group, group_round,
  group_loop,
}

pub attempts_of-suc : (n : ℤ) → (m : ℕ) × (attempts_of n ≡ suc m)
unfolding attempts_of
attempts_of-suc (pos zero) = (0, refl)
attempts_of-suc (pos (suc n)) = (n, refl)
attempts_of-suc (negsuc n) = (0, refl)

module _ {W C T F : Type 0} ⦃f : FloatOps F⦄ (call : TimelineCall W C T F) where
  open call use {env, key, zero_value}

  -- The records of attempts that the observer got, each with its key.
  abbrev pub attempts_told : List (Event F) → List (PolicyKey × AttemptRecord)
  attempts_told [] = []
  attempts_told (on_attempt k r ∷ es) = (k, r) ∷ attempts_told es
  attempts_told (_ ∷ es) = attempts_told es

  -- What a call tells the observer between its start and its end.
  abbrev pub is_between : Event F → Bool
  is_between (on_attempt k r) = true
  is_between (on_hedge_spawn k r) = true
  is_between (on_budget_decision ev) = true
  is_between _ = false

  abbrev pub all_between : List (Event F) → Bool
  all_between [] = true
  all_between (e ∷ es) = is_between e && all_between es

  -- Between start and end: the attempts of the timeline in their order, and besides these only
  -- decisions of budgets and starts of hedges.
  abbrev pub Tells : List (Event F) → List AttemptRecord → Type 0
  Tells es records = (attempts_told es ≡ map (λ r. (key, r)) records) × (all_between es ≡ true)

  -- How a call ends once its policy is known.
  pub data Ended (pol : EffectivePolicy F)
      : Exit (T × Timeline × Option Error) → List (Event F) → Type 0 where
    fails :
        (tl : Timeline) (e : Error) (es : List (Event F))
        → Tells es tl.attempts
        → tl.final_err ≡ some e
        → Ended pol
            (returned (zero_value, tl, some e))
            (on_start key pol ∷ es ++ on_failure key tl ∷ [])
    succeeds :
        (tl : Timeline) (val : T) (es : List (Event F))
        → Tells es tl.attempts
        → tl.final_err ≡ none
        → Ended pol (returned (val, tl, none)) (on_start key pol ∷ es ++ on_success key tl ∷ [])
    nil_value :
        (tl : Timeline) (v : _) (es : List (Event F))
        → Tells es tl.attempts
        → tl.final_err ≡ none
        → Ended pol (panicked v) (on_start key pol ∷ es ++ on_success key tl ∷ [])

  abbrev pub IsEnded : EffectivePolicy F → Result call → Type 0
  IsEnded pol r = Ended pol r.0 r.1

  abbrev IsLogged : EffectivePolicy F → Log F → Type 0
  IsLogged pol log =
      (es : List (Event F)) × (log.events ≡ on_start key pol ∷ es) × Tells es log.tl.attempts

  by_end : (pol : EffectivePolicy F) (a b : Result call) → a ≡ b → IsEnded pol b → IsEnded pol a
  by_end pol a b e h = subst (IsEnded pol) (sym e) h

  fail-Ended :
      (pol : EffectivePolicy F) (e : Error) (log : Log F) (w : W)
      → IsLogged pol log
      → IsEnded pol (fail call (some e) log w)
  unfolding fail
  fail-Ended pol e log w (es, h, t) =
      rw h (fails (record log.tl { end = (env.clock w).0; final_err = some e }) e es t refl)

  succeed-Ended :
      (pol : EffectivePolicy F) (val : Option T) (log : Log F) (w : W)
      → IsLogged pol log
      → IsEnded pol (succeed call val log w)
  unfolding succeed
  succeed-Ended pol none log w (es, h, t) =
      rw h (nil_value (record log.tl { end = (env.clock w).0; final_err = none }) _ es t refl)
  succeed-Ended pol (some v) log w (es, h, t) =
      rw h (succeeds (record log.tl { end = (env.clock w).0; final_err = none }) v es t refl)

  attempts_told-append :
      (xs ys : List (Event F)) → attempts_told (xs ++ ys) ≡ attempts_told xs ++ attempts_told ys
  attempts_told-append [] ys = refl
  attempts_told-append (on_attempt k r ∷ xs) ys =
      ap (λ (l : List (PolicyKey × AttemptRecord)). (k, r) ∷ l) (attempts_told-append xs ys)
  attempts_told-append (on_start k p ∷ xs) ys = attempts_told-append xs ys
  attempts_told-append (on_hedge_spawn k r ∷ xs) ys = attempts_told-append xs ys
  attempts_told-append (on_hedge_cancel k r s ∷ xs) ys = attempts_told-append xs ys
  attempts_told-append (on_budget_decision ev ∷ xs) ys = attempts_told-append xs ys
  attempts_told-append (on_success k tl ∷ xs) ys = attempts_told-append xs ys
  attempts_told-append (on_failure k tl ∷ xs) ys = attempts_told-append xs ys

  all_between-append :
      (xs ys : List (Event F))
      → all_between xs ≡ true
      → all_between ys ≡ true
      → all_between (xs ++ ys) ≡ true
  all_between-append [] ys h k = k
  all_between-append (e ∷ xs) ys h k = elim (Bool-cases (is_between e)) [
    | inl b ↦ rw b (all_between-append xs ys (ground (arith, h, b)) k)
    | inr b ↦ absurd (ground (arith, h, b))
  ]

  notices-Tells : (notices : List Notice) → Tells (map (event_of call) notices) (records_of notices)
  unfolding event_of records_of
  notices-Tells [] = (refl, refl)
  notices-Tells (recorded r ∷ notices) =
      let more = notices-Tells notices in
      (ap (λ (l : List (PolicyKey × AttemptRecord)). (key, r) ∷ l) more.0, more.1)
  notices-Tells (spawned r ∷ notices) = notices-Tells notices
  notices-Tells (decided ev ∷ notices) = notices-Tells notices

  note-IsLogged :
      (pol : EffectivePolicy F) (notices : List Notice) (log : Log F)
      → IsLogged pol log
      → IsLogged pol (note call notices log)
  unfolding note
  note-IsLogged pol notices log (es, h, t) =
      let new : List (Event F) = map (event_of call) notices in
      let told = notices-Tells notices in
      (
        es ++ new,
        ap (λ (l : List (Event F)). l ++ new) h,
        (
          attempts_told-append es new
              ∙ ap (λ (l : List (PolicyKey × AttemptRecord)). l ++ attempts_told new) t.0
              ∙ ap
                  (λ (l : List (PolicyKey × AttemptRecord)).
                    map (λ r. (key, r)) log.tl.attempts ++ l)
                  told.0
              ∙ sym (map-append (λ r. (key, r)) log.tl.attempts (records_of notices)),
          all_between-append es new t.1 told.1,
        ),
      )

  -- The rounds that follow end a call whose log is in step.
  abbrev Goes : EffectivePolicy F → Rounds call → Type 0
  Goes pol again =
      (b : ℤ) (err : Option Error) (lb : ℤ) (log : Log F) (w : W)
      → IsLogged pol log
      → IsEnded pol (again b err lb log w)

  pause_group-Ended :
      (pol : EffectivePolicy F) (again : Rounds call)
      → Goes pol again
      → (ctx : C) (hedged : EffectivePolicy F) (b : ℤ) (err : Option Error) (out : Outcome)
        (log : Log F) (w : W)
      → IsLogged pol log
      → IsEnded pol (pause_group call again ctx hedged b err out log w)
  unfolding pause_group
  pause_group-Ended pol again ih ctx hedged b err out log w h =
      let d : ℤ = compute_sleep (env.draw w).0 b hedged.retry out in
      let slept : Option Error × List Notice × W = env.sleep ctx d (env.draw w).1 in
      elim (Bool-cases (ltb_ℤ (pos 0) d)) [
        | inl s ↦ elim (Option-cases slept.0) [
          | inl n ↦ rw (s, n) (ih _ err d _ _ (note-IsLogged pol slept.1 log h))
          | inr (e, n) ↦ rw (s, n) (fail-Ended pol e _ _ (note-IsLogged pol slept.1 log h))
        ]
        | inr s ↦ rw s (ih _ err d log _ h)
      ]

  conclude_group-Ended :
      (pol : EffectivePolicy F) (again : Rounds call) (is_last : Bool)
      → (is_last ≡ false → Goes pol again)
      → (ctx : C) (hedged : EffectivePolicy F) (watched : Bool) (attempt : ℕ) (b : ℤ)
        (prev_err err : Option Error) (out : Outcome) (log : Log F) (w : W)
      → IsLogged pol log
      → IsEnded pol
          (conclude_group call again ctx hedged watched attempt is_last b prev_err err out log w)
  unfolding conclude_group
  conclude_group-Ended pol again is_last ih ctx hedged watched attempt b prev_err err out log w h =
      elim (Bool-cases (is_terminal out.kind)) [
        | inl t ↦ rw t (fail-Ended pol _ log _ h)
        | inr t ↦ elim (Bool-cases is_last) [
          | inl l ↦ rw (t, l) (fail-Ended pol _ log _ h)
          | inr l ↦ rw (t, l) (pause_group-Ended pol again (ih l) ctx hedged b err out log w h)
        ]
      ]

  group_round-Ended :
      (pol : EffectivePolicy F) (again : Rounds call) (is_last : Bool)
      → (is_last ≡ false → Goes pol again)
      → (ctx : C) (c : Classifier T) (meta : ClassifierMeta) (watched : Bool) (attempt : ℕ)
      → Goes pol (group_round call again ctx pol c meta watched attempt is_last)
  unfolding group_round
  group_round-Ended pol again is_last ih ctx c meta watched attempt b err lb log w h =
      let went : Answer T × List Notice × W = env.group ctx pol attempt c meta lb w in
      let log' : Log F = note call went.1 log in
      let w' : W = feed_all call went.1 went.2 in
      let h' : IsLogged pol log' = note-IsLogged pol went.1 log h in
      let good : Result call =
        succeed call went.0.val log' (report call watched record_success w') in
      let bad : Result call =
        conclude_group call again ctx pol watched attempt is_last b err went.0.err went.0.outcome
          log' w' in
      let all : Result call =
        group_round call again ctx pol c meta watched attempt is_last b err lb log w in
      elim (Option-cases (env.ctx_err ctx w)) [
        | inr (e, x) ↦
            by_end pol all (fail call (some e) log w) (ground (arith, x)) (fail-Ended pol e log w h)
        | inl x ↦ elim (Bool-cases went.0.success) [
          | inl s ↦
              by_end pol all good (ground (arith, x, s)) (succeed-Ended pol went.0.val log' _ h')
          | inr s ↦ by_end pol all bad (ground (arith, x, s)) (
              conclude_group-Ended pol again is_last ih ctx pol watched attempt b err went.0.err
                went.0.outcome log' w' h')
        ]
      ]

  pub group_loop-Ended :
      (pol : EffectivePolicy F) (ctx : C) (c : Classifier T) (meta : ClassifierMeta)
      (watched : Bool)
      → (left attempt : ℕ) → Goes pol (group_loop call ctx pol c meta watched (suc left) attempt)
  unfolding group_loop
  group_loop-Ended pol ctx c meta watched zero attempt b err lb log w h =
      group_round-Ended pol (group_loop call ctx pol c meta watched 0 (attempt + 1)) true
        (λ more. absurd (cc more)) ctx c meta watched attempt b err lb log w h
  group_loop-Ended pol ctx c meta watched (suc left) attempt b err lb log w h =
      group_round-Ended pol (group_loop call ctx pol c meta watched (suc left) (attempt + 1))
        (suc left == 0) (λ more. group_loop-Ended pol ctx c meta watched left (attempt + 1)) ctx c
        meta watched attempt b err lb log w h
