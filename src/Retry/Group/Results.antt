-- ===== src/Retry/Group/Results.antt =====
-- retry/group.go: what a group returns.
use rego.Common.{
  ℕ, ◌≡◌, true, false, ◌&&◌, [], ◌∷◌, Option, none, some, subst, Bool-cases, inl, inr, All,
  All-append, ◌==◌,
}
use rego.Errors.{Error}
use rego.Retry.Group.{
  GroupResult, GroupConfig, Caller, waiting, deciding, finished, Group, Source, start, is_success,
  is_terminal, canceled_outcome, receive, decide, Step, finish, retire, spawn, poll, stop_spawner,
  take_result, load_active, cancel, give_up, Reach, here, next,
}

module _ {T : Type 0} where
  -- Some attempt can send this result.
  abbrev pub IsSent : Source T → GroupResult T → Type 0
  IsSent classified r = (i : ℕ) × classified i r

  -- How the caller came to be where it is. A success it reports is an attempt's success, with no
  -- error; a failure is an attempt's failure, with that attempt's error, or the context's error.
  pub data Justified (classified : Source T) (ctx_err : Option Error) : Caller T → Type 0 where
    waits : Justified classified ctx_err waiting
    decides :
        (r : GroupResult T)
        → IsSent classified r
        → is_success r.outcome.kind ≡ false
        → Justified classified ctx_err (deciding r)
    succeeds :
        (r : GroupResult T)
        → IsSent classified r
        → is_success r.outcome.kind ≡ true
        → Justified classified ctx_err (finished r.val none r.outcome true)
    fails :
        (r : GroupResult T)
        → IsSent classified r
        → is_success r.outcome.kind ≡ false
        → Justified classified ctx_err (finished r.val r.err r.outcome false)
    gives_up :
        (e : Error)
        → ctx_err ≡ some e
        → Justified classified ctx_err (finished none (some e) canceled_outcome false)

  receive-Justified :
      (c : GroupConfig) (classified : Source T) (ctx_err : Option Error) (r : GroupResult T)
      → IsSent classified r
      → Justified classified ctx_err (receive c r)
  unfolding receive
  receive-Justified c classified ctx_err r k = elim (Bool-cases (is_success r.outcome.kind)) [
    | inl s ↦ rw s (succeeds r k s)
    | inr f ↦ elim (Bool-cases (c.cancel_on_first_terminal && is_terminal r.outcome.kind)) [
      | inl t ↦ rw (f, t) (fails r k f)
      | inr t ↦ rw (f, t) (decides r k f)
    ]
  ]

  decide-Justified :
      (classified : Source T) (ctx_err : Option Error) (active : ℕ) (r : GroupResult T)
      → IsSent classified r
      → is_success r.outcome.kind ≡ false
      → Justified classified ctx_err (decide active r)
  unfolding decide
  decide-Justified classified ctx_err active r k f = elim (Bool-cases (active == 0)) [
    | inl z ↦ rw z (fails r k f)
    | inr z ↦ rw z waits
  ]

  record Traced (classified : Source T) (s : Group T) : Type 0 where
    in_channel : All (IsSent classified) s.results
    at_caller : Justified classified s.ctx_err s.caller

  deciding-IsSent :
      {classified : Source T} {ctx_err : Option Error} {caller : Caller T} (r : GroupResult T)
      → Justified classified ctx_err caller
      → caller ≡ deciding r
      → IsSent classified r × (is_success r.outcome.kind ≡ false)
  deciding-IsSent r waits e = absurd (cc e)
  deciding-IsSent {classified} r (decides r' k f) e =
      let same : r' ≡ r = cc e in
      (
        subst (IsSent classified) same k,
        subst (λ (x : GroupResult T). is_success x.outcome.kind ≡ false) same f,
      )
  deciding-IsSent r (succeeds r' k f) e = absurd (cc e)
  deciding-IsSent r (fails r' k f) e = absurd (cc e)
  deciding-IsSent r (gives_up e' x) e = absurd (cc e)

  canceled_Justified :
      {classified : Source T} {caller : Caller T} (e : Error)
      → Justified classified none caller
      → Justified classified (some e) caller
  canceled_Justified e waits = waits
  canceled_Justified e (decides r k f) = decides r k f
  canceled_Justified e (succeeds r k f) = succeeds r k f
  canceled_Justified e (fails r k f) = fails r k f
  canceled_Justified e (gives_up e' x) = absurd (cc x)

  Step-Traced :
      {c : GroupConfig} {classified : Source T} {s t : Group T}
      → Step c classified s t
      → Traced classified s
      → Traced classified t
  Step-Traced {classified} {s = s} (finish i r w k) v = record {
    in_channel = All-append (IsSent classified) s.results (r ∷ []) v.in_channel ((i, k), tt);
    at_caller = v.at_caller;
  }
  Step-Traced (retire i w) v = record { in_channel = v.in_channel; at_caller = v.at_caller }
  Step-Traced (spawn r l) v = record { in_channel = v.in_channel; at_caller = v.at_caller }
  Step-Traced (poll r) v = v
  Step-Traced (stop_spawner r) v = record { in_channel = v.in_channel; at_caller = v.at_caller }
  Step-Traced {c} {classified} {s = s} (take_result r rest w e) v =
      let held = subst (All (IsSent classified)) e v.in_channel in
      record { in_channel = held.1; at_caller = receive-Justified c classified s.ctx_err r held.0 }
  Step-Traced {classified} {s = s} (load_active r d) v =
      let known = deciding-IsSent r v.at_caller d in
      record {
        in_channel = v.in_channel;
        at_caller = decide-Justified classified s.ctx_err s.active r known.0 known.1;
      }
  Step-Traced {classified} {s = s} (cancel e n) v = record {
    in_channel = v.in_channel;
    at_caller = canceled_Justified e (subst (λ x. Justified classified x s.caller) n v.at_caller);
  }
  Step-Traced (give_up e w x) v = record { in_channel = v.in_channel; at_caller = gives_up e x }

  Reach-Traced :
      {c : GroupConfig} {classified : Source T} {s t : Group T}
      → Traced classified s
      → Reach c classified s t
      → Traced classified t
  Reach-Traced v here = v
  Reach-Traced v (next r st) = Step-Traced st (Reach-Traced v r)

  start-Traced : (c : GroupConfig) (classified : Source T) → Traced classified (start c)
  unfolding start
  start-Traced c classified = record { in_channel = tt; at_caller = waits }

  -- In every interleaving, what the caller returns is justified: a success is the value and outcome
  -- of an attempt that succeeded, without an error; a failure is the value, error and outcome of an
  -- attempt that failed; and the only other result is the error of the caller's context, with the
  -- outcome of a cancellation.
  pub group_result-Justified :
      (c : GroupConfig) (classified : Source T) (s : Group T)
      → Reach c classified (start c) s
      → Justified classified s.ctx_err s.caller
  group_result-Justified c classified s r = (Reach-Traced (start-Traced c classified) r).at_caller
