-- ===== src/Engine/Coordinator/Claims.antt =====
-- engine/coordinator.py: what the loop of a round claims.
use mathlib.Core.Path.{subst}
use mathlib.Core.List.{append_assoc, append-nil}
use runspool.Prelude.{
  ℕ, ◌+◌, ◌≤◌, ◌<◌, String, Bool, true, false, ◌≡◌, refl, sym, ap, ◌∙◌, ◌⊎◌, inl, inr, Option, none,
  some, List, [], ◌∷◌, ◌++◌, arith, leb, if◌then◌else◌, ◌==◌, string_eq,
}
use runspool.Prelude.Exec.{Result, ok, err, pure, continue-eq-ok}
use runspool.Engine.Coordinator.{
  Coordinator, Scheduled, Job, Here, C, Round, in_store, state_machine_for, submit, locked, load_of,
  claimed_round, claim_round, guarded_round, registered_round, machine_round, consider,
  consider_all, is_later, fresh_token, worker_name,
}
use runspool.Engine.Coordinator.Loads.{
  jobs_of, count_claims, load-bump, jobs_of-append, count_claims-append,
}
use runspool.Machine.Outcome.{StateMachine}
use runspool.Machine.Scheduler.{claim, skip_step}
use runspool.Models.{Error}
use runspool.Store.Rows.{Task}
use text.Mathlib.TextEquality.{eq_iff}
use runspool.Engine.Coordinator.Calls.{
  skips, loses, Calls, rest, other, wins, Calls-trans, value_eq, in_store-jobs, ran, Unclaimed,
  same-Unclaimed, single_step,
}

module _ (c : Coordinator) where
  -- What a part of the round claimed: each claim succeeded and is a job, and counts in the load, which
  -- a step's claims take to its quota at most.
  pub record Claimed (s s' : Round) (h h' : Here) : Type 0 where
    pub claims : List (Task × String)
    pub jobs : h'.jobs ≡ h.jobs ++ jobs_of claims
    pub calls : Calls h.world claims h'.world
    pub counted :
        (step : String) → load_of s'.load step ≡ load_of s.load step + count_claims step claims
    pub within :
        (step : String)
        → (count_claims step claims ≡ 0)
          ⊎ (load_of s.load step + count_claims step claims ≤ c.step_quota step)

  pub nothing : (s s' : Round) (h h' : Here) → s'.load ≡ s.load → Unclaimed h h' → Claimed s s' h h'
  nothing s s' h h' e k = record {
    claims = [];
    jobs = k.jobs ∙ sym (append-nil h.jobs);
    calls = k.calls;
    counted = λ step. rw e (omega arith);
    within = λ step. inl refl;
  }

  pub both :
      (s s1 s2 : Round) (h h1 h2 : Here)
      → Claimed s s1 h h1
      → Claimed s1 s2 h1 h2
      → Claimed s s2 h h2
  both s s1 s2 h h1 h2 a b = record {
    claims = a.claims ++ b.claims;
    calls = Calls-trans a.calls b.calls;
    jobs =
        b.jobs
        ∙ ap (λ (js : List Job). js ++ jobs_of b.claims) a.jobs
        ∙ append_assoc h.jobs (jobs_of a.claims) (jobs_of b.claims)
        ∙ ap (λ (js : List Job). h.jobs ++ js) (sym (jobs_of-append a.claims b.claims));
    counted = λ step.
        omega (arith, a.counted step, b.counted step, count_claims-append step a.claims b.claims);
    within = λ step. ground (
      arith,
      a.counted step,
      b.counted step,
      a.within step,
      b.within step,
      count_claims-append step a.claims b.claims,
    );
  }

  module _ (s s' : Round) (h h' : Here) where
    unchanged : pure {E = Error} s h ≡ (ok s', h') → Claimed s s' h h'
    unchanged e =
        let (same, here) = value_eq s s' h h' e in
        nothing s s' h h' (ap (λ (x : Round). x.load) (sym same)) (same-Unclaimed h h' here)

    unless_skipped :
        (b : Bool) (m : C Round)
        → (b ≡ false → m h ≡ (ok s', h') → Claimed s s' h h')
        → (if b then pure s else m) h ≡ (ok s', h')
        → Claimed s s' h h'
    unless_skipped true m k e = unchanged e
    unless_skipped false m k e = k refl e

    module _ (t : Task) (free : load_of s.load t.step < c.step_quota t.step) where
      one_within :
          (step : String) (b : Bool)
          → (t.step == step) ≡ b
          → ((if b then 1 else 0) + 0 ≡ 0)
            ⊎ (load_of s.load step + ((if b then 1 else 0) + 0) ≤ c.step_quota step)
      one_within step false e = inl refl
      one_within step true e = inr (
          subst (λ (k : String). load_of s.load k + (1 + 0) ≤ c.step_quota k)
            ((eq_iff t.step step).0 e) (omega (arith, free)))

      claimed_round-Claimed :
          (m : StateMachine) (token : String) (won : Bool) (u : Here)
          → u.jobs ≡ h.jobs
          → claim m t.id (worker_name t.id) (some token) h.world ≡ (ok won, u.world)
          → claimed_round s t token won u ≡ (ok s', h')
          → Claimed s s' h h'
      unfolding submit locked
      claimed_round-Claimed m token false u k lost e =
          let (same, here) = value_eq s s' u h' e in
          nothing s s' h h' (ap (λ (x : Round). x.load) (sym same)) (
            subst (Unclaimed h) here
              (record { jobs = k; calls = other (loses m t token lost) rest }))
      claimed_round-Claimed m token true u k won e =
          let (same, here) = value_eq _ s' _ h' e in
          record {
            claims = (t, token) ∷ [];
            jobs =
                ap (λ (x : Here). x.jobs) (sym here)
                ∙ ap (λ (js : List Job). js ++ (record { task_id = t.id; token = token } ∷ [])) k;
            calls =
                subst (λ (x : Here). Calls h.world ((t, token) ∷ []) x.world) here
                  (wins m t token won rest);
            counted = λ step.
                ap (λ (x : Round). load_of x.load step) (sym same)
                ∙ load-bump t.step step s.load
                ∙ omega arith;
            within = λ step. one_within step (t.step == step) refl;
          }

      claim_round-Claimed :
          (m : StateMachine) → claim_round m s t h ≡ (ok s', h') → Claimed s s' h h'
      unfolding claim_round
      claim_round-Claimed m e =
          let token = h.uuid h.issued in
          let call = claim m t.id (worker_name t.id) (some token) in
          let k : Here = (fresh_token h).1 in
          let (won, u, first, last) = continue-eq-ok _ (in_store call k) s' h' e in
          claimed_round-Claimed m token won u (in_store-jobs call k u won first)
            (ran (call h.world) k u won first) last

      guarded_round-Claimed :
          (m : StateMachine) (r : Result Error Bool)
          → guarded_round m s t r h ≡ (ok s', h')
          → Claimed s s' h h'
      guarded_round-Claimed m (err x) e = absurd (cc)
      guarded_round-Claimed m (ok true) e = claim_round-Claimed m e
      guarded_round-Claimed m (ok false) e =
          let (done, u, first, last) = continue-eq-ok _ (in_store (skip_step m t.id) h) s' h' e in
          let (same, here) = value_eq _ s' u h' last in
          nothing s s' h h' (ap (λ (x : Round). x.load) (sym same)) (
            subst (Unclaimed h) here
              (single_step (skip_step m t.id) h u done (λ v f. skips m t.id f) first))

      machine_round-Claimed :
          (o : Option StateMachine) (step : Option Scheduled)
          → c.registry t.step ≡ step
          → machine_round c s t o h ≡ (ok s', h')
          → Claimed s s' h h'
      machine_round-Claimed none step r e = unchanged e
      machine_round-Claimed (some m) step r e =
          registered step
            (subst (λ (x : Option Scheduled). registered_round m s t x h ≡ (ok s', h')) r e)
        where
          registered :
              (x : Option Scheduled) → registered_round m s t x h ≡ (ok s', h') → Claimed s s' h h'
          registered none e = unchanged e
          registered (some q) e = guarded_round-Claimed m (q.when t) e

    consider-Claimed : (now : ℕ) (t : Task) → consider c now s t h ≡ (ok s', h') → Claimed s s' h h'
    unfolding consider
    consider-Claimed now t = unless_skipped (is_later now t.next_retry_at) _ λ _.
        unless_skipped (leb (c.step_quota t.step) (load_of s.load t.step)) _ λ free.
          machine_round-Claimed t (ground arith) (state_machine_for c t) (c.registry t.step) refl

  pub consider_all-Claimed :
      (now : ℕ) (ts : List Task) (s s' : Round) (h h' : Here)
      → consider_all c now s ts h ≡ (ok s', h')
      → Claimed s s' h h'
  unfolding consider_all
  consider_all-Claimed now [] s s' h h' e = unchanged s s' h h' e
  consider_all-Claimed now (t ∷ ts) s s' h h' e =
      let (s1, h1, first, last) = continue-eq-ok _ (consider c now s t h) s' h' e in
      both s s1 s' h h1 h' (consider-Claimed s s1 h h1 now t first)
        (consider_all-Claimed now ts s1 s' h1 h' last)
