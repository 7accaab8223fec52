-- ===== src/Database/Oracle/Durable.antt =====
-- The work that is done at a connection (oracle.client.ts), as Oracle documents it: a statement that
-- fails does nothing, closing a connection rolls back what is pending, and a commit that fails is in
-- doubt: it may have been done, all of it, or not, which the parameter `in_doubt` says.
use nestjs_ddd_lean.Prelude.{
  ℕ, ◌≡◌, refl, ap, subst, ◌∙◌, Bool, true, false, Option, none, some, ◌⊎◌, inl, inr, List, [], ◌∷◌,
  ◌++◌, append_assoc, append-nil, String, All, All-append, arith,
}
use nestjs_ddd_lean.Database.Mapper.{Raised}
use nestjs_ddd_lean.Database.Oracle.{
  Source, Call, set_client_id, set_call_timeout, used, pinged, committed, rolled_back, close, Log,
  context_clear_failed, Outcome, returned, thrown, Ran, map_outcome, clear_context, clearing,
  cleared, closed, close_connection, release, commit_with, end_transaction,
}
use nestjs_ddd_lean.Database.Oracle.Calls.{FailedAt, first_failure-FailedAt}

-- The statements that are done, by their numbers.
pub record Work : Type 0 where
  pub pending : List ℕ
  pub durable : List ℕ

abbrev commit_work : Option Raised → (done : Bool) → Work → Work
commit_work none done w = record { pending = []; durable = w.durable ++ w.pending }
commit_work (some e) true w = record { pending = []; durable = w.durable ++ w.pending }
commit_work (some e) false w = w

abbrev work_call : Option Raised → (done : Bool) → Call → Work → Work
work_call answer done committed w = commit_work answer done w
work_call none done (used n) w = record { pending = w.pending ++ n ∷ []; durable = w.durable }
work_call none done rolled_back w = record { pending = []; durable = w.durable }
work_call answer done (close drop) w = record { pending = []; durable = w.durable }
work_call answer done c w = w

abbrev pub commits : Call → Bool
commits committed = true
commits _ = false

either_durable :
    (Late : Type 0) (done c d : List ℕ)
    → d ≡ c
    → (c ≡ []) ⊎ (Late × (c ≡ done))
    → (d ≡ []) ⊎ (Late × (d ≡ done))
either_durable Late done c d same (inl h) = inl (same ∙ h)
either_durable Late done c d same (inr (late, h)) = inr (late, same ∙ h)

module _ (throws : List Call → Option Raised) (in_doubt : List Call → Bool) where
  unfoldable pub work : (history calls : List Call) → Work → Work
  work history [] w = w
  work history (c ∷ cs) w =
      work (history ++ c ∷ []) cs
        (work_call (throws (history ++ c ∷ [])) (in_doubt (history ++ c ∷ [])) c w)

  pub work-append :
      (history xs ys : List Call) (w : Work)
      → work history (xs ++ ys) w ≡ work (history ++ xs) ys (work history xs w)
  unfolding work
  work-append history [] ys w = rw append-nil refl
  work-append history (c ∷ cs) ys w =
      work-append (history ++ c ∷ []) cs ys
        (work_call (throws (history ++ c ∷ [])) (in_doubt (history ++ c ∷ [])) c w)
      ∙ rw append_assoc refl

  work_call-durable :
      (answer : Option Raised) (done : Bool) (c : Call) (w : Work)
      → commits c ≡ false
      → (work_call answer done c w).durable ≡ w.durable
  work_call-durable answer done committed w h = absurd (ground arith)
  work_call-durable none done (used n) w h = refl
  work_call-durable (some e) done (used n) w h = refl
  work_call-durable none done rolled_back w h = refl
  work_call-durable (some e) done rolled_back w h = refl
  work_call-durable none done pinged w h = refl
  work_call-durable (some e) done pinged w h = refl
  work_call-durable none done (set_client_id u) w h = refl
  work_call-durable (some e) done (set_client_id u) w h = refl
  work_call-durable none done (set_call_timeout n) w h = refl
  work_call-durable (some e) done (set_call_timeout n) w h = refl
  work_call-durable none done (close d) w h = refl
  work_call-durable (some e) done (close d) w h = refl

  pub work-durable :
      (history cs : List Call) (w : Work)
      → All (λ c. commits c ≡ false) cs
      → (work history cs w).durable ≡ w.durable
  unfolding work
  work-durable history [] w h = refl
  work-durable history (c ∷ cs) w (h, hs) =
      work-durable (history ++ c ∷ []) cs
        (work_call (throws (history ++ c ∷ [])) (in_doubt (history ++ c ∷ [])) c w) hs
      ∙ work_call-durable (throws (history ++ c ∷ [])) (in_doubt (history ++ c ∷ [])) c w h

  -- A failed commit, for the doubt about it.
  lost_commit :
      (history calls : List Call) (w : Work) (e : Raised) (doubt : Bool) (Late : Type 0)
      → (doubt ≡ true → Late)
      → throws ((history ++ calls) ++ committed ∷ []) ≡ some e
      → in_doubt ((history ++ calls) ++ committed ∷ []) ≡ doubt
      → (work history calls w).durable ≡ []
      → let d = (work history (calls ++ committed ∷ []) w).durable in
        (d ≡ []) ⊎ (Late × (d ≡ (work history calls w).pending))
  unfolding work
  lost_commit history calls w e false Late late h k nothing =
      let done = work history calls w in
      inl (
        ap (λ v. v.durable) (work-append history calls (committed ∷ []) w)
        ∙ (ap
              (λ x.
                (work_call x (in_doubt ((history ++ calls) ++ committed ∷ [])) committed
                  done).durable)
              h
            ∙ (ap (λ b. (work_call (some e) b committed done).durable) k ∙ nothing)))
  lost_commit history calls w e true Late late h k nothing =
      let done = work history calls w in
      inr (
        late refl,
        ap (λ v. v.durable) (work-append history calls (committed ∷ []) w)
            ∙ (ap
                  (λ x.
                    (work_call x (in_doubt ((history ++ calls) ++ committed ∷ [])) committed
                      done).durable)
                  h
                ∙ (ap (λ b. (work_call (some e) b committed done).durable) k
                    ∙ ap (λ d. d ++ done.pending) nothing)),
      )

  module _ (decimal : ℕ → String) (source : Source) where
    -- What comes after the callback's calls commits nothing.
    abbrev Quiet : List Call → List Call → Type 0
    Quiet history calls =
        (tail : List Call) × (calls ≡ history ++ tail) × All (λ c. commits c ≡ false) tail

    closed-Quiet :
        (history : List Call) (drop : Bool) (logs : List Log) (answer : Option Raised)
        → Quiet history (closed decimal source throws history drop logs answer).0
    unfolding closed
    closed-Quiet history drop logs none = (_, refl, (refl, (refl, tt)))
    closed-Quiet history drop logs (some e) = (_, refl, (refl, tt))

    Quiet-append :
        (history mid calls : List Call)
        → All (λ c. commits c ≡ false) mid
        → Quiet (history ++ mid) calls
        → Quiet history calls
    Quiet-append history mid calls h (tail, same, quiet) = (
      mid ++ tail,
      same ∙ append_assoc history mid tail,
      All-append (λ c. commits c ≡ false) mid tail h quiet,
    )

    cleared-Quiet :
        (history : List Call) (f : Option (List Call × Raised))
        → FailedAt throws (λ c. commits c ≡ false) history f
        → Quiet history
            (close_connection decimal source throws (cleared decimal source throws history f)).0
    unfolding close_connection cleared
    cleared-Quiet history none failed =
        Quiet-append history (clearing decimal source throws) _ (refl, (refl, (refl, tt)))
          (closed-Quiet (history ++ clearing decimal source throws) false _ _)
    cleared-Quiet history (some (calls, e)) (done, c, same, before, last, threw) =
        let logs = context_clear_failed ∷ [] in
        let answer = throws (calls ++ set_call_timeout source.call_timeout_ms ∷ []) in
        Quiet-append history (done ++ c ∷ []) _
          (All-append (λ c. commits c ≡ false) done (c ∷ []) before (last, tt))
          (subst (λ h. Quiet h (closed decimal source throws calls true logs answer).0) same
            (closed-Quiet calls true logs answer))

    pub release-Quiet :
        (history : List Call) (clear : Bool)
        → Quiet history (release decimal source throws history clear).0
    unfolding release clear_context close_connection
    release-Quiet history false = closed-Quiet history false _ _
    release-Quiet history true = cleared-Quiet history _ (
        first_failure-FailedAt throws (λ c. commits c ≡ false) history
          (clearing decimal source throws) (refl, (refl, (refl, tt))))

    module _ {A : Type 0} where
      -- The commit after a callback's calls failed although it was done.
      abbrev pub LateCommit : (history calls : List Call) → Outcome A → Type 0
      LateCommit history calls outcome =
          (a : A) × (e : Raised) × (outcome ≡ returned a)
          × (throws ((history ++ calls) ++ committed ∷ []) ≡ some e)
          × (in_doubt ((history ++ calls) ++ committed ∷ []) ≡ true)

      -- What a callback and the end of its transaction come to, after the calls before it.
      abbrev pub Atomic : (Late : Type 0) (done : Work) → Outcome A → Work → Type 0
      Atomic Late done outcome w =
          ((a : A) × (outcome ≡ returned a) × (w.durable ≡ done.pending))
          ⊎ ((e : Raised) × (outcome ≡ thrown e)
              × ((w.durable ≡ []) ⊎ (Late × (w.durable ≡ done.pending))))

      commit_with-Atomic :
          (history calls : List Call) (ran : Ran A) (a : A) (answer : Option Raised) (w : Work)
          → throws ((history ++ calls) ++ committed ∷ []) ≡ answer
          → ran.outcome ≡ returned a
          → (work history calls w).durable ≡ []
          → let r =
              commit_with decimal source throws history
                (record ran { calls = calls ++ committed ∷ [] })
                answer in
            Atomic
              (LateCommit history calls ran.outcome)
              (work history calls w)
              r.outcome
              (work history r.calls w)
      unfolding work
      commit_with-Atomic history calls ran a none w h same nothing =
          let done = work history calls w in
          inl (
            a,
            same,
            ap (λ v. v.durable) (work-append history calls (committed ∷ []) w)
                ∙ (ap
                      (λ x.
                        (work_call x (in_doubt ((history ++ calls) ++ committed ∷ [])) committed
                          done).durable)
                      h
                    ∙ ap (λ d. d ++ done.pending) nothing),
          )
      commit_with-Atomic history calls ran a (some e) w h same nothing =
          let tried = calls ++ committed ∷ [] in
          inr (
            e,
            refl,
            either_durable _ (work history calls w).pending (work history tried w).durable _
                (ap (λ v. v.durable) (work-append history tried (rolled_back ∷ []) w)
                  ∙ work-durable (history ++ tried) (rolled_back ∷ []) (work history tried w)
                      (refl, tt))
                (lost_commit history calls w e (in_doubt ((history ++ calls) ++ committed ∷ []))
                  (LateCommit history calls ran.outcome) (λ doubt. (a, e, same, h, doubt)) h refl
                  nothing),
          )

      pub end_transaction-Atomic :
          (history : List Call) (ran : Ran A) (outcome : Outcome A) (w : Work)
          → ran.outcome ≡ outcome
          → (work history ran.calls w).durable ≡ []
          → let r = end_transaction decimal source throws history ran outcome in
            Atomic
              (LateCommit history ran.calls ran.outcome)
              (work history ran.calls w)
              r.outcome
              (work history r.calls w)
      end_transaction-Atomic history ran (returned a) w same nothing =
          commit_with-Atomic history ran.calls ran a _ w
            (ap throws (append_assoc history ran.calls (committed ∷ []))) same nothing
      end_transaction-Atomic history ran (thrown e) w same nothing = inr (
        e,
        refl,
        inl (
            ap (λ v. v.durable) (work-append history ran.calls (rolled_back ∷ []) w)
            ∙ (work-durable (history ++ ran.calls) (rolled_back ∷ []) (work history ran.calls w)
                  (refl, tt)
                ∙ nothing)),
      )

      pub mapped-Atomic :
          (Late : Type 0) (done w v : Work) (f : Raised → Raised) (outcome : Outcome A)
          → v.durable ≡ w.durable
          → Atomic Late done outcome w
          → Atomic Late done (map_outcome f outcome) v
      mapped-Atomic Late done w v f outcome same (inl (a, o, d)) =
          inl (a, ap (map_outcome f) o, same ∙ d)
      mapped-Atomic Late done w v f outcome same (inr (e, o, d)) =
          inr
            (f e, ap (map_outcome f) o, either_durable Late done.pending w.durable v.durable same d)

abbrev pub untouched : Work
untouched = record { pending = []; durable = [] }
