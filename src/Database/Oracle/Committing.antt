-- ===== src/Database/Oracle/Committing.antt =====
-- What a transaction makes durable (oracle.client.ts, `transaction`).
use nestjs_ddd_lean.Prelude.{
  ℕ, ◌≡◌, refl, sym, ap, subst, ◌∙◌, Bool, true, false, Option, none, some, ◌⊎◌, inl, inr, List, [],
  ◌∷◌, ◌++◌, String, All, All-append, is_some,
}
use nestjs_ddd_lean.Database.Mapper.{Raised}
use nestjs_ddd_lean.Database.Oracle.{
  Source, ConnectionOptions, Call, committed, returned, thrown, Ran, Resolved, refused, nobody,
  user, resolve_context_user, named, prepared, map_outcome, release, first_failure, use_prepared,
  use_connection, with_resolved, with_connection, end_transaction, in_transaction, transaction,
  map_error,
}
use nestjs_ddd_lean.Database.Oracle.Calls.{FailedAt, first_failure-FailedAt, prepared-All}
use nestjs_ddd_lean.Database.Oracle.Durable.{
  commits, work, work-append, work-durable, release-Quiet, LateCommit, Atomic,
  end_transaction-Atomic, mapped-Atomic, untouched, Work,
}

module _ (decimal : ℕ → String) (source : Source) (throws : List Call → Option Raised)
    (in_doubt : List Call → Bool) {A : Type 0} (options : ConnectionOptions)
    (fn : List Call → Ran A) where
  -- The calls that set the session up, and the work of the callback after them.
  abbrev pub setup_calls : List Call
  setup_calls = prepared source options (named (resolve_context_user source options))

  abbrev pub callback_work : Work
  callback_work = work throws in_doubt [] (setup_calls ++ (fn setup_calls).calls) untouched

  -- What becomes of a transaction whose callback ran after the calls `before`.
  abbrev AtomicAfter : (before : List Call) → Ran A → Type 0
  AtomicAfter before ran =
      Atomic throws in_doubt decimal source
        (LateCommit throws in_doubt decimal source before (fn before).calls (fn before).outcome)
        (work throws in_doubt [] (before ++ (fn before).calls) untouched) ran.outcome
        (work throws in_doubt [] ran.calls untouched)

  transacted-Atomic :
      (name : Option (List ℕ)) (f : Option (List Call × Raised))
      → FailedAt throws (λ c. commits c ≡ false) [] f
      → ((h : List Call) → All (λ c. commits c ≡ false) (fn h).calls)
      → AtomicAfter (prepared source options name) (
          use_prepared decimal source throws options name
            (in_transaction decimal source throws fn)
            f)
  unfolding use_prepared in_transaction work
  transacted-Atomic name (some (calls, e)) (done, c, same, before, last, threw) polite =
      let quiet : All (λ c. commits c ≡ false) calls =
        subst (All (λ c. commits c ≡ false)) (sym same)
          (All-append (λ c. commits c ≡ false) done (c ∷ []) before (last, tt)) in
      inr (e, refl, inl (work-durable throws in_doubt [] calls untouched quiet))
  transacted-Atomic name none failed polite =
      let Late =
        LateCommit throws in_doubt decimal source (prepared source options name)
          (fn (prepared source options name)).calls (fn (prepared source options name)).outcome in
      let before = prepared source options name in
      let ran = fn before in
      let r = end_transaction decimal source throws before ran ran.outcome in
      let w0 = work throws in_doubt [] before untouched in
      let (tail, same, quiet) =
        release-Quiet throws in_doubt decimal source (before ++ r.calls) (is_some name) in
      let calls = (release decimal source throws (before ++ r.calls) (is_some name)).0 in
      let start : w0.durable ≡ [] =
        work-durable throws in_doubt [] before untouched
          (prepared-All (λ c. commits c ≡ false) (λ n. refl) (λ u. refl) source options name) in
      let nothing : (work throws in_doubt before ran.calls w0).durable ≡ [] =
        work-durable throws in_doubt before ran.calls w0 (polite before) ∙ start in
      let kept : (work throws in_doubt [] calls untouched).durable
          ≡ (work throws in_doubt before r.calls w0).durable =
        ap (λ cs. (work throws in_doubt [] cs untouched).durable) same
        ∙ (ap (λ v. v.durable) (work-append throws in_doubt [] (before ++ r.calls) tail untouched)
            ∙ (work-durable throws in_doubt (before ++ r.calls) tail _ quiet
                ∙ ap (λ v. v.durable) (work-append throws in_doubt [] before r.calls untouched))) in
      subst
        (λ d.
          Atomic throws in_doubt decimal source Late d
            (map_outcome (λ e. map_error decimal source throws e options.tag) r.outcome)
            (work throws in_doubt [] calls untouched))
        (sym (work-append throws in_doubt [] before ran.calls untouched))
        (mapped-Atomic throws in_doubt decimal source Late
          (work throws in_doubt before ran.calls w0) (work throws in_doubt before r.calls w0)
          (work throws in_doubt [] calls untouched)
          (λ e. map_error decimal source throws e options.tag) r.outcome kept
          (end_transaction-Atomic throws in_doubt decimal source before ran ran.outcome w0 refl
            nothing))

  set_up :
      (name : Option (List ℕ))
      → FailedAt throws
          (λ c. commits c ≡ false)
          []
          (first_failure throws [] (prepared source options name))
  set_up name =
      first_failure-FailedAt throws (λ c. commits c ≡ false) [] (prepared source options name)
        (prepared-All (λ c. commits c ≡ false) (λ n. refl) (λ u. refl) source options name)

  with_resolved-Atomic :
      (resolved : Resolved) (acquired : Option Raised)
      → ((h : List Call) → All (λ c. commits c ≡ false) (fn h).calls)
      → AtomicAfter (prepared source options (named resolved)) (
          with_resolved decimal source throws options
            (in_transaction decimal source throws fn)
            resolved
            acquired)
  unfolding with_resolved use_connection work
  with_resolved-Atomic (refused e) acquired polite = inr (_, refl, inl refl)
  with_resolved-Atomic nobody (some e) polite = inr (_, refl, inl refl)
  with_resolved-Atomic (user u) (some e) polite = inr (_, refl, inl refl)
  with_resolved-Atomic nobody none polite = transacted-Atomic none _ (set_up none) polite
  with_resolved-Atomic (user u) none polite =
      transacted-Atomic (named (user u)) _ (set_up (named (user u))) polite

  -- For a callback that does not commit by itself, and any answers of the driver: either the
  -- transaction returns a value, and then all that the callback's statements did, and nothing else, is
  -- durable, or it throws, and then nothing is, unless the callback had returned and its commit failed
  -- in doubt, that is, was done all the same: then, too, all that the callback did is durable, and
  -- nothing else.
  pub transaction_atomic :
      (acquired : Option Raised)
      → ((h : List Call) → All (λ c. commits c ≡ false) (fn h).calls)
      → let ran = transaction decimal source throws acquired options fn in
        let w = work throws in_doubt [] ran.calls untouched in
        let tried = (setup_calls ++ (fn setup_calls).calls) ++ committed ∷ [] in
        ((a : A) × (ran.outcome ≡ returned a) × (w.durable ≡ callback_work.pending))
        ⊎ ((e : Raised) × (ran.outcome ≡ thrown e)
            × ((w.durable ≡ [])
                ⊎ (((a : A) × (r : Raised) × ((fn setup_calls).outcome ≡ returned a)
                      × (throws tried ≡ some r)
                      × (in_doubt tried ≡ true))
                    × (w.durable ≡ callback_work.pending))))
  unfolding transaction with_connection
  transaction_atomic acquired polite =
      with_resolved-Atomic (resolve_context_user source options) acquired polite
