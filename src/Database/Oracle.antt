-- ===== src/Database/Oracle.antt =====
-- src/infrastructure/database/clients/oracle.client.ts. A connection is the history of what was done
-- with it since it was borrowed; what the driver answers to a call is a parameter that may depend on the
-- whole history. A callback adds calls to the history and returns or throws.
pub mod Calls
pub mod Session
pub mod Identity
pub mod Giving
pub mod Durable
pub mod Committing
mod Tests
use nestjs_ddd_lean.Prelude.{
  ℕ, zero, suc, Bool, true, false, not, Option, none, some, List, [], ◌∷◌, ◌++◌, String,
  if◌then◌else◌, ltb, leb, or_else, is_some, is_empty,
}
use nestjs_ddd_lean.Errors.{◌<>◌, AppError, unauthorized_error, database_connection_error}
use nestjs_ddd_lean.Database.Text.{trim, truncate_bytes}
use nestjs_ddd_lean.Database.Mapper.{Raised, app_error, raised_message, map_oracle_error}

pub record ContextUser : Type 0 where
  pub enabled : Bool
  pub required : Bool
  pub max_length : ℕ

-- The fields of a source that the client reads.
pub record Source : Type 0 where
  pub key : String
  pub call_timeout_ms : ℕ
  pub pool_ping_timeout_ms : ℕ
  pub context_user : ContextUser
  pub pings_natively : Bool

-- `ConnectionOptions`
pub record ConnectionOptions : Type 0 where
  pub context_user : Option (List ℕ)
  pub username : Option (List ℕ)
  pub call_timeout_ms : Option ℕ
  pub tag : Option String

-- What is done with a connection; `used` is a round trip of a callback's own.
pub data Call : Type 0 where
  set_client_id : List ℕ → Call
  set_call_timeout : ℕ → Call
  used : ℕ → Call
  pinged committed rolled_back : Call
  close : (drop : Bool) → Call

pub data Log : Type 0 where
  rollback_failed context_clear_failed release_failed : Log

pub data Outcome (A : Type 0) : Type 0 where
  returned : A → Outcome A
  thrown : Raised → Outcome A

pub record Ran (A : Type 0) : Type 0 where
  pub calls : List Call
  pub logs : List Log
  pub outcome : Outcome A

pub data Resolved : Type 0 where
  refused : AppError → Resolved
  nobody : Resolved
  user : List ℕ → Resolved

-- `resolveContextUser`
unfoldable pub resolve_context_user : Source → ConnectionOptions → Resolved
resolve_context_user source options =
    let raw = trim (or_else options.context_user (or_else options.username [])) in
    if not source.context_user.enabled
    then nobody
    else if is_empty raw
    then (if source.context_user.required
        then refused (
            unauthorized_error ("Database source \"" <> source.key <> "\" requires a context user")
              none)
        else nobody)
    else user (truncate_bytes raw source.context_user.max_length)

-- `if (contextUser)`: a name that was cut to nothing sets no identity.
abbrev pub named : Resolved → Option (List ℕ)
named (refused e) = none
named nobody = none
named (user []) = none
named (user (c ∷ cs)) = some (c ∷ cs)

-- The calls before the callback runs.
abbrev pub prepared : Source → ConnectionOptions → Option (List ℕ) → List Call
prepared source options name =
    let timeout = or_else options.call_timeout_ms source.call_timeout_ms in
    (if ltb 0 timeout then set_call_timeout timeout ∷ [] else [])
    ++ elim name [ none ↦ [] | some u ↦ set_client_id u ∷ [] ]

-- `poolPingTimeoutMs || 5000`
abbrev pub ping_timeout : ℕ → ℕ
ping_timeout zero = 5000
ping_timeout (suc n) = suc n

abbrev pub map_outcome : {A : Type 0} → (Raised → Raised) → Outcome A → Outcome A
map_outcome f (returned a) = returned a
map_outcome f (thrown e) = thrown (f e)

module _ (throws : List Call → Option Raised) where
  -- Calls one after the other: the history and the error of the first one that throws, if one does.
  unfoldable pub first_failure : (history calls : List Call) → Option (List Call × Raised)
  first_failure history [] = none
  first_failure history (c ∷ cs) = elim (throws (history ++ c ∷ [])) [
    | none ↦ first_failure (history ++ c ∷ []) cs
    | some e ↦ some (history ++ c ∷ [], e)
  ]

module _ (decimal : ℕ → String) (source : Source) (throws : List Call → Option Raised) where
  -- The clearing of the identity, in one `try`: the calls, and whether the connection is to be dropped.
  abbrev pub clearing : List Call
  clearing =
      set_client_id [] ∷ set_call_timeout (ping_timeout source.pool_ping_timeout_ms) ∷ pinged ∷ []

  unfoldable pub cleared :
      (history : List Call) → Option (List Call × Raised) → List Call × Bool × List Log
  cleared history none = (history ++ clearing, false, [])
  cleared history (some (calls, e)) = (calls, true, context_clear_failed ∷ [])

  unfoldable pub clear_context : List Call → Bool → List Call × Bool × List Log
  clear_context history false = (history, false, [])
  clear_context history true = cleared history (first_failure throws history clearing)

  -- The second `try`, by the answer to its setter: if that throws, the connection is not closed.
  unfoldable pub closed :
      (history : List Call) (drop : Bool) (logs : List Log) (answer : Option Raised)
      → List Call × List Log
  closed history drop logs (some e) =
      (history ++ set_call_timeout source.call_timeout_ms ∷ [], logs ++ release_failed ∷ [])
  closed history drop logs none =
      let calls = history ++ set_call_timeout source.call_timeout_ms ∷ close drop ∷ [] in
      (calls, logs ++ elim (throws calls) [ none ↦ [] | some e ↦ release_failed ∷ [] ])

  unfoldable pub close_connection : List Call × Bool × List Log → List Call × List Log
  close_connection (history, drop, logs) =
      closed history drop logs (throws (history ++ set_call_timeout source.call_timeout_ms ∷ []))

  -- `release`
  unfoldable pub release : List Call → Bool → List Call × List Log
  release history clear = close_connection (clear_context history clear)

  -- `mapError`
  unfoldable pub map_error : Raised → Option String → Raised
  map_error e tag = map_oracle_error decimal e source.key tag

  module _ {A : Type 0} where
    -- What is done with a connection once there is one. The setters stand before the `try`: if one
    -- throws, the callback does not run and the connection is not given back.
    unfoldable pub use_prepared :
        ConnectionOptions
        → Option (List ℕ)
        → (List Call → Ran A)
        → Option (List Call × Raised)
        → Ran A
    use_prepared options name fn (some (calls, e)) = record {
      calls = calls;
      logs = [];
      outcome = thrown e;
    }
    use_prepared options name fn none =
        let before = prepared source options name in
        let ran = fn before in
        let (calls, logs) = release (before ++ ran.calls) (is_some name) in
        record {
          calls = calls;
          logs = ran.logs ++ logs;
          outcome = map_outcome (λ e. map_error e options.tag) ran.outcome;
        }

    unfoldable pub use_connection :
        ConnectionOptions → Option (List ℕ) → (List Call → Ran A) → Ran A
    use_connection options name fn =
        use_prepared options name fn (first_failure throws [] (prepared source options name))

    abbrev refuse : AppError → Ran A
    refuse e = record { calls = []; logs = []; outcome = thrown (app_error e) }

    unfoldable pub with_resolved :
        ConnectionOptions → (List Call → Ran A) → Resolved → (acquired : Option Raised) → Ran A
    with_resolved options fn (refused e) acquired = refuse e
    with_resolved options fn resolved (some e) =
        refuse (database_connection_error source.key (some (raised_message e)))
    with_resolved options fn resolved none = use_connection options (named resolved) fn

    -- `withConnection`: `acquired` is what `getConnection` threw, if it did.
    unfoldable pub with_connection :
        (acquired : Option Raised) → ConnectionOptions → (List Call → Ran A) → Ran A
    with_connection acquired options fn =
        with_resolved options fn (resolve_context_user source options) acquired

    -- The rollback of a transaction, whose own failure is only logged.
    abbrev pub rolled : (history : List Call) → Ran A → Raised → Ran A
    rolled history ran e =
        let calls = ran.calls ++ rolled_back ∷ [] in
        record {
          calls = calls;
          logs =
              ran.logs
              ++ elim (throws (history ++ calls)) [ none ↦ [] | some r ↦ rollback_failed ∷ [] ];
          outcome = thrown e;
        }

    abbrev pub commit_with : (history : List Call) → Ran A → Option Raised → Ran A
    commit_with history after none = after
    commit_with history after (some e) = rolled history after e

    abbrev pub end_transaction : (history : List Call) → Ran A → Outcome A → Ran A
    end_transaction history ran (thrown e) = rolled history ran e
    end_transaction history ran (returned a) =
        let calls = ran.calls ++ committed ∷ [] in
        commit_with history (record ran { calls = calls }) (throws (history ++ calls))

    -- The callback that `transaction` makes of its own.
    unfoldable pub in_transaction : (List Call → Ran A) → List Call → Ran A
    in_transaction fn history = let ran = fn history in end_transaction history ran ran.outcome

    -- `transaction`
    unfoldable pub transaction :
        (acquired : Option Raised) → ConnectionOptions → (List Call → Ran A) → Ran A
    transaction acquired options fn = with_connection acquired options (in_transaction fn)

  -- `ping`
  unfoldable pub ping : (acquired : Option Raised) → (timeout_ms : ℕ) → Ran Unit
  ping acquired timeout_ms =
      let options : ConnectionOptions = record {
        context_user = none;
        username = none;
        call_timeout_ms = some timeout_ms;
        tag = some "ping";
      } in
      with_connection acquired options (λ history.
        let calls = (if source.pings_natively then pinged else used 0) ∷ [] in
        record {
          calls = calls;
          logs = [];
          outcome = elim (throws (history ++ calls)) [ none ↦ returned tt | some e ↦ thrown e ];
        })
