-- ===== src/Database/Oracle/Tests.antt =====
-- A borrower with a user, on a source that clears the user afterwards.
use nestjs_ddd_lean.Prelude.{
  ℕ, ◌≤◌, ◌<◌, ◌≡◌, refl, Bool, true, false, Option, none, some, ◌⊎◌, List, [], ◌∷◌, ◌++◌, String,
  All,
}
use nestjs_ddd_lean.Errors.{unauthorized_error}
use nestjs_ddd_lean.Database.Text.{
  truncate_bytes, byte_length, utf8_size, trim, is_space, truncate_bytes_longest,
}
use nestjs_ddd_lean.Database.Mapper.{Raised, app_error, driver_error, map_oracle_error}
use nestjs_ddd_lean.Database.Mapper.Laws.{
  Classed, shown, map_oracle_error_classes, map_oracle_error_twice,
}
use nestjs_ddd_lean.Database.Oracle.{
  Source, ConnectionOptions, Call, set_client_id, set_call_timeout, used, pinged, close, Ran,
  returned, thrown, resolve_context_user, clear_context, cleared, closed, close_connection, release,
  first_failure, use_prepared, committed, use_connection, with_resolved, with_connection,
  transaction, ping,
}
use nestjs_ddd_lean.Database.Oracle.Calls.{closes, is_setter}
use nestjs_ddd_lean.Database.Oracle.Session.{fresh}
use nestjs_ddd_lean.Database.Oracle.Identity.{Turn, take_turns, identity_never_leaks}
use nestjs_ddd_lean.Database.Oracle.Durable.{untouched, work}
use nestjs_ddd_lean.Database.Oracle.Committing.{setup_calls, callback_work, transaction_atomic}
use nestjs_ddd_lean.Database.Oracle.Giving.{connection_given_back, ping_refused}

abbrev decimal : ℕ → String
decimal n = "1"

abbrev source : Source
source = record {
  key = "main";
  call_timeout_ms = 1000;
  pool_ping_timeout_ms = 0;
  context_user = record { enabled = true; required = true; max_length = 3 };
  pings_natively = true;
}

abbrev options : ConnectionOptions
options = record {
  context_user = some (32 ∷ 97 ∷ 233 ∷ 98 ∷ []);
  username = none;
  call_timeout_ms = none;
  tag = none;
}

abbrev name : List ℕ
name = 97 ∷ 233 ∷ 98 ∷ []

abbrev answers : List Call → Option Raised
answers calls = none

abbrev query : List Call → Ran ℕ
query history = record { calls = used 1 ∷ []; logs = []; outcome = returned 1 }

abbrev duplicate : Raised
duplicate = driver_error (record { code = none; error_num = some 1; message = "unique constraint" })

-- The name is trimmed and cut, the call runs as that user, and the user is cleared.
borrowed :
    (with_connection decimal source answers none options query).calls
    ≡ set_call_timeout 1000
      ∷ set_client_id (97 ∷ 233 ∷ [])
      ∷ used 1
      ∷ set_client_id []
      ∷ set_call_timeout 5000
      ∷ pinged
      ∷ set_call_timeout 1000
      ∷ close false
      ∷ []
unfolding with_connection with_resolved resolve_context_user trim is_space truncate_bytes
    byte_length utf8_size use_connection use_prepared first_failure release clear_context cleared
    closed close_connection
borrowed = refl

truncate_bytes_longest_example :
    let kept = truncate_bytes name 3 in
    (byte_length kept ≤ 3)
    × ((left : List ℕ) × (name ≡ kept ++ left)
        × ((left ≡ [])
            ⊎ ((c : ℕ) × (more : List ℕ) × (left ≡ c ∷ more) × (3 < byte_length (kept ++ c ∷ [])))))
truncate_bytes_longest_example = truncate_bytes_longest name 3

map_oracle_error_classes_example :
    Classed decimal duplicate (map_oracle_error decimal duplicate "main" none)
map_oracle_error_classes_example = map_oracle_error_classes decimal duplicate "main" none

map_oracle_error_twice_example :
    let r = map_oracle_error decimal duplicate "main" none in
    shown (map_oracle_error decimal r "main" none) ≡ shown r
map_oracle_error_twice_example = map_oracle_error_twice decimal duplicate "main" none

abbrev turn : Turn ℕ
turn = record { throws = answers; acquired = none; options = options; fn = query }

identity_never_leaks_example :
    let s = take_turns decimal source (turn ∷ turn ∷ []) fresh in
    (s.local ≡ []) × All (λ id. id ≡ []) s.server
identity_never_leaks_example =
    identity_never_leaks decimal source (turn ∷ turn ∷ [])
      ((λ h. (refl, tt)), ((λ h. (refl, tt)), tt))

connection_given_back_example :
    let calls = (with_connection decimal source answers none options query).calls in
    (calls ≡ [])
    ⊎ (((before : List Call) × (drop : Bool) × (calls ≡ before ++ close drop ∷ [])
          × All (λ c. closes c ≡ false) before)
        ⊎ ((before : List Call) × (c : Call) × (e : Raised) × (calls ≡ before ++ c ∷ [])
            × (is_setter c ≡ true)
            × (answers calls ≡ some e)
            × All (λ d. closes d ≡ false) before))
connection_given_back_example =
    connection_given_back decimal source answers options query none (λ h. (refl, tt))

-- A driver whose setter of the timeout throws: the callback does not run, and nothing closes.
abbrev old_client : List Call → Option Raised
old_client calls = some duplicate

kept_connection :
    with_connection decimal source old_client none options query
    ≡ record { calls = set_call_timeout 1000 ∷ []; logs = []; outcome = thrown duplicate }
unfolding with_connection with_resolved resolve_context_user trim is_space truncate_bytes
    byte_length utf8_size use_connection use_prepared first_failure
kept_connection = refl

ping_refused_example :
    let ran = ping decimal source answers none 3000 in
    (ran.calls ≡ [])
    × (ran.outcome
        ≡ thrown (
            app_error
              (unauthorized_error ("Database source \"main\" requires a context user") none)))
ping_refused_example = ping_refused decimal source answers none 3000 refl refl

abbrev sure : List Call → Bool
sure calls = false

transaction_atomic_example :
    let ran = transaction decimal source answers none options query in
    let w = work answers sure [] ran.calls untouched in
    let before = setup_calls decimal source answers sure options query in
    let tried = (before ++ (query before).calls) ++ committed ∷ [] in
    ((a : ℕ) × (ran.outcome ≡ returned a)
      × (w.durable ≡ (callback_work decimal source answers sure options query).pending))
    ⊎ ((e : Raised) × (ran.outcome ≡ thrown e)
        × ((w.durable ≡ [])
            ⊎ (((a : ℕ) × (r : Raised) × ((query before).outcome ≡ returned a)
                  × (answers tried ≡ some r)
                  × (sure tried ≡ true))
                × (w.durable ≡ (callback_work decimal source answers sure options query).pending))))
transaction_atomic_example =
    transaction_atomic decimal source answers sure options query none (λ h. (refl, tt))
