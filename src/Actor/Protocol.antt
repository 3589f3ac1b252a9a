-- ===== src/Actor/Protocol.antt =====
-- The checkout protocol: the moves that the state of `BatchedDomainListActor` makes. The children
-- prove that every remote method makes one of them.
pub mod Guards
pub mod Moves
pub mod Departures
pub mod Steps
use freethreaded_dataplane.Common.{ℕ, ◌+◌, ◌≡◌, ◌≢◌, ◌⊎◌, true, false, Option, none, some, String}
use freethreaded_dataplane.Common.Dict.{lookup, insert, erase}
use freethreaded_dataplane.Common.Members.{member, include, discard}
use freethreaded_dataplane.Actor.State.{Actor}

module _ {D : Type 0} where
  -- Only a running actor hands out, takes back or sorts, only for registered workers, a worker has
  -- one checkout at a time, and its token is the one that the call offers. A worker that leaves a
  -- running actor holds no checkout, or the actor fails.
  pub data Move (offered : Option String) (a b : Actor D) : Type 0 where
    stay : b ≡ a → Move offered a b
    join :
        (w : String)
        → a.failure_reason ≡ none
        → member w a.registered_workers ≡ false
        → b ≡ record a {
          registered_workers = include w a.registered_workers;
          version = a.version + 1;
        }
        → Move offered a b
    lend :
        (w t : String) (d : D)
        → offered ≡ some t
        → a.failure_reason ≡ none
        → member w a.registered_workers ≡ true
        → lookup w a.checkouts ≡ none
        → b ≡ record a { domains = d; checkouts = insert w t a.checkouts; version = a.version + 1 }
        → Move offered a b
    settle :
        (w : String) (d : D)
        → a.failure_reason ≡ none
        → member w a.registered_workers ≡ true
        → b ≡ record a { domains = d; checkouts = erase w a.checkouts; version = a.version + 1 }
        → Move offered a b
    reorder :
        (d : D)
        → a.failure_reason ≡ none
        → b ≡ record a { domains = d; version = a.version + 1 }
        → Move offered a b
    break :
        (reason : String) (d : D) (v : ℕ)
        → a.failure_reason ≡ none
        → (v ≡ a.version) ⊎ (v ≡ a.version + 1)
        → b ≡ record a { domains = d; failure_reason = some reason; version = v }
        → Move offered a b
    leave :
        (w : String)
        → (a.failure_reason ≡ none → lookup w a.checkouts ≡ none)
        → b ≡ record a {
          registered_workers = discard w a.registered_workers;
          version = a.version + 1;
        }
        → Move offered a b
    abandon :
        (w reason : String)
        → a.failure_reason ≡ none
        → lookup w a.checkouts ≢ none
        → b ≡ record a {
          registered_workers = discard w a.registered_workers;
          failure_reason = some reason;
          version = a.version + 1;
        }
        → Move offered a b
    tick : b ≡ record a { version = a.version + 1 } → Move offered a b
