-- ===== src/InputActor/Protocol.antt =====
-- The checkout protocol of input splits: the moves that the state of `InputDomainListActor` makes.
-- The children prove that every remote method makes one of them.
pub mod Guards
pub mod Publication
pub mod Settlement
pub mod Moves
use freethreaded_dataplane.Common.{ℕ, ◌+◌, ◌≡◌, ◌≢◌, ◌≤◌, true, false, Option, none, some, String}
use freethreaded_dataplane.Common.Dict.{lookup, insert, erase}
use freethreaded_dataplane.Common.Members.{member, include, discard}
use freethreaded_dataplane.InputActor.State.{InputActor}

module _ {D : Type 0} where
  -- Only a running actor lends, takes in or takes back, only for registered workers, a worker has
  -- one checkout at a time, and its token is the one that the call offers. A worker that leaves a
  -- running actor holds no checkout, or the actor fails.
  pub data InputMove (offered : Option String) (a b : InputActor D) : Type 0 where
    stay : b ≡ a → InputMove offered a b
    join :
        (w : String)
        → a.failure ≡ none
        → member w a.workers ≡ false
        → b ≡ record a { workers = include w a.workers; version = a.version + 1 }
        → InputMove offered a b
    lend :
        (w t : String) (d : D)
        → offered ≡ some t
        → a.failure ≡ none
        → member w a.workers ≡ true
        → lookup w a.checkouts ≡ none
        → b ≡ record a { domains = d; checkouts = insert w t a.checkouts; version = a.version + 1 }
        → InputMove offered a b
    take_in :
        (w : String) (d : D)
        → a.failure ≡ none
        → member w a.workers ≡ true
        → lookup w a.checkouts ≡ none
        → b ≡ record a { domains = d; version = a.version + 1 }
        → InputMove offered a b
    settle :
        (w t : String) (d : D) (n : ℕ)
        → a.failure ≡ none
        → member w a.workers ≡ true
        → lookup w a.checkouts ≡ some t
        → n ≤ 1
        → b ≡ record a { domains = d; checkouts = erase w a.checkouts; version = a.version + 1 + n }
        → InputMove offered a b
    reorder :
        (d : D) (n : ℕ)
        → a.failure ≡ none
        → n ≤ 1
        → b ≡ record a { domains = d; version = a.version + n }
        → InputMove offered a b
    break :
        (reason : String) (d : D)
        → a.failure ≡ none
        → b ≡ record a { domains = d; failure = some reason; version = a.version + 1 }
        → InputMove offered a b
    leave :
        (w : String)
        → (a.failure ≡ none → lookup w a.checkouts ≡ none)
        → b ≡ record a { workers = discard w a.workers; version = a.version + 1 }
        → InputMove offered a b
    abandon :
        (w reason : String)
        → a.failure ≡ none
        → lookup w a.checkouts ≢ none
        → b ≡ record a {
          workers = discard w a.workers;
          failure = some reason;
          version = a.version + 1;
        }
        → InputMove offered a b
