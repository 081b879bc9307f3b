-- ===== src/Lib.antt =====
-- The rules engine of a cooperative deck-building game: a model of the crate `game-domain`
-- (crates/game-domain/src) and what is proved of it.
--
-- The program is a server that keeps a game as a sequence of events. The domain crate executes a
-- command on the state of the game, records what it did, and on a restart applies the records again:
-- both must reach the same state. The random numbers come from the server, so a record holds them.
--
-- The parts, and the files that model them:
--   Base        shared helpers: Boolean tests and equality as an instance, list functions over the
--               native numbers, results with errors, the predicates `Ensures` (every value that a
--               result returns) and `Terminates` (a result that did not run out of fuel).
--   Effects     the data of crates/game-domain/src/effects.rs: resources, zones, entities, the
--               language of effects, outcomes, choices. `EffectRoller` is the trait of the random
--               source, whose implementations are outside the crate: it is a parameter, a pair of
--               functions on a state of the source.
--   Shuffling   crates/game-domain/src/shuffling.rs: `fisher_yates`, `shuffle`, `matches`.
--   World       `EffectWorld` of effects.rs: zones of entities, moves between them (`move_to_back`,
--               `move_card`, `set_card_order`, `shuffle_pile`), validity, locations and villains.
--               A zone without an entry is `none`. A method that fails returns an error and no
--               table: `recover_stunned_heroes`, `advance_controlled_location`, `refill_villains`
--               and `shuffle_pile` may have changed some of it by then, but their callers
--               discard the table on an error.
--   Executor    operations on the table that record outcomes (effects.rs, effects/reactions.rs,
--               effects/game_two.rs, effects/game_three.rs, effects/game_four.rs), the payment of
--               costs, and `apply_effect_outcomes`, which applies the records. `Table` is what the
--               operations take by mutable reference. Machine is `EffectExecutor` with its queue:
--               `Context` holds the fields that a run only reads, `Machine` those it writes. Rules
--               tests rules and costs. Plan has the entry points (`execute_effects_with_targets`
--               and its callers), Resume has `resume_effects`. The proofs are in Progress (what every
--               operation respects), Executions (whole runs), Resume/Branches, Costs and the files
--               named Replay.
--   Engine      crates/game-domain/src/lib.rs: the end of a turn (`perform_end_turn`,
--               `apply_end_turn_outcomes`) in EndTurn, the control of turns and phases in Control and
--               the heroes in Heroes. Control/Commands is what the decisions do to the control
--               (`resolve_choice`, `end_hero_actions`, `settle_automatic_phases`), with the
--               answers of the executor as arguments, and Control/Events what the application of
--               each event does (`apply_game_event`) with the control that it records
--               (Control/Records). Agreement, Decisions, Replays, Seats and Applying hold the
--               proofs, and Coherence joins them. The stop of an execution holds its queue, so
--               the tests that the two agree are left out.
--   Dice        the audit of House dice of crates/game-domain/src/randomness.rs.
--   Examples    tests on a small table, and each theorem at a concrete input.
--
-- Numbers are natural numbers; the bounds of `u16`, `u32`, `u64` and `i16` are written out where the
-- source adds, multiplies or converts. `ℤ` is the `i16` of an effect's amount.
--
-- Three loops run on fuel. The executor counts its steps and gives up after 4096, so its loop gets
-- one round more than the steps that are left. `refill_villains` gets one round more than the
-- villain deck has villains, for every round takes one. The draws at the end of a turn get two
-- rounds for each card of the draw piles and three for each card of the discard piles, and one
-- more: a draw takes a card out of the draw piles, and a shuffle turns at least one card over from
-- a discard pile to a draw pile. Running out is the error `out_of_fuel` of `Fault`, apart from the
-- errors of the source.
--
-- An error of an execution leaves the caller's table alone, since the source works on a copy: the
-- model returns an error and no table. The counters of outcomes and steps are compared with their
-- limits where the source compares them, and a step that fails loses the state of the random
-- source.
--
-- Not modelled: what the commands and events of lib.rs do to the table, the counters and the
-- versions (their control of turns is), the start of a game, the preparation of the piles and the
-- validation of a stored state, which build on what is here; the server (apps/server), whose
-- matters are SQL, HTTP and telemetry; the content catalogue (crates/game-content), which reads
-- JSON; and the web client (apps/web).
pub mod Base
pub mod Effects
pub mod Shuffling
pub mod World
pub mod Executor
pub mod Engine
pub mod Dice
mod Examples
