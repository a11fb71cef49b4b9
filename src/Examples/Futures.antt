-- ===== src/Examples/Futures.antt =====
-- Futures: the theorems of `Futures` at concrete histories.
use mt_asyncio.Prelude.{ℕ, ◌≡◌, refl, false, some, none, List, [], ◌∷◌, arith}
use mt_asyncio.Errors.{ok, user}
use mt_asyncio.Futures.{
  World, instance_of, exception_class, cancel, result, create_future, Callback,
}
use mt_asyncio.Futures.History.{
  Op, creates, sets_result, sets_exception, cancels, adds, enters, exits, step, run,
}
use mt_asyncio.Futures.Complete.{single_winner}
use mt_asyncio.Examples.{fresh_world}

-- One future, not done.
abbrev one_future : World ℕ
one_future = run fresh_world (creates ∷ [])

-- The same future, finished with 7.
abbrev settled : World ℕ
settled = run fresh_world (creates ∷ sets_result 0 7 ∷ [])

abbrev racing : List (Op ℕ)
racing = cancels 0 none ∷ sets_exception 0 (instance_of (user 1)) ∷ adds 0 5 none 1 ∷ []

read_back : result (run settled racing) 0 ≡ ok (some 7)
unfolding run step result
read_back = refl

single_winner_example : cancel 0 none (run settled racing) ≡ (false, run settled racing)
unfolding run step
single_winner_example =
    (single_winner settled 0 racing 9 (exception_class (user 2)) none (omega arith) refl).3

abbrev callbacks : List (Op ℕ)
callbacks = adds 0 5 none 1 ∷ adds 0 6 (some 2) 1 ∷ sets_result 0 7 ∷ adds 0 8 none 3 ∷ []

abbrev after_callbacks : World ℕ
after_callbacks = run (create_future fresh_world).1 callbacks

abbrev in_order : List Callback
in_order =
    record { fn = 5; context = 1 }
    ∷ record { fn = 6; context = 2 }
    ∷ record { fn = 8; context = 3 }
    ∷ []

abbrev deferred : List (Op ℕ)
deferred = enters ∷ enters ∷ sets_result 0 7 ∷ exits ∷ exits ∷ []
