-- ===== src/Examples/Pytest.antt =====
-- The theorems on mt_asyncio/_testutils/_pytest_plugin.py at a concrete session and collection.
use mt_asyncio.Prelude.{◌≡◌, refl, true, false, none, some, List, [], ◌∷◌, map}
use mt_asyncio.Errors.{ok, err, user}
use mt_asyncio.Reactor.{Surroundings}
use mt_asyncio.Pytest.{dict, object, coroutine_function, async_generator_function}
use mt_asyncio.Pytest.Reuse.{Invocation, fresh}
use mt_asyncio.Pytest.Groups.{
  exit, keyboard_interrupt, error, single, group, nil, cons, Members, escaping, iterate_members,
}
use mt_asyncio.Pytest.Fixtures.{Name, named}
use mt_asyncio.Pytest.Collection.{Item, collection_finish, revised, collection_finish-map}

abbrev starting : Surroundings
starting = record { existing = none; fresh = 3; driven = false; comes_up = true }

-- The first test asks for eight threads, the second for four.
abbrev first_call : Invocation
first_call = record {
  backend = dict (some 8);
  function = coroutine_function;
  around = starting;
  outcome = ok 1;
}

abbrev second_call : Invocation
second_call = record {
  backend = dict (some 4);
  function = coroutine_function;
  around = starting;
  outcome = err (user 2);
}

abbrev generator_call : Invocation
generator_call = record {
  backend = object;
  function = async_generator_function;
  around = starting;
  outcome = ok 5;
}

-- An `Exit` two groups deep, and beside a KeyboardInterrupt.
abbrev deep_exit : Members
deep_exit = cons (single (error 1)) (cons (group (cons (single exit) nil)) nil)

interrupt_stays :
    escaping (group (cons (single exit) (cons (single keyboard_interrupt) nil)))
    ≡ group (cons (single exit) (cons (single keyboard_interrupt) nil))
unfolding escaping iterate_members
interrupt_stays = refl

abbrev from_parent : Item → List Name → Item
from_parent i names = record i { fixturenames = names; names_closure = names }

abbrev marked_test : Item
marked_test = record {
  item = 1;
  is_function = true;
  is_coroutine = true;
  marked = true;
  fixturenames = named 4 ∷ [];
  names_closure = named 4 ∷ [];
}

abbrev plain_test : Item
plain_test = record marked_test { item = 2; marked = false }

abbrev collected : List Item
collected = marked_test ∷ plain_test ∷ marked_test ∷ []

collection_finish-map_example :
    (collection_finish from_parent collected ≡ map (revised from_parent) collected)
    × (collection_finish from_parent (collection_finish from_parent collected)
        ≡ collection_finish from_parent collected)
collection_finish-map_example = collection_finish-map from_parent (λ i names. refl) collected
