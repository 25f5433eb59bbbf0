-- ===== src/Storage/Tests.antt =====
-- Runs of a store, and the theorems at concrete inputs.
use polarix.Storage.Memory.{Memory, memory}
use polarix.Prelude.{
  ◌≡◌, refl, sym, false, none, some, List, [], ◌∷◌, Text, str, same, contains_byte,
}
use polarix.Storage.{
  Storage, done, empty_key, ensure_db, failed, found, global, group_store, holds, missing,
  user_store,
}
use polarix.Storage.Database.{Json, same_key}
use polarix.Storage.Map.{StoreOp, asks, clears, gets, sets, store_run}
use polarix.Storage.Promise.{IsPromised, store_run-IsPromised}
use polarix.Storage.Namespaces.{IsPlain, a_command, store_of-injective}

abbrev plain_text : Json Text
plain_text = record { marshal = λ t. some t; unmarshal = λ b. some b; read_back = λ t b e. sym e }

abbrev fresh : Storage Memory
fresh = record { db = none; db_path = []; files = λ p k. none }

abbrev user_ops : List (StoreOp Text)
user_ops =
    sets (some (user_store (str "u"))) (str "k") (str "v")
    ∷ gets (some (user_store (str "u"))) (str "k")
    ∷ asks (some (group_store (str "u"))) (str "k")
    ∷ clears (some (user_store (str "u")))
    ∷ gets (some (user_store (str "u"))) (str "k")
    ∷ gets (some global) []
    ∷ []

user_answers :
    (store_run memory plain_text fresh user_ops).1
    ≡ done ∷ found (str "v") ∷ holds false ∷ done ∷ missing ∷ failed empty_key ∷ []
unfolding store_run user_store group_store global same same_key ensure_db
user_answers = refl

store_run-IsPromised_example :
    IsPromised plain_text (λ k. none) user_ops (store_run memory plain_text fresh user_ops).1
store_run-IsPromised_example =
    store_run-IsPromised memory plain_text user_ops fresh (λ k. none) (λ k. refl)

p-IsPlain : IsPlain (a_command (str "p") (str "/a:b"))
unfolding contains_byte
p-IsPlain = refl

store_of-injective_example : a_command (str "p") (str "/a:b") ≡ a_command (str "p") (str "/a:b")
store_of-injective_example =
    store_of-injective (a_command (str "p") (str "/a:b")) (a_command (str "p") (str "/a:b"))
      p-IsPlain p-IsPlain refl
