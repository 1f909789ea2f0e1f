-- ===== src/Tests/Derived.antt =====
-- An ObjectStore that is read twice, within the lifetime of the first answer.
use cnpg_i_chronicle.Common.{
  ◌+◌, ◌≤◌, ◌≡◌, refl, ◌⊎◌, Option, none, some, List, [], ◌∷◌, Text, codes, text_eq, Result, ok,
  err, Elem,
}
use cnpg_i_chronicle.Json
use cnpg_i_chronicle.Json.{Fields, end}
use cnpg_i_chronicle.Api.{ObjectStoreConfiguration}
use cnpg_i_chronicle.Store.Resolver.{ReadError, missing, DerivedObjectStore}
use cnpg_i_chronicle.Store.Barman.{
  Cache, cached, put_entry, lookup, store, narrowed, derive_configuration, derived_of,
  read_configuration, get_configuration,
}
use cnpg_i_chronicle.Store.Barman.Fresh.{
  Stored, Reached, fresh_start, called, get_configuration-fresh,
}

program : Unit {0}
unfolding text_eq Json.lookup cached put_entry lookup store narrowed derive_configuration derived_of
    read_configuration get_configuration
program = tt

abbrev configuration : ObjectStoreConfiguration
configuration = record {
  destination_path = codes "s3://b";
  endpoint_url = [];
  endpoint_ca = none;
  s3_credentials = none;
}

abbrev encode : Fields → Option Text
encode m = some []

abbrev decode : Text → Option ObjectStoreConfiguration
decode t = some configuration

abbrev nested_map : Fields → List Text → Result Text (Option Fields)
nested_map m path = ok (some end)

abbrev nested_string : Fields → List Text → Result Text (Option Text)
nested_string m path = ok (some (codes "30d"))

abbrev name : Text × Text
name = (codes "n", codes "o")

abbrev derived : DerivedObjectStore
derived = record { configuration = configuration; retention_policy = codes "30d" }

abbrev present : Text × Text → Result ReadError Fields
present key = ok end

abbrev gone : Text × Text → Result ReadError Fields
gone key = err missing

abbrev first_cache : Cache
first_cache = (name, record { derived = derived; expires_at = 17 }) ∷ []

abbrev first_log : List Stored
first_log = record { moment = 7; key = name; derived = derived } ∷ []

first : Reached encode decode nested_map nested_string 10 first_cache first_log
unfolding program
first = called fresh_start present 5 7 name

get_configuration-fresh_example :
    (read_configuration encode decode nested_map nested_string (gone name) ≡ ok derived)
    ⊎ ((r : Stored) × Elem r first_log
        × (r.key ≡ name)
        × (r.derived ≡ derived)
        × 15 ≤ r.moment + 10)
unfolding program
get_configuration-fresh_example =
    get_configuration-fresh encode decode nested_map nested_string 10 first_cache first_cache
      first_log gone 15 16 name derived first refl
